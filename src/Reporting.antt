-- ===== src/Reporting.antt =====
-- packages/core/src/reporting: what a report is made of, and its export.
pub mod ReportTable
