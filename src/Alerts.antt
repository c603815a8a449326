-- ===== src/Alerts.antt =====
-- packages/core/src/alerts: the alert rules, and the comparison of their drafts with open alerts.
pub mod Engine
pub mod Selection
