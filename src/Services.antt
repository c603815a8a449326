-- ===== src/Services.antt =====
-- packages/core/src/services: the operations that the HTTP routes call. Logging is left out.
pub mod Writes
pub mod Ledger
pub mod Devices
pub mod Events
pub mod Fleet
pub mod Dashboard
pub mod Audit
pub mod Rules
pub mod Sources
pub mod Ingest
pub mod Sweep
pub mod Calls
