-- ===== src/Events.antt =====
-- packages/core/src/events: detection of candidate events.
pub mod Detection
