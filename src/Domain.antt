-- ===== src/Domain.antt =====
-- packages/core/src/domain: the entities and the pure rules about them.
pub mod Quantity
pub mod Geometry
pub mod Tank
pub mod Reading
pub mod Station
pub mod Device
pub mod Event
pub mod Alert
pub mod Audit
pub mod Views
pub mod Delivery
pub mod Freshness
pub mod Idempotency
pub mod Normalize
