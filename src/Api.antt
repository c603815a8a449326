-- ===== src/Api.antt =====
-- packages/api/src: what stands between a request and the services.
pub mod Errors
pub mod Auth
