-- ===== src/Tenancy.antt =====
-- packages/core/src/tenancy: who may see what.
pub mod Guard
pub mod Scopes
pub mod RateLimit
pub mod CredentialHealth
pub mod ApiKey
