-- ===== src/Domain/Audit.antt =====
-- packages/core/src/domain/audit.ts
use mafuta.Base.{String, Option}
use mafuta.Domain.Alert.{AlertMetrics}

pub data AuditActorType : Type 0 where
  user device system : AuditActorType

-- Texts, numbers, Booleans and null by their keys, as in the metrics of an alert.
abbrev pub AuditMetadata : Type 0
AuditMetadata = AlertMetrics

pub record AuditLogEntry : Type 0 where
  pub id : String
  pub tenant_id : Option String
  pub actor_type : AuditActorType
  pub actor_reference : Option String
  pub actor_device_id : Option String
  pub action : String
  pub resource_type : String
  pub resource_id : Option String
  pub ip_hash : Option String
  pub metadata : AuditMetadata
  pub occurred_at : String
