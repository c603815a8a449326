-- ===== src/Prisma/Audit.antt =====
-- packages/core/src/adapters/prisma/mappers.ts: the audit log and the raw messages. A payload is the
-- text of its JSON, which is not looked into.
use mafuta.Base.{String, Option, []}
use mafuta.Base.Int.{ℤ}
use mafuta.Runtime.{Runtime}
use mafuta.Domain.Reading.{SourceProtocol}
use mafuta.Domain.Audit.{AuditLogEntry, AuditMetadata, AuditActorType}
use mafuta.Memory.{RawMessageRecord}
use mafuta.Prisma.{Json, JsonFields, end, field, to_date}
use mafuta.Prisma.Alerts.{metric_of, cons_metric, fields_of, metrics_fields}

-- The loop of `toDomainAuditEntry` over the entries of an object, which has each key once.
unfoldable pub metadata_of : JsonFields → AuditMetadata
metadata_of end = []
metadata_of (field key value rest) = cons_metric key (metric_of value) (metadata_of rest)

pub record AuditRow : Type 0 where
  pub id : String
  pub tenant_id : Option String
  pub actor_type : AuditActorType
  pub actor_user_id : Option String
  pub actor_device_id : Option String
  pub action : String
  pub resource_type : String
  pub resource_id : Option String
  pub ip_hash : Option String
  pub metadata : Json
  pub occurred_at : ℤ

unfoldable pub to_domain_audit_entry : Runtime → AuditRow → AuditLogEntry
unfolding metadata_of fields_of
to_domain_audit_entry rt row = record {
  id = row.id;
  tenant_id = row.tenant_id;
  actor_type = row.actor_type;
  actor_reference = row.actor_user_id;
  actor_device_id = row.actor_device_id;
  action = row.action;
  resource_type = row.resource_type;
  resource_id = row.resource_id;
  ip_hash = row.ip_hash;
  metadata = metadata_of (fields_of rt row.metadata);
  occurred_at = rt.to_iso row.occurred_at;
}

pub record AuditInput : Type 0 where
  pub id : String
  pub tenant_id : Option String
  pub actor_type : AuditActorType
  pub actor_user_id : Option String
  pub actor_device_id : Option String
  pub action : String
  pub resource_type : String
  pub resource_id : Option String
  pub ip_hash : Option String
  pub metadata : JsonFields
  pub occurred_at : Option ℤ

unfoldable pub to_prisma_audit_input : Runtime → AuditLogEntry → AuditInput
unfolding metrics_fields
to_prisma_audit_input rt entry = record {
  id = entry.id;
  tenant_id = entry.tenant_id;
  actor_type = entry.actor_type;
  actor_user_id = entry.actor_reference;
  actor_device_id = entry.actor_device_id;
  action = entry.action;
  resource_type = entry.resource_type;
  resource_id = entry.resource_id;
  ip_hash = entry.ip_hash;
  metadata = metrics_fields entry.metadata;
  occurred_at = to_date rt entry.occurred_at;
}

pub record RawMessageRow : Type 0 where
  pub id : String
  pub tenant_id : String
  pub device_id : Option String
  pub protocol : SourceProtocol
  pub payload : String
  pub message_hash : String
  pub received_at : ℤ

unfoldable pub to_domain_raw_message : Runtime → RawMessageRow → RawMessageRecord
to_domain_raw_message rt row = record {
  id = row.id;
  tenant_id = row.tenant_id;
  device_id = row.device_id;
  protocol = row.protocol;
  payload = row.payload;
  message_hash = row.message_hash;
  received_at = rt.to_iso row.received_at;
}

pub record RawMessageInput : Type 0 where
  pub id : String
  pub tenant_id : String
  pub device_id : Option String
  pub protocol : SourceProtocol
  pub payload : String
  pub message_hash : String
  pub received_at : Option ℤ

unfoldable pub to_prisma_raw_message_input : Runtime → RawMessageRecord → RawMessageInput
to_prisma_raw_message_input rt message = record {
  id = message.id;
  tenant_id = message.tenant_id;
  device_id = message.device_id;
  protocol = message.protocol;
  payload = message.payload;
  message_hash = message.message_hash;
  received_at = to_date rt message.received_at;
}
