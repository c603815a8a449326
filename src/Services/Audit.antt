-- ===== src/Services/Audit.antt =====
-- packages/core/src/services/audit-service.ts. `lower` is `toLowerCase`; a failure to append is logged
-- and swallowed.
pub mod Scrubbed
use mafuta.Base.{ℕ, String, Option, none, some, Bool, List, [], ◌∷◌, any, if◌then◌else◌, ltb}
use mafuta.Base.Text.{text_length, text_take, append, includes}
use mafuta.Runtime.{Runtime}
use mafuta.Effect.{Action, Result, ok, err, pure, ◌>>=◌}
use mafuta.Domain.Alert.{Metric, number, text, boolean, null}
use mafuta.Domain.Audit.{AuditActorType, AuditMetadata, AuditLogEntry}
use mafuta.Memory.{World, new_id, now}
use mafuta.Memory.AuditLogs.{AuditQuery, append_log, list_logs}

pub record AuditActor : Type 0 where
  pub type : AuditActorType
  pub reference : Option String
  pub device_id : Option String
  pub ip_hash : Option String

pub record AuditInput : Type 0 where
  pub tenant_id : Option String
  pub action : String
  pub resource_type : String
  pub resource_id : Option String
  pub actor : AuditActor
  pub metadata : AuditMetadata

abbrev pub forbidden_metadata_keys : List String
forbidden_metadata_keys =
    "secret" ∷ "password" ∷ "token" ∷ "apikey" ∷ "api_key" ∷ "authorization" ∷ []

unfoldable pub shorten_metric : Metric → Metric
unfolding text_length text_take append
shorten_metric (text value) =
    if ltb 500 (text_length value) then text (append (text_take 500 value) "...") else text value
shorten_metric (number value) = number value
shorten_metric (boolean value) = boolean value
shorten_metric null = null

module _ (lower : String → String) where
  abbrev pub is_forbidden_key : String → Bool
  is_forbidden_key key = any (λ word. includes (lower key) word) forbidden_metadata_keys

  unfoldable pub scrub_metadata : AuditMetadata → AuditMetadata
  unfolding shorten_metric
  scrub_metadata [] = []
  scrub_metadata ((key, value) ∷ metadata) =
      let rest = scrub_metadata metadata in
      if is_forbidden_key key then rest else (key, shorten_metric value) ∷ rest

  abbrev pub audit_entry : AuditInput → String → String → AuditLogEntry
  audit_entry input id occurred_at = record {
    id = id;
    tenant_id = input.tenant_id;
    actor_type = input.actor.type;
    actor_reference = input.actor.reference;
    actor_device_id = input.actor.device_id;
    action = input.action;
    resource_type = input.resource_type;
    resource_id = input.resource_id;
    ip_hash = input.actor.ip_hash;
    metadata = scrub_metadata input.metadata;
    occurred_at = occurred_at;
  }

  -- `try { return await … } catch { return null }`
  abbrev or_null : Result AuditLogEntry × World → Result (Option AuditLogEntry) × World
  or_null (ok entry, w) = (ok (some entry), w)
  or_null (err error, w) = (ok none, w)

  unfoldable pub record_audit : Runtime → AuditInput → Action World (Option AuditLogEntry)
  unfolding new_id now append_log scrub_metadata ◌>>=◌
  record_audit rt input = do
    id ← new_id rt "aud"
    at ← now rt
    λ w. or_null (append_log (audit_entry input id (rt.to_iso at)) w)

unfoldable pub list_audit_logs : Runtime → String → AuditQuery → Action World (List AuditLogEntry)
unfolding list_logs
list_audit_logs rt tenant_id query = list_logs rt tenant_id query
