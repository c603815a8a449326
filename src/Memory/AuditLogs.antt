-- ===== src/Memory/AuditLogs.antt =====
-- packages/core/src/adapters/memory/memory-audit-repository.ts: the audit log.
use mafuta.Base.{ℕ, String, Option, some, none, List, ◌==◌, filter, take}
use mafuta.Base.Dict.{set, values}
use mafuta.Base.Sort.{sort}
use mafuta.Runtime.{Runtime}
use mafuta.Effect.{Action, pure, gets, modify, ◌>>=◌, ◌>>◌}
use mafuta.Tenancy.Guard.{assert_owned_by_tenant}
use mafuta.Domain.Audit.{AuditLogEntry}
use mafuta.Memory.{World, clamp_limit, default_page_size, in_window, is_text, matches, newest_first}

pub record AuditQuery : Type 0 where
  pub action : Option String
  pub resource_type : Option String
  pub from : Option String
  pub to : Option String
  pub limit : Option ℕ

unfoldable pub put_log : AuditLogEntry → World → World
unfolding set
put_log entry w = record w {
  store = record (w.store) { audit_logs = set entry.id entry w.store.audit_logs };
}

-- The guard compares the tenant of the entry with itself.
unfoldable pub guard_entry : Option String → Action World (Unit {0})
unfolding pure assert_owned_by_tenant
guard_entry none = pure tt
guard_entry (some tenant_id) = assert_owned_by_tenant tenant_id tenant_id "audit.append"

unfoldable pub append_log : AuditLogEntry → Action World AuditLogEntry
unfolding guard_entry put_log modify pure ◌>>=◌
append_log entry = do guard_entry entry.tenant_id; modify (put_log entry); pure entry

unfoldable pub list_logs : Runtime → String → AuditQuery → Action World (List AuditLogEntry)
unfolding gets values sort clamp_limit
list_logs rt tenant_id query = gets (λ w. take (clamp_limit query.limit default_page_size) (
    sort (newest_first rt (λ e. e.occurred_at)) (
      filter (λ e. in_window rt query.from query.to e.occurred_at)
        (filter (λ e. matches (λ x y. x == y) query.resource_type e.resource_type)
          (filter (λ e. matches (λ x y. x == y) query.action e.action)
            (filter (λ e. is_text e.tenant_id tenant_id) (values w.store.audit_logs)))))))
