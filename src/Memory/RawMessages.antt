-- ===== src/Memory/RawMessages.antt =====
-- packages/core/src/adapters/memory/memory-audit-repository.ts: retained raw payloads.
use mafuta.Base.{ℕ, String, Option, some, none, ◌&&◌, List, ◌==◌, filter, take, find}
use mafuta.Base.Dict.{get, set, values}
use mafuta.Base.Sort.{sort}
use mafuta.Runtime.{Runtime}
use mafuta.Effect.{Action, pure, gets, modify, ◌>>=◌, ◌>>◌}
use mafuta.Tenancy.Guard.{assert_owned_by_tenant}
use mafuta.Memory.{
  World, RawMessageRecord, scoped_key, clamp_limit, default_page_size, is_text, newest_first,
}

unfoldable pub put : String → RawMessageRecord → World → World
put tenant_id entity w = record w {
  store = record (w.store) {
    raw_messages = set (scoped_key tenant_id entity.id) entity w.store.raw_messages;
  };
}

unfoldable pub find_by_id : String → String → Action World (Option RawMessageRecord)
find_by_id tenant_id id = gets (λ w. get (scoped_key tenant_id id) w.store.raw_messages)

unfoldable pub find_by_hash : String → String → Action World (Option RawMessageRecord)
find_by_hash tenant_id message_hash = gets (λ w.
    find (λ r. r.tenant_id == tenant_id && r.message_hash == message_hash)
      (values w.store.raw_messages))

unfoldable pub keep_or_put :
    String → RawMessageRecord → Option RawMessageRecord → Action World RawMessageRecord
keep_or_put tenant_id entity (some kept) = pure kept
keep_or_put tenant_id entity none = modify (put tenant_id entity) >> pure entity

-- A payload that is already kept is returned instead of a second one.
unfoldable pub save : String → RawMessageRecord → Action World RawMessageRecord
save tenant_id entity = do
  assert_owned_by_tenant tenant_id entity.tenant_id "rawMessages.save"
  existing ← find_by_hash tenant_id entity.message_hash
  keep_or_put tenant_id entity existing

unfoldable pub list_by_device :
    Runtime → String → String → Option ℕ → Action World (List RawMessageRecord)
list_by_device rt tenant_id device_id limit = gets (λ w.
    take (clamp_limit limit default_page_size) (
      sort (newest_first rt (λ r. r.received_at)) (
        filter (λ r. r.tenant_id == tenant_id && is_text r.device_id device_id)
          (values w.store.raw_messages))))
