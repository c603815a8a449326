-- ===== src/Services/Audit/Scrubbed.antt =====
-- packages/core/src/services/audit-service.ts: what an entry of the audit log may hold.
use mafuta.Base.{
  ℕ, zero, suc, ◌+◌, ◌≤◌, String, Option, none, some, false, not, List, [], ◌∷◌, map, filter, ◌≡◌,
  refl, ap, ltb, Bool-cases, inl, inr, All, arith, eq_refl, template,
}
use mafuta.Base.Text.{text_length, text_take, append}
use mafuta.Base.Dict.{get, get-set}
use mafuta.Runtime.{Runtime}
use mafuta.Effect.{ok, pure, modify, ensure, ◌>>=◌}
use mafuta.Tenancy.Guard.{assert_owned_by_tenant}
use mafuta.Domain.Alert.{Metric, number, text, boolean, null}
use mafuta.Domain.Audit.{AuditMetadata, AuditLogEntry}
use mafuta.Memory.{World, new_id, now}
use mafuta.Memory.AuditLogs.{append_log, guard_entry, put_log}
use mafuta.Services.Audit.{
  AuditInput, is_forbidden_key, shorten_metric, scrub_metadata, audit_entry, or_null, record_audit,
}

length-append : (s t : String) → text_length (append s t) ≡ text_length s + text_length t
unfolding text_length append
length-append String.[] t = omega arith
length-append (String.◌∷◌ c s) t = omega (arith, length-append s t)

length-text_take : (n : ℕ) (s : String) → text_length (text_take n s) ≤ n
unfolding text_length text_take
length-text_take zero s = omega arith
length-text_take (suc n) String.[] = omega arith
length-text_take (suc n) (String.◌∷◌ c s) = omega (arith, length-text_take n s)

-- A text has at most 503 characters.
abbrev pub IsShort : Metric → Type 0
IsShort (text value) = text_length value ≤ 503
IsShort _ = Unit

shorten_metric-IsShort : (metric : Metric) → IsShort (shorten_metric metric)
unfolding shorten_metric text_length
shorten_metric-IsShort (text value) = elim (Bool-cases (ltb 500 (text_length value))) [
  | inl long ↦
      rw long (omega (arith, length-append (text_take 500 value) "...", length-text_take 500 value))
  | inr short ↦ rw short (ground (arith, short))
]
shorten_metric-IsShort (number value) = tt
shorten_metric-IsShort (boolean value) = tt
shorten_metric-IsShort null = tt

abbrev pub keys : AuditMetadata → List String
keys metadata = map (λ entry. entry.0) metadata

module _ (lower : String → String) where
  abbrev pub IsClean : String × Metric → Type 0
  IsClean entry = (is_forbidden_key lower entry.0 ≡ false) × IsShort entry.1

  scrub_metadata-IsClean : (metadata : AuditMetadata) → All IsClean (scrub_metadata lower metadata)
  unfolding scrub_metadata
  scrub_metadata-IsClean [] = tt
  scrub_metadata-IsClean ((key, value) ∷ metadata) =
      let rest = scrub_metadata-IsClean metadata in
      elim (Bool-cases (is_forbidden_key lower key)) [
        | inl forbidden ↦ rw forbidden rest
        | inr allowed ↦ rw allowed ((allowed, shorten_metric-IsShort value), rest)
      ]

  -- Nothing but what a forbidden key holds is dropped.
  keys-scrub_metadata :
      (metadata : AuditMetadata)
      → keys (scrub_metadata lower metadata)
        ≡ filter (λ key. not (is_forbidden_key lower key)) (keys metadata)
  unfolding scrub_metadata
  keys-scrub_metadata [] = refl
  keys-scrub_metadata ((key, value) ∷ metadata) = elim (Bool-cases (is_forbidden_key lower key)) [
    | inl forbidden ↦ rw forbidden (keys-scrub_metadata metadata)
    | inr allowed ↦ rw allowed (ap (λ rest. key ∷ rest) (keys-scrub_metadata metadata))
  ]

  guard_entry-ok : (tenant_id : Option String) (w : World) → guard_entry tenant_id w ≡ (ok tt, w)
  unfolding guard_entry assert_owned_by_tenant ensure pure
  guard_entry-ok none w = refl
  guard_entry-ok (some tenant_id) w = rw (eq_refl tenant_id) refl

  append_log-ok :
      (entry : AuditLogEntry) (w : World) → append_log entry w ≡ (ok entry, put_log entry w)
  unfolding append_log modify pure ◌>>=◌
  append_log-ok entry w = rw (guard_entry-ok entry.tenant_id w, append_log, ◌>>=◌) refl

  -- A record of an action always writes an entry of its tenant under the entry's id; no key of the
  -- entry holds a forbidden word in any case and no text has more than 503 characters, and its
  -- keys are all those of the input that hold no such word.
  pub record_audit-IsClean :
      (rt : Runtime) (input : AuditInput) (w : World)
      → (entry : AuditLogEntry) × (w' : World) × (record_audit lower rt input w
          ≡ (ok (some entry), w'))
        × (get entry.id w'.store.audit_logs ≡ some entry)
        × (entry.tenant_id ≡ input.tenant_id)
        × (All IsClean entry.metadata)
        × (keys entry.metadata
            ≡ filter (λ key. not (is_forbidden_key lower key)) (keys input.metadata))
  unfolding record_audit put_log new_id now ◌>>=◌
  record_audit-IsClean rt input w =
      let entry =
        audit_entry lower input (template ("aud" ∷ "-" ∷ rt.uuid w.uuid_draws ∷ []))
          (rt.to_iso (rt.clock w.clock_reads)) in
      let w1 = record w { clock_reads = suc w.clock_reads; uuid_draws = suc w.uuid_draws } in
      (
        entry,
        put_log entry w1,
        ap (or_null lower) (append_log-ok entry w1),
        rw (get-set entry.id entry.id entry w.store.audit_logs, eq_refl entry.id) refl,
        refl,
        scrub_metadata-IsClean input.metadata,
        keys-scrub_metadata input.metadata,
      )
