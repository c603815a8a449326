-- ===== src/Services/Calls/Inserted.antt =====
-- packages/core/src/adapters/memory/memory-reading-repository.ts: the ledger as a map from the keys of
-- each tenant to readings, in which a reading that is appended is one entry more.
use Prim.Native.String.{◌++◌}
use text.Mathlib.TextLemmas.{append_cancel_left}
use mafuta.Base.{
  String, Option, none, some, false, ◌==◌, ◌≡◌, ◌∙◌, sym, refl, subst, if◌then◌else◌, Bool-cases,
  Option-cases, inl, inr, eq_iff, eq_refl,
}
use mafuta.Base.Dict.{get, set, get-set, get-Entries}
use mafuta.Effect.{ok, modify, ensure, pure, gets, ◌>>=◌}
use mafuta.Tenancy.Guard.{assert_owned_by_tenant}
use mafuta.Domain.Reading.{TankReading}
use mafuta.Memory.{World, scoped_key}
use mafuta.Memory.Keys.{Apart, scoped_key-joined}
use mafuta.Memory.Readings.{append, put, find_by_idempotency_key}
use mafuta.Services.Calls.Keyed.{Stored, IsKeyed}

-- The reading of a tenant under an idempotency key.
abbrev pub Ledger : Type 0
Ledger = String → String → Option TankReading

abbrev pub ledger_of : World → Ledger
ledger_of w tenant_id key = elim (get (scoped_key tenant_id key) w.store.reading_idempotency) [
  | none ↦ none
  | some id ↦ get id w.store.readings
]

-- One entry more for this tenant, and the same for those whose keys never meet its own.
abbrev pub Inserts : String → TankReading → Ledger → Ledger → Type 0
Inserts t reading before after =
    ((key : String)
      → after t key ≡ (if reading.idempotency_key == key then some reading else before t key))
    × ((u key : String) → Apart t u → after u key ≡ before u key)

scoped_key-injective : (t i j : String) → scoped_key t i ≡ scoped_key t j → i ≡ j
scoped_key-injective t i j e = append_cancel_left ":" i j (
    append_cancel_left t (":" ++ i) (":" ++ j)
      (sym (scoped_key-joined t i) ∙ (e ∙ scoped_key-joined t j)))

same_key : (t i j : String) → (scoped_key t i == scoped_key t j) ≡ (i == j)
same_key t i j = elim (Bool-cases (i == j)) [
  | inl same ↦ rw ((eq_iff i j).0 same, eq_refl j) (eq_refl (scoped_key t j))
  | inr other ↦ elim (Bool-cases (scoped_key t i == scoped_key t j)) [
    | inl met ↦ cc (rw (scoped_key-injective t i j ((eq_iff _ _).0 met), eq_refl j) at other)
    | inr apart ↦ apart ∙ sym other
  ]
]

scoped_key-Apart : (t u i j : String) → Apart t u → (scoped_key t i == scoped_key u j) ≡ false
unfolding Apart
scoped_key-Apart t u i j apart = elim (Bool-cases (scoped_key t i == scoped_key u j)) [
  | inl same ↦ absurd (apart i j ((eq_iff _ _).0 same))
  | inr other ↦ other
]

module _ (t : String) (reading : TankReading) (w : World)
    (fresh : get (scoped_key t reading.id) w.store.readings ≡ none)
    (stored : Stored w.store.readings w.store.reading_idempotency) where
  -- What a key leads to is not replaced.
  kept :
      (id k : String)
      → get k w.store.reading_idempotency ≡ some id
      → get id (set (scoped_key t reading.id) reading w.store.readings) ≡ get id w.store.readings
  kept id k leads =
      let there = get-Entries (λ k id. ¬ (get id w.store.readings ≡ none)) k id _ stored leads in
      elim (Bool-cases (scoped_key t reading.id == id)) [
        | inl same ↦ absurd (there (rw ((eq_iff _ _).0 same) at fresh))
        | inr other ↦ get-set (scoped_key t reading.id) id reading w.store.readings ∙ rw other refl
      ]

  other_key :
      (u key : String)
      → (scoped_key t reading.idempotency_key == scoped_key u key) ≡ false
      → ledger_of (put t reading w) u key ≡ ledger_of w u key
  unfolding put
  other_key u key other =
      let index =
        get-set (scoped_key t reading.idempotency_key) (scoped_key u key) (scoped_key t reading.id)
          w.store.reading_idempotency in
      elim (Option-cases (get (scoped_key u key) w.store.reading_idempotency)) [
        | inl missing ↦ rw (ledger_of, index, other, missing) refl
        | inr (id, leads) ↦ rw (ledger_of, index, other, leads) (kept id (scoped_key u key) leads)
      ]

  own_key : ledger_of (put t reading w) t reading.idempotency_key ≡ some reading
  unfolding put
  own_key =
      rw
        (
          ledger_of,
          get-set (scoped_key t reading.idempotency_key) (scoped_key t reading.idempotency_key)
              (scoped_key t reading.id) w.store.reading_idempotency,
          eq_refl (scoped_key t reading.idempotency_key),
          get-set (scoped_key t reading.id) (scoped_key t reading.id) reading w.store.readings,
          eq_refl (scoped_key t reading.id),
        )
        refl

  put-Inserts : Inserts t reading (ledger_of w) (ledger_of (put t reading w))
  put-Inserts = (
    λ key. elim (Bool-cases (reading.idempotency_key == key)) [
      | inl same ↦
          subst
            (λ k.
              ledger_of (put t reading w) t k
              ≡ (if reading.idempotency_key == k then some reading else ledger_of w t k))
            ((eq_iff _ _).0 same) (rw (eq_refl reading.idempotency_key) own_key)
      | inr other ↦ rw other (other_key t key (same_key t reading.idempotency_key key ∙ other))
    ],
    λ u key apart. other_key u key (scoped_key-Apart t u reading.idempotency_key key apart),
  )

append-ok :
    (t : String) (reading given : TankReading) (w w' : World)
    → append t reading w ≡ (ok given, w')
    → (given ≡ reading) × (put t reading w ≡ w')
unfolding append assert_owned_by_tenant ensure modify pure ◌>>=◌
append-ok t reading given w w' e = elim (Bool-cases (reading.tenant_id == t)) [
  | inl mine ↦ (cc (rw (mine, append) at e), cc (rw (mine, append) at e))
  | inr other ↦ cc (rw (other, append) at e)
]

-- The ledger of readings is a map from the keys of each tenant to readings: an append that
-- returns, of a reading whose id is not in use, to a store whose entities stand under their own
-- keys, gives that reading and adds the one entry of its key to the map of its tenant, leaves the
-- maps of tenants whose keys never meet its own, and the search for a key reads the map.
pub append-Inserts :
    (t : String) (reading given : TankReading) (w w' : World)
    → IsKeyed w.store
    → get (scoped_key t reading.id) w.store.readings ≡ none
    → append t reading w ≡ (ok given, w')
    → (given ≡ reading)
      × Inserts t reading (ledger_of w) (ledger_of w')
      × ((u key : String) → find_by_idempotency_key u key w' ≡ (ok (ledger_of w' u key), w'))
unfolding IsKeyed find_by_idempotency_key gets
append-Inserts t reading given w w' keyed fresh e =
    let (same, end) = append-ok t reading given w w' e in
    let stored : Stored w.store.readings w.store.reading_idempotency = keyed.9 in
    (
      same,
      subst (λ v. Inserts t reading (ledger_of w) (ledger_of v)) end
          (put-Inserts t reading w fresh stored),
      λ u key. refl,
    )
