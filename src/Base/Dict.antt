-- ===== src/Base/Dict.antt =====
-- A JavaScript `Map` with text keys: `set` replaces in place or appends, and `values` lists the
-- values in the order of insertion.
use Prim.Native.String.{String}
use mathlib.Core.Path.{◌≡◌, refl, sym, ap, subst₂}
use mathlib.Core.Option.{Option, none, some}
use mathlib.Core.Logic.{inl, inr}
use mathlib.Core.List.{List, [], ◌∷◌}
use native.Mathlib.Omega.{arith}
use text.Mathlib.Text.{◌==◌}
use text.Mathlib.TextEquality.{eq_iff}
use mafuta.Base.Tests.{if◌then◌else◌, Bool-cases}
use text.Mathlib.TextPositions.{eq_refl}
use mafuta.Base.Lists.{All, Among}

abbrev pub Dict {ℓ} : Type ℓ → Type ℓ
Dict V = List (String × V)

module _ {ℓ} {V : Type ℓ} where
  unfoldable pub get : String → Dict V → Option V
  get k [] = none
  get k ((j, v) ∷ m) = if j == k then some v else get k m

  unfoldable pub set : String → V → Dict V → Dict V
  set k v [] = (k, v) ∷ []
  set k v ((j, w) ∷ m) = if j == k then (j, v) ∷ m else (j, w) ∷ set k v m

  unfoldable pub values : Dict V → List V
  values [] = []
  values ((k, v) ∷ m) = v ∷ values m

  pub get-set :
      (k j : String) (v : V) (m : Dict V) → get j (set k v m) ≡ (if k == j then some v else get j m)
  unfolding get set
  get-set k j v [] = refl
  get-set k j v ((i, w) ∷ m) = ground (arith, eq_iff k j, eq_iff i k, eq_iff i j, get-set k j v m)

unwrap-some {ℓ} : {A : Type ℓ} {a b : A} → some a ≡ some b → a ≡ b
unwrap-some e = cc

module _ {ℓ κ} {V : Type ℓ} (P : String → V → Type κ) where
  -- `P` holds of every key with its value.
  abbrev pub Entries : Dict V → Type κ
  Entries [] = Unit
  Entries ((k, v) ∷ m) = P k v × Entries m

  pub set-Entries : (k : String) (v : V) (m : Dict V) → P k v → Entries m → Entries (set k v m)
  unfolding set
  set-Entries k v [] p h = (p, tt)
  set-Entries k v ((j, w) ∷ m) p h = elim (Bool-cases (j == k)) [
    | inl same ↦ rw (same, (eq_iff j k).0 same) (p, h.1)
    | inr other ↦ rw other (h.0, set-Entries k v m p h.1)
  ]

  pub get-Entries : (k : String) (v : V) (m : Dict V) → Entries m → get k m ≡ some v → P k v
  unfolding get
  get-Entries k v [] h e = cc
  get-Entries k v ((j, w) ∷ m) h e = elim (Bool-cases (j == k)) [
    | inl same ↦ subst₂ P ((eq_iff j k).0 same) (unwrap-some (rw same at e)) h.0
    | inr other ↦ get-Entries k v m h.1 (rw other at e)
  ]

  pub values-All :
      {Q : V → Type κ} (m : Dict V)
      → ((k : String) (v : V) → P k v → Q v)
      → Entries m
      → All Q (values m)
  unfolding values
  values-All [] f h = tt
  values-All ((k, v) ∷ m) f h = (f k v h.0, values-All m f h.1)

module _ {ℓ κ} {V : Type ℓ} (P Q : String → V → Type κ) where
  pub Entries-map :
      (m : Dict V) → ((k : String) (v : V) → P k v → Q k v) → Entries P m → Entries Q m
  Entries-map [] f h = tt
  Entries-map ((k, v) ∷ m) f h = (f k v h.0, Entries-map m f h.1)

module _ {V : Type 0} where
  -- No key stands twice.
  abbrev pub HasDistinctKeys : Dict V → Type 0
  HasDistinctKeys [] = Unit
  HasDistinctKeys ((k, v) ∷ m) = (get k m ≡ none) × HasDistinctKeys m

  pub set-HasDistinctKeys :
      (k : String) (v : V) (m : Dict V) → HasDistinctKeys m → HasDistinctKeys (set k v m)
  unfolding set get
  set-HasDistinctKeys k v [] h = (refl, tt)
  set-HasDistinctKeys k v ((j, w) ∷ m) h = elim (Bool-cases (j == k)) [
    | inl same ↦ rw same h
    | inr other ↦ rw other (
      ground (arith, get-set k j v m, eq_iff k j, eq_iff j k, h.0),
      set-HasDistinctKeys k v m h.1,
    )
  ]

  pub get-Among-values : (k : String) (v : V) (m : Dict V) → get k m ≡ some v → Among v (values m)
  unfolding get values
  get-Among-values k v [] e = cc
  get-Among-values k v ((j, w) ∷ m) e = elim (Bool-cases (j == k)) [
    | inl same ↦ inl (sym (unwrap-some (rw same at e)))
    | inr other ↦ inr (get-Among-values k v m (rw other at e))
  ]

  pub Among-values-get :
      (v : V) (m : Dict V)
      → HasDistinctKeys m
      → Among v (values m)
      → (k : String) × (get k m ≡ some v)
  unfolding get values
  Among-values-get v [] h x = absurd x
  Among-values-get v ((j, w) ∷ m) h (inl here) = (j, rw (eq_refl j) (ap some (sym here)))
  Among-values-get v ((j, w) ∷ m) h (inr later) =
      let (k, found) = Among-values-get v m h.1 later in
      (
        k,
        elim (Bool-cases (j == k)) [
          | inl same ↦ cc (rw ((eq_iff j k).0 same, found) at h.0)
          | inr other ↦ rw other found
        ],
      )
