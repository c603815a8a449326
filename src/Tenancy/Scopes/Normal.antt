-- ===== src/Tenancy/Scopes/Normal.antt =====
-- packages/core/src/tenancy/scopes.ts: the scopes that are left after normalisation.
use mafuta.Base.{
  String, Bool, true, false, not, List, [], ◌∷◌, ◌++◌, ◌==◌, any, if◌then◌else◌, ◌≡◌, refl, All,
  All-append, arith, eq_iff, ◌||◌, Among, ◌↔◌, inl, inr, Bool-cases, subst, Among-filter,
}
use mafuta.Tenancy.Scopes.{
  legacy_scope_alias, is_legacy_scope, current_scope, has_scope, normalize_from, normalize_scopes,
  missing_scopes,
}

current_scope-legacy : (s : String) → is_legacy_scope (current_scope s) ≡ false
unfolding is_legacy_scope current_scope legacy_scope_alias
current_scope-legacy s = elim (Bool-cases (s == "alarms:read")) [
  | inl a ↦ rw (current_scope, legacy_scope_alias, a) refl
  | inr a ↦ elim (Bool-cases (s == "alarms:write")) [
    | inl b ↦ rw (current_scope, legacy_scope_alias, a, b) refl
    | inr b ↦ elim (Bool-cases (s == "sites:read")) [
      | inl c ↦ rw (current_scope, legacy_scope_alias, a, b, c) refl
      | inr c ↦ elim (Bool-cases (s == "sites:write")) [
        | inl d ↦ rw (current_scope, legacy_scope_alias, a, b, c, d) refl
        | inr d ↦
            rw (current_scope, legacy_scope_alias, a, b, c, d)
              (rw (is_legacy_scope, legacy_scope_alias, a, b, c, d) refl)
      ]
    ]
  ]
]

-- No scope occurs twice.
unfoldable pub IsDistinct : List String → Type 0
IsDistinct [] = Unit
IsDistinct (s ∷ ss) = (has_scope ss s ≡ false) × IsDistinct ss

any-append :
    (s : String) (xs ys : List String) → has_scope (xs ++ ys) s ≡ (has_scope xs s || has_scope ys s)
any-append s [] ys = refl
any-append s (x ∷ xs) ys = ground (arith, any-append s xs ys)

IsDistinct-append :
    (xs : List String) (s : String)
    → has_scope xs s ≡ false
    → IsDistinct xs
    → IsDistinct (xs ++ s ∷ [])
unfolding IsDistinct
IsDistinct-append [] s new h = (refl, tt)
IsDistinct-append (x ∷ xs) s new h = (
  ground (arith, any-append x xs (s ∷ []), eq_iff x s, eq_iff s x, new, h.0),
  IsDistinct-append xs s (ground (arith, new)) h.1,
)

-- What one more scope does to the list so far.
abbrev add : List String → String → List String
add normalized scope =
    if has_scope normalized (current_scope scope)
    then normalized
    else normalized ++ current_scope scope ∷ []

add-IsDistinct : (xs : List String) (s : String) → IsDistinct xs → IsDistinct (add xs s)
add-IsDistinct xs s h = elim (Bool-cases (has_scope xs (current_scope s))) [
  | inl known ↦ rw known h
  | inr new ↦ rw new (IsDistinct-append xs (current_scope s) new h)
]

abbrev pub IsCurrent : String → Type 0
IsCurrent s = is_legacy_scope s ≡ false

add-All : (xs : List String) (s : String) → All IsCurrent xs → All IsCurrent (add xs s)
add-All xs s h = elim (Bool-cases (has_scope xs (current_scope s))) [
  | inl known ↦ rw known h
  | inr new ↦ rw new (All-append IsCurrent xs _ h (current_scope-legacy s, tt))
]

has-add :
    (xs : List String) (s : String) (k : String)
    → has_scope (add xs s) k ≡ (has_scope xs k || (current_scope s == k))
has-add xs s k = elim (Bool-cases (has_scope xs (current_scope s))) [
  | inl known ↦ rw known (elim (Bool-cases (current_scope s == k)) [
    | inl same ↦
        let seen = subst (λ z. has_scope xs z ≡ true) ((eq_iff _ _).0 same) known in
        ground (arith, seen, same)
    | inr other ↦ ground (arith, other)
  ])
  | inr new ↦ rw new (rw (any-append k xs (current_scope s ∷ [])) (ground arith))
]

-- `scopes.some((s) => currentScope(s) === k)`
abbrev pub asks_for : List String → String → Bool
asks_for scopes k = any (λ s. current_scope s == k) scopes

normalize_from_lem :
    (xs scopes : List String)
    → IsDistinct xs
    → All IsCurrent xs
    → IsDistinct (normalize_from xs scopes) × All IsCurrent (normalize_from xs scopes)
unfolding normalize_from
normalize_from_lem xs [] d c = (d, c)
normalize_from_lem xs (s ∷ scopes) d c =
    normalize_from_lem (add xs s) scopes (add-IsDistinct xs s d) (add-All xs s c)

has-normalize_from :
    (xs scopes : List String) (k : String)
    → has_scope (normalize_from xs scopes) k ≡ (has_scope xs k || asks_for scopes k)
unfolding normalize_from
has-normalize_from xs [] k = ground arith
has-normalize_from xs (s ∷ scopes) k =
    ground (arith, has-normalize_from (add xs s) scopes k, has-add xs s k)

-- The normalised scopes hold no scope twice and no retired scope, and hold a scope exactly if it
-- is the current name of one of the given scopes.
pub normalize_scopes_lem :
    (scopes : List String)
    → IsDistinct (normalize_scopes scopes)
      × All IsCurrent (normalize_scopes scopes)
      × ((k : String) → has_scope (normalize_scopes scopes) k ≡ asks_for scopes k)
unfolding normalize_scopes IsDistinct
normalize_scopes_lem scopes =
    let (d, c) = normalize_from_lem [] scopes tt tt in (d, c, has-normalize_from [] scopes)

-- A scope is missing exactly if it is required and is the current name of no granted scope.
pub missing_scopes_iff :
    (scope : String) (granted required : List String)
    → Among scope (missing_scopes granted required)
      ↔ (Among scope required × (asks_for granted scope ≡ false))
unfolding missing_scopes
missing_scopes_iff scope granted required = ground (
  arith,
  (normalize_scopes_lem granted).2 scope,
  Among-filter (λ s. not (has_scope (normalize_scopes granted) s)) scope required,
)
