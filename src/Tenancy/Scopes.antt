-- ===== src/Tenancy/Scopes.antt =====
-- packages/core/src/tenancy/scopes.ts
pub mod Normal
use mafuta.Base.{
  String, Option, some, none, Bool, true, false, not, List, [], ◌∷◌, ◌++◌, ◌==◌, filter, any,
  if◌then◌else◌,
}

-- `LEGACY_SCOPE_ALIASES`
unfoldable pub legacy_scope_alias : String → Option String
legacy_scope_alias scope =
    if scope == "alarms:read"
    then some "alerts:read"
    else if scope == "alarms:write"
    then some "alerts:write"
    else if scope == "sites:read"
    then some "stations:read"
    else if scope == "sites:write"
    then some "stations:write"
    else none

unfoldable pub is_legacy_scope : String → Bool
unfolding legacy_scope_alias
is_legacy_scope scope = elim (legacy_scope_alias scope) [ none ↦ false | some current ↦ true ]

unfoldable pub current_scope : String → String
unfolding legacy_scope_alias
current_scope scope = elim (legacy_scope_alias scope) [ none ↦ scope | some current ↦ current ]

abbrev pub has_scope : List String → String → Bool
has_scope scopes scope = any (λ s. s == scope) scopes

-- The loop of `normalizeScopes`; `normalized` holds what the set `seen` does.
unfoldable pub normalize_from : List String → List String → List String
unfolding current_scope
normalize_from normalized [] = normalized
normalize_from normalized (scope ∷ scopes) =
    let current = current_scope scope in
    normalize_from (if has_scope normalized current then normalized else normalized ++ current ∷ [])
      scopes

unfoldable pub normalize_scopes : List String → List String
unfolding normalize_from
normalize_scopes scopes = normalize_from [] scopes

unfoldable pub has_legacy_scopes : List String → Bool
unfolding is_legacy_scope
has_legacy_scopes scopes = any is_legacy_scope scopes

unfoldable pub missing_scopes : List String → List String → List String
missing_scopes granted required =
    filter (λ scope. not (has_scope (normalize_scopes granted) scope)) required
