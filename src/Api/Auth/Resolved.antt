-- ===== src/Api/Auth/Resolved.antt =====
-- packages/api/src/auth.ts: what a request that is let in has shown.
use mafuta.Base.{
  String, Option, none, some, true, ◌||◌, List, [], ◌∷◌, ◌≡◌, ◌≤◌, ◌↔◌, refl, arith, ltb, nat_eq,
  Bool-cases, Option-cases, inl, inr, Among, subst,
}
use mafuta.Base.Dict.{values}
use mafuta.Base.Text.{text_length}
use mafuta.Effect.{ok, throw}
use mafuta.Effect.Ok.{bind-ok}
use mafuta.Tenancy.ApiKey.{ApiKeyRecord}
use mafuta.Tenancy.Scopes.{normalize_scopes, missing_scopes}
use mafuta.Tenancy.Scopes.Normal.{asks_for, missing_scopes_iff}
use mafuta.Memory.ApiKeys.Usable.{IsOpenedBy, find_by_secret-IsOpenedBy}
use mafuta.Api.Auth.Header.{extract_secret, strip_duplicated_bearer_prefix}
use mafuta.Api.Auth.{
  AuthDependencies, AuthRequest, AuthState, TenantContext, max_secret_length, throttle, refuse,
  reject_presented_credential, reject_unpresented_credential, accept_key, look_up, resolve_found,
  resolve_secret, resolve_extracted, resolve_tenant_context, require_scopes, refuse_missing,
  read_credential_status, is_empty_store,
}

-- The secret that the header of a request presents.
abbrev pub Presents : AuthRequest → String → Type 0
Presents request secret =
    (header : String) × (extracted : String) × (request.authorization ≡ some header)
    × (extract_secret header ≡ some extracted)
    × (strip_duplicated_bearer_prefix extracted ≡ secret)
    × (text_length secret ≤ max_secret_length)

module _ (deps : AuthDependencies) where
  refuse-err : (s s' : AuthState) (ctx : TenantContext) → refuse deps s ≡ (ok ctx, s') → ⊥
  unfolding refuse
  refuse-err s s' ctx e =
      elim (Bool-cases (is_empty_store deps (read_credential_status deps s.registry))) [
        | inl empty ↦ cc (rw (empty, refuse) at e)
        | inr other ↦ cc (rw (other, refuse) at e)
      ]

  reject-err :
      (request : AuthRequest) (s s' : AuthState) (ctx : TenantContext)
      → reject_presented_credential deps request s ≡ (ok ctx, s')
      → ⊥
  unfolding reject_presented_credential
  reject-err request s s' ctx e =
      let (u, mid, first, second) =
        bind-ok (throttle deps request.ip) (λ _. refuse deps) s s' ctx e in
      refuse-err mid s' ctx second

  -- The context is that of this key, which the secret opens.
  abbrev pub ComesFrom : AuthState → TenantContext → String → ApiKeyRecord → Type 0
  ComesFrom s ctx secret key =
      IsOpenedBy deps.sha256 deps.date_parse deps.clock secret (values s.registry) key
      × (ctx.tenant_id ≡ key.tenant_id)
      × (ctx.api_key_id ≡ key.id)
      × (ctx.scopes ≡ normalize_scopes key.scopes)

  resolve_found-ok :
      (request : AuthRequest) (found : Option ApiKeyRecord) (s s' : AuthState) (ctx : TenantContext)
      → resolve_found deps request found s ≡ (ok ctx, s')
      → (key : ApiKeyRecord) × (found ≡ some key)
        × (ctx.tenant_id ≡ key.tenant_id)
        × (ctx.api_key_id ≡ key.id)
        × (ctx.scopes ≡ normalize_scopes key.scopes)
  unfolding resolve_found accept_key
  resolve_found-ok request none s s' ctx e = absurd (reject-err request s s' ctx e)
  resolve_found-ok request (some key) s s' ctx e = (key, refl, cc, cc, cc)

  resolve_secret-ok :
      (request : AuthRequest) (secret : String) (s s' : AuthState) (ctx : TenantContext)
      → resolve_secret deps request secret s ≡ (ok ctx, s')
      → (text_length secret ≤ max_secret_length)
        × ((key : ApiKeyRecord) × ComesFrom s ctx secret key)
  unfolding resolve_secret look_up
  resolve_secret-ok request secret s s' ctx e =
      elim (Bool-cases
        (nat_eq (text_length secret) 0 || ltb max_secret_length (text_length secret))) [
          | inl malformed ↦
              absurd (reject-err request s s' ctx (rw (malformed, resolve_secret) at e))
          | inr sound ↦
              let (key, found, tenant, id, scopes) =
                resolve_found-ok request (look_up deps secret s) s s' ctx
                  (rw (sound, resolve_secret) at e) in
              (
                ground (arith, sound),
                (
                  key,
                  (
                    find_by_secret-IsOpenedBy deps.sha256 deps.date_parse deps.clock secret s.tick
                        s.registry key found,
                    tenant,
                    id,
                    scopes,
                  ),
                ),
              )
        ]

  resolve_extracted-ok :
      (request : AuthRequest) (header : String) (extracted : Option String) (s s' : AuthState)
      (ctx : TenantContext)
      → request.authorization ≡ some header
      → extract_secret header ≡ extracted
      → resolve_extracted deps request extracted s ≡ (ok ctx, s')
      → (secret : String) × (Presents request secret)
        × ((key : ApiKeyRecord) × ComesFrom s ctx secret key)
  unfolding resolve_extracted reject_unpresented_credential throw
  resolve_extracted-ok request header none s s' ctx given taken e = cc
  resolve_extracted-ok request header (some extracted) s s' ctx given taken e =
      let secret = strip_duplicated_bearer_prefix extracted in
      let (short, rest) = resolve_secret-ok request secret s s' ctx e in
      (secret, (header, extracted, given, taken, refl, short), rest)

  -- A request that is given a context has a header from which a secret of at most 256 characters
  -- is extracted, which is that of a key of the registry that can be used at a reading of the
  -- clock; the tenant, the key and the scopes of the context are those of that key.
  pub resolve_tenant_context-ok :
      (request : AuthRequest) (s s' : AuthState) (ctx : TenantContext)
      → resolve_tenant_context deps request s ≡ (ok ctx, s')
      → (secret : String) × (Presents request secret)
        × ((key : ApiKeyRecord) × ComesFrom s ctx secret key)
  unfolding resolve_tenant_context reject_unpresented_credential throw
  resolve_tenant_context-ok request s s' ctx e = elim (Option-cases request.authorization) [
    | inl missing ↦ cc (rw (missing, resolve_tenant_context) at e)
    | inr (header, given) ↦
        resolve_extracted-ok request header (extract_secret header) s s' ctx given refl
          (rw (given, resolve_tenant_context) at e)
  ]

nil_of_none : {A : Type 0} (xs : List A) → ((a : A) → Among a xs → ⊥) → xs ≡ []
nil_of_none [] h = refl
nil_of_none (x ∷ xs) h = absurd (h x (inl refl))

refuse_missing-ok : (missing : List String) → refuse_missing missing ≡ ok tt → missing ≡ []
unfolding refuse_missing
refuse_missing-ok [] e = refl
refuse_missing-ok (scope ∷ scopes) e = cc

-- A request with a context passes the guard of a route exactly if each scope that the route
-- requires is the current name of one of the context's scopes.
pub require_scopes_iff :
    (required : List String) (context : TenantContext)
    → (require_scopes required (some context) ≡ ok tt)
      ↔ ((scope : String) → Among scope required → asks_for context.scopes scope ≡ true)
unfolding require_scopes refuse_missing
require_scopes_iff required context =
    let missing = missing_scopes context.scopes required in
    (
      λ passed scope wanted. elim (Bool-cases (asks_for context.scopes scope)) [
        | inl granted ↦ granted
        | inr refused ↦
            let here : Among scope missing =
              (missing_scopes_iff scope context.scopes required).1 (wanted, refused) in
            absurd (subst (Among scope) (refuse_missing-ok missing passed) here)
      ],
      λ all.
          let none_left : missing ≡ [] = nil_of_none missing λ scope here.
            let (wanted, refused) = (missing_scopes_iff scope context.scopes required).0 here in
            (let granted = all scope wanted in cc) in
          rw (none_left, require_scopes) refl,
    )
