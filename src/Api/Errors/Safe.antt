-- ===== src/Api/Errors/Safe.antt =====
-- packages/api/src/errors.ts: what an answer does not tell.
use mafuta.Base.{
  ℕ, String, Option, none, some, true, ◌≡◌, ◌⊎◌, ◌==◌, ◌<◌, refl, arith, Bool-cases, inl, inr, ltb,
}
use mafuta.Runtime.{Runtime}
use mafuta.Errors.{
  Error, invalid_identifier, validation, not_found, unauthorized, credentials_not_provisioned,
  forbidden, too_many_requests, conflict, tenant_isolation, other,
}
use mafuta.Api.Errors.{
  ErrorResponse, Thrown, domain, zod, coded, unknown, domain_response, error_response,
  coded_response, internal_error, not_provisioned,
}

-- An answer that blames the server tells nothing of the cause.
abbrev pub IsSafe : Option String → ErrorResponse → Type 0
IsSafe request_id response =
    (response.code < 500)
    ⊎ ((response ≡ internal_error request_id) ⊎ (response ≡ not_provisioned request_id))

ltb-lt : (status : ℕ) → ltb status 500 ≡ true → status < 500
ltb-lt status h = ground arith

module _ (rt : Runtime) where
  domain_response-IsSafe :
      (error : Error) (request_id : Option String)
      → IsSafe request_id (domain_response rt error request_id)
  unfolding domain_response
  domain_response-IsSafe (tenant_isolation expected actual operation) request_id = inr (inl refl)
  domain_response-IsSafe (validation message issues) request_id = inl (omega arith)
  domain_response-IsSafe (unauthorized message) request_id = inl (omega arith)
  domain_response-IsSafe (credentials_not_provisioned message) request_id = inr (inr refl)
  domain_response-IsSafe (too_many_requests message seconds) request_id = inl (omega arith)
  domain_response-IsSafe (forbidden message scopes) request_id = inl (omega arith)
  domain_response-IsSafe (not_found resource resource_id) request_id = inl (omega arith)
  domain_response-IsSafe (conflict message) request_id = inl (omega arith)
  domain_response-IsSafe (invalid_identifier identifier_name) request_id = inr (inl refl)
  domain_response-IsSafe (other message) request_id = inr (inl refl)

  coded_response-IsSafe :
      (code message : String) (status_code : Option ℕ) (request_id : Option String)
      → IsSafe request_id (coded_response rt code message status_code request_id)
  coded_response-IsSafe code message none request_id =
      elim (Bool-cases (code == "FST_ERR_VALIDATION")) [
        | inl refused ↦ rw refused (inl (omega arith))
        | inr plain ↦ rw plain (inr (inl refl))
      ]
  coded_response-IsSafe code message (some status) request_id =
      elim (Bool-cases (code == "FST_ERR_VALIDATION")) [
        | inl refused ↦ rw refused (inl (omega arith))
        | inr plain ↦ elim (Bool-cases (ltb status 500)) [
          | inl client ↦ rw (plain, client) (inl (ltb-lt status client))
          | inr server ↦ rw (plain, server) (inr (inl refl))
        ]
      ]

  -- Whatever a handler throws, the answer has a status below 500, or it is the plain internal
  -- error, or the one that says that no key is provisioned, so that an answer that blames the
  -- server tells nothing of the cause.
  pub error_response-IsSafe :
      (thrown : Thrown) (request_id : Option String)
      → IsSafe request_id (error_response rt thrown request_id)
  unfolding error_response
  error_response-IsSafe (domain error) request_id = domain_response-IsSafe error request_id
  error_response-IsSafe (zod issues) request_id = inl (omega arith)
  error_response-IsSafe (coded code message status_code) request_id =
      coded_response-IsSafe code message status_code request_id
  error_response-IsSafe (unknown message) request_id = inr (inl refl)
