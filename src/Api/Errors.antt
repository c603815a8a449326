-- ===== src/Api/Errors.antt =====
-- packages/api/src/errors.ts: the answer to a request whose handling has thrown. What is logged is not
-- part of the answer.
pub mod Safe
use mafuta.Base.{
  ℕ, String, Option, none, some, Bool, List, [], ◌∷◌, ◌==◌, if◌then◌else◌, ltb, template,
}
use mafuta.Base.Int.{pos}
use mafuta.Runtime.{Runtime}
use mafuta.Errors.{
  Error, invalid_identifier, validation, not_found, unauthorized, credentials_not_provisioned,
  forbidden, too_many_requests, conflict, tenant_isolation, other,
}

pub record ErrorBody : Type 0 where
  pub error : String
  pub message : Option String
  pub issues : Option (List (String × String))
  pub required_scopes : Option (List String)
  pub request_id : Option String

pub record ErrorResponse : Type 0 where
  pub code : ℕ
  pub headers : List (String × String)
  pub body : ErrorBody

-- What a handler may throw: an error of the domain, issues of zod, an error with a code (of the
-- framework or of a driver), and any other.
pub data Thrown : Type 0 where
  domain : Error → Thrown
  zod : (issues : List (String × String)) → Thrown
  coded : (code message : String) (status_code : Option ℕ) → Thrown
  unknown : (message : String) → Thrown

abbrev pub plain_body : String → Option String → Option String → ErrorBody
plain_body error message request_id = record {
  error = error;
  message = message;
  issues = none;
  required_scopes = none;
  request_id = request_id;
}

abbrev pub answer : ℕ → List (String × String) → ErrorBody → ErrorResponse
answer code headers body = record { code = code; headers = headers; body = body }

abbrev pub internal_error : Option String → ErrorResponse
internal_error request_id = answer 500 [] (plain_body "internal_error" none request_id)

abbrev pub not_provisioned : Option String → ErrorResponse
not_provisioned request_id = answer 503 (("WWW-Authenticate", "Bearer realm=\"fueltrack\"") ∷ []) (
    plain_body "credentials_not_provisioned" (some "This deployment has no API key provisioned")
      request_id)

abbrev validation_failed : List (String × String) → Option String → ErrorResponse
validation_failed issues request_id =
    answer 400 []
      (record (plain_body "validation_failed" (some "Request validation failed") request_id) {
        issues = some issues;
      })

abbrev required_scopes_of : List String → Option (List String)
required_scopes_of [] = none
required_scopes_of scopes = some scopes

module _ (rt : Runtime) where
  unfoldable pub domain_response : Error → Option String → ErrorResponse
  unfolding template
  domain_response (tenant_isolation expected actual operation) request_id =
      internal_error request_id
  domain_response (validation message issues) request_id = validation_failed issues request_id
  domain_response (unauthorized message) request_id =
      answer 401 (("WWW-Authenticate", "Bearer realm=\"fueltrack\"") ∷ [])
        (plain_body "unauthorized" (some "Valid API key credentials are required") request_id)
  domain_response (credentials_not_provisioned message) request_id = not_provisioned request_id
  domain_response (too_many_requests message retry_after_seconds) request_id =
      answer 429 (("Retry-After", rt.int_text (pos retry_after_seconds)) ∷ [])
        (plain_body "rate_limited" (some message) request_id)
  domain_response (forbidden message required_scopes) request_id =
      answer 403
        (("WWW-Authenticate", "Bearer realm=\"fueltrack\", error=\"insufficient_scope\"") ∷ [])
        (record (plain_body "forbidden" (some message) request_id) {
          required_scopes = required_scopes_of required_scopes;
        })
  domain_response (not_found resource resource_id) request_id =
      answer 404 []
        (plain_body "not_found" (some (template (resource ∷ " not found" ∷ []))) request_id)
  domain_response (conflict message) request_id =
      answer 409 [] (plain_body "conflict" (some message) request_id)
  domain_response (invalid_identifier identifier_name) request_id = internal_error request_id
  domain_response (other message) request_id = internal_error request_id

  abbrev pub coded_response : String → String → Option ℕ → Option String → ErrorResponse
  coded_response code message none request_id =
      if code == "FST_ERR_VALIDATION"
      then answer 400 [] (plain_body "validation_failed" (some message) none)
      else internal_error request_id
  coded_response code message (some status_code) request_id =
      if code == "FST_ERR_VALIDATION"
      then answer 400 [] (plain_body "validation_failed" (some message) none)
      else if ltb status_code 500
      then answer status_code [] (plain_body "request_rejected" (some message) none)
      else internal_error request_id

  -- The handler of `registerErrorHandler`.
  unfoldable pub error_response : Thrown → Option String → ErrorResponse
  unfolding domain_response
  error_response (domain error) request_id = domain_response error request_id
  error_response (zod issues) request_id = validation_failed issues request_id
  error_response (coded code message status_code) request_id =
      coded_response code message status_code request_id
  error_response (unknown message) request_id = internal_error request_id

-- The handler of a request that no route matches.
unfoldable pub not_found_response : Option String → ErrorResponse
not_found_response request_id =
    answer 404 [] (plain_body "not_found" (some "No route matches this request") request_id)
