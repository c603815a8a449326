-- ===== src/Tests/Api.antt =====
-- The answers to requests, and an export.
use mafuta.Base.{String, Option, some, none, true, [], ◌∷◌, ◌≡◌, ◌↔◌, refl, Among}
use mafuta.Base.Int.{ℤ, pos}
use mafuta.Base.Ratio.{of_ℕ}
use mafuta.Base.Dict.{get, set, values}
use mafuta.Effect.{ok}
use mafuta.Errors.{tenant_isolation}
use mafuta.Reporting.ReportTable.{ReportTable, ReportCell, to_csv}
use mafuta.Reporting.ReportTable.Reader.{read_csv}
use mafuta.Reporting.ReportTable.Export.{line_texts, read_csv-to_csv}
use mafuta.Memory.ApiKeys.{ApiKeyRegistry, save, find_by_secret, touch_last_used}
use mafuta.Tenancy.ApiKey.{ApiKeyRecord, generate_api_key}
use mafuta.Tenancy.Scopes.Normal.{asks_for}
use mafuta.Api.Errors.{domain, error_response}
use mafuta.Api.Errors.Safe.{IsSafe, error_response-IsSafe}
use mafuta.Api.Auth.{
  AuthDependencies, AuthRequest, AuthState, TenantContext, resolve_tenant_context, require_scopes,
}
use mafuta.Api.Auth.Resolved.{Presents, ComesFrom, resolve_tenant_context-ok, require_scopes_iff}
use mafuta.Tests.Samples.{rt}

error_response-IsSafe_example :
    IsSafe
      (some "req-1")
      (error_response rt (domain (tenant_isolation "acme" "other" "tank.save")) (some "req-1"))
error_response-IsSafe_example =
    error_response-IsSafe rt (domain (tenant_isolation "acme" "other" "tank.save")) (some "req-1")

abbrev keep : String → String
keep text = text

abbrev at_500 : String → Option ℤ
at_500 text = some (pos 500)

abbrev door_key : ApiKeyRecord
unfolding generate_api_key
door_key =
    (generate_api_key keep "key_1" "abc" (record {
      tenant_id = "acme";
      name = "door";
      scopes = "tanks:read" ∷ [];
      created_at = "2023-11-14T22:13:20.000Z";
      expires_at = some "2024-11-14T22:13:20.000Z";
    })).generated

abbrev door_keys : ApiKeyRegistry
unfolding door_key save
door_keys = save door_key []

abbrev deps : AuthDependencies
deps = record {
  sha256 = keep;
  date_parse = at_500;
  clock = λ n. pos n;
  number_text = λ n. "n";
  now_ms = 0;
  used_at = "2023-11-14T22:13:20.000Z";
  touch_last_used = true;
  credential_status = none;
  auth_limiter = none;
}

abbrev request : AuthRequest
request = record {
  method = "GET";
  authorization = some "Bearer bearer ftk_key_1_abc";
  ip = "10.0.0.1";
  id = some "req-1";
}

abbrev keyed : AuthState
keyed = record { registry = door_keys; windows = []; tick = 0 }

abbrev door_context : TenantContext
door_context = record {
  tenant_id = "acme";
  principal_id = "key:key_1";
  api_key_id = "key_1";
  scopes = "tanks:read" ∷ [];
  request_id = some "req-1";
}

abbrev used : AuthState
unfolding touch_last_used door_keys door_key set get
used = record keyed { registry = touch_last_used "key_1" "2023-11-14T22:13:20.000Z" door_keys }

resolve_tenant_context-ok_example :
    (secret : String) × (Presents request secret)
    × ((key : ApiKeyRecord) × ComesFrom deps keyed door_context secret key)
unfolding resolve_tenant_context door_key door_keys used find_by_secret values set get
resolve_tenant_context-ok_example =
    resolve_tenant_context-ok deps request keyed used door_context refl

require_scopes_iff_example : (require_scopes ("tanks:read" ∷ []) (some door_context) ≡ ok tt) ↔ (
    (scope : String) → Among scope ("tanks:read" ∷ []) → asks_for ("tanks:read" ∷ []) scope ≡ true)
require_scopes_iff_example = require_scopes_iff ("tanks:read" ∷ []) door_context

abbrev stock_report : ReportTable
stock_report = record {
  report = "stock";
  title = "Stock";
  generated_at = "2023-11-14T22:13:20.000Z";
  range = record { from = none; to = none };
  columns =
      record { key = "tank"; label = "Tank, \"main\""; align = none }
      ∷ record { key = "litres"; label = "Litres"; align = none }
      ∷ [];
  rows = (("tank", ReportCell.text "=T1") ∷ ("litres", ReportCell.number (of_ℕ 50)) ∷ []) ∷ [];
  totals = some (("litres", ReportCell.number (of_ℕ 50)) ∷ []);
  notes = "dips" ∷ [];
}

read_csv-to_csv_example : read_csv (to_csv rt stock_report) ≡ line_texts rt stock_report
read_csv-to_csv_example = read_csv-to_csv rt stock_report tt
