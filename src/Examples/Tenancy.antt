-- ===== src/Examples/Tenancy.antt =====
-- The tenant middleware.
use forgeiq.Text.{has_prefix, contains_text, trim_space, split}
use forgeiq.Contracts.Values.{Any, str}
use forgeiq.GoMap.{GoMap, get}
use forgeiq.Tenancy.{
  TenantContext, Library, Bytes, TenancyConfig, Request, passed, forbidden, tenant_for_api_key,
  extract_task_id_from_path, tenant_from_task_id, cut, drop_text,
}
use forgeiq.Tenancy.Jwt.{verify_jwt}
use forgeiq.Tenancy.Middleware.{handle}
use forgeiq.Tenancy.Isolation.{handle-IsAuthentic, IsAuthentic}
use forgeiq.Prelude.{
  eqb, false, none, ◌&&◌, [], ◌∷◌, ◌≡◌, ◌==◌, refl, ok, ℕ, true, pos, if◌then◌else◌, Bool, String,
}

-- A library whose tokens are "h.p.s" with fixed claims and a signature that is the byte 7.
abbrev bytes_of : String → Bytes
bytes_of s = if s == "h" then 1 ∷ [] else if s == "p" then 2 ∷ [] else 7 ∷ []

abbrev starts_with_byte : ℕ → Bytes → Bool
starts_with_byte n [] = false
starts_with_byte n (x ∷ xs) = eqb x n

abbrev json_of : Bytes → GoMap Any
json_of b =
    if starts_with_byte 1 b
    then ("alg", str "HS256") ∷ []
    else ("tenant_id", str "acme") ∷ ("sub", str "ann") ∷ []

abbrev small_library : Library ℕ
small_library = record {
  to_lower = λ s. s;
  decode_base64 = λ s. ok (bytes_of s);
  unmarshal = λ b. ok (json_of b);
  hmac_sha256 = λ key text. 7 ∷ [];
  hmac_equal = λ a b. starts_with_byte 7 a && starts_with_byte 7 b;
  sha256 = λ s. [];
  pem_decode = λ s. none;
  parse_pkix = λ b. none;
  parse_pkcs1 = λ b. none;
  parse_certificate = λ b. none;
  verify_pkcs1v15 = λ k h s. false;
}

abbrev tenancy : TenancyConfig
tenancy = record {
  enabled = true;
  require_auth = true;
  api_keys = "globex:def456, acme:abc123";
  jwt_issuer = "";
  jwt_audience = "";
  jwt_tenant_claim = "";
  jwt_hs256_secret = "secret";
  jwt_rs256_public_key_pem = "";
}

abbrev status_request : Request
status_request = record {
  authorization = "";
  api_key = "abc123";
  path = "/status/tenant-acme-task-1";
}

abbrev other_tenant : Request
other_tenant = record {
  authorization = "";
  api_key = "abc123";
  path = "/result/tenant-globex-task-1";
}

abbrev token_request : Request
token_request = record {
  authorization = "bearer h.p.s";
  api_key = "";
  path = "/stop/tenant-acme-task-1";
}

handled :
    (handle small_library tenancy (pos 5) other_tenant ≡ forbidden)
    × (handle small_library tenancy (pos 5) token_request
        ≡ passed (record { tenant_id = "acme"; subject = "ann"; auth_type = "jwt" }))
unfolding handle has_prefix contains_text trim_space split get tenant_for_api_key
    extract_task_id_from_path tenant_from_task_id verify_jwt cut drop_text
handled = (refl, refl)

abbrev acme : TenantContext
acme = record { tenant_id = "acme"; subject = "api_key"; auth_type = "api_key" }

handle-IsAuthentic_example : IsAuthentic small_library tenancy (pos 5) status_request acme
unfolding handle has_prefix contains_text trim_space split get tenant_for_api_key
    extract_task_id_from_path tenant_from_task_id verify_jwt cut drop_text
handle-IsAuthentic_example =
    handle-IsAuthentic small_library tenancy (pos 5) status_request acme refl refl
