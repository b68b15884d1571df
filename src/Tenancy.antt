-- ===== src/Tenancy.antt =====
-- The types and the text helpers of the tenant middleware, internal/middleware/tenancy.go. The JWT is
-- in Tenancy/Jwt, the handler in Tenancy/Middleware.
pub mod Jwt
pub mod Middleware
pub mod Tokens
pub mod Claims
pub mod Paths
pub mod Isolation
use Prim.Native.Char.{Char}
use forgeiq.Contracts.Values.{Any}
use forgeiq.GoMap.{GoMap}
use forgeiq.Text.{contains_text, trim_space, split, has_prefix}
use forgeiq.Prelude.{
  ◌||◌, ◌&&◌, [], ◌∷◌, ◌==◌, ℕ, some, not, none, if◌then◌else◌, Result, Option, List, Bool, String,
}

-- `TenancyConfig` of internal/config/config.go
pub record TenancyConfig : Type 0 where
  pub enabled : Bool
  pub require_auth : Bool
  pub api_keys : String
  pub jwt_issuer : String
  pub jwt_audience : String
  pub jwt_tenant_claim : String
  pub jwt_hs256_secret : String
  pub jwt_rs256_public_key_pem : String

pub record TenantContext : Type 0 where
  pub tenant_id : String
  pub subject : String
  pub auth_type : String

abbrev pub Bytes : Type 0
Bytes = List ℕ

-- What the program takes of Go's libraries: `strings.ToLower`, base64, JSON, HMAC, SHA-256 and RSA,
-- with `Key` for an RSA public key. A parse of a key is `none` where it fails or the key is not of
-- RSA.
pub record Library (Key : Type 0) : Type 0 where
  pub to_lower : String → String
  pub decode_base64 : String → Result String Bytes
  pub unmarshal : Bytes → Result String (GoMap Any)
  pub hmac_sha256 : String → String → Bytes
  pub hmac_equal : Bytes → Bytes → Bool
  pub sha256 : String → Bytes
  pub pem_decode : String → Option Bytes
  pub parse_pkix : Bytes → Option Key
  pub parse_pkcs1 : Bytes → Option Key
  pub parse_certificate : Bytes → Option Key
  pub verify_pkcs1v15 : Key → Bytes → Bytes → Bool

pub data AuthError : Type 0 where
  invalid_api_key : AuthError
  invalid_format : AuthError
  -- the part that does not decode
  bad_base64 : String → String → AuthError
  bad_header bad_claims : String → AuthError
  secret_not_configured key_not_configured invalid_pem bad_key invalid_signature : AuthError
  unsupported_alg : String → AuthError
  issuer_mismatch audience_mismatch expired not_yet_valid missing_tenant : AuthError

-- The header fields are "" where they are not given; `path` is that of the URL.
pub record Request : Type 0 where
  pub authorization : String
  pub api_key : String
  pub path : String

-- A request is passed on with the tenant of its context, or as it is.
pub data Response : Type 0 where
  passed : TenantContext → Response
  passed_unchecked : Response
  unauthorized : AuthError → Response
  missing_authentication : Response
  forbidden : Response

-- The text `s` from the length of `p` on.
unfoldable pub drop_text : String → String → String
drop_text s String.[] = s
drop_text String.[] (String.◌∷◌ d p) = String.[]
drop_text (String.◌∷◌ c s) (String.◌∷◌ d p) = drop_text s p

-- `strings.SplitN(s, sep, 2)`; `none` where there is one part.
abbrev push_first : Char → Option (String × String) → Option (String × String)
push_first c none = none
push_first c (some (a, b)) = some (String.◌∷◌ c a, b)

unfoldable pub cut : String → String → Option (String × String)
unfolding has_prefix drop_text
cut sep String.[] = none
cut sep (String.◌∷◌ c s) =
    let rest = cut sep s in
    if has_prefix (String.◌∷◌ c s) sep
    then some (String.[], drop_text (String.◌∷◌ c s) sep)
    else push_first c rest

abbrev pub key_matches : String → String × String → Bool
key_matches key (tenant, val) =
    not (trim_space tenant == "") && not (trim_space val == "") && trim_space val == key

abbrev pub match_key : String → Option (String × String) → Option String → Option String
match_key key none rest = rest
match_key key (some kv) rest = if key_matches key kv then some (trim_space (kv.0)) else rest

unfoldable pub tenant_among : List String → String → Option String
unfolding trim_space cut
tenant_among [] key = none
tenant_among (p ∷ ps) key =
    let rest = tenant_among ps key in
    if trim_space p == "" then rest else match_key key (cut ":" (trim_space p)) rest

-- `tenantForAPIKey`
unfoldable pub tenant_for_api_key : String → String → Option String
unfolding tenant_among split
tenant_for_api_key raw key = tenant_among (split b',' raw) key

abbrev pub prefixes : List String
prefixes =
    "/status/" ∷ "/result/" ∷ "/approve/" ∷ "/feedback/" ∷ "/refine/" ∷ "/stop/" ∷ "/events/" ∷ []

abbrev pub id_or_empty : String → String
id_or_empty id = if id == "" || contains_text id "/" then "" else id

unfoldable pub extract_with : List String → String → String
unfolding has_prefix drop_text trim_space contains_text
extract_with [] path = ""
extract_with (p ∷ ps) path =
    let rest = extract_with ps path in
    if has_prefix path p then id_or_empty (trim_space (drop_text path p)) else rest

-- `extractTaskIDFromPath`
unfoldable pub extract_task_id_from_path : String → String
unfolding extract_with
extract_task_id_from_path path = extract_with prefixes path

abbrev pub tenant_part : Option (String × String) → Option String
tenant_part none = none
tenant_part (some (tenant, rest)) =
    if trim_space tenant == "" then none else some (trim_space tenant)

-- `tenantFromTaskID`
unfoldable pub tenant_from_task_id : String → Option String
unfolding has_prefix drop_text cut trim_space
tenant_from_task_id id =
    if has_prefix id "tenant-" then tenant_part (cut "-task-" (drop_text id "tenant-")) else none
