-- ===== src/Tenancy/Jwt.antt =====
-- `verifyJWTAndExtractTenant` of internal/middleware/tenancy.go and what it calls. Decoded JSON holds
-- no `json.Number`.
use forgeiq.Contracts.Values.{Any, elements, int, arr, str, float, string_or_empty}
use forgeiq.GoMap.{GoMap, get}
use forgeiq.Text.{trim_space, split}
use forgeiq.Tenancy.{
  not_yet_valid, expired, invalid_signature, invalid_pem, audience_mismatch, secret_not_configured,
  key_not_configured, issuer_mismatch, invalid_format, bad_claims, unsupported_alg, missing_tenant,
  bad_key, bad_header, bad_base64, TenantContext, Bytes, AuthError, TenancyConfig, Library,
}
use forgeiq.Float64.{to_int}
use forgeiq.Prelude.{
  none, concat, [], ◌∷◌, ◌||◌, not, ltb_ℤ, guard, false, ◌>>◌, ◌>>=◌, ◌==◌, some, ok, err, Bool, ℤ,
  if◌then◌else◌, Result, Option, List, String,
}

unfoldable pub from_string : String → Option Any → Bool
unfolding trim_space
from_string want v = trim_space (string_or_empty v) == want

unfoldable pub any_text : String → List Any → Bool
unfolding trim_space
any_text want [] = false
any_text want (str s ∷ vs) = trim_space s == want || any_text want vs
any_text want (_ ∷ vs) = any_text want vs

-- `jwtAudienceMatches`
unfoldable pub jwt_audience_matches : Option Any → String → Bool
unfolding any_text trim_space
jwt_audience_matches (some (str s)) want = trim_space s == want
jwt_audience_matches (some (arr vs)) want = any_text want (elements vs)
jwt_audience_matches _ want = false

-- `claimInt64`
unfoldable pub claim_int64 : Option Any → Option ℤ
unfolding to_int
claim_int64 (some (float f)) = some (to_int f)
claim_int64 (some (int n)) = some n
claim_int64 _ = none

-- `jwtSigningInput`
abbrev pub signing_input : String → String
signing_input tok = elim (split b'.' tok) [ a ∷ b ∷ c ∷ [] ↦ concat a (concat "." b) | _ ↦ tok ]

module _ {Key : Type 0} (lib : Library Key) (cfg : TenancyConfig) where
  abbrev pub decoded : String → String → Result AuthError Bytes
  decoded part s = elim (lib.decode_base64 s) [ ok b ↦ ok b | err e ↦ err (bad_base64 part e) ]

  abbrev pub decode_parts : List String → Result AuthError (Bytes × Bytes × Bytes)
  decode_parts (h ∷ p ∷ s ∷ []) = do
    hb ← decoded "header" h
    pb ← decoded "payload" p
    sb ← decoded "signature" s
    ok (hb, pb, sb)
  decode_parts _ = err invalid_format

  -- `splitJWT`
  unfoldable pub split_jwt : String → Result AuthError (Bytes × Bytes × Bytes)
  unfolding split
  split_jwt tok = decode_parts (split b'.' tok)

  abbrev pub first_key : List (Option Key) → Result AuthError Key
  first_key [] = err bad_key
  first_key (some k ∷ rest) = ok k
  first_key (none ∷ rest) = first_key rest

  -- `parseRSAPublicKeyPEM`
  unfoldable pub parse_rsa_public_key_pem : String → Result AuthError Key
  parse_rsa_public_key_pem s = elim (lib.pem_decode s) [
    | none ↦ err invalid_pem
    | some b ↦ first_key (lib.parse_pkix b ∷ lib.parse_pkcs1 b ∷ lib.parse_certificate b ∷ [])
  ]

  abbrev pub rs256 : String → Bytes → Result AuthError (Unit {0})
  rs256 signed sig = do
    guard (not (trim_space cfg.jwt_rs256_public_key_pem == "")) key_not_configured
    key ← parse_rsa_public_key_pem (trim_space cfg.jwt_rs256_public_key_pem)
    guard (lib.verify_pkcs1v15 key (lib.sha256 signed) sig) invalid_signature

  abbrev pub hs256 : String → Bytes → Result AuthError (Unit {0})
  hs256 signed sig = do
    guard (not (trim_space cfg.jwt_hs256_secret == "")) secret_not_configured
    guard (lib.hmac_equal (lib.hmac_sha256 cfg.jwt_hs256_secret signed) sig) invalid_signature

  -- The `switch` on the algorithm.
  unfoldable pub verify_signature : String → String → Bytes → Result AuthError (Unit {0})
  unfolding trim_space parse_rsa_public_key_pem
  verify_signature alg signed sig =
      if alg == "HS256"
      then hs256 signed sig
      else if alg == "RS256"
      then rs256 signed sig
      else err (unsupported_alg alg)

  abbrev pub or_bad :
      (String → AuthError) → Result String (GoMap Any) → Result AuthError (GoMap Any)
  or_bad f (ok m) = ok m
  or_bad f (err e) = err (f e)

  abbrev pub alg_of : GoMap Any → String
  alg_of header = trim_space (string_or_empty (get header "alg"))

  abbrev pub is_expired : ℤ → Option ℤ → Bool
  is_expired now none = false
  is_expired now (some exp) = not (ltb_ℤ now exp)

  abbrev pub is_early : ℤ → Option ℤ → Bool
  is_early now none = false
  is_early now (some nbf) = ltb_ℤ now nbf

  -- The checks of the claims `iss`, `aud`, `exp` and `nbf` at the time `now`.
  unfoldable pub check_claims : ℤ → GoMap Any → Result AuthError (Unit {0})
  unfolding from_string jwt_audience_matches claim_int64 get trim_space
  check_claims now claims = do
    guard
        (trim_space cfg.jwt_issuer == ""
          || from_string (trim_space cfg.jwt_issuer) (get claims "iss"))
        issuer_mismatch
    guard
        (trim_space cfg.jwt_audience == ""
          || jwt_audience_matches (get claims "aud") (trim_space cfg.jwt_audience))
        audience_mismatch
    guard (not (is_expired now (claim_int64 (get claims "exp")))) expired
    guard (not (is_early now (claim_int64 (get claims "nbf")))) not_yet_valid

  abbrev pub text_claim : GoMap Any → String → String
  text_claim claims key = trim_space (string_or_empty (get claims key))

  abbrev pub tenant_claim : String
  tenant_claim =
      if trim_space cfg.jwt_tenant_claim == "" then "tenant_id" else trim_space cfg.jwt_tenant_claim

  abbrev pub tenant_of : GoMap Any → String
  tenant_of claims =
      if text_claim claims tenant_claim == ""
      then text_claim claims "tid"
      else text_claim claims tenant_claim

  unfoldable pub context_of : GoMap Any → Result AuthError TenantContext
  unfolding get trim_space
  context_of claims =
      if tenant_of claims == ""
      then err missing_tenant
      else ok (record {
        tenant_id = tenant_of claims;
        subject = text_claim claims "sub";
        auth_type = "jwt";
      })

  -- What the token says, once its signature holds.
  unfoldable pub verified_claims : String → Result AuthError (GoMap Any)
  unfolding split_jwt verify_signature get trim_space
  verified_claims tok = do
    parts ← split_jwt tok
    header ← or_bad bad_header (lib.unmarshal parts.0)
    u ← verify_signature (alg_of header) (signing_input tok) parts.2
    or_bad bad_claims (lib.unmarshal parts.1)

  -- `verifyJWTAndExtractTenant`
  unfoldable pub verify_jwt : ℤ → String → Result AuthError TenantContext
  unfolding verified_claims check_claims context_of
  verify_jwt now tok = do
    claims ← verified_claims tok
    u ← check_claims now claims
    context_of claims
