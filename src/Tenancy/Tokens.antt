-- ===== src/Tenancy/Tokens.antt =====
-- What a token that `verifyJWTAndExtractTenant` of internal/middleware/tenancy.go accepts proves.
use forgeiq.Tenancy.Jwt.{
  signing_input, alg_of, rs256, split_jwt, decoded, decode_parts, verify_signature, verified_claims,
  parse_rsa_public_key_pem, or_bad, first_key, jwt_audience_matches, any_text,
}
use forgeiq.Tenancy.{
  key_not_configured, invalid_signature, secret_not_configured, bad_claims, bad_header, Bytes,
  TenancyConfig, AuthError, Library,
}
use mathlib.Core.List.{Mem, mem-cons_self, mem-cons_of_mem}
use forgeiq.GoMap.{GoMap, get}
use forgeiq.Contracts.Values.{Any, str, arr, elements, string_or_empty}
use forgeiq.Text.{trim_space, split}
use forgeiq.Prelude.{
  subst, not, none, then_iff, refl, arith, [], Ensures-ok, ◌≢◌, ◌∷◌, ◌==◌, false, err, eq_iff,
  concat, Option-cases, true, ok, guard, Ensures, ◌≡◌, ◌||◌, ◌>>=◌, some, List, Result, Option,
  Bool, String, Bool-cases, inl, inr, ◌⊎◌,
}

-- What holds of a value that a result is known to hold.
Ensures-self {κ} :
    {E A : Type 0} (P : A → Type κ) (m : Result E A) → ((a : A) → m ≡ ok a → P a) → Ensures P m
Ensures-self P (ok a) h = h a refl
Ensures-self P (err e) h = tt

pub bind-ok {ℓ κ μ} :
    {E : Type ℓ} {A : Type κ} {B : Type μ} (m : Result E A) (f : A → Result E B) (b : B)
    → (m >>= f) ≡ ok b
    → (a : A) × (m ≡ ok a) × (f a ≡ ok b)
bind-ok (ok a) f b h = (a, refl, h)
bind-ok (err e) f b h = absurd (cc)

pub Ensures-bind {ℓ κ} :
    {E A : Type 0} {B : Type ℓ} (P : B → Type κ) (m : Result E A) (f : A → Result E B)
    → ((a : A) → m ≡ ok a → Ensures P (f a))
    → Ensures P (m >>= f)
Ensures-bind P (ok a) f h = h a refl
Ensures-bind P (err e) f h = tt

pub guard-ok : (b : Bool) (e : AuthError) → guard b e ≡ ok tt → b ≡ true
guard-ok true e h = refl
guard-ok false e h = absurd (cc)

pub or_cases : (a b : Bool) → (a || b) ≡ true → (a ≡ true) ⊎ (b ≡ true)
or_cases true b h = inl refl
or_cases false b h = inr h

-- The audience claim is the text that is asked for, or a list that holds it.
abbrev pub IsAudience : String → Option Any → Type 0
IsAudience want (some (str s)) = trim_space s ≡ want
IsAudience want (some (arr vs)) = (s : String) × Mem (str s) (elements vs) × (trim_space s ≡ want)
IsAudience want _ = ⊥

any_text-mem :
    (want : String) (vs : List Any)
    → any_text want vs ≡ true
    → (s : String) × Mem (str s) vs × (trim_space s ≡ want)
unfolding any_text
any_text-mem want [] h = absurd (cc)
any_text-mem want (str s ∷ vs) h = elim (or_cases (trim_space s == want) (any_text want vs) h) [
  | inl e ↦ (s, mem-cons_self, (eq_iff (trim_space s) want).0 e)
  | inr k ↦ let (t, m, e) = any_text-mem want vs k in (t, mem-cons_of_mem (str s) m, e)
]
any_text-mem want (v ∷ vs) h = let (t, m, e) = any_text-mem want vs h in (t, mem-cons_of_mem v m, e)

pub jwt_audience_matches-IsAudience :
    (want : String) (o : Option Any) → jwt_audience_matches o want ≡ true → IsAudience want o
unfolding jwt_audience_matches
jwt_audience_matches-IsAudience want (some (str s)) h = (eq_iff (trim_space s) want).0 h
jwt_audience_matches-IsAudience want (some (arr vs)) h = any_text-mem want (elements vs) h
jwt_audience_matches-IsAudience want _ h = absurd (cc)

module _ {Key : Type 0} (lib : Library Key) (cfg : TenancyConfig) where
  -- The key is in the configured PEM block, as PKIX, as PKCS 1 or in a certificate.
  abbrev pub IsRsaKey : Key → Type 0
  IsRsaKey key =
      (b : Bytes) × (lib.pem_decode (trim_space cfg.jwt_rs256_public_key_pem) ≡ some b)
      × ((lib.parse_pkix b ≡ some key)
          ⊎ ((lib.parse_pkcs1 b ≡ some key) ⊎ (lib.parse_certificate b ≡ some key)))

  -- The signature is the HMAC of the text under the configured secret, which is not blank, or an RSA
  -- signature of its hash under the configured key; no other algorithm counts.
  abbrev pub IsSigned : String → String → Bytes → Type 0
  IsSigned alg signed sig =
      ((alg ≡ "HS256")
        × (trim_space cfg.jwt_hs256_secret ≢ "")
        × (lib.hmac_equal (lib.hmac_sha256 cfg.jwt_hs256_secret signed) sig ≡ true))
      ⊎ ((alg ≡ "RS256")
          × ((key : Key) × IsRsaKey key × (lib.verify_pkcs1v15 key (lib.sha256 signed) sig ≡ true)))

  first_key-from :
      (x y z : Option Key) (key : Key)
      → first_key lib cfg (x ∷ y ∷ z ∷ []) ≡ ok key
      → (x ≡ some key) ⊎ ((y ≡ some key) ⊎ (z ≡ some key))
  first_key-from (some x) y z key h = inl (cc)
  first_key-from none (some y) z key h = inr (inl (cc))
  first_key-from none none (some z) key h = inr (inr (cc))
  first_key-from none none none key h = absurd (cc)

  parse_key-IsRsaKey :
      (key : Key)
      → parse_rsa_public_key_pem lib cfg (trim_space cfg.jwt_rs256_public_key_pem) ≡ ok key
      → IsRsaKey key
  unfolding parse_rsa_public_key_pem
  parse_key-IsRsaKey key h =
      elim (Option-cases (lib.pem_decode (trim_space cfg.jwt_rs256_public_key_pem))) [
        | inl e ↦ absurd (cc (rw (parse_rsa_public_key_pem, e) at h))
        | inr (b, e) ↦ (b, e, first_key-from _ _ _ key (rw (parse_rsa_public_key_pem, e) at h))
      ]

  verify_signature-IsSigned :
      (alg signed : String) (sig : Bytes)
      → verify_signature lib cfg alg signed sig ≡ ok tt
      → IsSigned alg signed sig
  unfolding verify_signature
  verify_signature-IsSigned alg signed sig h = elim (Bool-cases (alg == "HS256")) [
    | inl a ↦
        let filled = not (trim_space cfg.jwt_hs256_secret == "") in
        let same = lib.hmac_equal (lib.hmac_sha256 cfg.jwt_hs256_secret signed) sig in
        let (g, v) =
          (then_iff (guard filled secret_not_configured) (guard same invalid_signature)).0
            (rw a at h) in
        inl (
          (eq_iff alg "HS256").0 a,
          λ e. cc (guard-ok filled _ g, (eq_iff (trim_space cfg.jwt_hs256_secret) "").1 e),
          guard-ok same _ v,
        )
    | inr a ↦ elim (Bool-cases (alg == "RS256")) [
      | inl b ↦
          let k : rs256 lib cfg signed sig ≡ ok tt = rw (a, b) at h in
          let pem = trim_space cfg.jwt_rs256_public_key_pem in
          let holds = λ (key : Key).
            guard (lib.verify_pkcs1v15 key (lib.sha256 signed) sig) invalid_signature in
          let parse = parse_rsa_public_key_pem lib cfg pem in
          let (g, v) =
            (then_iff (guard (not (pem == "")) key_not_configured) (parse >>= holds)).0 k in
          let (key, p, q) = bind-ok parse holds tt v in
          inr ((eq_iff alg "RS256").0 b, (key, parse_key-IsRsaKey key p, guard-ok _ _ q))
      | inr b ↦ absurd (cc (rw (a, b) at h))
    ]
  ]

  -- The parts of a token, decoded.
  pub record IsSplit (tok : String) (parts : Bytes × Bytes × Bytes) : Type 0 where
    pub header_text : String
    pub payload_text : String
    pub signature_text : String
    pub three_parts : split b'.' tok ≡ header_text ∷ payload_text ∷ signature_text ∷ []
    pub header_bytes : lib.decode_base64 header_text ≡ ok parts.0
    pub payload_bytes : lib.decode_base64 payload_text ≡ ok parts.1
    pub signature_bytes : lib.decode_base64 signature_text ≡ ok parts.2

  decoded-ok :
      (part s : String) (b : Bytes) → decoded lib cfg part s ≡ ok b → lib.decode_base64 s ≡ ok b
  decoded-ok part s b h = ground arith

  decode_parts-IsSplit :
      (tok : String) (ps : List String)
      → split b'.' tok ≡ ps
      → Ensures (IsSplit tok) (decode_parts lib cfg ps)
  decode_parts-IsSplit tok (h ∷ p ∷ s ∷ []) e =
      Ensures-bind (IsSplit tok) (decoded lib cfg "header" h) _ λ hb x.
        Ensures-bind (IsSplit tok) (decoded lib cfg "payload" p) _ λ pb y.
          Ensures-bind (IsSplit tok) (decoded lib cfg "signature" s) _ λ sb z. record {
            header_text = h;
            payload_text = p;
            signature_text = s;
            three_parts = e;
            header_bytes = decoded-ok "header" h hb x;
            payload_bytes = decoded-ok "payload" p pb y;
            signature_bytes = decoded-ok "signature" s sb z;
          }
  decode_parts-IsSplit tok _ e = tt

  signing_input-split :
      (tok h p s : String)
      → split b'.' tok ≡ h ∷ p ∷ s ∷ []
      → signing_input tok ≡ concat h (concat "." p)
  signing_input-split tok h p s e = rw (signing_input, e) refl

  or_bad-ok :
      (f : String → AuthError) (r : Result String (GoMap Any)) (m : GoMap Any)
      → or_bad lib cfg f r ≡ ok m
      → r ≡ ok m
  or_bad-ok f (ok x) m h = cc
  or_bad-ok f (err e) m h = absurd (cc)

  -- The claims are those of a token whose signature over its first two parts holds.
  pub record IsVerified (tok : String) (claims : GoMap Any) : Type 0 where
    pub parts : Bytes × Bytes × Bytes
    pub split_up : IsSplit tok parts
    pub header : GoMap Any
    pub header_json : lib.unmarshal parts.0 ≡ ok header
    pub claims_json : lib.unmarshal parts.1 ≡ ok claims
    pub signed :
        IsSigned
          (trim_space (string_or_empty (get header "alg")))
          (concat split_up.header_text (concat "." split_up.payload_text))
          parts.2

  pub verified_claims-IsVerified :
      (tok : String) → Ensures (IsVerified tok) (verified_claims lib cfg tok)
  unfolding verified_claims split_jwt
  verified_claims-IsVerified tok =
      Ensures-bind (IsVerified tok) (split_jwt lib cfg tok) _ λ parts x.
        let whole = Ensures-ok (IsSplit tok) _ parts (decode_parts-IsSplit tok _ refl) x in
        Ensures-bind (IsVerified tok) (or_bad lib cfg bad_header (lib.unmarshal parts.0)) _
          λ header y.
            Ensures-bind (IsVerified tok)
              (verify_signature lib cfg (alg_of lib cfg header) (signing_input tok) parts.2) _
              λ u z.
                Ensures-self (IsVerified tok) (or_bad lib cfg bad_claims (lib.unmarshal parts.1))
                  λ claims v. record {
                    parts = parts;
                    split_up = whole;
                    header = header;
                    header_json = or_bad-ok bad_header _ header y;
                    claims_json = or_bad-ok bad_claims _ claims v;
                    signed =
                        subst (λ text. IsSigned (alg_of lib cfg header) text parts.2)
                          (signing_input-split tok _ _ _ whole.three_parts)
                          (verify_signature-IsSigned _ _ parts.2 z);
                  }
