-- ===== src/Tenancy/Claims.antt =====
-- What the claims of a token say, by `verifyJWTAndExtractTenant` of internal/middleware/tenancy.go. A
-- number of a decoded token is a float64.
use forgeiq.Tenancy.Jwt.{
  text_claim, is_expired, is_early, verified_claims, jwt_audience_matches, from_string, verify_jwt,
  tenant_of, context_of, claim_int64, check_claims,
}
use forgeiq.Tenancy.{
  audience_mismatch, issuer_mismatch, expired, not_yet_valid, TenantContext, TenancyConfig, Library,
}
use forgeiq.GoMap.{GoMap, get}
use forgeiq.Contracts.Values.{Any, float, string_or_empty}
use forgeiq.Text.{trim_space}
use forgeiq.Float64.{Float64, to_int}
use forgeiq.Tenancy.Tokens.{
  verified_claims-IsVerified, IsVerified, IsAudience, bind-ok, guard-ok, or_cases,
  jwt_audience_matches-IsAudience,
}
use forgeiq.Prelude.{
  ◌||◌, then_iff, ◌>>◌, arith, subst, guard, false, eq_iff, true, refl, Ensures-ok, not,
  ne_of_==_false, ltb_ℤ, if-holds, ◌≢◌, ◌==◌, some, ok, Option, Ensures, ◌≡◌, ℤ, String, Bool-cases,
  inl, inr, ◌⊎◌,
}

module _ {Key : Type 0} (lib : Library Key) (cfg : TenancyConfig) (now : ℤ) where
  -- The issuer and the audience are those configured, if any, and `now` is before the expiry and not
  -- before the start of validity, where the token has them.
  pub record IsValid (claims : GoMap Any) : Type 0 where
    pub issuer :
        (trim_space cfg.jwt_issuer ≡ "")
        ⊎ (trim_space (string_or_empty (get claims "iss")) ≡ trim_space cfg.jwt_issuer)
    pub audience :
        (trim_space cfg.jwt_audience ≡ "")
        ⊎ IsAudience (trim_space cfg.jwt_audience) (get claims "aud")
    pub expiry : (f : Float64) → get claims "exp" ≡ some (float f) → ltb_ℤ now (to_int f) ≡ true
    pub start : (f : Float64) → get claims "nbf" ≡ some (float f) → ltb_ℤ now (to_int f) ≡ false

  is_expired-float :
      (o : Option Any) (f : Float64)
      → not (is_expired lib cfg now (claim_int64 o)) ≡ true
      → o ≡ some (float f)
      → ltb_ℤ now (to_int f) ≡ true
  unfolding claim_int64
  is_expired-float o f h e =
      let k : not (not (ltb_ℤ now (to_int f))) ≡ true =
        subst (λ x. not (is_expired lib cfg now (claim_int64 x)) ≡ true) e h in
      ground arith

  is_early-float :
      (o : Option Any) (f : Float64)
      → not (is_early lib cfg now (claim_int64 o)) ≡ true
      → o ≡ some (float f)
      → ltb_ℤ now (to_int f) ≡ false
  unfolding claim_int64
  is_early-float o f h e =
      let k : not (ltb_ℤ now (to_int f)) ≡ true =
        subst (λ x. not (is_early lib cfg now (claim_int64 x)) ≡ true) e h in
      ground arith

  check_claims-IsValid :
      (claims : GoMap Any) → check_claims lib cfg now claims ≡ ok tt → IsValid claims
  unfolding check_claims from_string
  check_claims-IsValid claims h =
      let iss = trim_space cfg.jwt_issuer in
      let aud = trim_space cfg.jwt_audience in
      let named = trim_space (string_or_empty (get claims "iss")) == iss in
      let heard = jwt_audience_matches (get claims "aud") aud in
      let fresh = not (is_expired lib cfg now (claim_int64 (get claims "exp"))) in
      let begun = not (is_early lib cfg now (claim_int64 (get claims "nbf"))) in
      let last = guard begun not_yet_valid in
      let late = guard fresh expired >> last in
      let (a, h') =
        (then_iff (guard (iss == "" || named) issuer_mismatch)
            (guard (aud == "" || heard) audience_mismatch >> late)).0
          h in
      let (b, h'') = (then_iff (guard (aud == "" || heard) audience_mismatch) late).0 h' in
      let (c, d) = (then_iff (guard fresh expired) last).0 h'' in
      record {
        issuer = elim (or_cases (iss == "") named (guard-ok _ _ a)) [
          | inl e ↦ inl ((eq_iff iss "").0 e)
          | inr e ↦ inr ((eq_iff _ iss).0 e)
        ];
        audience = elim (or_cases (aud == "") heard (guard-ok _ _ b)) [
          | inl e ↦ inl ((eq_iff aud "").0 e)
          | inr e ↦ inr (jwt_audience_matches-IsAudience aud (get claims "aud") e)
        ];
        expiry = λ f. is_expired-float (get claims "exp") f (guard-ok fresh expired c);
        start = λ f. is_early-float (get claims "nbf") f (guard-ok begun not_yet_valid d);
      }

  -- The claim with the configured name, "tenant_id" where none is configured, or else the claim "tid",
  -- holds the tenant.
  abbrev pub Names : GoMap Any → String → Type 0
  Names claims tenant =
      (key : String) × ((key ≡ "tid")
        ⊎ (((trim_space cfg.jwt_tenant_claim ≡ "") × (key ≡ "tenant_id"))
            ⊎ ((trim_space cfg.jwt_tenant_claim ≢ "") × (key ≡ trim_space cfg.jwt_tenant_claim))))
      × (trim_space (string_or_empty (get claims key)) ≡ tenant)

  tenant_of-Names : (claims : GoMap Any) → Names claims (tenant_of lib cfg claims)
  tenant_of-Names claims = elim (Bool-cases (trim_space cfg.jwt_tenant_claim == "")) [
    | inl e ↦ rw e (
        if-holds (Names claims) (text_claim lib cfg claims "tenant_id" == "") _ _
          (λ b. ("tid", inl refl, refl))
          (λ b. ("tenant_id", inr (inl ((eq_iff _ "").0 e, refl)), refl)))
    | inr e ↦ rw e (
        if-holds (Names claims) (text_claim lib cfg claims (trim_space cfg.jwt_tenant_claim) == "")
          _ _ (λ b. ("tid", inl refl, refl))
          (λ b. (trim_space cfg.jwt_tenant_claim, inr (inr (ne_of_==_false _ _ e, refl)), refl)))
  ]

  -- The token is signed, its claims are valid now, and they name the tenant.
  abbrev pub IsTokenOf : String → String → Type 0
  IsTokenOf tok tenant =
      (claims : GoMap Any) × IsVerified lib cfg tok claims × IsValid claims × Names claims tenant

  -- The tenant is named by the claims.
  abbrev IsNamedBy : GoMap Any → TenantContext → Type 0
  IsNamedBy claims tc = (tenant_of lib cfg claims ≡ tc.tenant_id) × (tc.tenant_id ≢ "")

  context_of-IsNamedBy :
      (claims : GoMap Any) → Ensures (IsNamedBy claims) (context_of lib cfg claims)
  unfolding context_of
  context_of-IsNamedBy claims = elim (Bool-cases (tenant_of lib cfg claims == "")) [
    | inl e ↦ rw e tt
    | inr e ↦ rw e (refl, ne_of_==_false _ _ e)
  ]

  pub verify_jwt-IsTokenOf :
      (tok : String) (tc : TenantContext)
      → verify_jwt lib cfg now tok ≡ ok tc
      → (tc.tenant_id ≢ "") × IsTokenOf tok tc.tenant_id
  unfolding verify_jwt
  verify_jwt-IsTokenOf tok tc h =
      let (claims, verified, h') = bind-ok (verified_claims lib cfg tok) _ tc h in
      let (u, checked, h'') = bind-ok (check_claims lib cfg now claims) _ tc h' in
      let (names, ne) = Ensures-ok (IsNamedBy claims) _ tc (context_of-IsNamedBy claims) h'' in
      (
        ne,
        (
          claims,
          Ensures-ok (IsVerified lib cfg tok) _ claims (verified_claims-IsVerified lib cfg tok)
              verified,
          check_claims-IsValid claims checked,
          subst (Names claims) names (tenant_of-Names claims),
        ),
      )
