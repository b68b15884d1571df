-- ===== src/Tenancy/Isolation.antt =====
-- Tenants see their own tasks only: what `TenantAuthMiddleware` of internal/middleware/tenancy.go passes
-- on.
use forgeiq.Tenancy.Middleware.{
  mismatches, from_api_key, path_tenant, guard_path, handle, authenticate_tenant,
  after_authentication,
}
use forgeiq.Tenancy.Jwt.{verify_jwt}
use forgeiq.Tenancy.{
  AuthError, passed, drop_text, Response, tenant_for_api_key, TenantContext, Request, match_key,
  cut, TenancyConfig, tenant_among, key_matches, Library,
}
use mathlib.Core.List.{Mem, mem-cons_self, mem-cons_of_mem}
use mathlib.Core.Option.{some-injective}
use forgeiq.Text.{trim_space, split, has_prefix}
use forgeiq.Tenancy.Claims.{IsTokenOf, verify_jwt-IsTokenOf}
use forgeiq.Prelude.{
  if-holds, false, ◌&&◌, Ensures-if, refl, not, none, eq_iff, [], Ensures, ◌==◌, subst, err, arith,
  ◌∷◌, ℤ, true, some, ok, ◌≢◌, ◌≡◌, ◌>>=◌, Result, Option, List, String, Bool-cases, inl, inr, ◌⊎◌,
}

-- The pair `tenant:key` stands in one of the texts.
abbrev IsKeyIn : List String → String → String → Type 0
IsKeyIn entries key tenant =
    (entry : String) × (kv : String × String) × Mem entry entries
    × (cut ":" (trim_space entry) ≡ some kv)
    × (trim_space kv.0 ≡ tenant)
    × (trim_space kv.1 ≡ key)

abbrev pub IsKeyOf : String → String → String → Type 0
IsKeyOf raw key tenant = IsKeyIn (split b',' raw) key tenant

key_matches_parts :
    (key : String) (kv : String × String)
    → key_matches key kv ≡ true
    → (trim_space kv.0 ≢ "") × (trim_space kv.1 ≡ key)
key_matches_parts key (t, v) h =
    (λ e. ground (arith, eq_iff (trim_space t) ""), ground (arith, eq_iff (trim_space v) key))

match_key-cases :
    (key tenant : String) (o : Option (String × String)) (rest : Option String)
    → match_key key o rest ≡ some tenant
    → (rest ≡ some tenant)
      ⊎ ((kv : String × String) × (o ≡ some kv)
          × (trim_space kv.0 ≡ tenant)
          × (tenant ≢ "")
          × (trim_space kv.1 ≡ key))
match_key-cases key tenant none rest h = inl h
match_key-cases key tenant (some kv) rest h = elim (Bool-cases (key_matches key kv)) [
  | inl e ↦
      let (named, same) = key_matches_parts key kv e in
      let is : trim_space kv.0 ≡ tenant = some-injective _ _ (rw e at h) in
      inr (kv, refl, is, subst (λ t. t ≢ "") is named, same)
  | inr e ↦ inl (rw e at h)
]

IsKeyIn-cons :
    (p : String) (ps : List String) (key tenant : String)
    → (tenant ≢ "") × IsKeyIn ps key tenant
    → (tenant ≢ "") × IsKeyIn (p ∷ ps) key tenant
IsKeyIn-cons p ps key tenant (ne, (entry, kv, m, c, is, same)) =
    (ne, (entry, kv, mem-cons_of_mem p m, c, is, same))

tenant_among-IsKeyIn :
    (key tenant : String) (ps : List String)
    → tenant_among ps key ≡ some tenant
    → (tenant ≢ "") × IsKeyIn ps key tenant
unfolding tenant_among
tenant_among-IsKeyIn key tenant [] h = absurd (cc)
tenant_among-IsKeyIn key tenant (p ∷ ps) h = elim (Bool-cases (trim_space p == "")) [
  | inl e ↦ IsKeyIn-cons p ps key tenant (tenant_among-IsKeyIn key tenant ps (rw e at h))
  | inr e ↦ elim (match_key-cases key tenant (cut ":" (trim_space p)) _ (rw e at h)) [
    | inl k ↦ IsKeyIn-cons p ps key tenant (tenant_among-IsKeyIn key tenant ps k)
    | inr (kv, c, is, ne, same) ↦ (ne, (p, kv, mem-cons_self, c, is, same))
  ]
]

module _ {Key : Type 0} (lib : Library Key) (cfg : TenancyConfig) (now : ℤ) where
  abbrev pub bearer_token : Request → String
  bearer_token r = trim_space (drop_text (trim_space r.authorization) "bearer ")

  -- The credentials of the request are those of the tenant.
  abbrev pub IsAuthentic : Request → TenantContext → Type 0
  IsAuthentic r tc =
      (tc.tenant_id ≢ "")
      × (IsTokenOf lib cfg now (bearer_token r) tc.tenant_id
          ⊎ IsKeyOf cfg.api_keys (trim_space r.api_key) tc.tenant_id)

  abbrev IsAuthenticIn : Request → Option TenantContext → Type 0
  IsAuthenticIn r none = Unit
  IsAuthenticIn r (some tc) = IsAuthentic r tc

  from_token-IsAuthentic :
      (r : Request) (a : Result AuthError TenantContext)
      → verify_jwt lib cfg now (bearer_token r) ≡ a
      → Ensures (IsAuthenticIn r) (a >>= λ tc. ok (some tc))
  from_token-IsAuthentic r (err e) h = tt
  from_token-IsAuthentic r (ok tc) h =
      let (ne, t) = verify_jwt-IsTokenOf lib cfg now (bearer_token r) tc h in (ne, inl t)

  from_api_key-IsAuthentic :
      (r : Request) (o : Option String)
      → tenant_for_api_key cfg.api_keys (trim_space r.api_key) ≡ o
      → Ensures (IsAuthenticIn r) (from_api_key lib cfg now o)
  unfolding tenant_for_api_key
  from_api_key-IsAuthentic r none h = tt
  from_api_key-IsAuthentic r (some t) h =
      let (ne, k) = tenant_among-IsKeyIn (trim_space r.api_key) t (split b',' cfg.api_keys) h in
      (ne, inr k)

  authenticate_tenant-IsAuthentic :
      (r : Request) → Ensures (IsAuthenticIn r) (authenticate_tenant lib cfg now r)
  unfolding authenticate_tenant
  authenticate_tenant-IsAuthentic r =
      Ensures-if (IsAuthenticIn r)
        (has_prefix (lib.to_lower (trim_space r.authorization)) "bearer ") _ _
        (from_token-IsAuthentic r _ refl)
        (Ensures-if (IsAuthenticIn r) (trim_space r.api_key == "") _ _ tt
          (from_api_key-IsAuthentic r _ refl))

  -- The path names no task of another tenant.
  abbrev pub Owns : Option String → TenantContext → Type 0
  Owns none tc = Unit
  Owns (some t) tc = t ≡ tc.tenant_id

  abbrev Passes : (TenantContext → Type 0) → Response → Type 0
  Passes P (passed tc) = P tc
  Passes P _ = Unit

  guard_path-Owns :
      (r : Request) (tc : TenantContext) (o : Option String)
      → (not (tc.tenant_id == "") && mismatches lib cfg now tc o) ≡ false
      → tc.tenant_id ≢ ""
      → Owns o tc
  guard_path-Owns r tc none h ne = tt
  guard_path-Owns r tc (some t) h ne = ground (arith, eq_iff tc.tenant_id "", eq_iff t tc.tenant_id)

  abbrev IsIsolated : Request → TenantContext → Type 0
  IsIsolated r tc = IsAuthentic r tc × Owns (path_tenant lib cfg now r) tc

  after_authentication-Passes :
      (r : Request) (a : Result AuthError (Option TenantContext))
      → cfg.require_auth ≡ true
      → Ensures (IsAuthenticIn r) a
      → Passes (IsIsolated r) (after_authentication lib cfg now r a)
  unfolding after_authentication guard_path
  after_authentication-Passes r (err e) q h = tt
  after_authentication-Passes r (ok none) q h = rw q tt
  after_authentication-Passes r (ok (some tc)) q h =
      elim (Bool-cases
        (not (tc.tenant_id == "") && mismatches lib cfg now tc (path_tenant lib cfg now r))) [
          | inl e ↦ rw e tt
          | inr e ↦ rw e (h, guard_path-Owns r tc _ e h.0)
        ]

  handle-Passes :
      (r : Request) (tc : TenantContext)
      → cfg.require_auth ≡ true
      → handle lib cfg now r ≡ passed tc
      → IsIsolated r tc
  unfolding handle
  handle-Passes r tc q h =
      let all : Passes (IsIsolated r) (handle lib cfg now r) =
        if-holds (Passes (IsIsolated r)) cfg.enabled _ _
          (λ e. after_authentication-Passes r _ q (authenticate_tenant-IsAuthentic r)) (λ e. tt) in
      subst (Passes (IsIsolated r)) h all

  -- When authentication is required, a request that the middleware passes on with a tenant's context,
  -- as it does unless tenancy is switched off, comes with a tenant id that is not empty and that its
  -- credentials prove. That is an API key that the
  -- configuration pairs with the tenant, or a bearer token of three parts: its signature is the HMAC
  -- of its first two parts under the configured secret or an RSA signature of their hash under the
  -- configured key, as its header says; its issuer and audience are those configured, if any; it has
  -- not expired and its validity has begun, where it says so; and its claims name the tenant.
  pub handle-IsAuthentic :
      (r : Request) (tc : TenantContext)
      → cfg.require_auth ≡ true
      → handle lib cfg now r ≡ passed tc
      → IsAuthentic r tc
  handle-IsAuthentic r tc q h = (handle-Passes r tc q h).0
