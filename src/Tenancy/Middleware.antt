-- ===== src/Tenancy/Middleware.antt =====
-- `TenantAuthMiddleware` and `authenticateTenant` of internal/middleware/tenancy.go, on the header
-- fields and the path of a request, at the time `now`.
use forgeiq.Text.{has_prefix, trim_space}
use forgeiq.Tenancy.Jwt.{verify_jwt}
use forgeiq.Tenancy.{
  passed, missing_authentication, forbidden, unauthorized, tenant_for_api_key, invalid_api_key,
  passed_unchecked, tenant_from_task_id, drop_text, Response, AuthError, extract_task_id_from_path,
  TenantContext, Request, TenancyConfig, Library,
}
use forgeiq.Prelude.{
  ok, ◌&&◌, some, none, ◌>>=◌, ◌==◌, not, false, err, if◌then◌else◌, Bool, Result, Option, ℤ,
  String,
}

module _ {Key : Type 0} (lib : Library Key) (cfg : TenancyConfig) (now : ℤ) where
  abbrev pub from_api_key : Option String → Result AuthError (Option TenantContext)
  from_api_key none = err invalid_api_key
  from_api_key (some tenant) =
      ok (some (record { tenant_id = tenant; subject = "api_key"; auth_type = "api_key" }))

  abbrev pub from_token : String → Result AuthError (Option TenantContext)
  from_token tok = do tc ← verify_jwt lib cfg now tok; ok (some tc)

  -- `ok` with `none` is the result without an error in which nothing was authenticated.
  unfoldable pub authenticate_tenant : Request → Result AuthError (Option TenantContext)
  unfolding has_prefix drop_text trim_space tenant_for_api_key verify_jwt
  authenticate_tenant r =
      if has_prefix (lib.to_lower (trim_space r.authorization)) "bearer "
      then from_token (trim_space (drop_text (trim_space r.authorization) "bearer "))
      else if trim_space r.api_key == ""
      then ok none
      else from_api_key (tenant_for_api_key cfg.api_keys (trim_space r.api_key))

  -- The tenant of the task that the path names.
  abbrev pub path_tenant : Request → Option String
  path_tenant r =
      if extract_task_id_from_path r.path == ""
      then none
      else tenant_from_task_id (extract_task_id_from_path r.path)

  abbrev pub mismatches : TenantContext → Option String → Bool
  mismatches tc none = false
  mismatches tc (some want) = not (want == tc.tenant_id)

  unfoldable pub guard_path : Request → TenantContext → Response
  unfolding extract_task_id_from_path tenant_from_task_id
  guard_path r tc =
      if not (tc.tenant_id == "") && mismatches tc (path_tenant r) then forbidden else passed tc

  abbrev no_tenant : TenantContext
  no_tenant = record { tenant_id = ""; subject = ""; auth_type = "" }

  unfoldable pub after_authentication : Request → Result AuthError (Option TenantContext) → Response
  unfolding guard_path
  after_authentication r (err e) = unauthorized e
  after_authentication r (ok none) =
      if cfg.require_auth then missing_authentication else guard_path r no_tenant
  after_authentication r (ok (some tc)) = guard_path r tc

  -- With a configuration that is not nil.
  unfoldable pub handle : Request → Response
  unfolding after_authentication authenticate_tenant
  handle r =
      if cfg.enabled then after_authentication r (authenticate_tenant r) else passed_unchecked
