-- ===== src/Config/Secrets.antt =====
-- The checks of the secrets that enabled providers need: src/config/provider-api-key.validation.ts,
-- src/config/provider-base-url.validation.ts and assertEnabledProviderSecretsPresent of
-- src/config/configuration-validation.service.ts. `is_http_url` says whether `new URL` reads a text and
-- finds the protocol http: or https:.
use ai_provider_gateway.Prelude.{
  Bool, true, false, not, ◌&&◌, Option, none, some, String, List, [], ◌∷◌, ◌++◌, or_else, ◌==◌,
  if◌then◌else◌,
}
use ai_provider_gateway.Prelude.Texts.{Text, units, trim, is_empty}
use ai_provider_gateway.Errors.{Settled, returned, threw, ◌>>◌}
use ai_provider_gateway.Errors
use ai_provider_gateway.Providers.Registry.{
  ProviderType, anthropic, google, openai, openai_compatible, ProviderRow,
}
use ai_provider_gateway.Config.Rows.{Entries}

-- `process.env`
abbrev pub Env : Type 0
Env = String → Option Text

unfoldable pub is_open_ai_provider_type : ProviderType → Bool
is_open_ai_provider_type anthropic = false
is_open_ai_provider_type google = false
is_open_ai_provider_type openai = true
is_open_ai_provider_type openai_compatible = true

unfoldable pub is_api_key_required_for_provider_type : ProviderType → Bool
unfolding is_open_ai_provider_type
is_api_key_required_for_provider_type t = not (is_open_ai_provider_type t)

-- `(env[name] ?? '').trim()`
abbrev pub env_value : Env → String → Text
env_value env name = trim (or_else (env name) [])

abbrev lacks_api_key : Env → ProviderRow → Bool
unfolding is_api_key_required_for_provider_type
lacks_api_key env row =
    row.enabled
    && is_api_key_required_for_provider_type row.provider_type
    && is_empty (env_value env row.api_key_ref)

-- The instances that lack one, with the names of their variables.
unfoldable pub collect_missing_enabled_provider_api_key_errors :
    Entries ProviderRow → Env → List (String × String)
unfolding is_api_key_required_for_provider_type
collect_missing_enabled_provider_api_key_errors [] env = []
collect_missing_enabled_provider_api_key_errors ((id, row) ∷ rows) env =
    let rest = collect_missing_enabled_provider_api_key_errors rows env in
    if lacks_api_key env row then (id, row.api_key_ref) ∷ rest else rest

unfoldable pub format_missing_provider_api_key_error : String × String → Text
format_missing_provider_api_key_error (id, ref) =
    units "[GatewayConfig] Missing API key for enabled provider instance \""
    ++ (units id ++ (units "\" (expected non-empty env " ++ (units ref ++ units ")")))

abbrev throw_first : (String × String → Text) → List (String × String) → Settled (Unit {0})
throw_first format [] = returned tt
throw_first format (entry ∷ missing) = threw (Errors.error (format entry))

unfoldable pub assert_enabled_provider_api_keys_present :
    Entries ProviderRow → Env → Settled (Unit {0})
unfolding collect_missing_enabled_provider_api_key_errors format_missing_provider_api_key_error
assert_enabled_provider_api_keys_present rows env =
    throw_first format_missing_provider_api_key_error
      (collect_missing_enabled_provider_api_key_errors rows env)

-- `s.replace(/\/$/, '')`
unfoldable pub without_slash : Text → Text
without_slash [] = []
without_slash (c ∷ []) = if c == b'/' then [] else c ∷ []
without_slash (c ∷ (d ∷ s)) = c ∷ without_slash (d ∷ s)

-- `ref` is trimmed to see whether it is set, and read as it is.
abbrev pub is_ref_set : Option String → Bool
is_ref_set none = false
is_ref_set (some ref) = not (is_empty (trim (units ref)))

module _ (is_http_url : Text → Bool) where
  abbrev resolved_base_url : Text → Text
  unfolding without_slash
  resolved_base_url raw =
      if is_empty raw then [] else if is_http_url raw then without_slash raw else []

  unfoldable pub resolve_base_url_from_env : Option String → Env → Text
  unfolding without_slash
  resolve_base_url_from_env none env = []
  resolve_base_url_from_env (some ref) env =
      if is_ref_set (some ref) then resolved_base_url (env_value env ref) else []

  abbrev lacks_base_url : Env → ProviderRow → Bool
  unfolding resolve_base_url_from_env is_open_ai_provider_type
  lacks_base_url env row =
      row.enabled
      && is_open_ai_provider_type row.provider_type
      && is_ref_set row.base_url_ref
      && is_empty (resolve_base_url_from_env row.base_url_ref env)

  unfoldable pub collect_missing_base_url_errors :
      Entries ProviderRow → Env → List (String × String)
  unfolding resolve_base_url_from_env is_open_ai_provider_type
  collect_missing_base_url_errors [] env = []
  collect_missing_base_url_errors ((id, row) ∷ rows) env =
      let rest = collect_missing_base_url_errors rows env in
      if lacks_base_url env row then (id, or_else row.base_url_ref "") ∷ rest else rest

  unfoldable pub format_missing_base_url_error : String × String → Text
  format_missing_base_url_error (id, ref) =
      units "[GatewayConfig] Missing or invalid base URL for enabled provider instance \""
      ++ (units id ++ (units "\" (expected valid http(s) URL in env " ++ (units ref ++ units ")")))

  unfoldable pub assert_enabled_provider_base_url_present :
      Entries ProviderRow → Env → Settled (Unit {0})
  unfolding collect_missing_base_url_errors format_missing_base_url_error
  assert_enabled_provider_base_url_present rows env =
      throw_first format_missing_base_url_error (collect_missing_base_url_errors rows env)

  unfoldable pub assert_enabled_provider_secrets_present :
      Entries ProviderRow → Env → Settled (Unit {0})
  unfolding assert_enabled_provider_api_keys_present assert_enabled_provider_base_url_present
  assert_enabled_provider_secrets_present rows env =
      assert_enabled_provider_api_keys_present rows env
      >> assert_enabled_provider_base_url_present rows env
