-- ===== src/Config/Schema.antt =====
-- src/config/gateway-config.schema.ts: what GatewayConfigSchema refuses, and what it fills in. Whether a
-- configuration is refused is modelled, not the list of issues.
pub mod Lookups
pub mod Sound
use ai_provider_gateway.Prelude.{
  ℕ, Bool, true, false, not, ◌&&◌, ◌||◌, Option, none, some, String, List, [], ◌∷◌, any, leb,
  is_some, or_else, str_eq, if◌then◌else◌,
}
use ai_provider_gateway.Prelude.Texts.{units}
use ai_provider_gateway.Cache.Tag.{is_redis_search_tag_safe_id}
use ai_provider_gateway.Params.Numbers.{Numbers}
use ai_provider_gateway.Params.Resolve
use ai_provider_gateway.RateLimit.Service.{Limits}
use ai_provider_gateway.Resilience.Policy.{RetrySource, PolicySource}
use ai_provider_gateway.Providers.Registry.{openai, same_type, ProviderRow, ModelConfig}
use ai_provider_gateway.Config.Secrets.{is_open_ai_provider_type, is_ref_set}
use ai_provider_gateway.Config.Rows.{Entries, value_of, put_entry, ClientRow, RawConfig}

-- The doubles that the code writes as literals.
pub record Literals (n : Numbers) : Type 0 where
  pub minus_two : n.N
  pub zero : n.N
  pub seven_tenths : n.N
  pub one : n.N
  pub two : n.N

abbrev pub every : {A : Type 0} → (A → Bool) → List A → Bool
every test [] = true
every test (x ∷ xs) = test x && every test xs

-- A check of an optional value.
abbrev pub if_set : {A : Type 0} → (A → Bool) → Option A → Bool
if_set test none = true
if_set test (some a) = test a

abbrev is_set_text : String → Bool
is_set_text s = not (str_eq s "")

abbrev is_positive : ℕ → Bool
is_positive k = leb 1 k

-- superRefine of `providers`: `refs` maps the references met so far to their instances. A reference that
-- was met under the empty instance id is not seen as met.
unfoldable pub has_duplicate_ref : Entries String → Entries ProviderRow → Bool
has_duplicate_ref refs [] = false
has_duplicate_ref refs ((id, row) ∷ rows) =
    let rest = has_duplicate_ref (put_entry row.api_key_ref id refs) rows in
    if if_set (λ prev. str_eq prev "") (value_of row.api_key_ref refs) then rest else true

-- The base URL and the surface. An openai-compatible surface other than "chat-completions" is no value of
-- `api_surface`.
unfoldable pub is_row_accepted : ProviderRow → Bool
unfolding is_open_ai_provider_type
is_row_accepted row =
    is_set_text row.api_key_ref
    && if_set is_set_text row.base_url_ref
    && (not (is_open_ai_provider_type row.provider_type) || is_ref_set row.base_url_ref)
    && (not (same_type row.provider_type openai) || not (is_some row.api_surface))

unfoldable pub is_client_accepted : String × ClientRow → Bool
is_client_accepted (id, row) =
    is_redis_search_tag_safe_id (units id)
    && is_set_text row.name
    && is_set_text row.gateway_key_ref
    && if_set
        (λ (l : Limits).
          is_positive l.rps && is_positive l.burst && is_positive l.max_concurrent_streams)
        row.rate_limit

unfoldable pub is_policy_accepted : PolicySource → Bool
is_policy_accepted policy =
    if_set is_positive policy.timeout_ms
    && if_set
        (λ (r : RetrySource).
          if_set (λ k. is_positive k && leb k 5) r.max_attempts
          && if_set (every is_positive) r.on_status)
        policy.retry

module _ {n : Numbers} (literals : Literals n) where
  open literals use {minus_two, zero, one, two}

  abbrev within : n.N → n.N → n.N → Bool
  within lo hi x = n.le lo x && n.le x hi

  unfoldable pub is_params_accepted : Resolve.Policy n → Bool
  is_params_accepted params =
      if_set (within zero two) params.defaults.temperature
      && if_set is_positive params.defaults.max_output_tokens
      && if_set (within zero one) params.defaults.top_p
      && if_set (within minus_two two) params.defaults.frequency_penalty
      && if_set (within minus_two two) params.defaults.presence_penalty
      && if_set (λ range. n.le zero range.0 && n.le range.1 two) params.bounds.temperature
      && if_set (λ range. is_positive range.0 && leb range.1 8192) params.bounds.max_output_tokens

  unfoldable pub is_model_accepted : String × ModelConfig n → Bool
  unfolding is_params_accepted
  is_model_accepted (alias, model) =
      is_redis_search_tag_safe_id (units alias)
      && if_set is_set_text model.fallback
      && if_set is_policy_accepted model.policy
      && is_params_accepted model.params

-- superRefine of the whole, the first: the fallbacks.
abbrev pub fallback_of : {n : Numbers} → Entries (ModelConfig n) → String → Option String
fallback_of models alias = elim (value_of alias models) [
  | none ↦ none
  | some model ↦ model.fallback
]

unfoldable pub is_fallback_accepted :
    {n : Numbers} → Entries (ModelConfig n) → String → String → Bool
is_fallback_accepted models alias fallback =
    if str_eq fallback ""
    then true
    else not (str_eq fallback alias)
      && is_some (value_of fallback models)
      && if_set (λ back. not (str_eq back alias)) (fallback_of models fallback)

unfoldable pub are_fallbacks_accepted :
    {n : Numbers} → Entries (ModelConfig n) → Entries (ModelConfig n) → Bool
unfolding is_fallback_accepted
are_fallbacks_accepted models [] = true
are_fallbacks_accepted models ((alias, model) ∷ rest) =
    if_set (is_fallback_accepted models alias) model.fallback && are_fallbacks_accepted models rest

-- The second: models belong to providers, and enabled providers have models.
abbrev pub has_models : {n : Numbers} → Entries (ModelConfig n) → String → Bool
has_models models id = any (λ (_, model). str_eq model.provider_instance id) models

unfoldable pub are_linked : {n : Numbers} → RawConfig n → Bool
are_linked config =
    every (λ (_, model). is_some (value_of model.provider_instance config.providers)) config.models
    && not (elim config.models [ [] ↦ true | x ∷ xs ↦ false ])
    && every (λ (id, row). not row.enabled || has_models config.models id) config.providers

-- `policy` and `policy.retry` default to empty objects.
abbrev pub no_retry : RetrySource
no_retry = record { max_attempts = none; on_status = none }

abbrev pub with_retry : Option PolicySource → PolicySource
with_retry none = record { timeout_ms = none; retry = some no_retry }
with_retry (some policy) = record policy { retry = some (or_else policy.retry no_retry) }

unfoldable pub with_defaults : {n : Numbers} → Entries (ModelConfig n) → Entries (ModelConfig n)
with_defaults [] = []
with_defaults ((alias, model) ∷ models) =
    (alias, record model { policy = some (with_retry model.policy) }) ∷ with_defaults models

unfoldable pub is_accepted : {n : Numbers} → Literals n → RawConfig n → Bool
unfolding has_duplicate_ref is_row_accepted is_client_accepted is_model_accepted
    are_fallbacks_accepted are_linked
is_accepted literals config =
    is_positive config.schema_version
    && is_set_text config.master_key_ref
    && every (λ (_, row). is_row_accepted row) config.providers
    && not (has_duplicate_ref [] config.providers)
    && every is_client_accepted config.clients
    && every (is_model_accepted literals) config.models
    && are_fallbacks_accepted config.models config.models
    && are_linked config

-- GatewayConfigSchema.safeParse
unfoldable pub safe_parse : {n : Numbers} → Literals n → RawConfig n → Option (RawConfig n)
unfolding is_accepted with_defaults
safe_parse literals config =
    if is_accepted literals config
    then some (record config { models = with_defaults config.models })
    else none
