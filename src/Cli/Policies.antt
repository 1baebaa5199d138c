-- ===== src/Cli/Policies.antt =====
-- The policies that the commands write: src/cli/utils/default-model-policy.util.ts,
-- src/cli/constants/thinking-capable-models.ts and
-- src/providers/anthropic/anthropic-sampling-params.util.ts, whose patterns ignore case.
use ai_provider_gateway.Prelude.{
  ℕ, ◌+◌, Bool, true, false, not, ◌&&◌, ◌||◌, Option, none, some, String, List, [], ◌∷◌, ◌==◌, leb,
  or_else, is_some, str_eq, if◌then◌else◌,
}
use ai_provider_gateway.Prelude.Texts.{Text, units}
use ai_provider_gateway.Params.Numbers.{Numbers}
use ai_provider_gateway.Params.Resolve.{
  ParamKey, temperature, max_output_tokens, top_p, top_k, stop, frequency_penalty, presence_penalty,
  seed, response_format, thinking_enabled, thinking_budget,
}
use ai_provider_gateway.Params.Resolve
use ai_provider_gateway.Resilience.Policy.{RetrySource, PolicySource}
use ai_provider_gateway.Providers.Registry.{
  ProviderType, anthropic, google, openai, openai_compatible,
}
use ai_provider_gateway.Config.Schema.{Literals}

abbrev lower : ℕ → ℕ
lower c = if leb b'A' c && leb c b'Z' then c + 32 else c

-- What stands behind a prefix, in lower case, of a text in any case.
abbrev after : Text → Text → Option Text
after [] s = some s
after (p ∷ prefix) [] = none
after (p ∷ prefix) (c ∷ s) = if p == lower c then after prefix s else none

abbrev starts : String → Text → Bool
starts prefix s = is_some (after (units prefix) s)

abbrev is_between : ℕ → ℕ → ℕ → Bool
is_between lo hi c = leb lo c && leb c hi

-- `[lo-9]`
abbrev digit_from : ℕ → Text → Bool
digit_from lo [] = false
digit_from lo (c ∷ s) = is_between lo b'9' c

-- `\d{2,}`
abbrev two_digits : Text → Bool
two_digits [] = false
two_digits (c ∷ s) = is_between b'0' b'9' c && digit_from b'0' s

-- `[lo-9]` and then the given unit.
abbrev digit_then : ℕ → ℕ → Text → Bool
digit_then lo d [] = false
digit_then lo d (c ∷ []) = false
digit_then lo d (c ∷ (e ∷ s)) = is_between lo b'9' c && e == d

abbrev behind : String → (Text → Bool) → Text → Bool
behind prefix test s = elim (after (units prefix) s) [ none ↦ false | some rest ↦ test rest ]

unfoldable pub is_thinking_capable_model : String → ProviderType → Bool
is_thinking_capable_model model_id anthropic =
    let m = units model_id in
    starts "claude-opus-4-" m
    || behind "claude-sonnet-4-" (λ rest. digit_from b'5' rest || two_digits rest) m
    || behind "claude-sonnet-" (digit_then b'5' b'-') m
is_thinking_capable_model model_id google =
    let m = units model_id in starts "gemini-3." m || behind "gemini-" (digit_then b'4' b'.') m
is_thinking_capable_model model_id openai =
    let m = units model_id in behind "o" (digit_from b'0') m || starts "gpt-5" m
is_thinking_capable_model model_id openai_compatible = false

unfoldable pub get_recommended_max_output_tokens : String → ProviderType → ℕ
unfolding is_thinking_capable_model
get_recommended_max_output_tokens model_id t =
    if is_thinking_capable_model model_id t then 8192 else 1024

unfoldable pub anthropic_model_rejects_sampling_params : String → Bool
anthropic_model_rejects_sampling_params model_id =
    let m = units model_id in
    behind "claude-opus-4-" (λ rest. digit_from b'7' rest || two_digits rest) m
    || starts "claude-sonnet-5" m
    || behind "claude-sonnet-" (digit_then b'5' b'-') m

unfoldable pub provider_model_rejects_sampling_params : String → ProviderType → Bool
unfolding anthropic_model_rejects_sampling_params
provider_model_rejects_sampling_params model_id anthropic =
    anthropic_model_rejects_sampling_params model_id
provider_model_rejects_sampling_params model_id google = false
provider_model_rejects_sampling_params model_id openai = false
provider_model_rejects_sampling_params model_id openai_compatible = false

-- MAX_OUTPUT_TOKENS_SCHEMA_MAX
unfoldable pub get_max_output_tokens_bound : String → ProviderType → ℕ
unfolding is_thinking_capable_model
get_max_output_tokens_bound model_id t = if is_thinking_capable_model model_id t then 8192 else 1024

-- DEFAULT_MODEL_ALLOW_OVERRIDES, with and without the keys of sampling.
abbrev default_model_allow_overrides : Bool → List ParamKey
default_model_allow_overrides false =
    temperature ∷ max_output_tokens ∷ top_p ∷ top_k ∷ stop ∷ frequency_penalty ∷ presence_penalty
    ∷ seed ∷ response_format ∷ thinking_enabled ∷ thinking_budget ∷ []
default_model_allow_overrides true =
    max_output_tokens ∷ stop ∷ frequency_penalty ∷ presence_penalty ∷ seed ∷ response_format
    ∷ thinking_enabled ∷ thinking_budget ∷ []

-- A policy in the configuration: its `params`, and the rest.
pub record ModelPolicy (n : Numbers) : Type 0 where
  pub source : PolicySource
  pub params : Resolve.Policy n

abbrev unless : {A : Type 0} → Bool → A → Option A
unless true a = none
unless false a = some a

abbrev kept_thinking : Option Bool → Option Bool → Option Bool
kept_thinking (some old) (some new) = some old
kept_thinking none new = new
kept_thinking (some old) none = none

abbrev retry_of : PolicySource → (RetrySource → Option ℕ) → Option ℕ
retry_of source field = elim source.retry [ none ↦ none | some r ↦ field r ]

abbrev pub status_of : PolicySource → Option (List ℕ)
status_of source = elim source.retry [ none ↦ none | some r ↦ r.on_status ]

abbrev pub first_of : {A : Type 0} → Option A → Option A → Option A
first_of none later = later
first_of (some a) later = some a

module _ {n : Numbers} (literals : Literals n) where
  open literals use {minus_two, zero, seven_tenths, one, two}

  unfoldable pub build_default_model_policy : String → ProviderType → ModelPolicy n
  unfolding is_thinking_capable_model provider_model_rejects_sampling_params
      get_max_output_tokens_bound get_recommended_max_output_tokens
  build_default_model_policy model_id t =
      let rejects = provider_model_rejects_sampling_params model_id t in
      record {
        source = record {
          timeout_ms = some 30000;
          retry = some (record {
            max_attempts = some 3;
            on_status = some (429 ∷ 500 ∷ 502 ∷ 503 ∷ 504 ∷ []);
          });
        };
        params = record {
          defaults = record {
            temperature = unless rejects seven_tenths;
            max_output_tokens = some (get_recommended_max_output_tokens model_id t);
            top_p = none;
            frequency_penalty = none;
            presence_penalty = none;
            seed = none;
            thinking_enabled = unless (not (is_thinking_capable_model model_id t)) false;
          };
          allow_overrides = default_model_allow_overrides rejects;
          bounds = record {
            temperature = unless rejects (zero, two);
            max_output_tokens = some (1, get_max_output_tokens_bound model_id t);
            top_p = unless rejects (zero, one);
            frequency_penalty = some (minus_two, two);
            presence_penalty = some (minus_two, two);
          };
        };
      }

  -- defaultModelPolicy of model-manager.service.ts.
  unfoldable pub default_model_policy : String → Option ProviderType → ModelPolicy n
  unfolding build_default_model_policy
  default_model_policy model_id none = build_default_model_policy "unknown" anthropic
  default_model_policy model_id (some t) =
      if not (str_eq model_id "")
      then build_default_model_policy model_id t
      else build_default_model_policy "unknown" anthropic

  unfoldable pub sync_policy_sampling_for_model :
      Option (ModelPolicy n) → String → ProviderType → ModelPolicy n
  unfolding build_default_model_policy provider_model_rejects_sampling_params
  sync_policy_sampling_for_model policy model_id t =
      let fresh = build_default_model_policy model_id t in
      let existing = or_else policy fresh in
      let old = existing.params.defaults in
      let new = fresh.params.defaults in
      record {
        source = record {
          timeout_ms = first_of existing.source.timeout_ms fresh.source.timeout_ms;
          retry = some (record {
            max_attempts =
                first_of (retry_of existing.source (λ r. r.max_attempts))
                  (retry_of fresh.source (λ r. r.max_attempts));
            on_status = first_of (status_of existing.source) (status_of fresh.source);
          });
        };
        params = record {
          defaults = record new {
            max_output_tokens = first_of old.max_output_tokens new.max_output_tokens;
            thinking_enabled = kept_thinking old.thinking_enabled new.thinking_enabled;
            temperature =
                if provider_model_rejects_sampling_params model_id t
                then new.temperature
                else first_of old.temperature new.temperature;
          };
          allow_overrides = fresh.params.allow_overrides;
          bounds = record fresh.params.bounds {
            max_output_tokens =
                first_of existing.params.bounds.max_output_tokens
                  fresh.params.bounds.max_output_tokens;
          };
        };
      }
