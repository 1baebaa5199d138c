-- ===== src/Chat/Warnings.antt =====
-- src/chat/helpers/generation-warnings.ts with the tests on thinking budgets of
-- src/providers/openai/mappers/openai-thinking-provider.mapper.ts.
use ai_provider_gateway.Prelude.{
  Bool, true, false, not, ◌&&◌, ◌||◌, Option, none, some, String, List, [], ◌∷◌, ◌++◌, is_some,
  if◌then◌else◌,
}
use ai_provider_gateway.Prelude.Texts.{Text, units}
use ai_provider_gateway.Params.Numbers.{Numbers}
use ai_provider_gateway.Params.Resolve.{ThinkingBudget, tokens, Options}
use ai_provider_gateway.Providers.Registry.{
  ProviderType, anthropic, google, openai, openai_compatible, provider_type_name,
}
use ai_provider_gateway.Providers.Validation.{is_open_ai_reasoning_requested}

-- The code of every warning is PARAM_IGNORED_BY_PROVIDER.
pub record ChatWarning : Type 0 where
  pub message : Text
  pub field : String

abbrev is_numeric : Option ThinkingBudget → Bool
is_numeric (some (tokens t)) = true
is_numeric _ = false

abbrev is_true : Option Bool → Bool
is_true none = false
is_true (some b) = b

abbrev is_native_api : ProviderType → Bool
is_native_api anthropic = true
is_native_api google = true
is_native_api t = false

abbrev is_anthropic : ProviderType → Bool
is_anthropic anthropic = true
is_anthropic t = false

abbrev is_openai : ProviderType → Bool
is_openai openai = true
is_openai t = false

abbrev is_compatible : ProviderType → Bool
is_compatible openai_compatible = true
is_compatible t = false

abbrev pub warn_if : Bool → Text → String → List ChatWarning
warn_if true message field = record { message = message; field = field } ∷ []
warn_if false message field = []

abbrev ignored : String → ProviderType → Text
ignored parameter t =
    units "Parameter "
    ++ (units parameter
        ++ (units " is not supported by provider "
            ++ (units (provider_type_name t) ++ units " and was ignored.")))

abbrev ignored_by_responses : String → Text
ignored_by_responses parameter =
    units "Parameter "
    ++ (units parameter ++ units " is not supported by OpenAI Responses API and was ignored.")

module _ (n : Numbers) where
  unfoldable pub open_ai_numeric_thinking_budget_without_enable : Options n → Bool
  open_ai_numeric_thinking_budget_without_enable o =
      not (is_true o.thinking_enabled) && is_numeric o.thinking_budget

  unfoldable pub open_ai_numeric_thinking_budget_ignored : Options n → Bool
  open_ai_numeric_thinking_budget_ignored o =
      is_true o.thinking_enabled && is_numeric o.thinking_budget

  -- The four parameters that the OpenAI Responses API does not have.
  unfoldable pub responses_warnings : Options n → List ChatWarning
  responses_warnings o =
      warn_if (is_some o.frequency_penalty) (ignored_by_responses "frequencyPenalty")
        "params.frequencyPenalty"
      ++ (warn_if (is_some o.presence_penalty) (ignored_by_responses "presencePenalty")
            "params.presencePenalty"
          ++ (warn_if (is_some o.seed) (ignored_by_responses "seed") "params.seed"
              ++ warn_if (is_some o.stop) (ignored_by_responses "stop") "params.stop"))

  unfoldable pub build_generation_warnings : Options n → ProviderType → List ChatWarning
  unfolding responses_warnings open_ai_numeric_thinking_budget_ignored
      open_ai_numeric_thinking_budget_without_enable
  build_generation_warnings o t =
      warn_if (is_some o.frequency_penalty && is_native_api t) (ignored "frequencyPenalty" t)
        "params.frequencyPenalty"
      ++ (warn_if (is_some o.presence_penalty && is_native_api t) (ignored "presencePenalty" t)
            "params.presencePenalty"
          ++ (warn_if (is_some o.seed && is_anthropic t) (ignored "seed" t) "params.seed"
              ++ (warn_if (is_some o.top_k && is_openai t) (ignored_by_responses "topK")
                    "params.topK"
                  ++ (warn_if (is_some o.top_k && is_compatible t) (ignored "topK" t) "params.topK"
                      ++ (warn_if
                            (open_ai_numeric_thinking_budget_ignored o
                              && (is_openai t || is_compatible t))
                            (units
                              "Numeric thinkingBudget is not mapped to OpenAI reasoning API; effort level \"medium\" is used instead. Use string effort (low/medium/high) or reasoning_effort via OpenAI facade.")
                            "params.thinkingBudget"
                          ++ (warn_if
                                (open_ai_numeric_thinking_budget_without_enable o && is_openai t)
                                (units
                                  "Numeric thinkingBudget is ignored without thinkingEnabled: true. Enable thinking or use string effort (low/medium/high).")
                                "params.thinkingBudget"
                              ++ (warn_if (is_compatible t && is_open_ai_reasoning_requested o)
                                    (units
                                      "Extended thinking / reasoning parameters are not supported by openai-compatible providers and were ignored")
                                    "params.thinkingEnabled"
                                  ++ (if is_openai t then responses_warnings o else []))))))))
