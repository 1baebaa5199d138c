-- ===== src/Providers/Validation.antt =====
-- src/chat/services/chat-validation.service.ts and its test on the options, from
-- src/providers/openai/mappers/openai-thinking-provider.mapper.ts
use ai_provider_gateway.Prelude.{
  Bool, true, false, not, ◌&&◌, Option, none, some, String, if◌then◌else◌,
}
use ai_provider_gateway.Prelude.Texts.{units}
use ai_provider_gateway.Errors.{
  Settled, returned, ◌>>=◌, throw_if, http_error, tools_not_supported, thinking_not_supported,
  streaming_not_supported,
}
use ai_provider_gateway.Params.Numbers.{Numbers}
use ai_provider_gateway.Params.Resolve.{ThinkingBudget, effort, Options}
use ai_provider_gateway.Chat.Request.{ChatRequest, is_tooling_request}
use ai_provider_gateway.Providers.Registry.{
  ProviderType, openai, GatewayConfig, Instances, ResolvedProviderConfig, resolve,
}

abbrev is_effort : Option ThinkingBudget → Bool
is_effort (some (effort name)) = true
is_effort _ = false

unfoldable pub is_open_ai_reasoning_requested : {n : Numbers} → Options n → Bool
is_open_ai_reasoning_requested options = elim options.thinking_enabled [
  | some enabled ↦ enabled
  | none ↦ is_effort options.thinking_budget
]

abbrev is_true : Option Bool → Bool
is_true none = false
is_true (some b) = b

abbrev is_openai : ProviderType → Bool
is_openai openai = true
is_openai t = false

module _ {n : Numbers} where
  unfoldable pub validate_tooling : ChatRequest n → ResolvedProviderConfig n → Settled (Unit {0})
  unfolding http_error
  validate_tooling request resolved =
      throw_if (is_tooling_request n request && not resolved.capabilities.tools)
        (http_error 400 tools_not_supported (units "Tools are not supported for this model alias."))

  unfoldable pub validate_thinking : ResolvedProviderConfig n → Options n → Settled (Unit {0})
  unfolding http_error
  validate_thinking resolved options =
      let requested =
        if is_openai resolved.provider_type
        then is_open_ai_reasoning_requested options
        else is_true options.thinking_enabled in
      throw_if (requested && not resolved.capabilities.thinking) (
        http_error 400 thinking_not_supported
          (units "Extended thinking is not supported for this model alias."))

  unfoldable pub validate_for_streaming :
      Option (GatewayConfig n) → Instances → String → Settled (ResolvedProviderConfig n)
  unfolding http_error
  validate_for_streaming config instances alias = resolve config instances alias >>= λ resolved.
      throw_if (not resolved.capabilities.streaming)
        (http_error 400 streaming_not_supported (units "Streaming not supported for this model."))
      >>= λ _.
          throw_if (not resolved.provider.has_stream) (
            http_error 400 streaming_not_supported
              (units "Streaming adapter not implemented for this provider."))
          >>= λ _. returned resolved
