-- ===== src/Chat/Service.antt =====
-- src/chat/chat.service.ts for answers that are not streamed, with chat-provider-cooldown.service.ts,
-- chat-error-handler.service.ts and completeOnce of chat-provider-call.service.ts in src/chat/services.
-- Log lines and metrics are not modelled. The request is alone: requests that share one run are in
-- Chat/Singleflight.

pub mod Cooling
pub mod Keeping
pub mod Caching
use ai_provider_gateway.Prelude.{
  ℕ, ◌+◌, Bool, true, false, not, ◌&&◌, Option, none, some, String, or_else, str_eq, if◌then◌else◌,
}
use ai_provider_gateway.Prelude.Texts.{Text, is_empty, units}
use ai_provider_gateway.Errors.{
  Thrown, Settled, returned, threw, ◌>>=◌, ◌>>◌, throw_if, request_error, rate_limited,
  is_provider_rate_limit_error,
}
use ai_provider_gateway.Params.Numbers.{Numbers}
use ai_provider_gateway.Params.Resolve.{Options, resolve_provider_call_options}
use ai_provider_gateway.RateLimit.Service.{RateLimitResult, check_cooldown, set_cooldown}
use ai_provider_gateway.Resilience.Policy.{build_retry_policy_from_resolved}
use ai_provider_gateway.Resilience.Executor.{
  Call, settles, hangs, Completion, done, pending, ResilientExecutionResult,
  execute_with_retry_and_fallback,
}
use ai_provider_gateway.Providers.Registry.{ResolvedProviderConfig, resolve}
use ai_provider_gateway.Providers.Validation.{validate_tooling, validate_thinking}
use ai_provider_gateway.Cache.Identity.{is_cached_chat_allowed_for_model_alias}
use ai_provider_gateway.Cache.Semantic.{SemanticStoreEmbedState}
use ai_provider_gateway.Chat.Request.{
  ChatRequest, is_tooling_request, get_or_create_conversation_id,
}
use ai_provider_gateway.Chat.Ingress.{IngressProfile, validate_chat_ingress}
use ai_provider_gateway.Chat.Answer.{
  ProviderChatResponse, ChatResponseData, CachedChatResponse, build_chat_response,
}
use ai_provider_gateway.Chat.ProviderInput.{build_provider_input_for_alias}
use ai_provider_gateway.Chat.Deployment.{Deployment, GatewayState}
use ai_provider_gateway.Chat.Pipeline.{
  ChatCacheSource, hit, miss, Lookup, get_cached_if_allowed, set_cached_if_allowed,
}

pub record ChatExecutionPrep (n : Numbers) : Type 0 where
  pub primary_resolved : ResolvedProviderConfig n
  pub options : Options n
  pub response_conversation_id : Text

pub record CompleteOnceResult (n : Numbers) : Type 0 where
  pub response : ProviderChatResponse
  pub resolved : ResolvedProviderConfig n

-- ChatResponseData or CachedChatResponseWithConversation
pub data ChatReply : Type 0 where
  fresh : ChatResponseData → ChatReply
  cached :
      CachedChatResponse
      → (conversation_id : Text) → ChatCacheSource
      → (request_id : String) → ChatReply

-- A request as the controller hands it over: `new_conversation_id` and `new_response_id` are the ids made
-- of new UUIDs, should they be needed.
pub record Incoming (n : Numbers) : Type 0 where
  pub body : ChatRequest n
  pub client_id : String
  pub request_id : String
  pub gateway_key : String
  pub profile : IngressProfile
  pub new_conversation_id : Text
  pub new_response_id : Text

abbrev reason_or_default : Option Text → Text
reason_or_default none = units "Rate limit exceeded"
reason_or_default (some reason) = if is_empty reason then units "Rate limit exceeded" else reason

module _ {n : Numbers} (g : Deployment n) where
  unfoldable pub assert_not_in_cooldown :
      (key provider request_id : String) → ℕ → g.redis.Db → Settled (Unit {0})
  unfolding request_error
  assert_not_in_cooldown key provider request_id now db =
      let result = check_cooldown g.redis g.connection key provider now db in
      throw_if (not result.allowed)
        (request_error 429 rate_limited (reason_or_default result.reason) request_id)

  -- `if (gatewayKey)`
  unfoldable pub check_provider : Incoming n → String → GatewayState g → Settled (Unit {0})
  unfolding assert_not_in_cooldown
  check_provider incoming provider s =
      if str_eq incoming.gateway_key ""
      then returned tt
      else assert_not_in_cooldown incoming.gateway_key provider incoming.request_id s.now
          s.cooldowns

  -- What the preparation does before it asks the rate limiter.
  unfoldable pub validate : Incoming n → Settled (ChatExecutionPrep n)
  validate incoming =
      validate_chat_ingress incoming.body incoming.profile
      >> (resolve (some g.config) g.instances incoming.body.model_alias >>= λ primary.
          validate_tooling incoming.body primary
          >> (resolve_provider_call_options n primary.params incoming.body.param_keys
                incoming.body.params
              >>= λ options.
                  validate_thinking primary options
                  >> returned (record {
                    primary_resolved = primary;
                    options = options;
                    response_conversation_id =
                        get_or_create_conversation_id n incoming.body incoming.new_conversation_id;
                  })))

  unfoldable pub prepare_request_for_execution :
      Incoming n → GatewayState g → Settled (ChatExecutionPrep n)
  unfolding validate check_provider
  prepare_request_for_execution incoming s = validate incoming >>= λ prep.
      check_provider incoming prep.primary_resolved.provider_name s >> returned prep

  -- The call's result with the resolved configuration beside it.
  abbrev with_resolved :
      ResolvedProviderConfig n
      → Call ProviderChatResponse × g.Providers
      → Call (CompleteOnceResult n) × g.Providers
  with_resolved resolved (hangs, w) = (hangs, w)
  with_resolved resolved (settles at (threw e), w) = (settles at (threw e), w)
  with_resolved resolved (settles at (returned response), w) =
      (settles at (returned (record { response = response; resolved = resolved })), w)

  -- An error before the call is one at once.
  abbrev call_with :
      Settled (g.Providers → Call (CompleteOnceResult n) × g.Providers)
      → g.Providers
      → Call (CompleteOnceResult n) × g.Providers
  call_with (threw e) w = (settles 0 (threw e), w)
  call_with (returned call) w = call w

  unfoldable pub complete_once :
      ChatRequest n → String → ℕ → g.Providers → Call (CompleteOnceResult n) × g.Providers
  complete_once request alias attempt_no w =
      call_with
        (resolve (some g.config) g.instances alias >>= λ resolved.
          resolve_provider_call_options n resolved.params request.param_keys request.params
          >>= λ options. build_provider_input_for_alias request alias g.prompts >>= λ input.
              returned (λ w'.
                with_resolved resolved
                  (g.complete resolved.provider input resolved.model_id options w')))
        w

  -- The configured fallback, but none for a request with tools.
  abbrev pub fallback_of : ChatRequest n → ResolvedProviderConfig n → Option String
  fallback_of request primary =
      if is_tooling_request n request then none else primary.fallback_alias

  abbrev pub Executed : Type 0
  Executed = Completion (Settled (ResilientExecutionResult (CompleteOnceResult n))) × g.Providers

  unfoldable pub run_provider : ChatRequest n → ResolvedProviderConfig n → g.Providers → Executed
  unfolding complete_once
  run_provider request primary w =
      execute_with_retry_and_fallback g.http_message (complete_once request)
        (build_retry_policy_from_resolved primary.policy) request.model_alias
        (fallback_of request primary) w

  -- `if (gatewayKey && isProviderRateLimitError(error))`
  unfoldable pub handle_provider_error :
      Thrown → (provider key : String) → GatewayState g → GatewayState g
  handle_provider_error e provider key s =
      if str_eq key ""
      then s
      else if is_provider_rate_limit_error e
      then record s {
        cooldowns = set_cooldown g.redis g.connection g.limits key provider s.now s.cooldowns;
      }
      else s

  abbrev pub answer_of :
      Incoming n
      → ChatExecutionPrep n
      → ResilientExecutionResult (CompleteOnceResult n)
      → ChatResponseData
  answer_of incoming prep result =
      build_chat_response n result.value.response result.value.resolved.provider_name
        incoming.body.model_alias incoming.request_id prep.response_conversation_id
        (if result.did_fallback then some result.used_alias else none) prep.options
        result.value.resolved.provider_type incoming.new_response_id

  abbrev pub EmbedState : Type 0
  EmbedState = Option (SemanticStoreEmbedState g.backends.V)

  abbrev pub Outcome : Type 0
  Outcome = Completion (Settled ChatReply) × GatewayState g

  unfoldable pub on_result :
      Incoming n
      → ChatExecutionPrep n
      → EmbedState
      → GatewayState g
      → Settled (ResilientExecutionResult (CompleteOnceResult n))
      → Settled ChatReply × GatewayState g
  unfolding handle_provider_error
  on_result incoming prep embed_state s (threw e) =
      (threw e, handle_provider_error e prep.primary_resolved.provider_name incoming.gateway_key s)
  on_result incoming prep embed_state s (returned result) = (
    returned (fresh (answer_of incoming prep result)),
    if result.did_fallback
        then s
        else set_cached_if_allowed g incoming.body (answer_of incoming prep result) prep.options
            incoming.client_id incoming.gateway_key embed_state s,
  )

  unfoldable pub on_executed :
      Incoming n → ChatExecutionPrep n → EmbedState → GatewayState g → Executed → Outcome
  unfolding on_result
  on_executed incoming prep embed_state s (pending, w) = (pending, record s { providers = w })
  on_executed incoming prep embed_state s (done at r, w) =
      let (reply, s') =
        on_result incoming prep embed_state (record s { now = s.now + at; providers = w }) r in
      (done at reply, s')

  unfoldable pub complete_chat_and_store :
      Incoming n → ChatExecutionPrep n → EmbedState → GatewayState g → Outcome
  unfolding on_executed run_provider
  complete_chat_and_store incoming prep embed_state s =
      on_executed incoming prep embed_state s
        (run_provider incoming.body prep.primary_resolved s.providers)

  -- Whether the request may share another one's run. Alone, it runs either way.
  unfoldable pub may_coalesce : Incoming n → Bool
  may_coalesce incoming =
      not (str_eq incoming.gateway_key "")
      && (not (str_eq incoming.client_id "unknown")
          && (not (is_tooling_request n incoming.body)
              && is_cached_chat_allowed_for_model_alias g.config incoming.body.model_alias))

  unfoldable pub on_lookup : Incoming n → ChatExecutionPrep n → Lookup g × GatewayState g → Outcome
  unfolding complete_chat_and_store
  on_lookup incoming prep (hit reply source, s) =
      (done 0 (returned (cached reply prep.response_conversation_id source incoming.request_id)), s)
  on_lookup incoming prep (miss embed_state, s) =
      complete_chat_and_store incoming prep embed_state s

  -- Without a gateway key the caches are not asked.
  unfoldable pub on_prepared : Incoming n → GatewayState g → Settled (ChatExecutionPrep n) → Outcome
  unfolding on_lookup
  on_prepared incoming s (threw e) = (done 0 (threw e), s)
  on_prepared incoming s (returned prep) = on_lookup incoming prep (
      if str_eq incoming.gateway_key ""
      then (miss none, s)
      else get_cached_if_allowed g incoming.body prep.options incoming.client_id
          incoming.gateway_key s)

  unfoldable pub execute_chat : Incoming n → GatewayState g → Outcome
  unfolding on_prepared prepare_request_for_execution
  execute_chat incoming s = on_prepared incoming s (prepare_request_for_execution incoming s)
