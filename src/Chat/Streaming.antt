-- ===== src/Chat/Streaming.antt =====
-- The streams of src/chat/chat.service.ts (resolveStreamCache, executeStreamMiss) with streamOnce of
-- src/chat/services/chat-provider-call.service.ts. Of a `meta` event only the id is modelled, of a `done` event
-- not the warnings and the effective alias. Metrics, the tracker of active streams and log lines are not
-- modelled. An adapter sends nothing more once its call has lost against the deadline and is aborted.
pub mod Protocol
use ai_provider_gateway.Prelude.{
  ℕ, ◌+◌, Bool, true, false, not, Option, none, some, String, List, [], ◌∷◌, ◌++◌, map, str_eq,
  if◌then◌else◌,
}
use ai_provider_gateway.Prelude.Texts.{Text, units}
use ai_provider_gateway.Errors.{Thrown, Settled, returned, threw, ◌>>=◌}
use ai_provider_gateway.Errors
use ai_provider_gateway.Facade.Events.{SseEvent, SseDone}
use ai_provider_gateway.Facade.Events
use ai_provider_gateway.Params.Numbers.{Numbers}
use ai_provider_gateway.Params.Resolve.{Options, resolve_provider_call_options}
use ai_provider_gateway.Resilience.Policy.{build_retry_policy_from_resolved}
use ai_provider_gateway.Resilience.Executor.{
  Call, settles, hangs, Completion, done, pending, ResilientExecutionResult,
  execute_with_retry_and_fallback,
}
use ai_provider_gateway.Providers.Registry.{ResolvedProviderConfig, resolve}
use ai_provider_gateway.Chat.Request.{ChatRequest}
use ai_provider_gateway.Chat.Answer.{
  ResponseUsage, ProviderChatResponse, ChatResponseData, CachedChatResponse, build_chat_response,
  build_stream_done_event,
}
use ai_provider_gateway.Chat.ProviderInput.{ProviderChatInput, build_provider_input_for_alias}
use ai_provider_gateway.Chat.Deployment.{
  Deployment, GatewayState, StreamFinal, StreamRun, refuses, opens,
}
use ai_provider_gateway.Chat.Pipeline.{
  ChatCacheSource, hit, miss, Lookup, get_cached_if_allowed, set_cached_if_allowed,
}
use ai_provider_gateway.Chat.Service.{
  ChatExecutionPrep, Incoming, EmbedState, fallback_of, handle_provider_error,
  prepare_request_for_execution,
}

pub record StreamOnceResult (n : Numbers) : Type 0 where
  pub assembled_text : Text
  pub final : StreamFinal
  pub resolved : ResolvedProviderConfig n

-- The world of a stream's calls: the adapters', what has been emitted, and `metaEmitted`.
pub record StreamWorld (P : Type 0) : Type 0 where
  pub providers : P
  pub events : List SseEvent
  pub meta_emitted : Bool

abbrev pub concat_text : List Text → Text
concat_text [] = []
concat_text (chunk ∷ chunks) = chunk ++ concat_text chunks

pub data StreamCacheDecision {n : Numbers} (g : Deployment n) : Type 0 where
  cache_hit : ChatExecutionPrep n → CachedChatResponse → ChatCacheSource → StreamCacheDecision g
  cache_miss : ChatExecutionPrep n → EmbedState g → StreamCacheDecision g

module _ {n : Numbers} (g : Deployment n) where
  unfoldable pub decision_of :
      ChatExecutionPrep n
      → Lookup g × GatewayState g
      → Settled (StreamCacheDecision g) × GatewayState g
  decision_of prep (hit reply source, s) = (returned (cache_hit prep reply source), s)
  decision_of prep (miss embed_state, s) = (returned (cache_miss prep embed_state), s)

  unfoldable pub decide :
      Incoming n
      → GatewayState g
      → Settled (ChatExecutionPrep n)
      → Settled (StreamCacheDecision g) × GatewayState g
  unfolding decision_of
  decide incoming s (threw e) = (threw e, s)
  decide incoming s (returned prep) =
      if str_eq incoming.gateway_key ""
      then (returned (cache_miss prep none), s)
      else decision_of prep (
          get_cached_if_allowed g incoming.body prep.options incoming.client_id incoming.gateway_key
            s)

  unfoldable pub resolve_stream_cache :
      Incoming n → GatewayState g → Settled (StreamCacheDecision g) × GatewayState g
  unfolding decide
  resolve_stream_cache incoming s = decide incoming s (prepare_request_for_execution g incoming s)

  abbrev pub World : Type 0
  World = StreamWorld g.Providers

  -- The call's rest with the text assembled of the chunks.
  abbrev pub assembled :
      ResolvedProviderConfig n → List Text → Call StreamFinal → Call (StreamOnceResult n)
  assembled resolved chunks hangs = hangs
  assembled resolved chunks (settles at (threw e)) = settles at (threw e)
  assembled resolved chunks (settles at (returned final)) = settles at (
      returned (record { assembled_text = concat_text chunks; final = final; resolved = resolved }))

  -- `meta` is emitted once, before the first text.
  abbrev pub with_meta : Text → Bool → List SseEvent
  with_meta id true = []
  with_meta id false = Events.meta id ∷ []

  unfoldable pub on_stream :
      ResolvedProviderConfig n
      → (id : Text) → World
      → StreamRun × g.Providers
      → Call (StreamOnceResult n) × World
  on_stream resolved id w (refuses e, p) = (settles 0 (threw e), record w { providers = p })
  on_stream resolved id w (opens chunks call, p) = (
    assembled resolved chunks call,
    record {
      providers = p;
      events = w.events ++ (with_meta id w.meta_emitted ++ map Events.delta chunks);
      meta_emitted = true;
    },
  )

  -- An error before the call is one at once.
  abbrev pub streamed_with :
      Settled (World → Call (StreamOnceResult n) × World)
      → World
      → Call (StreamOnceResult n) × World
  streamed_with (threw e) w = (settles 0 (threw e), w)
  streamed_with (returned call) w = call w

  abbrev pub StreamCall : Type 0
  StreamCall = World → Call (StreamOnceResult n) × World

  -- Only the primary alias was checked to have an adapter that streams.
  unfoldable pub stream_call :
      (id : Text) → ResolvedProviderConfig n → Options n → ProviderChatInput n → StreamCall
  unfolding on_stream
  stream_call id resolved options input w =
      if not resolved.provider.has_stream
      then (
        settles 0 (threw (Errors.error (units "resolved.provider.stream is not a function"))),
        w,
      )
      else on_stream resolved id w
          (g.stream resolved.provider input resolved.model_id options w.providers)

  unfoldable pub with_input :
      ChatRequest n
      → (id : Text) (alias : String) → ResolvedProviderConfig n
      → Options n
      → Settled StreamCall
  unfolding stream_call
  with_input request id alias resolved options =
      build_provider_input_for_alias request alias g.prompts >>= λ input.
      returned (stream_call id resolved options input)

  unfoldable pub with_options :
      ChatRequest n → (id : Text) (alias : String) → ResolvedProviderConfig n → Settled StreamCall
  unfolding with_input
  with_options request id alias resolved =
      resolve_provider_call_options n resolved.params request.param_keys request.params
      >>= with_input request id alias resolved

  unfoldable pub stream_once : ChatRequest n → Text → String → ℕ → StreamCall
  unfolding with_options
  stream_once request id alias attempt_no w =
      streamed_with (resolve (some g.config) g.instances alias >>= with_options request id alias) w

  abbrev pub StreamExecuted : Type 0
  StreamExecuted = Completion (Settled (ResilientExecutionResult (StreamOnceResult n))) × World

  unfoldable pub run_stream :
      ChatRequest n → Text → ResolvedProviderConfig n → g.Providers → StreamExecuted
  unfolding stream_once
  run_stream request id primary p =
      execute_with_retry_and_fallback g.http_message (stream_once request id)
        (build_retry_policy_from_resolved primary.policy) request.model_alias
        (fallback_of g request primary)
        (record { providers = p; events = []; meta_emitted = false })

  abbrev pub done_of : StreamOnceResult n → SseDone
  done_of result =
      build_stream_done_event result.final.usage result.final.tool_calls result.final.stop_reason
        result.final.system_fingerprint result.final.thinking_content result.final.usage_details

  abbrev usage_of : Option (ℕ × ℕ) → Option ResponseUsage
  usage_of none = none
  usage_of (some (input, output)) =
      some (record { input_tokens = some input; output_tokens = some output; total_tokens = none })

  -- The answer that the stream amounts to; only an answer of the primary alias is kept.
  abbrev pub streamed_answer :
      Incoming n → ChatExecutionPrep n → Text → StreamOnceResult n → ChatResponseData
  streamed_answer incoming prep id result =
      build_chat_response n
        (record {
          text = result.assembled_text;
          tool_calls = result.final.tool_calls;
          stop_reason = result.final.stop_reason;
          usage = usage_of result.final.usage;
          usage_details = result.final.usage_details;
          system_fingerprint = result.final.system_fingerprint;
          thinking_content = result.final.thinking_content;
        })
        result.resolved.provider_name incoming.body.model_alias incoming.request_id
        prep.response_conversation_id none prep.options result.resolved.provider_type id

  -- What the client has been sent, how the stream ended, and the state.
  abbrev pub Streamed : Type 0
  Streamed = List SseEvent × (Completion (Settled (Unit {0})) × GatewayState g)

  unfoldable pub on_streamed :
      Incoming n
      → ChatExecutionPrep n
      → EmbedState g
      → (id : Text) → GatewayState g
      → StreamExecuted
      → Streamed
  on_streamed incoming prep embed_state id s (pending, w) =
      (w.events, (pending, record s { providers = w.providers }))
  on_streamed incoming prep embed_state id s (done at (threw e), w) = (
    w.events,
    (
      done at (threw e),
      handle_provider_error g e prep.primary_resolved.provider_name incoming.gateway_key
          (record s { now = s.now + at; providers = w.providers }),
    ),
  )
  on_streamed incoming prep embed_state id s (done at (returned result), w) = (
    w.events ++ (Events.done (done_of result.value) ∷ []),
    (
      done at (returned tt),
      let s' : GatewayState g = record s { now = s.now + at; providers = w.providers } in
          if result.did_fallback
          then s'
          else set_cached_if_allowed g incoming.body (streamed_answer incoming prep id result.value)
              prep.options incoming.client_id incoming.gateway_key embed_state s',
    ),
  )

  -- `id` is the id made of a new UUID.
  unfoldable pub execute_stream_miss :
      Incoming n → ChatExecutionPrep n → EmbedState g → (id : Text) → GatewayState g → Streamed
  unfolding on_streamed run_stream
  execute_stream_miss incoming prep embed_state id s =
      on_streamed incoming prep embed_state id s
        (run_stream incoming.body id prep.primary_resolved s.providers)
