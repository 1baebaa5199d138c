-- ===== src/Examples/Answers.antt =====
-- Call parameters, the embedding circuit breaker, vector search queries, cached replays and facade streams at concrete inputs.
use ai_provider_gateway.Prelude.{
  ◌⊎◌, ◌↔◌, ◌≢◌, ℕ, ◌≡◌, refl, true, false, Option, none, some, List, [], ◌∷◌, arith,
}
use ai_provider_gateway.Prelude.Texts.{units}
use ai_provider_gateway.Errors.{returned}
use ai_provider_gateway.Facade.Events.{
  GatewayToolCall, SseDone, Usage, deltas, FinishReason, calls_of, has_any,
  map_stop_reason_to_finish_reason,
}
use ai_provider_gateway.Facade.Events
use ai_provider_gateway.Facade.OpenAi.{
  create_open_ai_stream_state, to_open_ai_completion_id, ChatResponse, map_chat_response_to_open_ai,
  resolve_open_ai_finish_reason,
}
use ai_provider_gateway.Facade.OpenAi.Stream.{
  read, run_lines, unread, whole, read-run_lines, finish_reasons_differ_iff,
}
use ai_provider_gateway.Facade.Anthropic.{create_anthropic_stream_state}
use ai_provider_gateway.Facade.Anthropic.Protocol.{accept_all, new_client, run, stream-accepted}
use ai_provider_gateway.Params.Numbers.{naturals, clamp}
use ai_provider_gateway.Params.Resolve.{
  ParamKey, thinking_enabled, thinking_budget, tokens, Options, Defaults, Bounds, Policy,
  resolve_provider_call_options, is_override_key, is_set, allows, check_budget, check_keys,
  effective,
}
use ai_provider_gateway.Params.Laws.{InRange, resolve-InRange}
use ai_provider_gateway.Cache.Circuit.{
  Operation, asks, fails, succeeds, answers, abstract_answers, new_breaker, closed,
  EmbeddingCircuitBreaker, answers-abstract_answers,
}
use ai_provider_gateway.Cache.Tag.{KnnInput, build_knn_query-injective}
use ai_provider_gateway.Cache.Replay.{
  ReplayEvent, meta, replay, never, IsDeltas, text_of, replay_whole,
}

abbrev with_tools : SseDone
with_tools = record {
  usage = some (record { input_tokens = 3; output_tokens = 4; total_tokens = none });
  tool_calls = some (
      record { id = "1"; name = "f"; arguments = units "{}" }
      ∷ record { id = "2"; name = "g"; arguments = [] }
      ∷ []);
  finish_reason = some Events.tool_calls;
  usage_details = none;
  system_fingerprint = none;
  thinking_content = some (units "hm");
}

stream-accepted_example :
    (n : ℕ) × (accept_all new_client (
        run
          (Events.meta (units "gw_1") ∷ deltas (units "a" ∷ units "b" ∷ []) with_tools)
          (create_anthropic_stream_state "sonnet"))
      ≡ some
          (record { started = true; open_block = none; next = n; ended = true; finished = true }))
stream-accepted_example =
    stream-accepted "sonnet" (units "gw_1") (units "a" ∷ units "b" ∷ []) with_tools

read-run_lines_example :
    read
      (run_lines
        (Events.meta (units "gw_1") ∷ deltas (units "a" ∷ units "b" ∷ []) with_tools)
        (create_open_ai_stream_state "gpt" true 7))
      unread
    ≡ some (whole (to_open_ai_completion_id (units "gw_1")) (units "ab") true with_tools)
read-run_lines_example =
    read-run_lines "gpt" true 7 (units "gw_1") (units "a" ∷ units "b" ∷ []) with_tools

-- The provider ran out of tokens in an answer with tool calls.
abbrev cut_off : SseDone
cut_off = record with_tools { finish_reason = some Events.max_length }

abbrev cut_off_answer : ChatResponse
cut_off_answer = record {
  id = units "gw_1";
  text = units "ab";
  tool_calls = with_tools.tool_calls;
  finish_reason = some Events.max_length;
  usage = with_tools.usage;
  system_fingerprint = none;
}

finish_reasons_differ_iff_example :
    (resolve_open_ai_finish_reason cut_off
      ≢ (map_chat_response_to_open_ai cut_off_answer "gpt" 7).finish_reason)
    ↔ ((has_any (calls_of cut_off.tool_calls) ≡ true)
        × ((some FinishReason.max_tokens ≡ some FinishReason.max_tokens)
            ⊎ (some FinishReason.max_tokens ≡ some FinishReason.max_length)))
unfolding map_stop_reason_to_finish_reason
finish_reasons_differ_iff_example =
    finish_reasons_differ_iff (some FinishReason.max_tokens) cut_off cut_off_answer "gpt" 7 refl
      refl

abbrev defaults : Defaults naturals
defaults = record {
  temperature = some 5;
  max_output_tokens = some 9000;
  top_p = none;
  frequency_penalty = none;
  presence_penalty = none;
  seed = none;
  thinking_enabled = none;
}

abbrev ranges : Bounds naturals
ranges = record {
  temperature = some (0, 2);
  max_output_tokens = some (1, 4096);
  top_p = none;
  frequency_penalty = none;
  presence_penalty = none;
}

abbrev policy : Policy naturals
policy = record {
  defaults = defaults;
  allow_overrides = thinking_enabled ∷ thinking_budget ∷ [];
  bounds = ranges;
}

abbrev options : Option ℕ → Option ℕ → Options naturals
options heat most = record {
  temperature = heat;
  max_output_tokens = most;
  top_p = none;
  top_k = none;
  stop = none;
  frequency_penalty = none;
  presence_penalty = none;
  seed = none;
  response_format = none;
  thinking_enabled = some true;
  thinking_budget = some (tokens 2000);
  parallel_tool_calls = none;
}

abbrev given : List ParamKey
given = thinking_enabled ∷ thinking_budget ∷ []

resolved :
    resolve_provider_call_options naturals policy given (options none none)
    ≡ returned (options (some 2) (some 4096))
unfolding resolve_provider_call_options check_keys check_budget effective allows is_set
    is_override_key clamp
resolved = refl

resolve-InRange_example :
    InRange naturals (some 2) (some (0, 2))
    × InRange naturals (some 4096) (some (1, 4096))
    × InRange naturals none none
    × InRange naturals none none
    × InRange naturals none none
resolve-InRange_example =
    resolve-InRange naturals policy given (options none none) (options (some 2) (some 4096))
      resolved

-- Two failures open the breaker; a trial goes through after ten milliseconds, and only one.
abbrev calls : List (Operation 2 10)
calls =
    fails 0
    ∷ asks 1
    ∷ fails 2
    ∷ asks 3
    ∷ asks 12
    ∷ asks 13
    ∷ fails 14
    ∷ asks 20
    ∷ asks 24
    ∷ succeeds
    ∷ asks 25
    ∷ []

answers-abstract_answers_example :
    answers 2 10 calls new_breaker ≡ abstract_answers 2 10 calls (closed 0)
answers-abstract_answers_example = answers-abstract_answers 2 10 calls (omega arith)

answers_test :
    abstract_answers 2 10 calls (closed 0) ≡ false ∷ true ∷ false ∷ true ∷ true ∷ false ∷ false ∷ []
unfolding abstract_answers
answers_test = refl

abbrev tripped : EmbeddingCircuitBreaker
tripped = record { failures = 2; opened_at_ms = 5; trial_in_flight = false }

replay_whole_example :
    (es : List ReplayEvent) × (replay never (units "cached") ≡ meta ∷ es)
    × IsDeltas es
    × (text_of es ≡ units "cached")
replay_whole_example = replay_whole (units "cached")

abbrev search_input : KnnInput
search_input = record {
  model_alias = units "chat-default";
  client_id = units "Team-A} @clientId:{*";
  embedding_model = units "m";
  system_signature = units "s";
  call_params = [];
  k = 1;
}

build_knn_query-injective_example :
    (search_input.model_alias ≡ search_input.model_alias)
    × (search_input.client_id ≡ search_input.client_id)
    × (search_input.embedding_model ≡ search_input.embedding_model)
    × (search_input.system_signature ≡ search_input.system_signature)
    × (search_input.call_params ≡ search_input.call_params)
build_knn_query-injective_example = build_knn_query-injective search_input search_input refl
