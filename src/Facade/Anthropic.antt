-- ===== src/Facade/Anthropic.antt =====
-- The Anthropic Messages facade's stream: src/integrations/anthropic/mappers/anthropic-stream.mapper.ts,
-- anthropic-stop-reason.mapper.ts and anthropic-usage.mapper.ts.
pub mod Frames
pub mod Protocol
use ai_provider_gateway.Prelude.{
  ℕ, ◌+◌, Bool, true, false, not, ◌&&◌, Option, none, some, String, List, [], ◌∷◌, ◌++◌, map, ◌==◌,
  if◌then◌else◌,
}
use ai_provider_gateway.Prelude.Texts.{Text, units, is_empty}
use ai_provider_gateway.Prelude.Json.{stringify}
use ai_provider_gateway.Facade.Events.{
  GatewayToolCall, FinishReason, Usage, UsageDetails, SseDone, SseEvent, calls_of, has_any,
}
use ai_provider_gateway.Facade.Events
use Frames.{
  Frame, message_start, block_start, block_delta, block_stop, message_delta, message_stop,
  StopReason, end_turn, tool_use, max_tokens, refusal, AnthropicUsage, text_block, thinking_block,
  tool_block, text_delta, thinking_delta, input_json_delta, event_line,
}

pub record AnthropicStreamState : Type 0 where
  pub message_id : Text
  pub model : String
  pub message_sent : Bool
  pub text_block_started : Bool
  pub block_index : ℕ
  pub active_tool_block_index : Option ℕ
  pub thinking_block_emitted : Bool

unfoldable pub create_anthropic_stream_state : String → AnthropicStreamState
create_anthropic_stream_state model = record {
  message_id = [];
  model = model;
  message_sent = false;
  text_block_started = false;
  block_index = 0;
  active_tool_block_index = none;
  thinking_block_emitted = false;
}

unfoldable pub map_gateway_finish_reason_to_anthropic_stop_reason : Option FinishReason → StopReason
map_gateway_finish_reason_to_anthropic_stop_reason none = end_turn
map_gateway_finish_reason_to_anthropic_stop_reason (some Events.tool_calls) = tool_use
map_gateway_finish_reason_to_anthropic_stop_reason (some Events.max_length) = max_tokens
map_gateway_finish_reason_to_anthropic_stop_reason (some Events.stop) = end_turn
map_gateway_finish_reason_to_anthropic_stop_reason (some Events.content_filter) = refusal
map_gateway_finish_reason_to_anthropic_stop_reason _ = end_turn

unfoldable pub map_sse_done_usage_to_anthropic : SseDone → AnthropicUsage
map_sse_done_usage_to_anthropic d = record {
  input_tokens = elim d.usage [ none ↦ 0 | some u ↦ u.input_tokens ];
  output_tokens = elim d.usage [ none ↦ 0 | some u ↦ u.output_tokens ];
  cache_creation_input_tokens = elim d.usage_details [
    | none ↦ none
    | some u ↦ u.prompt_cache_creation_tokens
  ];
  cache_read_input_tokens = elim d.usage_details [
    | none ↦ none
    | some u ↦ u.prompt_cache_hit_tokens
  ];
}

-- `textBlockStarted ? ++blockIndex : blockIndex++`: the index taken, and the state after it.
unfoldable pub next_block_index : AnthropicStreamState → ℕ × AnthropicStreamState
next_block_index s = (
  if s.text_block_started then s.block_index + 1 else s.block_index,
  record s { block_index = s.block_index + 1 },
)

-- `replace(/^gw_/, '')`
unfoldable pub strip_gateway_prefix : Text → Text
strip_gateway_prefix (a ∷ b ∷ c ∷ rest) =
    if a == b'g' && (b == b'w' && c == b'_') then rest else a ∷ b ∷ c ∷ rest
strip_gateway_prefix id = id

unfoldable pub emit_thinking_block : AnthropicStreamState → Text → List Frame × AnthropicStreamState
emit_thinking_block s thinking =
    let (index, s') = next_block_index s in
    (
      block_start index thinking_block
          ∷ block_delta index (thinking_delta thinking)
          ∷ block_stop index
          ∷ [],
      record s' { thinking_block_emitted = true },
    )

abbrev pub has_thinking : Option Text → Bool
has_thinking none = false
has_thinking (some t) = not (is_empty t)

-- `event.data.thinkingContent && !state.thinkingBlockEmitted`
unfoldable pub thinking_frames :
    AnthropicStreamState → Option Text → List Frame × AnthropicStreamState
thinking_frames s none = ([], s)
thinking_frames s (some t) =
    if not (is_empty t) && not s.thinking_block_emitted then emit_thinking_block s t else ([], s)

-- The loop over the tool calls.
unfoldable pub tool_frames :
    AnthropicStreamState → List GatewayToolCall → List Frame × AnthropicStreamState
tool_frames s [] = ([], s)
tool_frames s (call ∷ calls) =
    let (index, s') = next_block_index s in
    let (rest, s'') = tool_frames (record s' { active_tool_block_index = some index }) calls in
    (
      block_start index (tool_block call.id call.name)
          ∷ block_delta index (input_json_delta call.arguments)
          ∷ block_stop index
          ∷ rest,
      s'',
    )

abbrev pub close_tools : List GatewayToolCall → AnthropicStreamState → AnthropicStreamState
close_tools [] s = s
close_tools (call ∷ calls) s = record s { active_tool_block_index = none }

-- The events that a gateway event becomes, before they are written out.
unfoldable pub frames_of : SseEvent → AnthropicStreamState → List Frame × AnthropicStreamState
frames_of (Events.meta id) s =
    let s' = record s { message_id = units "msg_" ++ strip_gateway_prefix id } in
    if s.message_sent
    then ([], s')
    else (message_start s'.message_id s'.model ∷ [], record s' { message_sent = true })
frames_of (Events.delta text) s = (
  (if s.text_block_started then [] else block_start s.block_index text_block ∷ [])
      ++ block_delta s.block_index (text_delta text) ∷ [],
  record s { text_block_started = true },
)
frames_of (Events.done d) s =
    let (thinking, s') = thinking_frames s d.thinking_content in
    let (tools, s'') = tool_frames s' (calls_of d.tool_calls) in
    (
      (if s.text_block_started then block_stop s.block_index ∷ [] else [])
          ++ (thinking
              ++ (tools
                  ++ message_delta
                      (map_gateway_finish_reason_to_anthropic_stop_reason d.finish_reason)
                      (map_sse_done_usage_to_anthropic d)
                    ∷ message_stop
                    ∷ [])),
      close_tools (calls_of d.tool_calls) s'',
    )

unfoldable pub map_sse_event_to_anthropic :
    SseEvent → AnthropicStreamState → List Text × AnthropicStreamState
map_sse_event_to_anthropic event s =
    let (frames, s') = frames_of event s in (map event_line frames, s')
