-- ===== src/Facade/OpenAi.antt =====
-- The OpenAI Chat Completions facade: src/integrations/openai/mappers/openai-stream.mapper.ts and
-- openai-response.mapper.ts.
pub mod Requests
pub mod Stream
use ai_provider_gateway.Prelude.{
  ℕ, ◌+◌, Bool, true, false, not, ◌&&◌, Option, none, some, String, List, [], ◌∷◌, ◌++◌, map, ◌==◌,
  or_else, str_eq, if◌then◌else◌,
}
use ai_provider_gateway.Prelude.Texts.{Text, units, is_empty}
use ai_provider_gateway.Prelude.Json.{
  Json, null, num, str, arr, Items, nil, cons, obj, Fields, field, end, lit, single, set_field,
  stringify,
}
use ai_provider_gateway.Facade.Events.{
  GatewayToolCall, FinishReason, Usage, SseDone, SseEvent, calls_of, has_any,
}
use ai_provider_gateway.Facade.Events

-- `max_length` is 'length'.
pub data OpenAiFinishReason : Type 0 where
  tool_calls max_length content_filter stop : OpenAiFinishReason

abbrev pub reason_name : OpenAiFinishReason → String
reason_name tool_calls = "tool_calls"
reason_name max_length = "length"
reason_name content_filter = "content_filter"
reason_name stop = "stop"

pub record OpenAiUsage : Type 0 where
  pub prompt_tokens : ℕ
  pub completion_tokens : ℕ
  pub total_tokens : ℕ

pub record OpenAiStreamState : Type 0 where
  pub completion_id : Text
  pub model : String
  pub role_sent : Bool
  pub include_usage : Bool
  pub created : ℕ

-- `created` is the time of the call in seconds.
unfoldable pub create_open_ai_stream_state : String → Bool → ℕ → OpenAiStreamState
create_open_ai_stream_state requested_model include_usage created = record {
  completion_id = [];
  model = requested_model;
  role_sent = false;
  include_usage = include_usage;
  created = created;
}

unfoldable pub to_open_ai_completion_id : Text → Text
to_open_ai_completion_id (a ∷ b ∷ c ∷ rest) =
    if a == b'g' && (b == b'w' && c == b'_')
    then units "chatcmpl_" ++ rest
    else units "chatcmpl_" ++ (a ∷ b ∷ c ∷ rest)
to_open_ai_completion_id gateway_id = units "chatcmpl_" ++ gateway_id

unfoldable pub map_finish_reason_to_open_ai : Option FinishReason → OpenAiFinishReason
map_finish_reason_to_open_ai (some Events.tool_calls) = tool_calls
map_finish_reason_to_open_ai (some Events.max_length) = max_length
map_finish_reason_to_open_ai (some Events.content_filter) = content_filter
map_finish_reason_to_open_ai _ = stop

-- A fingerprint that is there and not "".
unfoldable pub map_system_fingerprint_to_open_ai : Option String → Option String
map_system_fingerprint_to_open_ai none = none
map_system_fingerprint_to_open_ai (some f) = if str_eq f "" then none else some f

unfoldable pub resolve_open_ai_finish_reason : SseDone → OpenAiFinishReason
resolve_open_ai_finish_reason d =
    if has_any (calls_of d.tool_calls)
    then tool_calls
    else elim d.finish_reason [ none ↦ stop | some r ↦ map_finish_reason_to_open_ai (some r) ]

-- What one chunk adds to the answer.
pub data ChunkDelta : Type 0 where
  role : ChunkDelta
  content : Text → ChunkDelta
  calls : List GatewayToolCall → ChunkDelta
  nothing : ChunkDelta

pub record Chunk : Type 0 where
  pub id : Text
  pub created : ℕ
  pub model : String
  pub delta : ChunkDelta
  pub finish_reason : Option OpenAiFinishReason
  pub usage : Option OpenAiUsage
  pub system_fingerprint : Option String

-- A line of the stream: a chunk, or the end mark.
pub data Line : Type 0 where
  chunk : Chunk → Line
  done : Line

unfoldable pub build_tool_calls_delta : ℕ → List GatewayToolCall → Items
build_tool_calls_delta index [] = nil
build_tool_calls_delta index (call ∷ rest) =
    cons
      (obj (
        field "index" (num index) (
          field "id" (lit call.id) (
            field "type" (lit "function") (
              field "function"
                (obj (field "name" (lit call.name) (field "arguments" (str call.arguments) end)))
                end)))))
      (build_tool_calls_delta (index + 1) rest)

abbrev delta_fields : ChunkDelta → Fields
delta_fields role = field "role" (lit "assistant") (field "content" (str []) end)
delta_fields (content text) = field "content" (str text) end
delta_fields (calls list) = field "tool_calls" (arr (build_tool_calls_delta 0 list)) end
delta_fields nothing = end

abbrev usage_fields : Option OpenAiUsage → Fields → Fields
usage_fields none fields = fields
usage_fields (some u) fields =
    set_field "usage"
      (obj (
        field "prompt_tokens" (num u.prompt_tokens) (
          field "completion_tokens" (num u.completion_tokens)
            (field "total_tokens" (num u.total_tokens) end))))
      fields

abbrev fingerprint_fields : Option String → Fields → Fields
fingerprint_fields none fields = fields
fingerprint_fields (some f) fields = set_field "system_fingerprint" (lit f) fields

abbrev reason_json : Option OpenAiFinishReason → Json
reason_json none = null
reason_json (some r) = lit (reason_name r)

-- `baseChunkFields` and what each chunk adds to them.
unfoldable pub chunk_fields : Chunk → Fields
chunk_fields c = fingerprint_fields c.system_fingerprint (
    usage_fields c.usage (
      field "id" (str c.id) (
        field "object" (lit "chat.completion.chunk") (
          field "created" (num c.created) (
            field "model" (lit c.model) (
              field "choices"
                (single (
                  obj (
                    field "index" (num 0) (
                      field "delta" (obj (delta_fields c.delta))
                        (field "finish_reason" (reason_json c.finish_reason) end)))))
                end))))))

unfoldable pub chunk_line : Line → Text
chunk_line (chunk c) = units "data: " ++ (stringify (obj (chunk_fields c)) ++ (10 ∷ 10 ∷ []))
chunk_line done = units "data: [DONE]" ++ (10 ∷ 10 ∷ [])

unfoldable pub plain_chunk : OpenAiStreamState → ChunkDelta → Chunk
plain_chunk s delta = record {
  id = s.completion_id;
  created = s.created;
  model = s.model;
  delta = delta;
  finish_reason = none;
  usage = none;
  system_fingerprint = none;
}

unfoldable pub stream_usage : Bool → Option Usage → Option OpenAiUsage
stream_usage include_usage none = none
stream_usage include_usage (some u) =
    if include_usage
    then some (record {
      prompt_tokens = u.input_tokens;
      completion_tokens = u.output_tokens;
      total_tokens = or_else u.total_tokens (u.input_tokens + u.output_tokens);
    })
    else none

-- The lines that a gateway event becomes, before they are written out.
unfoldable pub lines_of : SseEvent → OpenAiStreamState → List Line × OpenAiStreamState
lines_of (Events.meta id) s =
    let s' = record s { completion_id = to_open_ai_completion_id id } in
    if s.role_sent
    then ([], s')
    else (chunk (plain_chunk s' role) ∷ [], record s' { role_sent = true })
lines_of (Events.delta text) s = (chunk (plain_chunk s (content text)) ∷ [], s)
lines_of (Events.done d) s = (
  (if has_any (calls_of d.tool_calls)
        then chunk (plain_chunk s (calls (calls_of d.tool_calls))) ∷ []
        else [])
      ++ chunk (record (plain_chunk s nothing) {
        finish_reason = some (resolve_open_ai_finish_reason d);
        usage = stream_usage s.include_usage d.usage;
        system_fingerprint = map_system_fingerprint_to_open_ai d.system_fingerprint;
      })
        ∷ done
        ∷ [],
  s,
)

unfoldable pub map_sse_event_to_open_ai :
    SseEvent → OpenAiStreamState → List Text × OpenAiStreamState
map_sse_event_to_open_ai event s = let (lines, s') = lines_of event s in (map chunk_line lines, s')

-- What `mapChatResponseToOpenAi` reads of a gateway answer, and the answer it makes, without the
-- constant fields.
pub record ChatResponse : Type 0 where
  pub id : Text
  pub text : Text
  pub tool_calls : Option (List GatewayToolCall)
  pub finish_reason : Option FinishReason
  pub usage : Option Usage
  pub system_fingerprint : Option String

pub record ChatCompletion : Type 0 where
  pub id : Text
  pub created : ℕ
  pub model : String
  pub content : Option Text
  pub tool_calls : List GatewayToolCall
  pub finish_reason : OpenAiFinishReason
  pub usage : OpenAiUsage
  pub system_fingerprint : Option String

unfoldable pub map_chat_response_to_open_ai : ChatResponse → String → ℕ → ChatCompletion
map_chat_response_to_open_ai result requested_model created =
    let input : ℕ = elim result.usage [ none ↦ 0 | some u ↦ u.input_tokens ] in
    let output : ℕ = elim result.usage [ none ↦ 0 | some u ↦ u.output_tokens ] in
    record {
      id = to_open_ai_completion_id result.id;
      created = created;
      model = requested_model;
      content =
          if has_any (calls_of result.tool_calls) && is_empty result.text
          then none
          else some result.text;
      tool_calls = calls_of result.tool_calls;
      finish_reason = map_finish_reason_to_open_ai result.finish_reason;
      usage = record {
        prompt_tokens = input;
        completion_tokens = output;
        total_tokens = input + output;
      };
      system_fingerprint = map_system_fingerprint_to_open_ai result.system_fingerprint;
    }
