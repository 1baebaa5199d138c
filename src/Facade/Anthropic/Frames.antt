-- ===== src/Facade/Anthropic/Frames.antt =====
-- The events of the Anthropic contract, and how they are written: `eventLine` and its payloads in
-- src/integrations/anthropic/mappers/anthropic-stream.mapper.ts.
use ai_provider_gateway.Prelude.{ℕ, Option, none, some, String, [], ◌∷◌, ◌++◌}
use ai_provider_gateway.Prelude.Texts.{Text, units}
use ai_provider_gateway.Prelude.Json.{
  Json, null, num, str, arr, nil, obj, Fields, field, end, lit, stringify,
}

pub data StopReason : Type 0 where
  end_turn tool_use max_tokens refusal : StopReason

pub record AnthropicUsage : Type 0 where
  pub input_tokens : ℕ
  pub output_tokens : ℕ
  pub cache_creation_input_tokens : Option ℕ
  pub cache_read_input_tokens : Option ℕ

pub data Block : Type 0 where
  text_block thinking_block : Block
  tool_block : String → String → Block

pub data Delta : Type 0 where
  text_delta thinking_delta input_json_delta : Text → Delta

pub data Frame : Type 0 where
  message_start : Text → String → Frame
  block_start : ℕ → Block → Frame
  block_delta : ℕ → Delta → Frame
  block_stop : ℕ → Frame
  message_delta : StopReason → AnthropicUsage → Frame
  message_stop : Frame

abbrev object2 : String → Json → String → Json → Json
object2 k v j w = obj (field k v (field j w end))

abbrev event_name : Frame → String
event_name (message_start id model) = "message_start"
event_name (block_start index block) = "content_block_start"
event_name (block_delta index delta) = "content_block_delta"
event_name (block_stop index) = "content_block_stop"
event_name (message_delta reason usage) = "message_delta"
event_name message_stop = "message_stop"

abbrev stop_reason_name : StopReason → String
stop_reason_name end_turn = "end_turn"
stop_reason_name tool_use = "tool_use"
stop_reason_name max_tokens = "max_tokens"
stop_reason_name refusal = "refusal"

abbrev block_json : Block → Json
block_json text_block = object2 "type" (lit "text") "text" (lit "")
block_json thinking_block = object2 "type" (lit "thinking") "thinking" (lit "")
block_json (tool_block id name) = obj (
    field "type" (lit "tool_use")
      (field "id" (lit id) (field "name" (lit name) (field "input" (obj end) end))))

abbrev delta_json : Delta → Json
delta_json (text_delta text) = object2 "type" (lit "text_delta") "text" (str text)
delta_json (thinking_delta text) = object2 "type" (lit "thinking_delta") "thinking" (str text)
delta_json (input_json_delta text) =
    object2 "type" (lit "input_json_delta") "partial_json" (str text)

abbrev num_or_null : Option ℕ → Json
num_or_null none = null
num_or_null (some n) = num n

abbrev usage_json : AnthropicUsage → Json
usage_json u = obj (
    field "input_tokens" (num u.input_tokens) (
      field "output_tokens" (num u.output_tokens) (
        field "cache_creation_input_tokens" (num_or_null u.cache_creation_input_tokens)
          (field "cache_read_input_tokens" (num_or_null u.cache_read_input_tokens) end))))

abbrev payload : Frame → Fields
payload (message_start id model) =
    field "message"
      (obj (
        field "id" (str id) (
          field "type" (lit "message") (
            field "role" (lit "assistant") (
              field "content" (arr nil) (
                field "model" (lit model)
                  (field "usage" (object2 "input_tokens" (num 0) "output_tokens" (num 0)) end)))))))
      end
payload (block_start index block) =
    field "index" (num index) (field "content_block" (block_json block) end)
payload (block_delta index delta) = field "index" (num index) (field "delta" (delta_json delta) end)
payload (block_stop index) = field "index" (num index) end
payload (message_delta reason usage) =
    field "delta" (object2 "stop_reason" (lit (stop_reason_name reason)) "stop_sequence" null)
      (field "usage" (usage_json usage) end)
payload message_stop = end

unfoldable pub frame_data : Frame → Json
frame_data f = obj (field "type" (lit (event_name f)) (payload f))

-- `event: ${event}\ndata: ${JSON.stringify(data)}\n\n`
unfoldable pub event_line : Frame → Text
unfolding frame_data
event_line f =
    units "event: "
    ++ (units (event_name f) ++ (units "\ndata: " ++ (stringify (frame_data f) ++ 10 ∷ 10 ∷ [])))
