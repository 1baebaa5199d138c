-- ===== src/Facade/Events.antt =====
-- Gateway stream events: src/chat/sse/sse-event.type.ts, src/providers/types/tooling-types.ts and
-- src/chat/helpers/map-provider-finish-reason.ts.
use ai_provider_gateway.Prelude.{
  ℕ, Bool, true, false, Option, none, some, String, List, [], ◌∷◌, if◌then◌else◌,
}
use ai_provider_gateway.Prelude.Texts.{Text}
use ai_provider_gateway.Prelude.Json.{Fields}

pub record GatewayToolCall : Type 0 where
  pub id : String
  pub name : String
  pub arguments : Text

pub record GatewayToolDefinition : Type 0 where
  pub name : String
  pub description : Option Text
  pub parameters : Fields

pub data GatewayToolChoice : Type 0 where
  auto no_tool required : GatewayToolChoice
  function : String → GatewayToolChoice

-- `SseFinishReason`, which has the gateway's four reasons among the providers'.
pub data FinishReason : Type 0 where
  end_turn tool_use max_tokens stop_sequence pause_turn refusal : FinishReason
  tool_calls stop max_length content_filter insufficient_system_resource : FinishReason

pub record Usage : Type 0 where
  pub input_tokens : ℕ
  pub output_tokens : ℕ
  pub total_tokens : Option ℕ

pub record UsageDetails : Type 0 where
  pub prompt_cache_hit_tokens : Option ℕ
  pub prompt_cache_creation_tokens : Option ℕ

pub record SseDone : Type 0 where
  pub usage : Option Usage
  pub tool_calls : Option (List GatewayToolCall)
  pub finish_reason : Option FinishReason
  pub usage_details : Option UsageDetails
  pub system_fingerprint : Option String
  pub thinking_content : Option Text

-- Of the `meta` payload the facades read the id.
pub data SseEvent : Type 0 where
  meta : Text → SseEvent
  delta : Text → SseEvent
  done : SseDone → SseEvent

-- `toolCalls ?? []`; the code only asks whether there are any and walks them.
abbrev pub calls_of : Option (List GatewayToolCall) → List GatewayToolCall
calls_of none = []
calls_of (some calls) = calls

abbrev pub has_any {ℓ} : {A : Type ℓ} → List A → Bool
has_any [] = false
has_any (x ∷ xs) = true

-- map-provider-finish-reason.ts: the provider's stop reason to the gateway's.
unfoldable pub map_stop_reason_to_finish_reason :
    Option FinishReason → Option (List GatewayToolCall) → FinishReason
map_stop_reason_to_finish_reason (some max_tokens) calls = max_length
map_stop_reason_to_finish_reason (some max_length) calls = max_length
map_stop_reason_to_finish_reason reason calls =
    if has_any (calls_of calls) then tool_calls else elim reason [
      | some tool_use ↦ tool_calls
      | some FinishReason.tool_calls ↦ tool_calls
      | some content_filter ↦ content_filter
      | some refusal ↦ content_filter
      | _ ↦ stop
    ]

-- What follows the `meta` of a stream as the gateway emits it.
abbrev pub deltas : List Text → SseDone → List SseEvent
deltas [] d = done d ∷ []
deltas (t ∷ ts) d = delta t ∷ deltas ts d
