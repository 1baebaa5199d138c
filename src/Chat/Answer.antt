-- ===== src/Chat/Answer.antt =====
-- Answers: src/chat/services/chat-response-builder.service.ts, ChatResponseData of
-- src/chat/dto/chat-response.dto.ts, src/cache/types/cached-chat-response.type.ts,
-- src/chat/helpers/to-cached-chat-response.ts, shouldStoreChatResponse of src/chat/helpers/cache-policy.ts
-- and src/cache/helpers/is-unservable-cached-reply.ts.
use ai_provider_gateway.Prelude.{
  ℕ, ◌+◌, Bool, true, false, not, ◌&&◌, ◌||◌, Option, none, some, String, List, or_else, str_eq,
  if◌then◌else◌,
}
use ai_provider_gateway.Prelude.Texts.{Text, trim, is_empty}
use ai_provider_gateway.Params.Numbers.{Numbers}
use ai_provider_gateway.Params.Resolve.{Options}
use ai_provider_gateway.Facade.Events.{
  GatewayToolCall, FinishReason, Usage, UsageDetails, SseDone, calls_of, has_any,
  map_stop_reason_to_finish_reason,
}
use ai_provider_gateway.Facade.Events
use ai_provider_gateway.Providers.Registry.{ProviderType}
use ai_provider_gateway.Chat.Warnings.{ChatWarning, build_generation_warnings}

-- `usage` of an answer, each field of which may be absent.
pub record ResponseUsage : Type 0 where
  pub input_tokens : Option ℕ
  pub output_tokens : Option ℕ
  pub total_tokens : Option ℕ

pub record ProviderChatResponse : Type 0 where
  pub text : Text
  pub tool_calls : Option (List GatewayToolCall)
  pub stop_reason : Option FinishReason
  pub usage : Option ResponseUsage
  pub usage_details : Option UsageDetails
  pub system_fingerprint : Option String
  pub thinking_content : Option Text

pub record ChatResponseData : Type 0 where
  pub id : Text
  pub provider : String
  pub model : String
  pub effective_model_alias : Option String
  pub text : Text
  pub usage : Option ResponseUsage
  pub request_id : String
  pub conversation_id : Text
  pub tool_calls : Option (List GatewayToolCall)
  pub finish_reason : Option FinishReason
  pub usage_details : Option UsageDetails
  pub system_fingerprint : Option String
  pub thinking_content : Option Text
  pub warnings : List ChatWarning

pub record CachedChatResponse : Type 0 where
  pub id : Text
  pub provider : String
  pub model : String
  pub text : Text
  pub usage : Option (ℕ × ℕ)
  pub cached_at : Text
  pub finish_reason : FinishReason
  pub warnings : List ChatWarning
  pub thinking_content : Option Text
  pub effective_model_alias : Option String
  pub usage_details : Option UsageDetails
  pub system_fingerprint : Option String

-- `...(value && { … })` and the like: an empty value counts as none.
abbrev non_empty : Option Text → Option Text
non_empty none = none
non_empty (some t) = if is_empty t then none else some t

abbrev non_empty_name : Option String → Option String
non_empty_name none = none
non_empty_name (some s) = if str_eq s "" then none else some s

abbrev non_empty_calls : Option (List GatewayToolCall) → Option (List GatewayToolCall)
non_empty_calls calls = if has_any (calls_of calls) then calls else none

-- `id` is the id given, or the one made of a new UUID. The options and the provider's type are given
-- by every caller.
unfoldable pub build_chat_response :
    (n : Numbers)
    → ProviderChatResponse
    → (provider_name model_alias request_id : String) (conversation_id : Text) → Option String
    → Options n
    → ProviderType
    → Text
    → ChatResponseData
build_chat_response n response provider_name model_alias request_id conversation_id effective
      options t id =
    record {
      id = id;
      provider = provider_name;
      model = model_alias;
      effective_model_alias = non_empty_name effective;
      text = response.text;
      usage = response.usage;
      request_id = request_id;
      conversation_id = conversation_id;
      tool_calls = non_empty_calls response.tool_calls;
      finish_reason =
          some (map_stop_reason_to_finish_reason response.stop_reason response.tool_calls);
      usage_details = response.usage_details;
      system_fingerprint = non_empty_name response.system_fingerprint;
      thinking_content = non_empty response.thinking_content;
      warnings = build_generation_warnings n options t;
    }

-- The payload of the `done` event, without its warnings and its effective alias.
unfoldable pub build_stream_done_event :
    Option (ℕ × ℕ)
    → Option (List GatewayToolCall)
    → Option FinishReason
    → Option String
    → Option Text
    → Option UsageDetails
    → SseDone
build_stream_done_event usage tool_calls stop_reason fingerprint thinking details = record {
  usage = elim usage [
    | none ↦ none
    | some (input, output) ↦ some (record {
      input_tokens = input;
      output_tokens = output;
      total_tokens = some (input + output);
    })
  ];
  tool_calls = non_empty_calls tool_calls;
  finish_reason = some (map_stop_reason_to_finish_reason stop_reason tool_calls);
  usage_details = details;
  system_fingerprint = non_empty_name fingerprint;
  thinking_content = non_empty thinking;
}

abbrev pub is_stop : FinishReason → Bool
is_stop Events.stop = true
is_stop r = false

abbrev pub stopped : Option FinishReason → Bool
stopped none = false
stopped (some r) = is_stop r

unfoldable pub should_store_chat_response : ChatResponseData → Bool
should_store_chat_response response =
    stopped response.finish_reason
    && (not (is_empty (trim response.text)) && not (has_any (calls_of response.tool_calls)))

unfoldable pub is_unservable_cached_reply : CachedChatResponse → Bool
is_unservable_cached_reply reply = not (is_stop reply.finish_reason) || is_empty (trim reply.text)

-- `now` is the time in ISO notation.
unfoldable pub to_cached_chat_response : Text → ChatResponseData → CachedChatResponse
to_cached_chat_response now response = record {
  id = response.id;
  provider = response.provider;
  model = response.model;
  text = response.text;
  usage = elim response.usage [
    | none ↦ none
    | some u ↦ some (or_else u.input_tokens 0, or_else u.output_tokens 0)
  ];
  cached_at = now;
  finish_reason = or_else response.finish_reason Events.stop;
  warnings = response.warnings;
  thinking_content = non_empty response.thinking_content;
  effective_model_alias = non_empty_name response.effective_model_alias;
  usage_details = response.usage_details;
  system_fingerprint = non_empty_name response.system_fingerprint;
}
