-- ===== src/Facade/OpenAi/Requests/Relaying.antt =====
-- What an OpenAI client sent, as an OpenAI provider gets it.
use ai_provider_gateway.Prelude.{Option, none, some, List, [], ◌∷◌, or_else}
use ai_provider_gateway.Prelude.Texts.{Text}
use ai_provider_gateway.Errors.{Settled, returned, ◌>>=◌}
use ai_provider_gateway.Facade.Events.{GatewayToolCall}
use ai_provider_gateway.Chat.Request.{Message}
use ai_provider_gateway.Chat.Request
use ai_provider_gateway.Chat.ProviderInput.{
  ProviderChatTurn, user_turn, assistant_turn, tool_turn, to_provider_turns,
}
use ai_provider_gateway.Providers.OpenAi.{
  MessageParam, system_param, user_param, assistant_param, tool_param, map_assistant_turn,
  map_turns_to_open_ai_messages,
}
use ai_provider_gateway.Facade.OpenAi.Requests.{
  OpenAiMessage, push_found, some_calls, map_open_ai_messages_to_gateway,
}

-- What the gateway makes of a message, and what it asks of the provider for it.
abbrev received : MessageParam → Option Message
received (system_param content) = none
received (user_param content) =
    some (record { role = Request.user; content = content; tool_call_id = none; tool_calls = none })
received (assistant_param content calls) = some (record {
  role = Request.assistant;
  content = or_else content [];
  tool_call_id = none;
  tool_calls = some_calls calls;
})
received (tool_param id content) =
    some
      (record { role = Request.tool; content = content; tool_call_id = some id; tool_calls = none })

abbrev all_received : List MessageParam → List Message
all_received [] = []
all_received (p ∷ ps) = push_found (received p) (all_received ps)

abbrev param_of : ProviderChatTurn → MessageParam
unfolding map_assistant_turn
param_of (user_turn content) = user_param content
param_of (assistant_turn content calls) = map_assistant_turn content calls
param_of (tool_turn id content) = tool_param id content

-- The message of an assistant, with these calls.
abbrev spoken : Text → Option (List GatewayToolCall) → Settled (Option Message)
spoken content calls = returned (
    some (record {
      role = Request.assistant;
      content = content;
      tool_call_id = none;
      tool_calls = calls;
    }))

-- The turns that are asked of the provider.
abbrev turns_of : List MessageParam → List ProviderChatTurn
turns_of [] = []
turns_of (system_param content ∷ ps) = turns_of ps
turns_of (user_param content ∷ ps) = user_turn content ∷ turns_of ps
turns_of (assistant_param content calls ∷ ps) =
    assistant_turn (or_else content []) calls ∷ turns_of ps
turns_of (tool_param id content ∷ ps) = tool_turn id content ∷ turns_of ps

-- The way of a conversation from the facade to the provider, with the prompt of the gateway.
abbrev pub relay : List OpenAiMessage → Option Text → Settled (List MessageParam)
relay messages prompt = map_open_ai_messages_to_gateway messages >>= λ found.
    to_provider_turns found >>= λ turns. returned (map_turns_to_open_ai_messages turns prompt)
