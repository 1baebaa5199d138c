-- ===== src/Providers/OpenAi.antt =====
-- What a provider is asked by chat completions, which serve type openai-compatible:
-- src/providers/openai/mappers/openai-messages-provider.mapper.ts, and the tools of a request, of
-- openai-tools-provider.mapper.ts and src/providers/openai/adapters/chat-completions.adapter.ts.
use ai_provider_gateway.Prelude.{
  Option, none, some, String, List, [], ◌∷◌, ◌++◌, map, if◌then◌else◌,
}
use ai_provider_gateway.Prelude.Texts.{Text, units, trim, is_empty}
use ai_provider_gateway.Prelude.Json.{Fields}
use ai_provider_gateway.Facade.Events.{
  GatewayToolCall, GatewayToolDefinition, GatewayToolChoice, auto, no_tool, required,
}
use ai_provider_gateway.Chat.ProviderInput.{ProviderChatTurn, user_turn, assistant_turn, tool_turn}

-- ChatCompletionMessageParam: a content of null is `none`, and absent tool calls are none at all.
pub data MessageParam : Type 0 where
  system_param user_param : Text → MessageParam
  assistant_param : Option Text → List GatewayToolCall → MessageParam
  tool_param : String → Text → MessageParam

abbrev pub filled_call : GatewayToolCall → GatewayToolCall
filled_call call = record call {
  arguments = if is_empty call.arguments then units "{}" else call.arguments;
}

unfoldable pub map_assistant_turn : Text → List GatewayToolCall → MessageParam
map_assistant_turn content [] = assistant_param (some content) []
map_assistant_turn content (call ∷ calls) =
    assistant_param (if is_empty content then none else some content)
      (map filled_call (call ∷ calls))

-- `results`: what the inner loop has collected of a run of tool turns.
unfoldable pub each_turn : (results : List MessageParam) → List ProviderChatTurn → List MessageParam
unfolding map_assistant_turn
each_turn results [] = results
each_turn results (user_turn content ∷ turns) = results ++ (user_param content ∷ each_turn [] turns)
each_turn results (assistant_turn content calls ∷ turns) =
    results ++ (map_assistant_turn content calls ∷ each_turn [] turns)
each_turn results (tool_turn id content ∷ turns) =
    each_turn (results ++ (tool_param id content ∷ [])) turns

abbrev pub system_params : Option Text → List MessageParam
system_params none = []
system_params (some system) = if is_empty (trim system) then [] else system_param system ∷ []

unfoldable pub map_turns_to_open_ai_messages :
    List ProviderChatTurn → (system : Option Text) → List MessageParam
unfolding each_turn
map_turns_to_open_ai_messages turns system = system_params system ++ each_turn [] turns

-- ChatCompletionTool, and the tool choice of a chat completion.
pub record ToolParam : Type 0 where
  pub name : String
  pub description : Option Text
  pub parameters : Fields

pub data ToolChoiceParam : Type 0 where
  auto_choice no_choice required_choice : ToolChoiceParam
  function : String → ToolChoiceParam

abbrev pub told : Option Text → Option Text
told none = none
told (some t) = if is_empty t then none else some t

unfoldable pub map_tools_to_open_ai : List GatewayToolDefinition → List ToolParam
map_tools_to_open_ai tools =
    map
      (λ (tool : GatewayToolDefinition). record {
        name = tool.name;
        description = told tool.description;
        parameters = tool.parameters;
      })
      tools

unfoldable pub map_tool_choice_to_open_ai : Option GatewayToolChoice → Option ToolChoiceParam
map_tool_choice_to_open_ai none = none
map_tool_choice_to_open_ai (some auto) = some auto_choice
map_tool_choice_to_open_ai (some no_tool) = some no_choice
map_tool_choice_to_open_ai (some required) = some required_choice
map_tool_choice_to_open_ai (some (GatewayToolChoice.function name)) = some (function name)

-- `tools` and `tool_choice` of the parameters of a chat completion, of an input with tools and a choice.
abbrev pub tool_params :
    List GatewayToolDefinition × Option GatewayToolChoice → List ToolParam × Option ToolChoiceParam
tool_params ([], choice) = ([], none)
tool_params (tool ∷ tools, choice) =
    (map_tools_to_open_ai (tool ∷ tools), map_tool_choice_to_open_ai choice)
