-- ===== src/Facade/OpenAi/Requests/Tooling.antt =====
-- The tools of an OpenAI client, as an OpenAI provider gets them.
use ai_provider_gateway.Prelude.{◌≡◌, Bool, false, Option, none, some, List, [], ◌∷◌, str_eq}
use ai_provider_gateway.Prelude.Texts.{Text, is_empty}
use ai_provider_gateway.Errors.{Settled, returned, ◌>>=◌}
use ai_provider_gateway.Chat.ProviderInput.{provider_tools}
use ai_provider_gateway.Providers.OpenAi.{
  tool_params, ToolParam, ToolChoiceParam, auto_choice, no_choice, required_choice, function,
}
use ai_provider_gateway.Facade.OpenAi.Requests.{
  RawItem, object, RawChoice, falsy, text, item, map_open_ai_tools_to_gateway,
  map_open_ai_tool_choice,
}

abbrev pub written_tool : ToolParam × Option Bool → RawItem
written_tool (tool, strict) = object (record {
  raw_type = some "function";
  id = none;
  function = some (record {
    name = some tool.name;
    arguments = none;
    description = tool.description;
    parameters = some tool.parameters;
    strict = strict;
  });
})

abbrev pub written_choice : Option ToolChoiceParam → RawChoice
written_choice none = falsy
written_choice (some auto_choice) = text "auto"
written_choice (some no_choice) = text "none"
written_choice (some required_choice) = text "required"
written_choice (some (function name)) = item (
    object (record {
      raw_type = some "function";
      id = none;
      function = some (record {
        name = some name;
        arguments = none;
        description = none;
        parameters = none;
        strict = none;
      });
    }))

abbrev pub HasText : Option Text → Type 0
HasText none = Unit
HasText (some t) = is_empty t ≡ false

pub record IsTool (tool : ToolParam) : Type 0 where
  pub has_name : str_eq tool.name "" ≡ false
  pub has_text : HasText tool.description

abbrev pub tools_of : List (ToolParam × Option Bool) → List ToolParam
tools_of [] = []
tools_of ((tool, strict) ∷ tools) = tool ∷ tools_of tools

abbrev pub IsChoice : Option ToolChoiceParam → Type 0
IsChoice (some (function name)) = str_eq name "" ≡ false
IsChoice other = Unit

-- A choice of tools is sent with tools alone.
abbrev pub chosen_among : List ToolParam → Option ToolChoiceParam → Option ToolChoiceParam
chosen_among [] choice = none
chosen_among (tool ∷ tools) choice = choice

-- The tooling of a client, on its way through the request of the gateway and the input of the provider to what the
-- provider is asked with.
abbrev pub relay_tooling :
    List RawItem → RawChoice → Settled (List ToolParam × Option ToolChoiceParam)
relay_tooling tools choice = map_open_ai_tools_to_gateway tools >>= λ definitions.
    map_open_ai_tool_choice choice >>= λ chosen.
    returned (tool_params (provider_tools definitions chosen))
