-- ===== src/Chat/ProviderInput.antt =====
-- src/chat/helpers/provider-input.ts and system-prompt.ts: what a provider is asked. The metadata
-- goes on to the provider as the request has it.
use ai_provider_gateway.Prelude.{
  Option, none, some, String, List, [], ◌∷◌, ◌++◌, str_eq, if◌then◌else◌,
}
use ai_provider_gateway.Prelude.Texts.{Text, units, trim, is_empty}
use ai_provider_gateway.Prelude.Json.{field, end, lit, obj, single}
use ai_provider_gateway.Errors.{
  Thrown, http, Settled, returned, threw, ◌>>=◌, payload, validation_failed,
}
use ai_provider_gateway.Facade.Events.{
  GatewayToolCall, GatewayToolDefinition, GatewayToolChoice, calls_of,
}
use ai_provider_gateway.Params.Numbers.{Numbers}
use ai_provider_gateway.Chat.Request.{user, assistant, tool, Message, ChatRequest}

pub record ResolvedSystemPrompts : Type 0 where
  pub master : Text
  pub main : Option Text
  pub per_model_by_alias : String → Option Text

abbrev pub joiner : Text
joiner = 10 ∷ 10 ∷ []

abbrev joined_part : Option Text → Text
joined_part none = []
joined_part (some part) = if is_empty part then [] else joiner ++ trim part

-- The trimmed parts, joined by two line feeds; an empty optional part is left out.
unfoldable pub compose_system_prompt : ResolvedSystemPrompts → String → Text
compose_system_prompt prompts alias =
    trim prompts.master
    ++ (joined_part prompts.main ++ joined_part (prompts.per_model_by_alias alias))

pub data ProviderChatTurn : Type 0 where
  user_turn : Text → ProviderChatTurn
  assistant_turn : Text → List GatewayToolCall → ProviderChatTurn
  tool_turn : String → Text → ProviderChatTurn

unfoldable pub missing_tool_call_id : Thrown
unfolding payload
missing_tool_call_id = http 400 (
    payload validation_failed (units "Tool messages must include toolCallId")
      (single (obj (field "field" (lit "messages[].toolCallId") end))))

unfoldable pub tool_turn_of : Option String → Text → Settled ProviderChatTurn
unfolding missing_tool_call_id
tool_turn_of none content = threw missing_tool_call_id
tool_turn_of (some id) content =
    if str_eq id "" then threw missing_tool_call_id else returned (tool_turn id content)

unfoldable pub turn_of : Message → Settled ProviderChatTurn
unfolding tool_turn_of
turn_of m = elim m.role [
  | user ↦ returned (user_turn m.content)
  | assistant ↦ returned (assistant_turn m.content (calls_of m.tool_calls))
  | tool ↦ tool_turn_of m.tool_call_id m.content
]

unfoldable pub to_provider_turns : List Message → Settled (List ProviderChatTurn)
unfolding turn_of
to_provider_turns [] = returned []
to_provider_turns (m ∷ ms) = turn_of m >>= λ t. to_provider_turns ms >>= λ ts. returned (t ∷ ts)

-- `input.tools` and `input.toolChoice`: a choice goes with tools alone.
abbrev pub provider_tools :
    List GatewayToolDefinition
    → Option GatewayToolChoice
    → List GatewayToolDefinition × Option GatewayToolChoice
provider_tools [] choice = ([], none)
provider_tools (definition ∷ definitions) choice = (definition ∷ definitions, choice)

pub record ProviderChatInput (n : Numbers) : Type 0 where
  pub system : Text
  pub messages : List ProviderChatTurn
  pub request : ChatRequest n

unfoldable pub build_provider_input_for_alias :
    {n : Numbers} → ChatRequest n → String → ResolvedSystemPrompts → Settled (ProviderChatInput n)
unfolding to_provider_turns compose_system_prompt
build_provider_input_for_alias request alias prompts =
    to_provider_turns request.messages >>= λ turns.
    returned
      (record { system = compose_system_prompt prompts alias; messages = turns; request = request })
