-- ===== src/Facade/OpenAi/Requests.antt =====
-- What an OpenAI client asks of the facade: src/integrations/openai/mappers/openai-messages.mapper.ts,
-- openai-tools.mapper.ts and openai-request.mapper.ts. `metadata` goes on as the body has it.
pub mod Written
pub mod Relaying
pub mod Tooling
use ai_provider_gateway.Prelude.{
  ℕ, Bool, true, false, not, ◌&&◌, ◌||◌, Option, none, some, String, List, [], ◌∷◌, ◌++◌, map,
  is_some, or_else, str_eq, if◌then◌else◌, any,
}
use ai_provider_gateway.Prelude.Texts.{Text, units, is_empty}
use ai_provider_gateway.Prelude.Json.{Json, Fields, end}
use ai_provider_gateway.Errors.{
  Thrown, Settled, returned, threw, ◌>>=◌, http_error, validation_failed,
}
use ai_provider_gateway.Facade.Events.{
  GatewayToolCall, GatewayToolDefinition, GatewayToolChoice, auto, no_tool, required, function,
  has_any,
}
use ai_provider_gateway.Params.Numbers.{Numbers}
use ai_provider_gateway.Params.Resolve.{ParamKey, ThinkingBudget, Options, is_set}
use ai_provider_gateway.Chat.Request.{Role, Message, ChatRequest}
use ai_provider_gateway.Chat.Request
use ai_provider_gateway.Params.Resolve

-- The fields of a value of type unknown, as the mappers cast it: absent or of the type they name.
pub record RawFunction : Type 0 where
  pub name : Option String
  pub arguments : Option Text
  pub description : Option Text
  pub parameters : Option Fields
  pub strict : Option Bool

pub record RawObject : Type 0 where
  pub raw_type : Option String
  pub id : Option String
  pub function : Option RawFunction

pub data RawItem : Type 0 where
  not_object : RawItem
  object : RawObject → RawItem

pub data OpenAiRole : Type 0 where
  system user assistant tool : OpenAiRole

pub record OpenAiMessage : Type 0 where
  pub role : OpenAiRole
  pub content : Text
  pub tool_call_id : Option String
  pub tool_calls : Option (List RawItem)
  pub name : Option Text
  pub refusal : Option Text

-- A text that is there and not empty, which a test in the code takes for true.
abbrev pub is_given : Option String → Bool
is_given none = false
is_given (some s) = not (str_eq s "")

abbrev pub is_function : Option String → Bool
is_function none = false
is_function (some t) = str_eq t "function"

abbrev pub function_name : Option RawFunction → Option String
function_name none = none
function_name (some f) = f.name

abbrev pub arguments_of : Option RawFunction → Text
arguments_of none = units "{}"
arguments_of (some f) = or_else f.arguments (units "{}")

abbrev pub is_named : RawObject → Bool
is_named raw = is_function raw.raw_type && is_given (function_name raw.function)

abbrev pub tool_call_of : RawItem → Option GatewayToolCall
tool_call_of not_object = none
tool_call_of (object raw) =
    if is_named raw && is_given raw.id
    then some (record {
      id = or_else raw.id "";
      name = or_else (function_name raw.function) "";
      arguments = arguments_of raw.function;
    })
    else none

-- `if (found) list.push(found)`
abbrev pub push_found {ℓ} : {A : Type ℓ} → Option A → List A → List A
push_found none rest = rest
push_found (some a) rest = a ∷ rest

unfoldable pub map_open_ai_tool_calls : List RawItem → List GatewayToolCall
map_open_ai_tool_calls [] = []
map_open_ai_tool_calls (item ∷ items) =
    push_found (tool_call_of item) (map_open_ai_tool_calls items)

abbrev pub some_calls : List GatewayToolCall → Option (List GatewayToolCall)
some_calls [] = none
some_calls (call ∷ calls) = some (call ∷ calls)

abbrev pub gateway_calls : Option (List RawItem) → Option (List GatewayToolCall)
unfolding map_open_ai_tool_calls
gateway_calls none = none
gateway_calls (some items) = some_calls (map_open_ai_tool_calls items)

abbrev pub missing_tool_call_id : Thrown
missing_tool_call_id =
    http_error 400 validation_failed (units "Tool messages must include tool_call_id")

-- One turn of the loop, for a message that is not of the system.
abbrev pub tool_message : Option String → Text → Settled Message
tool_message id content =
    if is_given id
    then returned
        (record { role = Request.tool; content = content; tool_call_id = id; tool_calls = none })
    else threw missing_tool_call_id

abbrev pub gateway_message : OpenAiMessage → Settled (Option Message)
gateway_message m = elim m.role [
  | system ↦ returned none
  | user ↦ returned (
      some (record {
        role = Request.user;
        content = m.content;
        tool_call_id = none;
        tool_calls = none;
      }))
  | assistant ↦ returned (
      some (record {
        role = Request.assistant;
        content = m.content;
        tool_call_id = none;
        tool_calls = gateway_calls m.tool_calls;
      }))
  | tool ↦ tool_message m.tool_call_id m.content >>= λ message. returned (some message)
]

unfoldable pub gateway_messages : List OpenAiMessage → Settled (List Message)
gateway_messages [] = returned []
gateway_messages (m ∷ ms) =
    gateway_message m >>= λ found. gateway_messages ms >>= λ rest. returned (push_found found rest)

abbrev pub no_messages : Thrown
no_messages =
    http_error 400 validation_failed
      (units "At least one user, assistant or tool message is required after filtering.")

unfoldable pub map_open_ai_messages_to_gateway : List OpenAiMessage → Settled (List Message)
unfolding gateway_messages
map_open_ai_messages_to_gateway ms =
    gateway_messages ms >>= λ found. if has_any found then returned found else threw no_messages

abbrev pub given_text : Option Text → Option Text
given_text none = none
given_text (some t) = if is_empty t then none else some t

abbrev pub definition_of : RawItem → Option GatewayToolDefinition
definition_of not_object = none
definition_of (object raw) = elim raw.function [
  | none ↦ none
  | some f ↦
      if is_named raw
      then some (record {
        name = or_else f.name "";
        description = given_text f.description;
        parameters = or_else f.parameters end;
      })
      else none
]

abbrev pub definitions_of : List RawItem → List GatewayToolDefinition
definitions_of [] = []
definitions_of (item ∷ items) = push_found (definition_of item) (definitions_of items)

unfoldable pub map_open_ai_tools_to_gateway : List RawItem → Settled (List GatewayToolDefinition)
map_open_ai_tools_to_gateway tools =
    let definitions = definitions_of tools in
    if has_any tools && not (has_any definitions)
    then threw (
        http_error 400 validation_failed
          (units "Tools must contain at least one valid function tool"))
    else returned definitions

-- `tool_choice` of type unknown: absent, null and their like; a text; another value.
pub data RawChoice : Type 0 where
  falsy : RawChoice
  text : String → RawChoice
  item : RawItem → RawChoice

abbrev invalid_choice : Settled (Option GatewayToolChoice)
invalid_choice = threw (http_error 400 validation_failed (units "Invalid tool_choice value"))

unfoldable pub map_open_ai_tool_choice : RawChoice → Settled (Option GatewayToolChoice)
map_open_ai_tool_choice falsy = returned none
map_open_ai_tool_choice (text t) =
    if str_eq t ""
    then returned none
    else if str_eq t "auto"
    then returned (some auto)
    else if str_eq t "none"
    then returned (some no_tool)
    else if str_eq t "required"
    then returned (some required)
    else invalid_choice
map_open_ai_tool_choice (item not_object) = invalid_choice
map_open_ai_tool_choice (item (object raw)) =
    if is_named raw
    then returned (some (function (or_else (function_name raw.function) "")))
    else invalid_choice
