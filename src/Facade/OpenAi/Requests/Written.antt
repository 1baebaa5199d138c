-- ===== src/Facade/OpenAi/Requests/Written.antt =====
-- What a client of OpenAI's API writes, from the messages that it has.
use ai_provider_gateway.Prelude.{
  ◌≡◌, true, false, Option, none, some, List, [], ◌∷◌, map, is_some, or_else, str_eq, All,
}
use ai_provider_gateway.Prelude.Texts.{Text, is_empty}
use ai_provider_gateway.Facade.Events.{GatewayToolCall}
use ai_provider_gateway.Providers.OpenAi.{
  MessageParam, system_param, user_param, assistant_param, tool_param,
}
use ai_provider_gateway.Facade.OpenAi.Requests.{
  RawItem, object, OpenAiMessage, system, user, assistant, tool,
}

-- What a client of the API writes for a message: a content of null arrives as the empty text.
abbrev pub item_of : GatewayToolCall → RawItem
item_of call = object (record {
  raw_type = some "function";
  id = some call.id;
  function = some (record {
    name = some call.name;
    arguments = some call.arguments;
    description = none;
    parameters = none;
    strict = none;
  });
})

abbrev pub items_of : List GatewayToolCall → Option (List RawItem)
items_of [] = none
items_of (call ∷ calls) = some (map item_of (call ∷ calls))

-- What the gateway reads nowhere: the name of who speaks, and the refusal of an assistant.
pub record Labels : Type 0 where
  pub name : Option Text
  pub refusal : Option Text

abbrev pub written_as : MessageParam × Labels → OpenAiMessage
written_as (system_param content, labels) = record {
  role = system;
  content = content;
  tool_call_id = none;
  tool_calls = none;
  name = labels.name;
  refusal = labels.refusal;
}
written_as (user_param content, labels) = record {
  role = user;
  content = content;
  tool_call_id = none;
  tool_calls = none;
  name = labels.name;
  refusal = labels.refusal;
}
written_as (assistant_param content calls, labels) = record {
  role = assistant;
  content = or_else content [];
  tool_call_id = none;
  tool_calls = items_of calls;
  name = labels.name;
  refusal = labels.refusal;
}
written_as (tool_param id content, labels) = record {
  role = tool;
  content = content;
  tool_call_id = some id;
  tool_calls = none;
  name = labels.name;
  refusal = labels.refusal;
}

abbrev pub params_of : List (MessageParam × Labels) → List MessageParam
params_of [] = []
params_of ((p, labels) ∷ ps) = p ∷ params_of ps

-- A call has an id, a name and arguments.
pub record IsCall (call : GatewayToolCall) : Type 0 where
  pub has_id : str_eq call.id "" ≡ false
  pub has_name : str_eq call.name "" ≡ false
  pub has_arguments : is_empty call.arguments ≡ false

-- An assistant writes a text, or calls tools with a text that is not empty or none.
abbrev pub IsAnswer : Option Text → List GatewayToolCall → Type 0
IsAnswer content [] = is_some content ≡ true
IsAnswer none (call ∷ calls) = All IsCall (call ∷ calls)
IsAnswer (some text) (call ∷ calls) = (is_empty text ≡ false) × All IsCall (call ∷ calls)

abbrev pub IsSendable : MessageParam → Type 0
IsSendable (assistant_param content calls) = IsAnswer content calls
IsSendable (tool_param id content) = str_eq id "" ≡ false
IsSendable other = Unit

abbrev pub without_system : List MessageParam → List MessageParam
without_system [] = []
without_system (system_param content ∷ ps) = without_system ps
without_system (user_param content ∷ ps) = user_param content ∷ without_system ps
without_system (assistant_param content calls ∷ ps) =
    assistant_param content calls ∷ without_system ps
without_system (tool_param id content ∷ ps) = tool_param id content ∷ without_system ps
