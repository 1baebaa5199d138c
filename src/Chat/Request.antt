-- ===== src/Chat/Request.antt =====
-- What a chat request holds: src/chat/dto/chat-request.dto.ts and chat-message.dto.ts, as far as the
-- service reads them, with src/chat/helpers/tooling-request.ts and conversation-id.ts.
use ai_provider_gateway.Prelude.{
  Bool, true, false, ◌||◌, Option, none, some, String, List, any, if◌then◌else◌,
}
use ai_provider_gateway.Prelude.Texts.{Text, trim, is_empty}
use ai_provider_gateway.Facade.Events.{GatewayToolCall, calls_of, has_any}
use ai_provider_gateway.Params.Numbers.{Numbers}
use ai_provider_gateway.Params.Resolve.{ParamKey, Options}

pub data Role : Type 0 where
  user assistant tool : Role

abbrev pub is_tool : Role → Bool
is_tool tool = true
is_tool r = false

abbrev pub is_user : Role → Bool
is_user user = true
is_user r = false

abbrev pub is_assistant : Role → Bool
is_assistant assistant = true
is_assistant r = false

abbrev pub role_name : Role → String
role_name user = "user"
role_name assistant = "assistant"
role_name tool = "tool"

pub record Message : Type 0 where
  pub role : Role
  pub content : Text
  pub tool_call_id : Option String
  pub tool_calls : Option (List GatewayToolCall)

-- `params` with no field set stands for absent params too; `param_keys` is `Object.keys(params)`.
-- `tool_names` are the names in `tooling.definitions`.
pub record ChatRequest (n : Numbers) : Type 0 where
  pub model_alias : String
  pub messages : List Message
  pub param_keys : List ParamKey
  pub params : Options n
  pub conversation_id : Option Text
  pub tool_names : Option (List String)

abbrev pub names_of : Option (List String) → List String
names_of none = List.[]
names_of (some names) = names

module _ (n : Numbers) where
  unfoldable pub is_tooling_request : ChatRequest n → Bool
  is_tooling_request request =
      has_any (names_of request.tool_names)
      || any (λ (m : Message). is_tool m.role || has_any (calls_of m.tool_calls)) request.messages

  -- A trimmed id that is not empty.
  unfoldable pub get_client_conversation_id : ChatRequest n → Option Text
  get_client_conversation_id request = elim request.conversation_id [
    | none ↦ none
    | some id ↦ if is_empty (trim id) then none else some (trim id)
  ]

  -- `fresh` is the id made of a new UUID.
  unfoldable pub get_or_create_conversation_id : ChatRequest n → Text → Text
  unfolding get_client_conversation_id
  get_or_create_conversation_id request fresh = elim (get_client_conversation_id request) [
    | none ↦ fresh
    | some id ↦ id
  ]
