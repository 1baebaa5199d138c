-- ===== src/Cache/Identity.antt =====
-- What an answer is cached under: src/cache/cache-identity.ts, src/cache/semantic/last-user-message.ts,
-- src/chat/helpers/to-chat-cache-identity.ts and isCachedChatAllowedForModelAlias of
-- src/chat/helpers/cache-policy.ts. The hash function and the notation of doubles are parameters.
use ai_provider_gateway.Prelude.{
  ℕ, ◌+◌, Bool, false, not, ◌&&◌, ◌||◌, Option, none, some, String, List, [], ◌∷◌, ◌++◌, ◌==◌,
  if◌then◌else◌,
}
use ai_provider_gateway.Prelude.Texts.{Text, units, trim, is_empty}
use ai_provider_gateway.Prelude.Json.{
  Json, null, num, str, arr, obj, Items, nil, cons, Fields, field, end, lit, stringify,
}
use ai_provider_gateway.Facade.Events.{GatewayToolCall}
use ai_provider_gateway.Params.Numbers.{Numbers}
use ai_provider_gateway.Params.Resolve.{ThinkingBudget, effort, tokens, Options}
use ai_provider_gateway.Providers.Registry.{GatewayConfig}
use ai_provider_gateway.Chat.Request.{
  is_user, is_assistant, is_tool, role_name, Message, ChatRequest,
}
use ai_provider_gateway.Chat.ProviderInput.{ResolvedSystemPrompts}

-- The messages of an identity have the fields of the request's messages.
pub record ChatCacheIdentity (n : Numbers) : Type 0 where
  pub model_alias : String
  pub client_id : String
  pub messages : List Message
  pub call_params : Options n

unfoldable pub to_chat_cache_identity :
    {n : Numbers} → ChatRequest n → String → Options n → ChatCacheIdentity n
to_chat_cache_identity request client_id options = record {
  model_alias = request.model_alias;
  client_id = client_id;
  messages = request.messages;
  call_params = options;
}

-- The last user message with a text, trimmed.
unfoldable pub last_user_message_text : List Message → Option Text
last_user_message_text [] = none
last_user_message_text (m ∷ ms) =
    let later = last_user_message_text ms in
    elim later [
      | some text ↦ some text
      | none ↦
          if is_user m.role && not (is_empty (trim m.content)) then some (trim m.content) else none
    ]

-- The loop of `isSingleTurnUserRequest`, with the user messages so far.
unfoldable pub single_turn_from : ℕ → List Message → Bool
single_turn_from count [] = count == 1
single_turn_from count (m ∷ ms) =
    let rest = single_turn_from (if is_user m.role then count + 1 else count) ms in
    if is_assistant m.role || is_tool m.role then false else rest

unfoldable pub is_single_turn_user_request : List Message → Bool
unfolding single_turn_from
is_single_turn_user_request messages = single_turn_from 0 messages

unfoldable pub is_cached_chat_allowed_for_model_alias :
    {n : Numbers} → GatewayConfig n → String → Bool
is_cached_chat_allowed_for_model_alias config alias = elim (config.models alias) [
  | none ↦ false
  | some model ↦ elim (config.providers model.provider_instance) [
    | none ↦ false
    | some row ↦ row.enabled
  ]
]

abbrev or_empty : Option Text → Text
or_empty none = []
or_empty (some t) = t

-- The hash is fed piece by piece; the pieces are joined.
unfoldable pub compute_system_signature :
    (sha256 : Text → Text) → ResolvedSystemPrompts → String → Text
compute_system_signature sha256 prompts alias = sha256 (
    prompts.master
    ++ (units "|"
        ++ (or_empty prompts.main ++ (units "|" ++ or_empty (prompts.per_model_by_alias alias)))))

module _ (n : Numbers) (number : n.N → Json) where
  abbrev number_or_null : Option n.N → Json
  number_or_null none = null
  number_or_null (some v) = number v

  abbrev natural_or_null : Option ℕ → Json
  natural_or_null none = null
  natural_or_null (some v) = num v

  abbrev json_or_null : Option Json → Json
  json_or_null none = null
  json_or_null (some v) = v

  abbrev bool_or_null : Option Bool → Json
  bool_or_null none = null
  bool_or_null (some v) = Json.bool v

  abbrev budget_or_null : Option ThinkingBudget → Json
  budget_or_null none = null
  budget_or_null (some (effort name)) = lit name
  budget_or_null (some (tokens t)) = num t

  unfoldable pub serialize_call_params_for_cache : Options n → Fields
  serialize_call_params_for_cache o = field "temperature" (number_or_null o.temperature) (
      field "maxOutputTokens" (natural_or_null o.max_output_tokens) (
        field "topP" (number_or_null o.top_p) (
          field "topK" (number_or_null o.top_k) (
            field "stop" (json_or_null o.stop) (
              field "frequencyPenalty" (number_or_null o.frequency_penalty) (
                field "presencePenalty" (number_or_null o.presence_penalty) (
                  field "seed" (number_or_null o.seed) (
                    field "responseFormat" (json_or_null o.response_format) (
                      field "thinkingEnabled" (bool_or_null o.thinking_enabled) (
                        field "thinkingBudget" (budget_or_null o.thinking_budget) (
                          field "parallelToolCalls" (bool_or_null o.parallel_tool_calls)
                            end)))))))))))

  unfoldable pub hash_call_params : (sha256 : Text → Text) → Options n → Text
  unfolding serialize_call_params_for_cache
  hash_call_params sha256 o = sha256 (stringify (obj (serialize_call_params_for_cache o)))

  abbrev call_items : List GatewayToolCall → Items
  call_items [] = nil
  call_items (c ∷ cs) =
      cons
        (obj (
          field "id" (lit c.id)
            (field "name" (lit c.name) (field "arguments" (str c.arguments) end))))
        (call_items cs)

  -- An absent field is left out.
  abbrev calls_field : Option (List GatewayToolCall) → Fields
  calls_field none = end
  calls_field (some calls) = field "toolCalls" (arr (call_items calls)) end

  abbrev id_field : Option String → Fields → Fields
  id_field none rest = rest
  id_field (some id) rest = field "toolCallId" (lit id) rest

  abbrev message_items : List Message → Items
  message_items [] = nil
  message_items (m ∷ ms) =
      cons
        (obj (
          field "role" (lit (role_name m.role))
            (field "content" (str m.content) (id_field m.tool_call_id (calls_field m.tool_calls)))))
        (message_items ms)

  -- The text that is hashed for the exact key.
  unfoldable pub identity_payload :
      (sha256 : Text → Text) → ResolvedSystemPrompts → ChatCacheIdentity n → Text
  unfolding serialize_call_params_for_cache
  identity_payload sha256 prompts identity = stringify (
      obj (
        field "modelAlias" (lit identity.model_alias) (
          field "clientId" (lit identity.client_id) (
            field "messages" (arr (message_items identity.messages)) (
              field "systemSignature"
                (str (compute_system_signature sha256 prompts identity.model_alias))
                (field "callParams" (obj (serialize_call_params_for_cache identity.call_params))
                  end))))))

  -- `prefix` is the configured key prefix, "aigw:" if none is.
  unfoldable pub build_identity_key :
      (sha256 : Text → Text) → Text → ResolvedSystemPrompts → ChatCacheIdentity n → Text
  unfolding identity_payload
  build_identity_key sha256 prefix prompts identity =
      prefix ++ (units "cache:chat:" ++ sha256 (identity_payload sha256 prompts identity))
