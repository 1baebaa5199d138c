-- ===== src/Examples/Chat.antt =====
-- Requests, providers and caches at concrete inputs.
use ai_provider_gateway.Prelude.{Bool, ◌==◌}
use ai_provider_gateway.Prelude.{
  ℕ, ◌+◌, ◌≤◌, ◌≡◌, ◌↔◌, ◌⊎◌, true, false, Option, none, some, String, [], ◌∷◌, str_eq, All, length,
  if◌then◌else◌,
}
use ai_provider_gateway.Prelude.Texts.{units}
use ai_provider_gateway.Prelude.Json.{num}
use ai_provider_gateway.Errors.{returned, threw, http, Response, ThrewHttp}
use ai_provider_gateway.Errors
use ai_provider_gateway.Facade.Events
use ai_provider_gateway.Params.Numbers.{naturals}
use ai_provider_gateway.Params.Resolve.{Options, Policy}
use ai_provider_gateway.Resilience.Executor.{settles}
use ai_provider_gateway.Providers.Registry.{
  anthropic, ProviderRow, ModelConfig, GatewayConfig, RegisteredProviderInstance, Instances,
  ResolvedProviderConfig,
}
use ai_provider_gateway.Cache.Circuit.{new_breaker}
use ai_provider_gateway.Chat.Request.{user, ChatRequest}
use ai_provider_gateway.Chat.Ingress.{
  native, Fits, ingress_limits, validate_chat_ingress, validate_chat_ingress_outcome,
}
use ai_provider_gateway.Chat.Answer.{ProviderChatResponse}
use ai_provider_gateway.Chat.Deployment.{Deployment, GatewayState, StreamFinal, opens}
use ai_provider_gateway.Chat.Service.{Incoming, ChatExecutionPrep}
use ai_provider_gateway.Examples.Memory.{in_memory, empty_memory}
use ai_provider_gateway.Examples.Stores.{
  string_memory, text_codec, length_backends, semantic_config,
}

abbrev pub nothing : Options naturals
nothing = record {
  temperature = none;
  max_output_tokens = none;
  top_p = none;
  top_k = none;
  stop = none;
  frequency_penalty = none;
  presence_penalty = none;
  seed = none;
  response_format = none;
  thinking_enabled = none;
  thinking_budget = none;
  parallel_tool_calls = none;
}

abbrev no_policy : Policy naturals
no_policy = record {
  defaults = record {
    temperature = none;
    max_output_tokens = none;
    top_p = none;
    frequency_penalty = none;
    presence_penalty = none;
    seed = none;
    thinking_enabled = none;
  };
  allow_overrides = [];
  bounds = record {
    temperature = none;
    max_output_tokens = none;
    top_p = none;
    frequency_penalty = none;
    presence_penalty = none;
  };
}

abbrev pub model : String → Option String → ModelConfig naturals
model id fallback = record {
  provider_instance = "p";
  model_id = id;
  fallback = fallback;
  capabilities = record { streaming = true; tools = true; thinking = false };
  policy = none;
  params = no_policy;
}

abbrev pub provider_row : String → Bool → ProviderRow
provider_row api_key_ref enabled = record {
  provider_type = anthropic;
  api_key_ref = api_key_ref;
  enabled = enabled;
  base_url_ref = none;
  api_surface = none;
}

-- "good" answers, "busy" says that there are too many requests.
abbrev pub gateway_config : GatewayConfig naturals
gateway_config = record {
  models = λ alias.
      if str_eq alias "good"
      then some (model "m-good" none)
      else if str_eq alias "busy"
      then some (model "m-busy" none)
      else none;
  providers = λ id. if str_eq id "p" then some (provider_row "P_API_KEY" true) else none;
}

abbrev pub instance_p : RegisteredProviderInstance
instance_p = record { instance_id = "p"; provider_type = anthropic; has_stream = true }

abbrev pub registered_p : Instances
registered_p id = if str_eq "p" id then some instance_p else none

abbrev pub hello : ProviderChatResponse
hello = record {
  text = units "hello";
  tool_calls = none;
  stop_reason = some Events.end_turn;
  usage = none;
  usage_details = none;
  system_fingerprint = none;
  thinking_content = none;
}

abbrev pub final : StreamFinal
final = record {
  usage = some (3, 4);
  tool_calls = none;
  stop_reason = some Events.end_turn;
  system_fingerprint = none;
  thinking_content = none;
  usage_details = none;
}

-- The providers' world counts the calls. The first stream breaks off.
abbrev pub gateway : Deployment naturals
gateway = record {
  number = num;
  sha256 = λ text. text;
  iso = λ now. units "today";
  http_message = λ status r. [];
  config = gateway_config;
  instances = registered_p;
  prompts = record { master = units "Be kind."; main = none; per_model_by_alias = λ alias. none };
  limits = none;
  key_prefix = units "aigw:";
  cache_ttl = none;
  has_semantic = true;
  connection = record { is_ready = true; has_client = true; fails = false };
  redis = in_memory;
  strings = string_memory;
  codec = text_codec;
  backends = length_backends;
  semantic = semantic_config;
  Providers = ℕ;
  complete = λ entry input id options calls. (
    settles 100 (if str_eq id "m-busy" then threw (http 429 (Errors.text [])) else returned hello),
    calls + 1,
  );
  stream = λ entry input id options calls. (
    if calls == 0
        then opens (units "hel" ∷ []) (settles 50 (threw (http 503 (Errors.text []))))
        else opens (units "hel" ∷ units "lo" ∷ []) (settles 100 (returned final)),
    calls + 1,
  );
}

abbrev pub idle : GatewayState gateway
idle = record {
  now = 1000;
  cooldowns = empty_memory;
  answers = λ k. none;
  circuit = new_breaker;
  vectors = 0;
  providers = 0;
}

abbrev pub request_for : String → ChatRequest naturals
request_for alias = record {
  model_alias = alias;
  messages =
      record { role = user; content = units "hi"; tool_call_id = none; tool_calls = none } ∷ [];
  param_keys = [];
  params = nothing;
  conversation_id = none;
  tool_names = none;
}

abbrev pub incoming_for : String → Incoming naturals
incoming_for alias = record {
  body = request_for alias;
  client_id = "web";
  request_id = "r-1";
  gateway_key = "key";
  profile = native;
  new_conversation_id = units "c-1";
  new_response_id = units "gw_1";
}

abbrev pub resolved_for : String → String → ResolvedProviderConfig naturals
resolved_for alias id = record {
  provider = instance_p;
  provider_name = "p";
  provider_type = anthropic;
  model_id = id;
  model_alias = alias;
  fallback_alias = none;
  capabilities = record { streaming = true; tools = true; thinking = false };
  policy = none;
  params = no_policy;
}

abbrev pub prep_for : String → String → ChatExecutionPrep naturals
prep_for alias id = record {
  primary_resolved = resolved_for alias id;
  options = nothing;
  response_conversation_id = units "c-1";
}

validate_chat_ingress_outcome_example :
    ((validate_chat_ingress (request_for "good") native ≡ returned tt) ↔ (
      (length (request_for "good").messages ≤ (ingress_limits native).max_messages)
      × All (Fits native) (request_for "good").messages))
    × ((validate_chat_ingress (request_for "good") native ≡ returned tt)
        ⊎ ThrewHttp 400 (validate_chat_ingress (request_for "good") native))
validate_chat_ingress_outcome_example =
    validate_chat_ingress_outcome naturals (request_for "good") native
