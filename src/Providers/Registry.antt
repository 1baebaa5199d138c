-- ===== src/Providers/Registry.antt =====
-- src/providers/provider-registry.service.ts, with the parts of the gateway configuration that it
-- reads. A map or an object is a function from names;
-- names that every JavaScript object has, such as "constructor", are left out.
use ai_provider_gateway.Prelude.{
  Bool, not, Option, none, some, String, str_eq, or_else, is_some, if◌then◌else◌, ◌++◌,
}
use ai_provider_gateway.Prelude.Texts.{Text, units}
use ai_provider_gateway.Prelude.Json.{str, lit, num, field, end}
use ai_provider_gateway.Errors.{
  Thrown, http, object, Settled, returned, threw, ◌>>=◌, http_error, model_alias_not_found,
  validation_failed, provider_unsupported,
}
use ai_provider_gateway.Params.Numbers.{Numbers}
use ai_provider_gateway.Params.Resolve.{ThinkingBudget, effort, tokens, Options}
use ai_provider_gateway.Params.Resolve
use ai_provider_gateway.Resilience.Policy.{
  PolicySource, default_timeout_ms, default_max_attempts, default_on_status,
}

pub data ProviderType : Type 0 where
  anthropic google openai openai_compatible : ProviderType

abbrev pub provider_type_name : ProviderType → String
provider_type_name anthropic = "anthropic"
provider_type_name google = "google"
provider_type_name openai = "openai"
provider_type_name openai_compatible = "openai-compatible"

abbrev pub same_type : ProviderType → ProviderType → Bool
same_type a b = str_eq (provider_type_name a) (provider_type_name b)

-- An absent capability is false.
pub record Capabilities : Type 0 where
  pub streaming : Bool
  pub tools : Bool
  pub thinking : Bool

-- `apiSurface`, where it is set, is "chat-completions", the one value that the schema knows.
pub data ApiSurface : Type 0 where
  chat_completions : ApiSurface

pub record ProviderRow : Type 0 where
  pub provider_type : ProviderType
  pub api_key_ref : String
  pub enabled : Bool
  pub base_url_ref : Option String
  pub api_surface : Option ApiSurface

-- `policy.params`, absent or not, is `params`: the code reads an absent one as empty.
pub record ModelConfig (n : Numbers) : Type 0 where
  pub provider_instance : String
  pub model_id : String
  pub fallback : Option String
  pub capabilities : Capabilities
  pub policy : Option PolicySource
  pub params : Resolve.Policy n

pub record GatewayConfig (n : Numbers) : Type 0 where
  pub models : String → Option (ModelConfig n)
  pub providers : String → Option ProviderRow

-- `has_stream`: the adapter has the optional method `stream`.
pub record RegisteredProviderInstance : Type 0 where
  pub instance_id : String
  pub provider_type : ProviderType
  pub has_stream : Bool

-- `provider` is the registered instance: its adapter is found by the instance's id.
pub record ResolvedProviderConfig (n : Numbers) : Type 0 where
  pub provider : RegisteredProviderInstance
  pub provider_name : String
  pub provider_type : ProviderType
  pub model_id : String
  pub model_alias : String
  pub fallback_alias : Option String
  pub capabilities : Capabilities
  pub policy : Option PolicySource
  pub params : Resolve.Policy n

-- The framework's body for `new InternalServerErrorException(message)`.
unfoldable pub internal_server_error : Text → Thrown
internal_server_error message = http 500 (
    object (
      field "message" (str message)
        (field "error" (lit "Internal Server Error") (field "statusCode" (num 500) end))))

unfoldable pub found_model :
    {n : Numbers} → String → Option (ModelConfig n) → Settled (ModelConfig n)
unfolding http_error
found_model alias (some model) = returned model
found_model alias none = threw (
    http_error 400 model_alias_not_found
      (units "Model alias " ++ (units alias ++ units " not found in config")))

unfoldable pub resolve_model_alias :
    {n : Numbers} → GatewayConfig n → String → Settled (ModelConfig n)
unfolding found_model
resolve_model_alias config alias = found_model alias (config.models alias)

unfoldable pub type_mismatch : String → ProviderType → ProviderType → Thrown
unfolding internal_server_error
type_mismatch instance_id configured registered = internal_server_error (
    units "Provider instance \""
    ++ (units instance_id
        ++ (units "\" type mismatch: config="
            ++ (units (provider_type_name configured)
                ++ (units ", registry=" ++ units (provider_type_name registered))))))

-- UnsupportedProviderException
unfoldable pub unregistered : String → ProviderType → Thrown
unfolding http_error
unregistered instance_id configured = http_error 500 provider_unsupported (
    units "Provider instance "
    ++ (units instance_id
        ++ (units " not registered (type: "
            ++ (units (provider_type_name configured) ++ units ")"))))

unfoldable pub check_entry :
    String → ProviderRow → Option RegisteredProviderInstance → Settled RegisteredProviderInstance
unfolding type_mismatch unregistered
check_entry instance_id row none = threw (unregistered instance_id row.provider_type)
check_entry instance_id row (some entry) =
    if not (same_type entry.provider_type row.provider_type)
    then threw (type_mismatch instance_id row.provider_type entry.provider_type)
    else returned entry

-- `new Map` of registerInstance: the last registration of an id counts.
abbrev pub Instances : Type 0
Instances = String → Option RegisteredProviderInstance

unfoldable pub register_instance : String → ProviderType → Bool → Instances → Instances
register_instance instance_id provider_type has_stream instances id =
    if str_eq instance_id id
    then some (record {
      instance_id = instance_id;
      provider_type = provider_type;
      has_stream = has_stream;
    })
    else instances id

unfoldable pub check_row :
    String
    → Option ProviderRow
    → Option RegisteredProviderInstance
    → Settled RegisteredProviderInstance
unfolding http_error check_entry
check_row instance_id (some row) entry = check_entry instance_id row entry
check_row instance_id none entry = threw (
    http_error 400 validation_failed
      (units "Provider instance " ++ (units instance_id ++ units " not found")))

unfoldable pub resolve_provider_entry :
    {n : Numbers} → GatewayConfig n → Instances → ModelConfig n → Settled RegisteredProviderInstance
unfolding check_row
resolve_provider_entry config instances model =
    check_row model.provider_instance (config.providers model.provider_instance)
      (instances model.provider_instance)

-- A fallback that the configuration does not have is dropped; "" is no fallback.
unfoldable pub resolve_fallback : {n : Numbers} → GatewayConfig n → Option String → Option String
resolve_fallback config none = none
resolve_fallback config (some f) =
    if str_eq f "" then none else if is_some (config.models f) then some f else none

unfoldable pub resolve_policy : Option PolicySource → Option PolicySource
resolve_policy none = none
resolve_policy (some p) = some (record {
  timeout_ms = some (or_else p.timeout_ms default_timeout_ms);
  retry = elim p.retry [
    | none ↦ none
    | some r ↦ some (record {
      max_attempts = some (or_else r.max_attempts default_max_attempts);
      on_status = some (or_else r.on_status default_on_status);
    })
  ];
})

abbrev pub resolved_config :
    {n : Numbers}
    → GatewayConfig n
    → String
    → ModelConfig n
    → RegisteredProviderInstance
    → ResolvedProviderConfig n
resolved_config config alias model entry = record {
  provider = entry;
  provider_name = entry.instance_id;
  provider_type = entry.provider_type;
  model_id = model.model_id;
  model_alias = alias;
  fallback_alias = resolve_fallback config model.fallback;
  capabilities = model.capabilities;
  policy = resolve_policy model.policy;
  params = model.params;
}

unfoldable pub resolve :
    {n : Numbers}
    → Option (GatewayConfig n)
    → Instances
    → String
    → Settled (ResolvedProviderConfig n)
resolve none instances alias = threw (internal_server_error (units "Gateway config not found"))
resolve (some config) instances alias = resolve_model_alias config alias >>= λ model.
    resolve_provider_entry config instances model >>= λ entry.
    returned (resolved_config config alias model entry)
