-- ===== src/Examples/Config.antt =====
-- The configuration and the keys at concrete inputs: one provider is enabled and one is not, and each has a model.
use ai_provider_gateway.Prelude.{
  List, str_eq, Option, if◌then◌else◌, ◌≡◌, refl, true, false, none, some, String, [], ◌∷◌,
}
use ai_provider_gateway.Params.Numbers.{naturals}
use ai_provider_gateway.Providers.Registry.{ModelConfig, ProviderRow}
use ai_provider_gateway.Cache.Identity.{is_cached_chat_allowed_for_model_alias}
use ai_provider_gateway.Config.Effective.{
  build_effective_gateway_config, effective_models, effective_providers, check_providers,
  build_effective_gateway_config-IsActive,
}
use ai_provider_gateway.Config.Rows.{RawConfig, ClientRow, webapp, gateway_config_of}
use ai_provider_gateway.Access.Keys.{GatewayKeyRuntime}
use ai_provider_gateway.Examples.Chat.{model, provider_row}

abbrev pub model_at : String → ModelConfig naturals
model_at id = record {
  provider_instance = id;
  model_id = "m";
  fallback = (model "m" none).fallback;
  capabilities = (model "m" none).capabilities;
  policy = (model "m" none).policy;
  params = (model "m" none).params;
}

abbrev row_on : ProviderRow
row_on = provider_row "ON_API_KEY" true

abbrev row_off : ProviderRow
row_off = provider_row "OFF_API_KEY" false

abbrev raw : RawConfig naturals
raw = record {
  schema_version = 1;
  master_key_ref = "MASTER";
  clients = [];
  providers = ("on", row_on) ∷ ("off", row_off) ∷ [];
  models = ("a", model_at "on") ∷ ("b", model_at "off") ∷ [];
}

abbrev left : RawConfig naturals
left = record raw { providers = ("on", row_on) ∷ []; models = ("a", model_at "on") ∷ [] }

build_effective_gateway_config-IsActive_example :
    (row : ProviderRow) × (((gateway_config_of left).providers "on" ≡ some row)
      × ((row.enabled ≡ true)
          × (is_cached_chat_allowed_for_model_alias (gateway_config_of left) "a" ≡ true)))
unfolding build_effective_gateway_config effective_models effective_providers check_providers
build_effective_gateway_config-IsActive_example =
    build_effective_gateway_config-IsActive naturals (λ t. true) (λ name. none) true raw left "a"
      (model_at "on") refl refl

abbrev environment : String → Option String
environment name =
    if str_eq name "MASTER" then some "m" else if str_eq name "A" then some "k" else none

abbrev client_rows : List ClientRow
client_rows =
    record { name = "app"; client_type = webapp; gateway_key_ref = "A"; rate_limit = none }
    ∷ record { name = "bare"; client_type = webapp; gateway_key_ref = "B"; rate_limit = none }
    ∷ []

abbrev runtime : GatewayKeyRuntime
runtime = record {
  allow_list = "m" ∷ "k" ∷ [];
  master_key = "m";
  clients =
      record { name = "app"; gateway_key = "k"; rate_limit = none }
      ∷ record { name = "bare"; gateway_key = ""; rate_limit = none }
      ∷ [];
}
