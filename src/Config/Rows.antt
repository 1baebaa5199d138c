-- ===== src/Config/Rows.antt =====
-- The rows of gateway.config.yaml: the types that src/config/gateway-config.schema.ts gives to
-- providers, clients and models. `Object.entries` of an object is a list of names and values, in which no
-- name stands twice; names that every JavaScript object has, such as "constructor", are left out.
use ai_provider_gateway.Prelude.{
  ℕ, Option, none, some, String, List, [], ◌∷◌, str_eq, if◌then◌else◌,
}
use ai_provider_gateway.RateLimit.Service.{Limits}
use ai_provider_gateway.Params.Numbers.{Numbers}
use ai_provider_gateway.Providers.Registry.{ProviderRow, ModelConfig, GatewayConfig}

abbrev pub Entries : Type 0 → Type 0
Entries A = List (String × A)

-- `object[name]`
abbrev pub value_of : {A : Type 0} → String → Entries A → Option A
value_of name [] = none
value_of name ((k, v) ∷ entries) = if str_eq name k then some v else value_of name entries

-- `object[name] = value`
abbrev pub put_entry : {A : Type 0} → String → A → Entries A → Entries A
put_entry name value [] = (name, value) ∷ []
put_entry name value ((k, v) ∷ entries) =
    let rest = put_entry name value entries in
    if str_eq name k then (k, value) ∷ entries else (k, v) ∷ rest

-- `delete object[name]`
abbrev pub delete_entry : {A : Type 0} → String → Entries A → Entries A
delete_entry name [] = []
delete_entry name ((k, v) ∷ entries) =
    let rest = delete_entry name entries in if str_eq name k then entries else (k, v) ∷ rest

-- GATEWAY_CLIENT_TYPES
pub data GatewayClientType : Type 0 where
  webapp ide cli service backend automation : GatewayClientType

-- A row of `clients`.
pub record ClientRow : Type 0 where
  pub name : String
  pub client_type : GatewayClientType
  pub gateway_key_ref : String
  pub rate_limit : Option Limits

-- The configuration as it is written in the file.
pub record RawConfig (n : Numbers) : Type 0 where
  pub schema_version : ℕ
  pub master_key_ref : String
  pub providers : Entries ProviderRow
  pub clients : Entries ClientRow
  pub models : Entries (ModelConfig n)

-- The configuration as the services read it.
abbrev pub gateway_config_of : {n : Numbers} → RawConfig n → GatewayConfig n
gateway_config_of raw = record {
  models = λ alias. value_of alias raw.models;
  providers = λ id. value_of id raw.providers;
}
