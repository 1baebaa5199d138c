-- ===== src/Access/Guarding.antt =====
-- Who the guard of src/guards/gateway-key.guard.ts lets in, with the keys that the configuration makes.
use ai_provider_gateway.Prelude.{
  Bool, ◌||◌, Option, none, some, String, List, [], str_eq, any, if◌then◌else◌,
}
use ai_provider_gateway.Prelude.Texts.{units}
use ai_provider_gateway.Errors.{
  Settled, returned, threw, request_error, gateway_key_missing, gateway_key_invalid,
}
use ai_provider_gateway.RateLimit.Service.{GatewayClient, resolve_client_id_from_key}
use ai_provider_gateway.Config.Rows.{ClientRow}
use ai_provider_gateway.Access.Keys.{
  GatewayKeyRuntime, Enriched, add, add_clients, read_env, resolved_clients,
  read_gateway_key_header,
}

-- A key opens the gateway when it is the master key or the key of a client.
unfoldable pub opens : (master : String) → List GatewayClient → String → Bool
opens master clients key =
    str_eq master key || any (λ (c : GatewayClient). str_eq c.gateway_key key) clients

unfoldable pub verdict :
    (trim : String → String) (master : String)
    → List GatewayClient
    → String
    → Option String
    → Settled Enriched
unfolding opens
verdict trim master clients request_id header = elim (read_gateway_key_header trim header) [
  | none ↦ threw (
      request_error 401 gateway_key_missing (units "Missing X-Gateway-Key header value.")
        request_id)
  | some key ↦
      if opens master clients key
      then returned
          (record { gateway_key = key; client_id = resolve_client_id_from_key key clients })
      else threw (
          request_error 403 gateway_key_invalid (units "Invalid X-Gateway-Key header value.")
            request_id)
]

module _ (trim : String → String) (env : String → Option String) (master_ref : String)
    (rows : List ClientRow) where
  abbrev master : String
  master = read_env trim env master_ref

  abbrev clients : List GatewayClient
  clients = resolved_clients trim env rows

  abbrev built : GatewayKeyRuntime
  built = record {
    allow_list = add_clients clients (add master []);
    master_key = master;
    clients = clients;
  }
