-- ===== src/Access/Keys.antt =====
-- buildGatewayKeyRuntime of src/config/configuration.ts, with the master-key check of
-- src/config/configuration-validation.service.ts, and canActivate of src/guards/gateway-key.guard.ts with
-- src/guards/helpers/resolve-and-enrich-request.helper.ts. `trim` is String.prototype.trim; a Set keeps the
-- order of its insertions.
use ai_provider_gateway.Prelude.{
  Bool, true, false, not, Option, none, some, String, List, [], ◌∷◌, ◌++◌, str_eq, or_else,
  includes_str, if◌then◌else◌,
}
use ai_provider_gateway.Prelude.Texts.{units}
use ai_provider_gateway.Errors.{
  Settled, returned, threw, ◌>>◌, throw_if, request_error, gateway_key_not_configured,
  gateway_key_missing, gateway_key_invalid,
}
use ai_provider_gateway.Errors
use ai_provider_gateway.Config.Rows.{ClientRow}
use ai_provider_gateway.RateLimit.Service.{GatewayClient, resolve_client_id_from_key}

pub record GatewayKeyRuntime : Type 0 where
  pub allow_list : List String
  pub master_key : String
  pub clients : List GatewayClient

-- `set.add(x)`
unfoldable pub add : String → List String → List String
add x xs = if includes_str xs x then xs else xs ++ (x ∷ [])

unfoldable pub add_clients : List GatewayClient → List String → List String
unfolding add
add_clients [] allow = allow
add_clients (c ∷ cs) allow =
    add_clients cs (if str_eq c.gateway_key "" then allow else add c.gateway_key allow)

-- What the guard leaves on the request.
pub record Enriched : Type 0 where
  pub gateway_key : String
  pub client_id : String

unfoldable pub enrich_request_with_client_id : String → List GatewayClient → Enriched
unfolding resolve_client_id_from_key
enrich_request_with_client_id key clients = record {
  gateway_key = key;
  client_id = resolve_client_id_from_key key clients;
}

abbrev check_allowed : GatewayKeyRuntime → String → String → Settled Enriched
unfolding enrich_request_with_client_id
check_allowed runtime request_id key =
    throw_if (not (includes_str runtime.allow_list key)) (
      request_error 403 gateway_key_invalid (units "Invalid X-Gateway-Key header value.")
        request_id)
    >> returned (enrich_request_with_client_id key runtime.clients)

unfoldable pub is_unconfigured : List String → Bool
is_unconfigured [] = true
is_unconfigured (x ∷ xs) = false

module _ (trim : String → String) where
  -- `(env[name] ?? '').trim()`
  abbrev pub read_env : (String → Option String) → String → String
  read_env env name = trim (or_else (env name) "")

  unfoldable pub resolved_clients : (String → Option String) → List ClientRow → List GatewayClient
  resolved_clients env [] = []
  resolved_clients env (row ∷ rows) =
      record {
        name = row.name;
        gateway_key = read_env env row.gateway_key_ref;
        rate_limit = row.rate_limit;
      }
      ∷ resolved_clients env rows

  unfoldable pub assert_master_key_present : (String → Option String) → String → Settled (Unit {0})
  assert_master_key_present env master_key_ref =
      throw_if (str_eq (read_env env master_key_ref) "")
        (Errors.error (units "[GatewayKey] Missing master key."))

  unfoldable pub build_gateway_key_runtime :
      (String → Option String) → String → List ClientRow → Settled GatewayKeyRuntime
  unfolding add add_clients resolved_clients assert_master_key_present
  build_gateway_key_runtime env master_key_ref rows =
      let master = read_env env master_key_ref in
      let clients = resolved_clients env rows in
      assert_master_key_present env master_key_ref
      >> returned (record {
        allow_list = add_clients clients (add master []);
        master_key = master;
        clients = clients;
      })

  -- The header's value, trimmed, where it is not empty.
  unfoldable pub read_gateway_key_header : Option String → Option String
  read_gateway_key_header none = none
  read_gateway_key_header (some raw) = if str_eq (trim raw) "" then none else some (trim raw)

  -- `header` is the first value of the header.
  unfoldable pub can_activate : GatewayKeyRuntime → String → Option String → Settled Enriched
  unfolding read_gateway_key_header enrich_request_with_client_id is_unconfigured
  can_activate runtime request_id header =
      throw_if (is_unconfigured runtime.allow_list) (
        request_error 500 gateway_key_not_configured
          (units "Gateway key allowlist is not configured.") request_id)
      >> elim (read_gateway_key_header header) [
        | none ↦ threw (
            request_error 401 gateway_key_missing (units "Missing X-Gateway-Key header value.")
              request_id)
        | some key ↦ check_allowed runtime request_id key
      ]
