-- ===== src/Cli/Clients.antt =====
-- applyAddClient, applyEditClient and applyRemoveClient of src/cli/services/client-manager.service.ts, with
-- src/cli/utils/client-rate-limit.util.ts. The prompts are left out: they collect the inputs.
pub mod Keeping
pub mod Undoing
use ai_provider_gateway.Prelude.{
  ℕ, Bool, true, false, not, Option, none, some, String, List, [], ◌∷◌, ◌++◌, is_some, or_else,
  str_eq, ltb, if◌then◌else◌,
}
use ai_provider_gateway.Prelude.Texts.{Text, units, is_empty}
use ai_provider_gateway.Errors.{Thrown, error, returned, threw}
use ai_provider_gateway.Params.Numbers.{Numbers}
use ai_provider_gateway.RateLimit.Service.{Limits}
use ai_provider_gateway.Config.Rows.{
  Entries, value_of, put_entry, delete_entry, GatewayClientType, ClientRow, RawConfig,
}
use ai_provider_gateway.Cli.EnvFile.{set_var, remove_var}
use ai_provider_gateway.Cli.Session.{
  Session, Outside, M, ◌>>=◌, ◌>>◌, try_catch, give, raise, raise_if, current, change, patch_env,
  persist_config,
}

pub record CliRateLimit : Type 0 where
  pub rps : ℕ
  pub burst : ℕ
  pub max_concurrent_streams : Option ℕ

abbrev pub default_client_max_concurrent_streams : ℕ
default_client_max_concurrent_streams = 3

unfoldable pub build_client_rate_limit_config : CliRateLimit → Limits
build_client_rate_limit_config limit =
    let streams = or_else limit.max_concurrent_streams 0 in
    record {
      rps = limit.rps;
      burst = limit.burst;
      max_concurrent_streams =
          if ltb 0 streams then streams else default_client_max_concurrent_streams;
    }

pub record AddClientInput : Type 0 where
  pub id : String
  pub name : String
  pub client_type : GatewayClientType
  pub rate_limit : Option CliRateLimit
  pub gateway_key : Text
  pub gateway_key_ref : String

-- `rate_limit`: undefined, null or a limit. A name and a key are checked before they are used.
pub data ClientEdit : Type 0 where
  name : Option String → ClientEdit
  client_type : Option GatewayClientType → ClientEdit
  rate_limit : Option (Option CliRateLimit) → ClientEdit
  rotate_key : Option Text → ClientEdit

-- `generatedKeyRefs` and `filesTouched`.
pub record ApplyMutationResult : Type 0 where
  pub generated_key_refs : Option (List String)
  pub files_touched : List String

abbrev pub touched_config : ApplyMutationResult
touched_config = record { generated_key_refs = none; files_touched = "gateway.config.yaml" ∷ [] }

abbrev pub touched_both : ApplyMutationResult
touched_both = record {
  generated_key_refs = none;
  files_touched = "gateway.config.yaml" ∷ ".env" ∷ [];
}

abbrev client_exists : String → Thrown
client_exists id =
    error
      (units "Client " ++ (units id ++ units " already exists - use gateway client:edit command."))

abbrev client_not_found : String → Thrown
client_not_found id = error (units "Client " ++ (units id ++ units " not found."))

abbrev pub set_client : {n : Numbers} → String → ClientRow → M n (Unit {0})
set_client id row = change (λ config. record config { clients = put_entry id row config.clients })

abbrev pub delete_client : {n : Numbers} → String → M n (Unit {0})
delete_client id = change (λ config. record config { clients = delete_entry id config.clients })

abbrev pub row_of_input : AddClientInput → ClientRow
row_of_input input = record {
  name = input.name;
  client_type = input.client_type;
  gateway_key_ref = input.gateway_key_ref;
  rate_limit = elim input.rate_limit [
    | none ↦ none
    | some limit ↦ some (build_client_rate_limit_config limit)
  ];
}

abbrev pub result_of : AddClientInput → ApplyMutationResult
result_of input = record touched_both { generated_key_refs = some (input.gateway_key_ref ∷ []) }

-- The row with this id, or an error.
abbrev pub found_row : {n : Numbers} {A : Type 0} → Option A → Thrown → M n A
found_row none e = raise e
found_row (some row) e = give row

module _ {n : Numbers} (o : Outside n) where
  unfoldable pub apply_add_client : AddClientInput → M n ApplyMutationResult
  apply_add_client input = do
    config ← current
    raise_if (is_some (value_of input.id config.clients)) (client_exists input.id)
    set_client input.id (row_of_input input)
    patch_env (set_var input.gateway_key_ref input.gateway_key)
    saved ←
        try_catch (persist_config o false false)
          (λ e. do delete_client input.id; patch_env (remove_var input.gateway_key_ref); raise e)
    give (result_of input)

  -- `row.field = value; await persistConfig(config, cwd)`
  abbrev save_client : String → ClientRow → M n ApplyMutationResult
  save_client id row = do
    set_client id row
    saved ← persist_config o false false
    give touched_config

  abbrev edit_client : String → ClientRow → ClientEdit → M n ApplyMutationResult
  edit_client id row (name given) =
      let trimmed = o.trim (or_else given "") in
      raise_if (str_eq trimmed "") (error (units "Client name is required."))
      >> save_client id (record row { name = trimmed })
  edit_client id row (client_type none) = raise (error (units "Client type is required."))
  edit_client id row (client_type (some t)) = save_client id (record row { client_type = t })
  edit_client id row (rate_limit none) = raise (error (units "Rate limit values are required."))
  edit_client id row (rate_limit (some none)) = save_client id (record row { rate_limit = none })
  edit_client id row (rate_limit (some (some limit))) =
      save_client id (record row { rate_limit = some (build_client_rate_limit_config limit) })
  edit_client id row (rotate_key given) =
      raise_if (is_empty (or_else given []))
        (error (units "gatewayKey is required for rotateKey (generate before apply)."))
      >> (patch_env (set_var row.gateway_key_ref (or_else given []))
          >> give (record {
            generated_key_refs = some (row.gateway_key_ref ∷ []);
            files_touched = ".env" ∷ [];
          }))

  unfoldable pub apply_edit_client : String → ClientEdit → M n ApplyMutationResult
  apply_edit_client id edit = do
    config ← current
    row ← found_row (value_of id config.clients) (client_not_found id)
    edit_client id row edit

  unfoldable pub apply_remove_client : String → M n ApplyMutationResult
  apply_remove_client id = do
    config ← current
    row ← found_row (value_of id config.clients) (client_not_found id)
    delete_client id
    saved ← persist_config o false false
    patch_env (remove_var row.gateway_key_ref)
    give touched_both
