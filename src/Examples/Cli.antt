-- ===== src/Examples/Cli.antt =====
-- The commands at concrete inputs: a directory with one provider, one model and no client.
use ai_provider_gateway.Prelude.{◌≡◌, ◌⊎◌, refl, true, false, none, some, String, [], ◌∷◌}
use ai_provider_gateway.Prelude.Texts.{units, trim}
use ai_provider_gateway.Errors.{error, returned, threw}
use ai_provider_gateway.Params.Numbers.{naturals}
use ai_provider_gateway.Providers.Registry.{ModelConfig, ProviderRow}
use ai_provider_gateway.Config.Rows.{value_of, RawConfig, webapp}
use ai_provider_gateway.Config.Schema.{Literals, safe_parse, with_retry, is_policy_accepted}
use ai_provider_gateway.Cache.Tag.{is_redis_search_tag_safe_id, is_special}
use ai_provider_gateway.Config.Secrets.{assert_enabled_provider_secrets_present}
use ai_provider_gateway.Config.Schema.Sound.{safe_parse-IsLinked}
use ai_provider_gateway.Config.Effective.{
  build_effective_gateway_config, no_models, effective_providers, effective_models,
}
use ai_provider_gateway.Config.Effective.Starting.{build_effective_gateway_config_starts}
use ai_provider_gateway.Cli.EnvFile.{after_prefix, get_var, set_var, read_lines, split_lines}
use ai_provider_gateway.Cli.EnvFile.Laws.{get_var-set_var}
use ai_provider_gateway.Cli.Session.{
  Session, Outside, patched, ◌>>=◌, current, ◌>>◌, raise_if, change, patch_env, try_catch,
  persist_config, check_effective, give, raise, checked, persist_parsed,
}
use ai_provider_gateway.Cli.Session.Keeping.{IsSound}
use ai_provider_gateway.Cli.Clients.{AddClientInput, apply_add_client}
use ai_provider_gateway.Cli.Clients.Undoing.{IsUndone, IsLeft, apply_add_client-IsUndone}
use ai_provider_gateway.Cli.Models.{
  apply_remove_model, is_last_model_in_config, is_last_model_for_enabled_provider,
  count_models_for_instance,
}
use ai_provider_gateway.Cli.Models.LastModel.{apply_remove_model-last, removed}
use ai_provider_gateway.Cli.Runs.{model_remove, here, run, apply, Reach-IsSound}
use ai_provider_gateway.Examples.Chat.{provider_row}
use ai_provider_gateway.Examples.Config.{model_at}

abbrev literals : Literals naturals
literals = record { minus_two = 0; zero = 0; seven_tenths = 1; one = 1; two = 2 }

-- No variable is ever read from .env.
abbrev around : Outside naturals
around = record {
  literals = literals;
  is_http_url = λ t. true;
  load_env = λ file env. env;
  trim = λ s. s;
  format_zod_error = λ config. units "refused";
  format_runtime_error = λ e. units "would not start";
  no_such_file = units "no such file";
}

abbrev saved_model : ModelConfig naturals
saved_model = record (model_at "on") { policy = some (with_retry none) }

abbrev config : RawConfig naturals
config = record {
  schema_version = 1;
  master_key_ref = "MASTER";
  providers = ("on", provider_row "ON_API_KEY" true) ∷ [];
  clients = [];
  models = ("a", saved_model) ∷ [];
}

abbrev start : Session naturals
start = record {
  config = config;
  config_file = some config;
  backups = [];
  env_file = some (units "A=1\nB=2\n");
  process_env = λ name. none;
  prompts = [];
  faults = [];
}

abbrev app : AddClientInput
app = record {
  id = "app";
  name = "App";
  client_type = webapp;
  rate_limit = none;
  gateway_key = units "key";
  gateway_key_ref = "GATEWAY_KEY_APP";
}

config_accepted : safe_parse literals config ≡ some config
unfolding safe_parse is_redis_search_tag_safe_id is_special is_policy_accepted
config_accepted = refl

Reach-IsSound_example :
    IsSound
      (apply around (model_remove "a") (record start { process_env = λ name. none })).1.config_file
unfolding IsSound
Reach-IsSound_example =
    Reach-IsSound around {s = record start { process_env = λ name. none }}
      (config, (refl, safe_parse-IsLinked literals config config config_accepted))
      (run (model_remove "a") config (λ name. none) here refl)

apply_remove_model-last_example :
    apply_remove_model around "a" start
    ≡ (threw (error (units "refused")), record start { config = removed "a" config })
unfolding is_last_model_in_config is_last_model_for_enabled_provider count_models_for_instance
apply_remove_model-last_example = apply_remove_model-last around start "a" saved_model refl refl

get_var-set_var_example :
    get_var "B" (set_var "A" (units "3") (some (units "A=1\nB=2\n"))) ≡ some (units "2")
unfolding read_lines split_lines get_var after_prefix
get_var-set_var_example =
    get_var-set_var "A" "B" (units "3") (some (units "A=1\nB=2\n")) refl refl
      (
        record { some_unit = refl; one_line = refl; no_return = refl },
        (record { some_unit = refl; one_line = refl; no_return = refl }, tt),
      )
      (record { some_unit = refl; one_line = refl; no_return = refl })

apply_add_client-IsUndone_example :
    IsUndone around app start (apply_add_client around app start).1
    ⊎ IsLeft around app start
        (error (units "would not start"))
        (apply_add_client around app start).1
unfolding apply_add_client ◌>>=◌ current ◌>>◌ raise_if change patch_env patched try_catch
    persist_config safe_parse is_redis_search_tag_safe_id is_special is_policy_accepted
    check_effective build_effective_gateway_config assert_enabled_provider_secrets_present trim
    checked persist_parsed give raise
apply_add_client-IsUndone_example =
    apply_add_client-IsUndone around app start (error (units "would not start")) refl

build_effective_gateway_config_starts_example :
    ((id : String) (row : ProviderRow)
      → value_of id config.providers ≡ some row
      → row.enabled ≡ true
      → build_effective_gateway_config (λ t. true) config (λ name. none) true ≡ returned config)
    × (((id : String) (row : ProviderRow)
          → value_of id config.providers ≡ some row
          → row.enabled ≡ false)
        → build_effective_gateway_config (λ t. true) config (λ name. none) true ≡ threw no_models)
unfolding effective_providers effective_models
build_effective_gateway_config_starts_example =
    build_effective_gateway_config_starts naturals literals (λ t. true) (λ name. none) true config
      config config_accepted (refl, tt)
