-- ===== src/Cli/Models.antt =====
-- applyAddModel and applyRemoveModel of src/cli/services/model-manager.service.ts, with
-- src/cli/utils/effective-config-preview.util.ts and generateModelPrompt of
-- src/cli/services/config-generator.service.ts. The prompts are left out: they collect the inputs.
pub mod Editing
pub mod Keeping
pub mod LastModel
use ai_provider_gateway.Prelude.{
  ℕ, suc, Bool, true, false, not, ◌&&◌, ◌||◌, Option, none, some, String, List, [], ◌∷◌, ◌++◌, ◌==◌,
  is_some, or_else, str_eq, includes_str, length, if◌then◌else◌,
}
use ai_provider_gateway.Prelude.Texts.{Text, units}
use ai_provider_gateway.Errors.{Thrown, error, returned, threw}
use ai_provider_gateway.Params.Numbers.{Numbers}
use ai_provider_gateway.Params.Resolve
use ai_provider_gateway.Resilience.Policy.{RetrySource, PolicySource}
use ai_provider_gateway.Providers.Registry.{ProviderType, ProviderRow, ModelConfig}
use ai_provider_gateway.Config.Rows.{Entries, value_of, put_entry, delete_entry, RawConfig}
use ai_provider_gateway.Cli.Policies.{
  ModelPolicy, is_thinking_capable_model, provider_model_rejects_sampling_params,
  default_model_policy, first_of, status_of, sync_policy_sampling_for_model,
}
use ai_provider_gateway.Cli.Session.{
  Session, Outside, M, ◌>>=◌, ◌>>◌, give, raise, raise_if, current, change, persist_config,
}
use ai_provider_gateway.Cli.Clients.{ApplyMutationResult, touched_config, found_row}

pub record AddModelInput : Type 0 where
  pub alias : String
  pub provider_instance : String
  pub model_id : String

abbrev pub count_of : {n : Numbers} → Entries (ModelConfig n) → String → ℕ
count_of [] id = 0
count_of ((alias, model) ∷ models) id =
    let rest = count_of models id in if str_eq model.provider_instance id then suc rest else rest

unfoldable pub count_models_for_instance : {n : Numbers} → RawConfig n → String → ℕ
count_models_for_instance config id = count_of config.models id

unfoldable pub is_last_model_in_config : {n : Numbers} → RawConfig n → String → Bool
is_last_model_in_config config alias =
    length config.models == 1 && is_some (value_of alias config.models)

-- `count`: the models of the provider.
abbrev pub is_last_of_row : Option ProviderRow → (count : ℕ) → Bool
is_last_of_row none count = false
is_last_of_row (some row) count = if row.enabled then count == 1 else false

abbrev pub is_last_of : {n : Numbers} → RawConfig n → Option (ModelConfig n) → Bool
unfolding count_models_for_instance
is_last_of config none = false
is_last_of config (some model) =
    is_last_of_row (value_of model.provider_instance config.providers)
      (count_models_for_instance config model.provider_instance)

unfoldable pub is_last_model_for_enabled_provider : {n : Numbers} → RawConfig n → String → Bool
unfolding count_models_for_instance
is_last_model_for_enabled_provider config alias = is_last_of config (value_of alias config.models)

abbrev pub type_of : {n : Numbers} → RawConfig n → String → Option ProviderType
type_of config id = elim (value_of id config.providers) [
  | none ↦ none
  | some row ↦ some row.provider_type
]

abbrev pub model_error : String → String → String → Thrown
model_error before name after = error (units before ++ (units name ++ units after))

abbrev pub model_not_found : String → Thrown
model_not_found alias = model_error "Model " alias " not found."

abbrev pub model_not_in_configuration : String → Thrown
model_not_in_configuration alias = model_error "Model " alias " not found in configuration."

abbrev pub delete_model : {n : Numbers} → String → M n (Unit {0})
delete_model alias = change (λ config. record config { models = delete_entry alias config.models })

-- `current.field = value`, with the row as it is now.
unfoldable pub set_model : {n : Numbers} → String → ModelConfig n → M n (ModelConfig n)
set_model alias model s = (
  returned model,
  record s { config = record s.config { models = put_entry alias model s.config.models } },
)

-- A prompt file that is there is left alone.
unfoldable pub generate_model_prompt : {n : Numbers} → String → M n (Unit {0})
generate_model_prompt alias s = (
  returned tt,
  record s { prompts = if includes_str s.prompts alias then s.prompts else alias ∷ s.prompts },
)

-- Errors of the file system are caught, and there are none here.
abbrev without : String → List String → List String
without name [] = []
without name (x ∷ xs) = let rest = without name xs in if str_eq x name then rest else x ∷ rest

unfoldable pub delete_model_prompt : {n : Numbers} → String → M n (Unit {0})
delete_model_prompt alias s = (returned tt, record s { prompts = without alias s.prompts })

module _ {n : Numbers} (o : Outside n) where
  open o use {literals}

  abbrev pub added_model : AddModelInput → ProviderType → ModelConfig n
  added_model input t =
      let policy = default_model_policy literals input.model_id (some t) in
      record {
        provider_instance = input.provider_instance;
        model_id = input.model_id;
        fallback = none;
        capabilities = record {
          streaming = true;
          tools = true;
          thinking = is_thinking_capable_model input.model_id t;
        };
        policy = some policy.source;
        params = policy.params;
      }

  unfoldable pub apply_add_model : AddModelInput → (persist : Bool) → M n (Unit {0})
  apply_add_model input persist = do
    config ← current
    row ←
        found_row (value_of input.provider_instance config.providers)
          (model_error "Unknown provider instance: " input.provider_instance "")
    raise_if (is_some (value_of input.alias config.models))
        (model_error "Alias " input.alias " already exists.")
    saved ← set_model input.alias (added_model input row.provider_type)
    generate_model_prompt input.alias
    if persist then (persist_config o false false >>= λ c. give tt) else give tt

  unfoldable pub apply_remove_model : String → M n ApplyMutationResult
  apply_remove_model alias = do
    config ← current
    row ← found_row (value_of alias config.models) (model_not_in_configuration alias)
    delete_model alias
    saved ←
        persist_config o
          (is_last_model_in_config config alias || is_last_model_for_enabled_provider config alias)
          false
    delete_model_prompt alias
    give touched_config
