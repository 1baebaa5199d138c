-- ===== src/Cli/Providers.antt =====
-- applyAddProvider, applyEditProvider and applyRemoveProvider of src/cli/services/provider-manager.service.ts,
-- with countActiveModelsAfterProviderChange of src/cli/utils/effective-config-preview.util.ts. The prompts
-- are left out: they collect the inputs.
pub mod Keeping
use ai_provider_gateway.Prelude.{
  ℕ, suc, Bool, true, false, not, ◌&&◌, ◌||◌, Option, none, some, String, List, [], ◌∷◌, ◌++◌, ◌==◌,
  is_some, or_else, str_eq, length, if◌then◌else◌,
}
use ai_provider_gateway.Prelude.Texts.{Text, units, trim, is_empty}
use ai_provider_gateway.Errors.{Thrown, error, returned, threw}
use ai_provider_gateway.Params.Numbers.{Numbers}
use ai_provider_gateway.Providers.Registry.{ProviderType, ProviderRow, ModelConfig}
use ai_provider_gateway.Config.Rows.{Entries, value_of, put_entry, delete_entry, RawConfig}
use ai_provider_gateway.Config.Secrets.{is_api_key_required_for_provider_type}
use ai_provider_gateway.Config.Schema.{has_models}
use ai_provider_gateway.Cli.EnvFile.{set_var, remove_var}
use ai_provider_gateway.Cli.Session.{
  Session, Outside, M, ◌>>=◌, ◌>>◌, try_catch, give, raise, raise_if, current, change, patch_env,
  persist_config,
}
use ai_provider_gateway.Cli.Clients.{found_row}
use ai_provider_gateway.Cli.Models.{apply_add_model, delete_model}

pub record AddProviderInput : Type 0 where
  pub id : String
  pub provider_type : ProviderType
  pub enabled : Bool
  pub api_key_ref : String
  pub api_key : Text
  pub base_url_ref : Option String
  pub base_url : Option Text
  pub models : List (String × String)

-- `apiKey` is undefined or a text.
pub data ProviderEdit : Type 0 where
  set_enabled : (enabled confirm_non_bootable : Bool) → ProviderEdit
  set_api_key : Option Text → ProviderEdit
  clear_api_key : ProviderEdit

-- The variables that the operator has to fill in.
pub record ProviderResult : Type 0 where
  pub pending_secrets : List String
  pub files_touched : List String

unfoldable pub has_models_for_instance : {n : Numbers} → RawConfig n → String → Bool
has_models_for_instance config id = has_models config.models id

abbrev counts_as_active : {n : Numbers} → RawConfig n → (disabled : String) → ModelConfig n → Bool
counts_as_active config disabled model = elim (value_of model.provider_instance config.providers) [
  | none ↦ false
  | some row ↦ not (str_eq model.provider_instance disabled) && row.enabled
]

abbrev active_among : {n : Numbers} → RawConfig n → String → Entries (ModelConfig n) → ℕ
active_among config disabled [] = 0
active_among config disabled ((alias, model) ∷ models) =
    let rest = active_among config disabled models in
    if counts_as_active config disabled model then suc rest else rest

-- With one instance disabled and none removed, as it is called.
unfoldable pub count_active_models_after_provider_change : {n : Numbers} → RawConfig n → String → ℕ
count_active_models_after_provider_change config disabled =
    active_among config disabled config.models

abbrev not_empty : Option String → Bool
not_empty none = false
not_empty (some s) = not (str_eq s "")

abbrev if_pending : Bool → String → List String
if_pending test ref = if test then ref ∷ [] else []

unfoldable pub collect_add_provider_pending_secrets : AddProviderInput → List String
unfolding is_api_key_required_for_provider_type
collect_add_provider_pending_secrets input =
    if_pending
      (is_api_key_required_for_provider_type input.provider_type && is_empty (trim input.api_key))
      input.api_key_ref
    ++ if_pending (not_empty input.base_url_ref && is_empty (trim (or_else input.base_url [])))
        (or_else input.base_url_ref "")

abbrev provider_error : String → String → String → Thrown
provider_error before id after = error (units before ++ (units id ++ units after))

abbrev set_provider : {n : Numbers} → String → ProviderRow → M n (Unit {0})
set_provider id row =
    change (λ config. record config { providers = put_entry id row config.providers })

abbrev delete_provider : {n : Numbers} → String → M n (Unit {0})
delete_provider id =
    change (λ config. record config { providers = delete_entry id config.providers })

-- `for (const alias of aliases) delete config.models[alias]`
abbrev delete_aliases :
    {n : Numbers} → List String → Entries (ModelConfig n) → Entries (ModelConfig n)
delete_aliases [] models = models
delete_aliases (alias ∷ aliases) models = delete_aliases aliases (delete_entry alias models)

abbrev delete_models : {n : Numbers} → List String → M n (Unit {0})
delete_models aliases =
    change (λ config. record config { models = delete_aliases aliases config.models })

abbrev patch_ref :
    {n : Numbers} → (String → Option Text → Option Text) → Option String → M n (Unit {0})
patch_ref f none = give tt
patch_ref f (some ref) = if str_eq ref "" then give tt else patch_env (f ref)

abbrev linked_aliases : {n : Numbers} → String → Entries (ModelConfig n) → List String
linked_aliases id [] = []
linked_aliases id ((alias, model) ∷ models) =
    let rest = linked_aliases id models in
    if str_eq model.provider_instance id then alias ∷ rest else rest

abbrev active_instances : Entries ProviderRow → List String
active_instances [] = []
active_instances ((id, row) ∷ rows) =
    let rest = active_instances rows in if row.enabled then id ∷ rest else rest

-- One instance is active, and it is this one.
abbrev is_only : String → List String → Bool
is_only id [] = false
is_only id (x ∷ []) = str_eq x id
is_only id (x ∷ (y ∷ xs)) = false

module _ {n : Numbers} (o : Outside n) where
  abbrev pub add_models : String → List (String × String) → M n (Unit {0})
  add_models id [] = give tt
  add_models id ((alias, model_id) ∷ models) =
      apply_add_model o (record { alias = alias; provider_instance = id; model_id = model_id })
        false
      >> add_models id models

  abbrev aliases_of : List (String × String) → List String
  aliases_of [] = []
  aliases_of ((alias, model_id) ∷ models) = alias ∷ aliases_of models

  abbrev pub undo_add : AddProviderInput → M n (Unit {0})
  undo_add input = do
    delete_provider input.id
    delete_models (aliases_of input.models)
    patch_env (remove_var input.api_key_ref)
    patch_ref remove_var input.base_url_ref

  -- `String(value ?? '')` for a base URL that is not given.
  unfoldable pub apply_add_provider : AddProviderInput → M n ProviderResult
  apply_add_provider input = do
    config ← current
    raise_if (is_some (value_of input.id config.providers))
        (provider_error "Instance " input.id " already exists - use provider:edit command.")
    raise_if (not (has_models_for_instance config input.id) && length input.models == 0)
        (provider_error "[PROVIDER_MANAGER] Provider " input.id " requires at least one model.")
    set_provider input.id (record {
      provider_type = input.provider_type;
      api_key_ref = input.api_key_ref;
      enabled = input.enabled;
      base_url_ref = input.base_url_ref;
      api_surface = none;
    })
    add_models input.id input.models
    patch_env (set_var input.api_key_ref input.api_key)
    patch_ref (λ ref. set_var ref (or_else input.base_url [])) input.base_url_ref
    let pending = collect_add_provider_pending_secrets input
    saved ←
        try_catch (persist_config o false (not (length pending == 0)))
          (λ e. undo_add input >> raise e)
    give (record { pending_secrets = pending; files_touched = "gateway.config.yaml" ∷ ".env" ∷ [] })

  abbrev touched : String → ProviderResult
  touched file = record { pending_secrets = []; files_touched = file ∷ [] }

  abbrev set_row_enabled : String → ProviderRow → Bool → (confirmed : Bool) → M n ProviderResult
  set_row_enabled id row enabled confirmed = do
    config ← current
    raise_if (enabled && not (has_models_for_instance config id)) (
        provider_error "[PROVIDER_MANAGER] Cannot enable " id
          " without at least one model. Use gateway model:add command first.")
    let skip = not enabled && count_active_models_after_provider_change config id == 0
    raise_if (skip && not confirmed) (
        provider_error "[PROVIDER_MANAGER] Disabling " id
          " would leave no active models. Pass confirmNonBootable: true to proceed.")
    set_provider id (record row { enabled = enabled })
    saved ← persist_config o skip false
    give (touched "gateway.config.yaml")

  abbrev pub edit_provider : String → ProviderRow → ProviderEdit → M n ProviderResult
  edit_provider id row (set_enabled enabled confirmed) = set_row_enabled id row enabled confirmed
  edit_provider id row (set_api_key none) =
      raise (error (units "[PROVIDER_MANAGER] apiKey is required for action \"apiKey\"."))
  edit_provider id row (set_api_key (some key)) =
      patch_env (set_var row.api_key_ref key) >> give (touched ".env")
  edit_provider id row clear_api_key =
      patch_env (set_var row.api_key_ref [])
      >> give (record { pending_secrets = row.api_key_ref ∷ []; files_touched = ".env" ∷ [] })

  abbrev instance_not_found : String → Thrown
  instance_not_found id = provider_error "Provider instance " id " not found."

  unfoldable pub apply_edit_provider : String → ProviderEdit → M n ProviderResult
  apply_edit_provider id edit = do
    config ← current
    row ← found_row (value_of id config.providers) (instance_not_found id)
    edit_provider id row edit

  -- The last active instance may go, and leave a configuration that does not start.
  unfoldable pub apply_remove_provider : String → M n ProviderResult
  apply_remove_provider id = do
    config ← current
    row ← found_row (value_of id config.providers) (instance_not_found id)
    delete_provider id
    delete_models (linked_aliases id config.models)
    saved ← try_catch (persist_config o false false) (λ e.
        if is_only id (active_instances config.providers)
        then persist_config o true false
        else raise e)
    patch_env (remove_var row.api_key_ref)
    patch_ref remove_var row.base_url_ref
    give (record { pending_secrets = []; files_touched = "gateway.config.yaml" ∷ ".env" ∷ [] })
