-- ===== src/Cli/Providers/Keeping.antt =====
-- The commands on providers keep the configuration in the file sound.
use ai_provider_gateway.Prelude.{
  Bool, true, false, Option, none, some, String, List, [], ◌∷◌, str_eq, if◌then◌else◌,
}
use ai_provider_gateway.Prelude.Texts.{Text}
use ai_provider_gateway.Errors.{Thrown}
use ai_provider_gateway.Params.Numbers.{Numbers}
use ai_provider_gateway.Providers.Registry.{ProviderRow}
use ai_provider_gateway.Cli.Session.{Outside, persist_config, raise, give, patch_env}
use ai_provider_gateway.Cli.Session.Keeping.{
  Keeps, keeping, then-Keeps, give-Keeps, raise-Keeps, patch_env-Keeps, persist_config-Keeps,
}
use ai_provider_gateway.Cli.Clients.Keeping.{found_row-Keeps}
use ai_provider_gateway.Cli.Models.Keeping.{apply_add_model-Keeps}
use ai_provider_gateway.Cli.Providers.{
  AddProviderInput, ProviderEdit, set_enabled, set_api_key, clear_api_key, patch_ref, add_models,
  undo_add, edit_provider, apply_add_provider, apply_edit_provider, apply_remove_provider,
}

patch_if-Keeps :
    (n : Numbers) (test : Bool) (f : Option Text → Option Text)
    → Keeps {n = n} (if test then give tt else patch_env f)
patch_if-Keeps n true f = give-Keeps n tt
patch_if-Keeps n false f = patch_env-Keeps n f

patch_ref-Keeps :
    (n : Numbers) (f : String → Option Text → Option Text) (ref : Option String)
    → Keeps {n = n} (patch_ref f ref)
patch_ref-Keeps n f none = give-Keeps n tt
patch_ref-Keeps n f (some ref) = patch_if-Keeps n (str_eq ref "") (f ref)

module _ {n : Numbers} (o : Outside n) where
  add_models-Keeps :
      (id : String) (models : List (String × String)) → Keeps (add_models o id models)
  add_models-Keeps id [] = search keeping
  add_models-Keeps id ((alias, model_id) ∷ models) =
      then-Keeps _ _ (apply_add_model-Keeps o _ false) (add_models-Keeps id models)

  undo_add-Keeps : (input : AddProviderInput) → Keeps (undo_add o input)
  undo_add-Keeps input = search (keeping, patch_ref-Keeps) depth 16

  pub apply_add_provider-Keeps : (input : AddProviderInput) → Keeps (apply_add_provider o input)
  unfolding apply_add_provider
  apply_add_provider-Keeps input =
      search (keeping, patch_ref-Keeps, add_models-Keeps, undo_add-Keeps) depth 24

  edit_provider-Keeps :
      (id : String) (row : ProviderRow) (edit : ProviderEdit) → Keeps (edit_provider o id row edit)
  edit_provider-Keeps id row (set_enabled enabled confirmed) = search keeping depth 16
  edit_provider-Keeps id row (set_api_key none) = search keeping
  edit_provider-Keeps id row (set_api_key (some key)) = search keeping
  edit_provider-Keeps id row clear_api_key = search keeping

  pub apply_edit_provider-Keeps :
      (id : String) (edit : ProviderEdit) → Keeps (apply_edit_provider o id edit)
  unfolding apply_edit_provider
  apply_edit_provider-Keeps id edit =
      search (keeping, found_row-Keeps, edit_provider-Keeps) depth 16

  retry-Keeps :
      (test : Bool) (e : Thrown) → Keeps (if test then persist_config o true false else raise e)
  retry-Keeps true e = persist_config-Keeps o true false
  retry-Keeps false e = raise-Keeps _ _ e

  pub apply_remove_provider-Keeps : (id : String) → Keeps (apply_remove_provider o id)
  unfolding apply_remove_provider
  apply_remove_provider-Keeps id =
      search (keeping, found_row-Keeps, patch_ref-Keeps, retry-Keeps) depth 24
