-- ===== src/Cli/Models/Keeping.antt =====
-- The commands on models keep the configuration in the file sound.
use ai_provider_gateway.Prelude.{Bool, true, false, Option, none, some, String, if◌then◌else◌}
use ai_provider_gateway.Params.Numbers.{Numbers}
use ai_provider_gateway.Providers.Registry.{ModelConfig}
use ai_provider_gateway.Cli.Session.{Outside}
use ai_provider_gateway.Cli.Session.Keeping.{Keeps, keeping}
use ai_provider_gateway.Cli.Clients.Keeping.{found_row-Keeps}
use ai_provider_gateway.Cli.Models.{
  AddModelInput, set_model, generate_model_prompt, delete_model_prompt, apply_add_model,
  apply_remove_model,
}
use ai_provider_gateway.Cli.Models.Editing.{
  EditModelInput, PolicyInput, edit_model_id, edit_instance, set_fallback, edit_fallback,
  edit_streaming, edit_policy, apply_edit_model,
}

set_model-Keeps :
    {n : Numbers} (alias : String) (model : ModelConfig n) → Keeps (set_model alias model)
unfolding Keeps set_model
set_model-Keeps alias model s sound = sound

generate_model_prompt-Keeps :
    (n : Numbers) (alias : String) → Keeps {n = n} (generate_model_prompt alias)
unfolding Keeps generate_model_prompt
generate_model_prompt-Keeps n alias s sound = sound

delete_model_prompt-Keeps :
    (n : Numbers) (alias : String) → Keeps {n = n} (delete_model_prompt alias)
unfolding Keeps delete_model_prompt
delete_model_prompt-Keeps n alias s sound = sound

module _ {n : Numbers} (o : Outside n) where
  pub apply_add_model-Keeps :
      (input : AddModelInput) (persist : Bool) → Keeps (apply_add_model o input persist)
  unfolding apply_add_model
  apply_add_model-Keeps input true =
      search (keeping, found_row-Keeps, set_model-Keeps, generate_model_prompt-Keeps) depth 16
  apply_add_model-Keeps input false =
      search (keeping, found_row-Keeps, set_model-Keeps, generate_model_prompt-Keeps) depth 16

  edit_model_id-Keeps :
      (alias : String) (id : Option String) (model : ModelConfig n)
      → Keeps (edit_model_id o alias id model)
  edit_model_id-Keeps alias none model = search keeping
  edit_model_id-Keeps alias (some id) model = search (keeping, set_model-Keeps)

  edit_instance-Keeps :
      (alias : String) (id : Option String) (confirmed : Bool) (model : ModelConfig n)
      → Keeps (edit_instance o alias id confirmed model)
  edit_instance-Keeps alias none confirmed model = search keeping
  edit_instance-Keeps alias (some id) confirmed model = search (keeping, set_model-Keeps) depth 16

  set_fallback-Keeps :
      (alias fallback : String) (model : ModelConfig n)
      → Keeps (set_fallback o alias fallback model)
  set_fallback-Keeps alias fallback model =
      search (keeping, found_row-Keeps, set_model-Keeps) depth 16

  if-Keeps :
      (test : Bool) (alias fallback : String) (a b : ModelConfig n)
      → Keeps (if test then set_model alias a else set_fallback o alias fallback b)
  if-Keeps true alias fallback a b = set_model-Keeps alias a
  if-Keeps false alias fallback a b = set_fallback-Keeps alias fallback b

  edit_fallback-Keeps :
      (alias : String) (fallback : Option (Option String)) (model : ModelConfig n)
      → Keeps (edit_fallback o alias fallback model)
  edit_fallback-Keeps alias none model = search keeping
  edit_fallback-Keeps alias (some none) model = search set_model-Keeps
  edit_fallback-Keeps alias (some (some f)) model = if-Keeps _ alias (o.trim f) _ model

  edit_streaming-Keeps :
      (alias : String) (on : Option Bool) (model : ModelConfig n)
      → Keeps (edit_streaming o alias on model)
  edit_streaming-Keeps alias none model = search keeping
  edit_streaming-Keeps alias (some on) model = search set_model-Keeps

  edit_policy-Keeps :
      (alias : String) (given : Option (PolicyInput n)) (model : ModelConfig n)
      → Keeps (edit_policy o alias given model)
  edit_policy-Keeps alias none model = search keeping
  edit_policy-Keeps alias (some given) model = search (keeping, set_model-Keeps)

  pub apply_edit_model-Keeps : (input : EditModelInput n) → Keeps (apply_edit_model o input)
  unfolding apply_edit_model
  apply_edit_model-Keeps input =
      search
        (
          keeping, found_row-Keeps, edit_model_id-Keeps, edit_instance-Keeps, edit_fallback-Keeps,
          edit_streaming-Keeps, edit_policy-Keeps,
        )
        depth 20

  pub apply_remove_model-Keeps : (alias : String) → Keeps (apply_remove_model o alias)
  unfolding apply_remove_model
  apply_remove_model-Keeps alias =
      search (keeping, found_row-Keeps, delete_model_prompt-Keeps) depth 16
