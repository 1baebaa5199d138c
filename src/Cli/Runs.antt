-- ===== src/Cli/Runs.antt =====
-- Runs of commands of src/cli, one after another, over the files of one directory.
use ai_provider_gateway.Prelude.{◌≡◌, true, Option, some, String, List}
use ai_provider_gateway.Prelude.Texts.{Text}
use ai_provider_gateway.Errors.{Thrown}
use ai_provider_gateway.Params.Numbers.{Numbers}
use ai_provider_gateway.Config.Rows.{RawConfig}
use ai_provider_gateway.Config.Secrets.{Env}
use ai_provider_gateway.Cli.Session.{Session, Outside, M, ◌>>=◌, give}
use ai_provider_gateway.Cli.Session.Keeping.{IsSound, Keeps, keeping}
use ai_provider_gateway.Cli.Clients.{
  AddClientInput, ClientEdit, apply_add_client, apply_edit_client, apply_remove_client,
}
use ai_provider_gateway.Cli.Clients.Keeping.{
  apply_add_client-Keeps, apply_edit_client-Keeps, apply_remove_client-Keeps,
}
use ai_provider_gateway.Cli.Models.{AddModelInput, apply_add_model, apply_remove_model}
use ai_provider_gateway.Cli.Models.Editing.{EditModelInput, apply_edit_model}
use ai_provider_gateway.Cli.Models.Keeping.{
  apply_add_model-Keeps, apply_edit_model-Keeps, apply_remove_model-Keeps,
}
use ai_provider_gateway.Cli.Providers.{
  AddProviderInput, ProviderEdit, apply_add_provider, apply_edit_provider, apply_remove_provider,
}
use ai_provider_gateway.Cli.Providers.Keeping.{
  apply_add_provider-Keeps, apply_edit_provider-Keeps, apply_remove_provider-Keeps,
}

-- A command with its answers.
pub data Command (n : Numbers) : Type 0 where
  client_add : AddClientInput → Command n
  client_edit : String → ClientEdit → Command n
  client_remove : String → Command n
  model_add : AddModelInput → Command n
  model_edit : EditModelInput n → Command n
  model_remove : String → Command n
  provider_add : AddProviderInput → Command n
  provider_edit : String → ProviderEdit → Command n
  provider_remove : String → Command n

module _ {n : Numbers} (o : Outside n) where
  abbrev forget : {A : Type 0} → M n A → M n (Unit {0})
  forget m = m >>= λ a. give tt

  unfoldable pub apply : Command n → M n (Unit {0})
  apply (client_add input) = forget (apply_add_client o input)
  apply (client_edit id edit) = forget (apply_edit_client o id edit)
  apply (client_remove id) = forget (apply_remove_client o id)
  apply (model_add input) = apply_add_model o input true
  apply (model_edit input) = forget (apply_edit_model o input)
  apply (model_remove alias) = forget (apply_remove_model o alias)
  apply (provider_add input) = forget (apply_add_provider o input)
  apply (provider_edit id edit) = forget (apply_edit_provider o id edit)
  apply (provider_remove id) = forget (apply_remove_provider o id)

  -- A command is a process: it loads the configuration from the file, and has an environment of its own.
  -- Between commands, .env may change in any way, and so may what writes reject with.
  pub data Reach (s : Session n) : Session n → Type 0 where
    here : Reach s s
    run :
        {t : Session n} (command : Command n) (config : RawConfig n) (env : Env)
        → Reach s t
        → t.config_file ≡ some config
        → Reach s (apply command (record t { config = config; process_env = env })).1
    outside :
        {t : Session n} (env_file : Option Text) (faults : List (Option Thrown))
        → Reach s t
        → Reach s (record t { env_file = env_file; faults = faults })

  apply-Keeps : (command : Command n) → Keeps (apply command)
  unfolding apply
  apply-Keeps (client_add input) = search (keeping, apply_add_client-Keeps)
  apply-Keeps (client_edit id edit) = search (keeping, apply_edit_client-Keeps)
  apply-Keeps (client_remove id) = search (keeping, apply_remove_client-Keeps)
  apply-Keeps (model_add input) = search apply_add_model-Keeps
  apply-Keeps (model_edit input) = search (keeping, apply_edit_model-Keeps)
  apply-Keeps (model_remove alias) = search (keeping, apply_remove_model-Keeps)
  apply-Keeps (provider_add input) = search (keeping, apply_add_provider-Keeps)
  apply-Keeps (provider_edit id edit) = search (keeping, apply_edit_provider-Keeps)
  apply-Keeps (provider_remove id) = search (keeping, apply_remove_provider-Keeps)

  -- When the configuration in the file hangs together (every model's provider is there, every fallback that is
  -- not empty is another alias that is there and does not fall back to the first, every enabled provider has
  -- a model), it does so after any commands, with any answers, and also after those that fail.
  pub Reach-IsSound : {s t : Session n} → IsSound s.config_file → Reach s t → IsSound t.config_file
  unfolding Keeps
  Reach-IsSound sound here = sound
  Reach-IsSound sound (run command config env r there) =
      apply-Keeps command _ (Reach-IsSound sound r)
  Reach-IsSound sound (outside env_file faults r) = Reach-IsSound sound r
