-- ===== src/Cli/Clients/Keeping.antt =====
-- The commands on clients keep the configuration in the file sound.
use ai_provider_gateway.Prelude.{Option, none, some, String}
use ai_provider_gateway.Errors.{Thrown}
use ai_provider_gateway.Params.Numbers.{Numbers}
use ai_provider_gateway.Config.Rows.{ClientRow}
use ai_provider_gateway.Cli.Session.{Outside}
use ai_provider_gateway.Cli.Session.Keeping.{Keeps, keeping, give-Keeps, raise-Keeps}
use ai_provider_gateway.Cli.Clients.{
  AddClientInput, ClientEdit, name, client_type, rate_limit, rotate_key, found_row, save_client,
  edit_client, apply_add_client, apply_edit_client, apply_remove_client,
}

pub found_row-Keeps :
    (n : Numbers) {A : Type 0} (o : Option A) (e : Thrown) → Keeps {n = n} (found_row o e)
found_row-Keeps n {A} none e = raise-Keeps n A e
found_row-Keeps n (some row) e = give-Keeps n row

module _ {n : Numbers} (o : Outside n) where
  pub apply_add_client-Keeps : (input : AddClientInput) → Keeps (apply_add_client o input)
  unfolding apply_add_client
  apply_add_client-Keeps input = search keeping depth 16

  save_client-Keeps : (id : String) (row : ClientRow) → Keeps (save_client o id row)
  save_client-Keeps id row = search (keeping)

  edit_client-Keeps :
      (id : String) (row : ClientRow) (edit : ClientEdit) → Keeps (edit_client o id row edit)
  edit_client-Keeps id row (name given) = search (keeping)
  edit_client-Keeps id row (client_type none) = search (keeping)
  edit_client-Keeps id row (client_type (some t)) = search (keeping)
  edit_client-Keeps id row (rate_limit none) = search (keeping)
  edit_client-Keeps id row (rate_limit (some none)) = search (keeping)
  edit_client-Keeps id row (rate_limit (some (some limit))) = search (keeping)
  edit_client-Keeps id row (rotate_key given) = search (keeping)

  pub apply_edit_client-Keeps :
      (id : String) (edit : ClientEdit) → Keeps (apply_edit_client o id edit)
  unfolding apply_edit_client
  apply_edit_client-Keeps id edit = search (keeping, found_row-Keeps, edit_client-Keeps)

  pub apply_remove_client-Keeps : (id : String) → Keeps (apply_remove_client o id)
  unfolding apply_remove_client
  apply_remove_client-Keeps id = search (keeping, found_row-Keeps) depth 16
