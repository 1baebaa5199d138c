-- ===== src/Cli/Clients/Undoing.antt =====
-- An added client that could not be saved is taken back.
use ai_provider_gateway.Prelude.{
  ◌≡◌, ◌⊎◌, refl, ap, ◌∙◌, inl, inr, false, Option, none, some, String, List, [], ◌∷◌, is_some,
  str_eq, eq_iff, Bool-cases,
}
use ai_provider_gateway.Errors.{Thrown, Settled, returned, threw}
use ai_provider_gateway.Params.Numbers.{Numbers}
use ai_provider_gateway.Config.Rows.{
  Entries, value_of, put_entry, delete_entry, ClientRow, RawConfig,
}
use ai_provider_gateway.Cli.EnvFile.{set_var, remove_var}
use ai_provider_gateway.Cli.Session.{
  Session, Outside, M, ◌>>=◌, ◌>>◌, try_catch, give, raise, raise_if, current, change, patch_env,
  patched, persist_config, carry_on, caught,
}
use ai_provider_gateway.Cli.Session.Settling.{Saves, persist_config-Saves}
use ai_provider_gateway.Cli.Clients.{
  AddClientInput, ApplyMutationResult, row_of_input, result_of, delete_client, apply_add_client,
}

pub delete_entry-put_entry :
    {A : Type 0} (name : String) (value : A) (entries : Entries A)
    → value_of name entries ≡ none
    → delete_entry name (put_entry name value entries) ≡ entries
delete_entry-put_entry name value [] h = rw ((eq_iff name name).1 refl) refl
delete_entry-put_entry name value ((k, v) ∷ entries) h = elim (Bool-cases (str_eq name k)) [
  | inl same ↦ let bad : some v ≡ none = rw same at h in cc
  | inr other ↦
      rw (other, other)
        (ap (λ rest. (k, v) ∷ rest) (delete_entry-put_entry name value entries (rw other at h)))
]

absent : {A : Type 0} (o : Option A) → is_some o ≡ false → o ≡ none
absent none h = refl
absent (some a) h = cc

module _ {n : Numbers} (o : Outside n) (input : AddClientInput) (s : Session n) where
  -- The configuration in memory with the new client.
  abbrev pub with_client : RawConfig n
  with_client = record s.config {
    clients = put_entry input.id (row_of_input input) s.config.clients;
  }

  -- After the first write of .env, with the faults that are left.
  abbrev added : List (Option Thrown) → Session n
  added faults = record s {
    config = with_client;
    env_file = set_var input.gateway_key_ref input.gateway_key s.env_file;
    faults = faults;
  }

  -- The configuration in memory and the one in the file are those of the beginning.
  abbrev pub IsUndone : Session n → Type 0
  IsUndone t = (t.config ≡ s.config) × (t.config_file ≡ s.config_file)

  -- The first write of .env has failed with this error: the client is in memory, and not in the file.
  abbrev pub IsLeft : Thrown → Session n → Type 0
  IsLeft e t =
      (later : List (Option Thrown)) × ((s.faults ≡ some e ∷ later)
        × ((t.config ≡ with_client) × (t.config_file ≡ s.config_file)))

  abbrev handler : Thrown → M n (RawConfig n)
  handler e = delete_client input.id >> (patch_env (remove_var input.gateway_key_ref) >> raise e)

  -- After the attempt to save, which has settled with `r`.
  abbrev finish : Settled (RawConfig n) × Session n → Settled ApplyMutationResult × Session n
  finish r = carry_on (caught r handler) (λ saved. give (result_of input))

  -- Whether or not the variable could be removed.
  finish-patched :
      (t : Session n) (e : Thrown) (faults : List (Option Thrown))
      → let undone =
          (carry_on
            (carry_on
              (patched (remove_var input.gateway_key_ref) faults t)
              (λ _. raise {A = RawConfig n} e))
            (λ saved. give (result_of input))).1 in
        (undone.config ≡ t.config) × (undone.config_file ≡ t.config_file)
  unfolding patched raise give
  finish-patched t e [] = (refl, refl)
  finish-patched t e (none ∷ later) = (refl, refl)
  finish-patched t e (some e' ∷ later) = (refl, refl)

  finish-IsUndone :
      (faults : List (Option Thrown)) (r : Settled (RawConfig n) × Session n)
      → Saves (added faults) r
      → value_of input.id s.config.clients ≡ none
      → (e : Thrown) → (finish r).0 ≡ threw e
      → IsUndone (finish r).1
  unfolding ◌>>◌ change patch_env give raise
  finish-IsUndone faults (returned saved, t) saves free e h = cc
  finish-IsUndone faults (threw e', t) saves free e h =
      let deleted : Session n = record t {
        config = record t.config { clients = delete_entry input.id t.config.clients };
      } in
      let (same_config, same_file) = finish-patched deleted e' t.faults in
      (
        same_config
            ∙ ap (λ (c : RawConfig n). record c { clients = delete_entry input.id c.clients })
                saves.same_config
            ∙ ap (λ (rows : Entries ClientRow). record s.config { clients = rows })
                (delete_entry-put_entry input.id (row_of_input input) s.config.clients free),
        same_file ∙ saves.same_file e' refl,
      )

  -- With what the first write of .env comes to.
  abbrev from_write : List (Option Thrown) → Settled ApplyMutationResult × Session n
  from_write faults =
      carry_on
        (patched (set_var input.gateway_key_ref input.gateway_key) faults
          (record s { config = with_client }))
        (λ _ t. finish (persist_config o false false t))

  from_write-IsUndone :
      (faults : List (Option Thrown)) (e : Thrown)
      → s.faults ≡ faults
      → value_of input.id s.config.clients ≡ none
      → (from_write faults).0 ≡ threw e
      → IsUndone (from_write faults).1 ⊎ IsLeft e (from_write faults).1
  unfolding patched
  from_write-IsUndone [] e here free h = inl (
      finish-IsUndone [] (persist_config o false false (added []))
        (persist_config-Saves o false false (added [])) free e h)
  from_write-IsUndone (none ∷ later) e here free h = inl (
      finish-IsUndone later (persist_config o false false (added later))
        (persist_config-Saves o false false (added later)) free e h)
  from_write-IsUndone (some e' ∷ later) e here free h =
      inr (let same : e' ≡ e = cc in (later, (here ∙ ap (λ x. some x ∷ later) same, (refl, refl))))

  -- When applyAddClient throws, the configuration in the file is as it was, and so is the one in memory, also when the
  -- rollback cannot write .env; but for one case: when it is the write of the key to .env that has failed, the client
  -- stays in the configuration in memory.
  pub apply_add_client-IsUndone :
      (e : Thrown)
      → (apply_add_client o input s).0 ≡ threw e
      → IsUndone (apply_add_client o input s).1 ⊎ IsLeft e (apply_add_client o input s).1
  unfolding apply_add_client ◌>>=◌ ◌>>◌ raise_if current change patch_env try_catch give raise
  apply_add_client-IsUndone e h = elim (Bool-cases (is_some (value_of input.id s.config.clients))) [
    | inl there ↦ inl (rw there (refl, refl))
    | inr free ↦ rw free (from_write-IsUndone s.faults e refl (absent _ free) (rw free at h))
  ]
