-- ===== src/Cli/Models/LastModel.antt =====
-- What becomes of the removal of a last model.
use ai_provider_gateway.Prelude.{
  ℕ, suc, ◌≡◌, refl, sym, ap, ◌∙◌, inl, inr, Bool, true, false, ◌||◌, Option, none, some, String,
  [], ◌∷◌, ◌==◌, ==_iff, arith, length, some-injective, str_eq, eq_iff, Bool-cases,
}
use ai_provider_gateway.Errors.{error, threw}
use ai_provider_gateway.Params.Numbers.{Numbers}
use ai_provider_gateway.Providers.Registry.{ProviderRow, ModelConfig}
use ai_provider_gateway.Config.Rows.{Entries, value_of, delete_entry, RawConfig}
use ai_provider_gateway.Config.Schema.{has_models, is_accepted, safe_parse}
use ai_provider_gateway.Config.Schema.Lookups.{every-value_of, or_enabled, is_some_entry, both}
use ai_provider_gateway.Config.Schema.Sound.{served_row, accepted_parts, accepted_some}
use ai_provider_gateway.Cli.Session.{
  Session, Outside, ◌>>=◌, ◌>>◌, give, current, change, persist_config,
}
use ai_provider_gateway.Cli.Models.{
  is_last_of, is_last_of_row, count_of, count_models_for_instance, is_last_model_in_config,
  is_last_model_for_enabled_provider, apply_remove_model,
}

count_of-delete_entry :
    {n : Numbers} (alias : String) (models : Entries (ModelConfig n)) (model : ModelConfig n)
    → value_of alias models ≡ some model
    → suc (count_of (delete_entry alias models) model.provider_instance)
      ≡ count_of models model.provider_instance
count_of-delete_entry alias [] model found = cc
count_of-delete_entry {n} alias ((k, m) ∷ models) model found = elim (Bool-cases (str_eq alias k)) [
  | inl same ↦
      let this = some-injective m model (rw same at found) in
      let own : str_eq m.provider_instance model.provider_instance ≡ true =
        (eq_iff _ _).1 (ap (λ (x : ModelConfig n). x.provider_instance) this) in
      rw (same, own) refl
  | inr other ↦
      let ih = count_of-delete_entry alias models model (rw other at found) in
      elim (Bool-cases (str_eq m.provider_instance model.provider_instance)) [
        | inl own ↦ rw (other, own) (ap (λ (k : ℕ). suc k) ih)
        | inr foreign ↦ rw (other, foreign) ih
      ]
]

has_models-count_of :
    {n : Numbers} (models : Entries (ModelConfig n)) (id : String)
    → count_of models id ≡ 0
    → has_models models id ≡ false
has_models-count_of [] id h = refl
has_models-count_of ((k, m) ∷ models) id h = elim (Bool-cases (str_eq m.provider_instance id)) [
  | inl own ↦ let bad : suc (count_of models id) ≡ 0 = rw own at h in absurd (omega arith)
  | inr foreign ↦ rw foreign (has_models-count_of models id (rw foreign at h))
]

length-delete_entry :
    {A : Type 0} (k : String) (entries : Entries A) (v : A)
    → value_of k entries ≡ some v
    → suc (length (delete_entry k entries)) ≡ length entries
length-delete_entry k [] v found = cc
length-delete_entry k ((j, w) ∷ entries) v found = elim (Bool-cases (str_eq k j)) [
  | inl same ↦ rw same refl
  | inr other ↦
      rw other (ap (λ (x : ℕ). suc x) (length-delete_entry k entries v (rw other at found)))
]

is_some_entry-length :
    {A : Type 0} (entries : Entries A) → length entries ≡ 0 → is_some_entry entries ≡ false
is_some_entry-length [] h = refl
is_some_entry-length (x ∷ xs) h = absurd (omega arith)

abbrev pub removed : {n : Numbers} → String → RawConfig n → RawConfig n
removed alias config = record config { models = delete_entry alias config.models }

abbrev pub is_last : {n : Numbers} → RawConfig n → String → Bool
unfolding is_last_model_in_config is_last_model_for_enabled_provider
is_last config alias =
    is_last_model_in_config config alias || is_last_model_for_enabled_provider config alias

-- A provider that has one model, and is enabled.
one_model :
    (row : Option ProviderRow) (count : ℕ)
    → is_last_of_row row count ≡ true
    → (r : ProviderRow) × ((row ≡ some r) × ((r.enabled ≡ true) × (count ≡ 1)))
one_model none count h = cc
one_model (some r) count h = elim (Bool-cases r.enabled) [
  | inl on ↦ (r, (refl, (on, (==_iff count 1).0 (rw on at h))))
  | inr off ↦ let bad : false ≡ true = rw off at h in cc
]

module _ {n : Numbers} (o : Outside n) where
  persist_config_refused :
      (skip allow : Bool) (s : Session n)
      → is_accepted o.literals s.config ≡ false
      → persist_config o skip allow s ≡ (threw (error (o.format_zod_error s.config)), s)
  unfolding persist_config safe_parse
  persist_config_refused skip allow s h = rw h refl

  removed-is_accepted :
      (config : RawConfig n) (alias : String) (model : ModelConfig n)
      → value_of alias config.models ≡ some model
      → is_last config alias ≡ true
      → is_accepted o.literals (removed alias config) ≡ false
  unfolding is_last_model_in_config is_last_model_for_enabled_provider count_models_for_instance
  removed-is_accepted config alias model found last =
      elim (Bool-cases (is_accepted o.literals (removed alias config))) [
        | inr refused ↦ refused
        | inl accepted ↦ elim (Bool-cases (is_last_model_in_config config alias)) [
          | inl only ↦
              let one : length config.models ≡ 1 =
                (==_iff _ 1).0 (both (length config.models == 1) _ only).0 in
              let empty : length (delete_entry alias config.models) ≡ 0 =
                omega (arith, length-delete_entry alias config.models model found) in
              let bad : true ≡ false =
                sym (accepted_some o.literals (removed alias config) accepted)
                ∙ is_some_entry-length _ empty in
              cc
          | inr more ↦
              let last' : is_last_model_for_enabled_provider config alias ≡ true =
                rw more at last in
              let (row, (there, (on, one))) =
                one_model (value_of model.provider_instance config.providers) _
                  (sym (ap (λ m. is_last_of config m) found) ∙ last') in
              let none_left =
                has_models-count_of (delete_entry alias config.models) model.provider_instance
                  (omega (arith, one, count_of-delete_entry alias config.models model found)) in
              let served = (accepted_parts o.literals (removed alias config) accepted).1.1 in
              let kept = or_enabled row.enabled _ on (
                every-value_of (served_row (delete_entry alias config.models)) config.providers
                  model.provider_instance row served there) in
              let bad : true ≡ false = sym kept ∙ none_left in cc
        ]
      ]

  -- The removal of a model that is the only one, or the only one of an enabled provider, never goes through:
  -- the check of the effective configuration is skipped for it, but the schema refuses the configuration
  -- that is left, and the command throws. The files stay as they are; in memory the model is gone.
  pub apply_remove_model-last :
      (s : Session n) (alias : String) (model : ModelConfig n)
      → value_of alias s.config.models ≡ some model
      → is_last s.config alias ≡ true
      → apply_remove_model o alias s ≡ (
        threw (error (o.format_zod_error (removed alias s.config))),
        record s { config = removed alias s.config },
      )
  unfolding apply_remove_model ◌>>=◌ ◌>>◌ current change give
  apply_remove_model-last s alias model found last = rw found (
      rw
        (persist_config_refused _ false (record s { config = removed alias s.config })
          (removed-is_accepted s.config alias model found last))
        refl)
