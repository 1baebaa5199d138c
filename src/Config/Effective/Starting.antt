-- ===== src/Config/Effective/Starting.antt =====
-- Which configurations the gateway can start with, of those that the schema accepts.
use ai_provider_gateway.Prelude.{
  ◌≡◌, refl, sym, ap, ◌∙◌, inl, inr, Bool, true, false, ◌||◌, none, some, String, [], ◌∷◌, All,
  str_eq, eq_iff, Bool-cases, Option-cases,
}
use ai_provider_gateway.Prelude.Texts.{Text}
use ai_provider_gateway.Errors.{returned, threw, ◌>>◌}
use ai_provider_gateway.Params.Numbers.{Numbers}
use ai_provider_gateway.Providers.Registry.{ProviderRow, ModelConfig}
use ai_provider_gateway.Config.Rows.{Entries, value_of, RawConfig}
use ai_provider_gateway.Config.Secrets.{Env}
use ai_provider_gateway.Config.Schema.{Literals, has_models, safe_parse}
use ai_provider_gateway.Config.Schema.Lookups.{Some}
use ai_provider_gateway.Config.Schema.Sound.{safe_parse-IsLinked}
use ai_provider_gateway.Config.Effective.{
  effective_providers, effective_models, is_active, is_none_left, no_models, check_providers,
  check_secrets, build_effective_gateway_config,
}

-- No name stands twice, as in every object.
abbrev pub Distinct : {A : Type 0} → Entries A → Type 0
Distinct [] = Unit
Distinct ((k, v) ∷ entries) = (value_of k entries ≡ none) × Distinct entries

self_eq : (s : String) → str_eq s s ≡ true
self_eq s = (eq_iff s s).1 refl

All-entries :
    {A : Type 0} (P : String × A → Type 0) (entries : Entries A)
    → Distinct entries
    → ((k : String) (v : A) → value_of k entries ≡ some v → P (k, v))
    → All P entries
All-entries P [] d h = tt
All-entries {A} P ((j, w) ∷ entries) d h =
    let later = λ (k : String) (v : A) (found : value_of k entries ≡ some v).
      elim (Bool-cases (str_eq k j)) as (λ _. P (k, v)) [
        | inl same ↦
            let gone : value_of k entries ≡ none =
              ap (λ k'. value_of k' entries) ((eq_iff k j).0 same) ∙ d.0 in
            let bad : none ≡ some v = sym gone ∙ found in cc
        | inr other ↦ h k v (rw other found)
      ] in
    (h j w (rw (self_eq j) refl), All-entries P entries d.1 later)

or_true : (a b : Bool) → b ≡ true → a || b ≡ true
or_true true b h = refl
or_true false b h = h

has_models-effective_models :
    {n : Numbers} (rows : Entries ProviderRow) (models : Entries (ModelConfig n)) (id : String)
    → is_active (value_of id rows) ≡ true
    → Some (λ (_, model). model.provider_instance ≡ id) models
    → has_models (effective_models rows models) id ≡ true
unfolding effective_models
has_models-effective_models rows [] id active h = elim h [ ]
has_models-effective_models rows ((alias, model) ∷ models) id active (inl own) =
    let here : is_active (value_of model.provider_instance rows) ≡ true =
      ap (λ i. is_active (value_of i rows)) own ∙ active in
    let same : str_eq model.provider_instance id ≡ true = (eq_iff _ _).1 own in rw (here, same) refl
has_models-effective_models rows ((alias, model) ∷ models) id active (inr later) =
    let ih = has_models-effective_models rows models id active later in
    elim (Bool-cases (is_active (value_of model.provider_instance rows))) [
      | inl on ↦ rw on (or_true (str_eq model.provider_instance id) _ ih)
      | inr off ↦ rw off ih
    ]

has-is_none_left :
    {n : Numbers} (models : Entries (ModelConfig n)) (id : String)
    → has_models models id ≡ true
    → is_none_left models ≡ false
has-is_none_left [] id h = cc
has-is_none_left (m ∷ models) id h = refl

check_providers_lem :
    {n : Numbers} (models : Entries (ModelConfig n)) (rows : Entries ProviderRow)
    → All (λ (id, row). row.enabled ≡ true → has_models models id ≡ true) rows
    → check_providers models (effective_providers rows) ≡ returned tt
unfolding check_providers effective_providers
check_providers_lem models [] h = refl
check_providers_lem models ((id, row) ∷ rows) h = elim (Bool-cases row.enabled) [
  | inl on ↦ rw (on, h.0 on) (check_providers_lem models rows h.1)
  | inr off ↦ rw off (check_providers_lem models rows h.1)
]

effective_models-none :
    {n : Numbers} (rows : Entries ProviderRow) (models : Entries (ModelConfig n))
    → ((id : String) → is_active (value_of id rows) ≡ false)
    → effective_models rows models ≡ []
unfolding effective_models
effective_models-none rows [] h = refl
effective_models-none rows ((alias, model) ∷ models) h =
    rw (h model.provider_instance) (effective_models-none rows models h)

abbrev effective_config : {n : Numbers} → RawConfig n → RawConfig n
effective_config raw = record raw {
  providers = effective_providers raw.providers;
  models = effective_models raw.providers raw.models;
}

-- Of a configuration that the schema accepts, in which no provider's name stands twice: with an enabled
-- provider, the building of the effective configuration comes down to the check of the secrets, and gives what is
-- left without the disabled providers; with none, it throws that there is no active model. An enabled
-- provider without a model is not met.
pub build_effective_gateway_config_starts :
    (n : Numbers) (literals : Literals n) (is_http_url : Text → Bool) (env : Env) (allow : Bool)
    (config raw : RawConfig n)
    → safe_parse literals config ≡ some raw
    → Distinct raw.providers
    → ((id : String) (row : ProviderRow)
        → value_of id raw.providers ≡ some row
        → row.enabled ≡ true
        → build_effective_gateway_config is_http_url raw env allow
          ≡ (check_secrets is_http_url raw env allow >> returned (effective_config raw)))
      × (((id : String) (row : ProviderRow)
            → value_of id raw.providers ≡ some row
            → row.enabled ≡ false)
          → build_effective_gateway_config is_http_url raw env allow ≡ threw no_models)
unfolding build_effective_gateway_config
build_effective_gateway_config_starts n literals is_http_url env allow config raw accepted
      distinct =
    let linked = safe_parse-IsLinked literals config raw accepted in
    let em = effective_models raw.providers raw.models in
    let served =
      λ (id : String) (row : ProviderRow) (found : value_of id raw.providers ≡ some row)
          (on : row.enabled ≡ true).
        has_models-effective_models raw.providers raw.models id (ap is_active found ∙ on)
          (linked.is_served id row found on) in
    (
      λ id row found on.
          let some_left = has-is_none_left em id (served id row found on) in
          let checked =
            check_providers_lem em raw.providers (All-entries _ raw.providers distinct served) in
          rw (some_left, checked) refl,
      λ off.
          let none_on = λ (id : String).
            elim (Option-cases (value_of id raw.providers))
              as (λ _. is_active (value_of id raw.providers) ≡ false) [
                | inl absent ↦ ap is_active absent
                | inr (row, found) ↦ ap is_active found ∙ off id row found
              ] in
          rw (effective_models-none raw.providers raw.models none_on) refl,
    )
