-- ===== src/Config/Effective.antt =====
-- buildEffectiveGatewayConfig of src/config/configuration.ts: what is left of the configuration when
-- disabled providers have been taken out.
pub mod Starting
use ai_provider_gateway.Prelude.{
  some-injective, ◌≡◌, refl, ap, sym, ◌∙◌, Bool, true, false, not, Option, none, some, String, List,
  [], ◌∷◌, ◌++◌, any, inl, inr, or_else, str_eq, Bool-cases, if◌then◌else◌,
}
use ai_provider_gateway.Prelude.Texts.{Text, units}
use ai_provider_gateway.Errors.{Thrown, Settled, returned, threw, ◌>>=◌, ◌>>◌, throw_if}
use ai_provider_gateway.Errors
use ai_provider_gateway.Params.Numbers.{Numbers}
use ai_provider_gateway.Providers.Registry.{ProviderRow, ModelConfig, GatewayConfig}
use ai_provider_gateway.Config.Rows.{Entries, value_of, RawConfig, gateway_config_of}
use ai_provider_gateway.Config.Secrets.{Env, assert_enabled_provider_secrets_present}
use ai_provider_gateway.Cache.Identity.{is_cached_chat_allowed_for_model_alias}

unfoldable pub effective_providers : Entries ProviderRow → Entries ProviderRow
effective_providers [] = []
effective_providers ((id, row) ∷ rows) =
    let rest = effective_providers rows in if row.enabled then (id, row) ∷ rest else rest

abbrev pub is_active : Option ProviderRow → Bool
is_active none = false
is_active (some row) = row.enabled

unfoldable pub effective_models :
    {n : Numbers} → Entries ProviderRow → Entries (ModelConfig n) → Entries (ModelConfig n)
effective_models rows [] = []
effective_models rows ((alias, model) ∷ models) =
    let rest = effective_models rows models in
    if is_active (value_of model.provider_instance rows) then (alias, model) ∷ rest else rest

abbrev pub is_none_left : {A : Type 0} → Entries A → Bool
is_none_left [] = true
is_none_left (x ∷ xs) = false

abbrev pub no_models : Thrown
no_models = Errors.error (
    units
      "[GatewayConfig] No active models after applying enabled flags; enable a provider used by your models or add models for an enabled provider.")

abbrev pub no_model_of : String → Thrown
no_model_of id = Errors.error (
    units "[GatewayConfig] Enabled provider instance \""
    ++ (units id
        ++ (units "\" has no active model aliases. Add a model with providerInstance: "
            ++ (units id ++ units " or set enabled: false on the provider."))))

unfoldable pub check_providers :
    {n : Numbers} → Entries (ModelConfig n) → Entries ProviderRow → Settled (Unit {0})
check_providers models [] = returned tt
check_providers models ((id, row) ∷ rows) =
    throw_if (not (any (λ (_, model). str_eq model.provider_instance id) models)) (no_model_of id)
    >> check_providers models rows

abbrev pub check_secrets :
    {n : Numbers}
    → (is_http_url : Text → Bool) → RawConfig n
    → Env
    → (allow : Bool) → Settled (Unit {0})
check_secrets is_http_url raw env allow =
    if allow
    then returned tt
    else assert_enabled_provider_secrets_present is_http_url raw.providers env

-- `allow` is allowMissingProviderApiKeys.
unfoldable pub build_effective_gateway_config :
    {n : Numbers}
    → (is_http_url : Text → Bool) → RawConfig n
    → Env
    → (allow : Bool) → Settled (RawConfig n)
unfolding effective_providers effective_models check_providers
build_effective_gateway_config is_http_url raw env allow =
    let models = effective_models raw.providers raw.models in
    let providers = effective_providers raw.providers in
    throw_if (is_none_left models) no_models
    >> (check_providers models providers
        >> (check_secrets is_http_url raw env allow
            >> returned (record raw { providers = providers; models = models })))

returned-injective : {A : Type 0} (a b : A) → returned a ≡ returned b → a ≡ b
returned-injective a b h = cc

value_of-effective_providers :
    (id : String) (rows : Entries ProviderRow) (row : ProviderRow)
    → value_of id rows ≡ some row
    → row.enabled ≡ true
    → value_of id (effective_providers rows) ≡ some row
unfolding effective_providers
value_of-effective_providers id [] row found enabled = cc
value_of-effective_providers id ((k, r) ∷ rows) row found enabled =
    let rest = effective_providers rows in
    elim (Bool-cases (str_eq id k)) [
      | inl same ↦
          let this : r ≡ row = some-injective r row (rw same at found) in
          ap (λ b. value_of id (if b then (k, r) ∷ rest else rest))
            (ap (λ (x : ProviderRow). x.enabled) this ∙ enabled)
          ∙ rw same (ap (λ x. some x) this)
      | inr other ↦
          let later = value_of-effective_providers id rows row (rw other at found) enabled in
          elim (Bool-cases r.enabled) [
            | inl kept ↦
                ap (λ b. value_of id (if b then (k, r) ∷ rest else rest)) kept ∙ rw other later
            | inr gone ↦ ap (λ b. value_of id (if b then (k, r) ∷ rest else rest)) gone ∙ later
          ]
    ]

is_active-effective_models :
    {n : Numbers} (rows : Entries ProviderRow) (models : Entries (ModelConfig n)) (alias : String)
    (model : ModelConfig n)
    → value_of alias (effective_models rows models) ≡ some model
    → is_active (value_of model.provider_instance rows) ≡ true
unfolding effective_models
is_active-effective_models rows [] alias model found = cc
is_active-effective_models {n} rows ((k, m) ∷ models) alias model found =
    elim (Bool-cases (is_active (value_of m.provider_instance rows))) [
      | inl active ↦
          let among = rw active at found in
          elim (Bool-cases (str_eq alias k)) [
            | inl same ↦
                let this : m ≡ model = some-injective m model (rw same at among) in
                ap (λ (x : ModelConfig n). is_active (value_of x.provider_instance rows)) (sym this)
                ∙ active
            | inr other ↦ is_active-effective_models rows models alias model (rw other at among)
          ]
      | inr inactive ↦ is_active-effective_models rows models alias model (rw inactive at found)
    ]

active_row :
    (found : Option ProviderRow)
    → is_active found ≡ true
    → (row : ProviderRow) × ((found ≡ some row) × (row.enabled ≡ true))
active_row none h = cc
active_row (some row) h = (row, (refl, h))

returned_of :
    {A : Type 0} (m : Settled (Unit {0})) (k : Settled A) (a : A)
    → m >> k ≡ returned a
    → k ≡ returned a
returned_of (returned u) k a h = h
returned_of (threw e) k a h = cc

build_effective_gateway_config_sections :
    {n : Numbers} (is_http_url : Text → Bool) (env : Env) (allow : Bool) (raw config : RawConfig n)
    → build_effective_gateway_config is_http_url raw env allow ≡ returned config
    → record raw {
      providers = effective_providers raw.providers;
      models = effective_models raw.providers raw.models;
    }
      ≡ config
unfolding build_effective_gateway_config
build_effective_gateway_config_sections is_http_url env allow raw config built =
    let providers = effective_providers raw.providers in
    let models = effective_models raw.providers raw.models in
    let last =
      returned_of (check_providers models providers) _ config
        (returned_of (throw_if (is_none_left models) no_models) _ config built) in
    returned-injective _ config
      (returned_of (check_secrets is_http_url raw env allow) _ config last)

cached_chat_allowed :
    {n : Numbers} (config : GatewayConfig n) (alias : String) (model : ModelConfig n)
    (row : ProviderRow)
    → config.models alias ≡ some model
    → config.providers model.provider_instance ≡ some row
    → row.enabled ≡ true
    → is_cached_chat_allowed_for_model_alias config alias ≡ true
unfolding is_cached_chat_allowed_for_model_alias
cached_chat_allowed config alias model row found kept enabled =
    rw (is_cached_chat_allowed_for_model_alias, found) (rw kept enabled)

-- When buildEffectiveGatewayConfig returns a configuration, each model found in it under an alias names a
-- provider that the configuration has too, that provider is enabled, and isCachedChatAllowedForModelAlias
-- allows stored answers for the alias.
pub build_effective_gateway_config-IsActive :
    (n : Numbers) (is_http_url : Text → Bool) (env : Env) (allow : Bool) (raw config : RawConfig n)
    (alias : String) (model : ModelConfig n)
    → build_effective_gateway_config is_http_url raw env allow ≡ returned config
    → (gateway_config_of config).models alias ≡ some model
    → (row : ProviderRow) × (((gateway_config_of config).providers model.provider_instance
          ≡ some row)
        × ((row.enabled ≡ true)
            × (is_cached_chat_allowed_for_model_alias (gateway_config_of config) alias ≡ true)))
build_effective_gateway_config-IsActive n is_http_url env allow raw config alias model built found =
    let whole = build_effective_gateway_config_sections is_http_url env allow raw config built in
    let among = ap (λ (c : RawConfig n). value_of alias c.models) whole ∙ found in
    let (row, (here, enabled)) =
      active_row (value_of model.provider_instance raw.providers)
        (is_active-effective_models raw.providers raw.models alias model among) in
    let kept =
      ap (λ (c : RawConfig n). value_of model.provider_instance c.providers) (sym whole)
      ∙ value_of-effective_providers model.provider_instance raw.providers row here enabled in
    (
      row,
      (
        kept,
        (
          enabled,
          cached_chat_allowed (gateway_config_of config) alias model row found kept enabled,
        ),
      ),
    )
