-- ===== src/Config/Schema/Sound.antt =====
-- What a configuration that the schema of src/config/gateway-config.schema.ts accepted is known to be.
use ai_provider_gateway.Prelude.{
  ◌≡◌, ◌≢◌, refl, sym, ap, ◌∙◌, inl, inr, Bool, true, false, not, ◌||◌, Option, none, some, String,
  arith, is_some, some-injective, str_eq, eq_iff, subst, Bool-cases,
}
use ai_provider_gateway.Params.Numbers.{Numbers}
use ai_provider_gateway.Providers.Registry.{ProviderRow, ModelConfig}
use ai_provider_gateway.Config.Rows.{Entries, value_of, RawConfig}
use ai_provider_gateway.Config.Schema.{
  Literals, every, if_set, has_models, fallback_of, is_fallback_accepted, are_fallbacks_accepted,
  are_linked, with_retry, with_defaults, is_accepted, safe_parse,
}
use ai_provider_gateway.Config.Schema.Lookups.{
  Some, every-value_of, some_of, any-Some, is_fallback_accepted-value_of, value_of-with_defaults,
  Some-with_defaults, value_of-with_defaults_of, both, is_some_entry, is_some_of, or_enabled,
}

-- The names in a configuration lead somewhere.
pub record IsLinked {n : Numbers} (config : RawConfig n) : Type 0 where
  pub has_provider :
      (alias : String) (model : ModelConfig n)
      → value_of alias config.models ≡ some model
      → (row : ProviderRow) × (value_of model.provider_instance config.providers ≡ some row)
  pub has_fallback :
      (alias fallback : String) (model : ModelConfig n)
      → value_of alias config.models ≡ some model
      → model.fallback ≡ some fallback
      → fallback ≢ ""
      → (target : ModelConfig n) × ((value_of fallback config.models ≡ some target)
          × ((fallback ≢ alias) × (target.fallback ≢ some alias)))
  pub is_served :
      (id : String) (row : ProviderRow)
      → value_of id config.providers ≡ some row
      → row.enabled ≡ true
      → Some (λ (_, model). model.provider_instance ≡ id) config.models

ne_of_false : (a b : String) → str_eq a b ≡ false → a ≢ b
ne_of_false a b h e = cc ((eq_iff a b).1 e)

circle_free :
    {n : Numbers} (models : Entries (ModelConfig n)) (alias fallback : String)
    (target : ModelConfig n)
    → value_of fallback models ≡ some target
    → if_set (λ b. not (str_eq b alias)) (fallback_of models fallback) ≡ true
    → target.fallback ≢ some alias
circle_free {n} models alias fallback target found back e =
    let test = λ (o : Option String). if_set (λ b. not (str_eq b alias)) o in
    let at_target : fallback_of models fallback ≡ some alias = rw (fallback_of, found) e in
    let bad : not (str_eq alias alias) ≡ true = sym (ap test at_target) ∙ back in
    let good : str_eq alias alias ≡ true = (eq_iff alias alias).1 refl in cc

has_fallback_of :
    {n : Numbers} (models : Entries (ModelConfig n)) (alias fallback : String)
    → is_fallback_accepted models alias fallback ≡ true
    → fallback ≢ ""
    → (target : ModelConfig n) × ((value_of fallback models ≡ some target)
        × ((fallback ≢ alias) × (target.fallback ≢ some alias)))
unfolding is_fallback_accepted
has_fallback_of models alias fallback h named = elim (Bool-cases (str_eq fallback "")) [
  | inl empty ↦ absurd (named ((eq_iff fallback "").0 empty))
  | inr given ↦
      let tests = rw given at h in
      let other : str_eq fallback alias ≡ false = ground arith in
      let there : is_some (value_of fallback models) ≡ true = ground arith in
      let back : if_set (λ b. not (str_eq b alias)) (fallback_of models fallback) ≡ true =
        ground arith in
      let (target, found) = some_of (value_of fallback models) there in
      (
        target,
        (
          found,
          (ne_of_false fallback alias other, circle_free models alias fallback target found back),
        ),
      )
]

parsed :
    {n : Numbers} (literals : Literals n) (config saved : RawConfig n)
    → safe_parse literals config ≡ some saved
    → (is_accepted literals config ≡ true)
      × (record config { models = with_defaults config.models } ≡ saved)
unfolding safe_parse
parsed literals config saved h = elim (Bool-cases (is_accepted literals config)) [
  | inl yes' ↦ (yes', some-injective _ saved (rw yes' at h))
  | inr no' ↦ let bad : none ≡ some saved = rw no' at h in cc
]

abbrev pub linked_model : {n : Numbers} → Entries ProviderRow → String × ModelConfig n → Bool
linked_model rows (_, model) = is_some (value_of model.provider_instance rows)

abbrev pub served_row : {n : Numbers} → Entries (ModelConfig n) → String × ProviderRow → Bool
served_row models (id, row) = not row.enabled || has_models models id

pub accepted_parts :
    {n : Numbers} (literals : Literals n) (config : RawConfig n)
    → is_accepted literals config ≡ true
    → (are_fallbacks_accepted config.models config.models ≡ true)
      × ((every (linked_model config.providers) config.models ≡ true)
          × (every (served_row config.models) config.providers ≡ true))
unfolding is_accepted are_linked
accepted_parts literals config h =
    let top = both _ (are_linked config) h in
    let low = both _ (are_fallbacks_accepted config.models config.models) top.0 in
    let links = both _ (every (served_row config.models) config.providers) top.1 in
    (low.1, ((both _ _ links.0).0, links.1))

-- The schema wants a model.
pub accepted_some :
    {n : Numbers} (literals : Literals n) (config : RawConfig n)
    → is_accepted literals config ≡ true
    → is_some_entry config.models ≡ true
unfolding is_accepted are_linked
accepted_some literals config h =
    let top = both _ (are_linked config) h in
    let links = both _ (every (served_row config.models) config.providers) top.1 in
    is_some_of config.models (both _ _ links.0).1

-- What the schema accepts hangs together: every model's provider is there; every fallback that is not empty is another alias
-- that is there and does not fall back to the first; and every enabled provider has a model.
pub safe_parse-IsLinked :
    {n : Numbers} (literals : Literals n) (config saved : RawConfig n)
    → safe_parse literals config ≡ some saved
    → IsLinked saved
safe_parse-IsLinked literals config saved h =
    let (accepted, same) = parsed literals config saved h in
    let (fallbacks, (linked, served)) = accepted_parts literals config accepted in
    subst IsLinked same (record {
      has_provider = λ alias model found.
          let (raw, (there, e)) = value_of-with_defaults config.models alias model found in
          let (row, at_row) =
            some_of (value_of raw.provider_instance config.providers) (
              every-value_of (linked_model config.providers) config.models alias raw linked
                there) in
          (row, ap (λ m. value_of m.provider_instance config.providers) (sym e) ∙ at_row);
      has_fallback = λ alias fallback model found named given.
          let (raw, (there, e)) = value_of-with_defaults config.models alias model found in
          let named' : raw.fallback ≡ some fallback = ap (λ m. m.fallback) e ∙ named in
          let (target, (at_target, free)) =
            has_fallback_of config.models alias fallback
              (is_fallback_accepted-value_of config.models config.models alias raw fallback
                fallbacks there named')
              given in
          (
            record target { policy = some (with_retry target.policy) },
            (value_of-with_defaults_of config.models fallback target at_target, free),
          );
      is_served = λ id row found enabled.
          let served_id =
            every-value_of (served_row config.models) config.providers id row served found in
          Some-with_defaults id config.models (
            any-Some id config.models
              (or_enabled row.enabled (has_models config.models id) enabled served_id));
    })
