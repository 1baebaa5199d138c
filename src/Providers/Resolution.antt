-- ===== src/Providers/Resolution.antt =====
-- How an alias is resolved by src/providers/provider-registry.service.ts.
use ai_provider_gateway.Prelude.{
  ◌≡◌, refl, ◌⊎◌, inl, inr, true, false, Option, none, some, String, List, [], ◌∷◌, str_eq, eq_iff,
  is_some, arith, Bool-cases, Option-cases,
}
use ai_provider_gateway.Errors.{returned, ThrewHttp}
use ai_provider_gateway.Params.Numbers.{Numbers}
use ai_provider_gateway.Providers.Registry.{
  same_type, ProviderRow, ModelConfig, GatewayConfig, RegisteredProviderInstance,
  ResolvedProviderConfig, Instances, register_instance, resolve_model_alias, resolve_provider_entry,
  check_entry, type_mismatch, unregistered, internal_server_error, resolve_fallback,
  resolved_config, resolve,
}

-- The registry after these registrations, the last one first.
abbrev pub registered : List RegisteredProviderInstance → Instances
registered [] id = none
registered (e ∷ es) id =
    register_instance e.instance_id e.provider_type e.has_stream (registered es) id

registered-id :
    (es : List RegisteredProviderInstance) (id : String) (e : RegisteredProviderInstance)
    → registered es id ≡ some e
    → e.instance_id ≡ id
unfolding register_instance
registered-id [] id e h = cc
registered-id (r ∷ es) id e h = ground (arith, eq_iff r.instance_id id, registered-id es id e)

module _ {n : Numbers} (config : GatewayConfig n) (es : List RegisteredProviderInstance) where
  -- The resolved alias stands in the configuration, its provider instance is configured and registered
  -- with one type, and a fallback alias stands in the configuration too.
  pub record IsWired (alias : String) (r : ResolvedProviderConfig n) : Type 0 where
    pub model : ModelConfig n
    pub row : ProviderRow
    pub model_found : config.models alias ≡ some model
    pub row_found : config.providers model.provider_instance ≡ some row
    pub entry_found : registered es model.provider_instance ≡ some r.provider
    pub one_type : same_type r.provider_type row.provider_type ≡ true
    pub its_name : r.provider_name ≡ model.provider_instance
    pub its_alias : r.model_alias ≡ alias
    pub fallback_found : (f : String) → r.fallback_alias ≡ some f → is_some (config.models f) ≡ true

  -- Why the alias is refused.
  pub data IsUnwired (alias : String) : Type 0 where
    no_model : config.models alias ≡ none → IsUnwired alias
    no_row :
        (model : ModelConfig n)
        → config.models alias ≡ some model
        → config.providers model.provider_instance ≡ none
        → IsUnwired alias

  pub data IsMisregistered (alias : String) : Type 0 where
    no_entry :
        (model : ModelConfig n)
        → config.models alias ≡ some model
        → registered es model.provider_instance ≡ none
        → IsMisregistered alias
    other_type :
        (model : ModelConfig n) (row : ProviderRow) (entry : RegisteredProviderInstance)
        → config.models alias ≡ some model
        → config.providers model.provider_instance ≡ some row
        → registered es model.provider_instance ≡ some entry
        → same_type entry.provider_type row.provider_type ≡ false
        → IsMisregistered alias

resolve_fallback-found :
    {n : Numbers} (config : GatewayConfig n) (fallback : Option String) (f : String)
    → resolve_fallback config fallback ≡ some f
    → is_some (config.models f) ≡ true
unfolding resolve_fallback
resolve_fallback-found config none f h = cc
resolve_fallback-found config (some g) f h = elim (Bool-cases (str_eq g "")) [
  | inl empty ↦ let no = rw empty at h in cc
  | inr full ↦ elim (Bool-cases (is_some (config.models g))) [
    | inr absent ↦ let no = rw (full, absent) at h in cc
    | inl found ↦
        let same : some g ≡ some f = rw (full, found) at h in
        let same' : g ≡ f = cc in rw (← same') found
  ]
]

-- The resolution of an alias, whatever the configuration and the registrations: it succeeds and what
-- it gives is wired as configured, with a registered provider of the configured type and a fallback,
-- if any, that the configuration has; or it throws HTTP 400, and the alias or its provider instance is
-- not configured; or it throws HTTP 500, and the instance is not registered or has another type.
pub resolve_lem :
    (n : Numbers) (config : GatewayConfig n) (es : List RegisteredProviderInstance) (alias : String)
    → ((r : ResolvedProviderConfig n) × (resolve (some config) (registered es) alias ≡ returned r)
        × IsWired config es alias r)
      ⊎ (ThrewHttp 400 (resolve (some config) (registered es) alias) × IsUnwired config es alias)
      ⊎ (ThrewHttp 500 (resolve (some config) (registered es) alias)
          × IsMisregistered config es alias)
unfolding resolve resolve_model_alias resolve_provider_entry check_entry type_mismatch unregistered
    internal_server_error
resolve_lem n config es alias = elim (Option-cases (config.models alias)) [
  | inl missing ↦ inr (inl (rw missing (_, refl), no_model missing))
  | inr (model, found) ↦ elim (Option-cases (config.providers model.provider_instance)) [
    | inl missing ↦ inr (inl (rw (found, missing) (_, refl), no_row model found missing))
    | inr (row, row_found) ↦ elim (Option-cases (registered es model.provider_instance)) [
      | inl missing ↦
          inr (inr (rw (found, row_found, missing) (_, refl), no_entry model found missing))
      | inr (entry, entry_found) ↦
          elim (Bool-cases (same_type entry.provider_type row.provider_type)) [
            | inr differs ↦ inr (
                inr (
                  rw (found, row_found, entry_found, differs) (_, refl),
                  other_type model row entry found row_found entry_found differs,
                ))
            | inl agrees ↦ inl (
              resolved_config config alias model entry,
              rw (found, row_found, entry_found, agrees) refl,
              record {
                model = model;
                row = row;
                model_found = found;
                row_found = row_found;
                entry_found = entry_found;
                one_type = agrees;
                its_name = registered-id es model.provider_instance entry entry_found;
                its_alias = refl;
                fallback_found = resolve_fallback-found config model.fallback;
              },
            )
          ]
    ]
  ]
]
