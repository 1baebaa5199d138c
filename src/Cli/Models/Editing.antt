-- ===== src/Cli/Models/Editing.antt =====
-- applyEditModel of src/cli/services/model-manager.service.ts.
use ai_provider_gateway.Prelude.{
  ℕ, Bool, false, not, ◌&&◌, Option, none, some, String, or_else, str_eq, if◌then◌else◌,
}
use ai_provider_gateway.Prelude.Texts.{units}
use ai_provider_gateway.Errors.{error}
use ai_provider_gateway.Params.Numbers.{Numbers}
use ai_provider_gateway.Providers.Registry.{ProviderType, ModelConfig}
use ai_provider_gateway.Config.Rows.{value_of}
use ai_provider_gateway.Cli.Policies.{
  ModelPolicy, is_thinking_capable_model, provider_model_rejects_sampling_params,
  default_model_policy, first_of, status_of, sync_policy_sampling_for_model,
}
use ai_provider_gateway.Cli.Session.{
  Outside, M, ◌>>=◌, ◌>>◌, give, raise_if, current, persist_config,
}
use ai_provider_gateway.Cli.Clients.{ApplyMutationResult, touched_config, found_row}
use ai_provider_gateway.Cli.Models.{
  is_last_model_for_enabled_provider, type_of, model_error, model_not_found, set_model,
}

pub record PolicyInput (n : Numbers) : Type 0 where
  pub timeout_ms : ℕ
  pub max_attempts : ℕ
  pub max_output_tokens : ℕ
  pub temperature : Option n.N

-- `fallback`: undefined, null or a text.
pub record EditModelInput (n : Numbers) : Type 0 where
  pub alias : String
  pub model_id : Option String
  pub provider_instance : Option String
  pub confirm_non_bootable : Bool
  pub fallback : Option (Option String)
  pub streaming : Option Bool
  pub policy : Option (PolicyInput n)

abbrev policy_of : {n : Numbers} → ModelConfig n → Option (ModelPolicy n)
policy_of model = elim model.policy [
  | none ↦ none
  | some source ↦ some (record { source = source; params = model.params })
]

abbrev with_policy : {n : Numbers} → ModelConfig n → ModelPolicy n → ModelConfig n
with_policy model policy = record model { policy = some policy.source; params = policy.params }

abbrev is_back : Option String → String → Bool
is_back none alias = false
is_back (some back) alias = str_eq back alias

module _ {n : Numbers} (o : Outside n) where
  open o use {literals}

  -- The new model id, with what depends on it where the provider is known.
  abbrev renamed : Option ProviderType → ModelConfig n → ModelConfig n
  renamed none model = model
  renamed (some t) model =
      with_policy
        (record model {
          capabilities = record model.capabilities {
            thinking = is_thinking_capable_model model.model_id t;
          };
        })
        (sync_policy_sampling_for_model literals (policy_of model) model.model_id t)

  abbrev pub edit_model_id : String → Option String → ModelConfig n → M n (ModelConfig n)
  edit_model_id alias none model = give model
  edit_model_id alias (some id) model = do
    config ← current
    set_model alias
        (renamed (type_of config model.provider_instance) (record model { model_id = id }))

  -- The row that was moved, and whether the check of the effective configuration is skipped.
  abbrev pub edit_instance :
      String → Option String → Bool → ModelConfig n → M n (ModelConfig n × Bool)
  edit_instance alias none confirmed model = give (model, false)
  edit_instance alias (some id) confirmed model = do
    config ← current
    let moves =
        not (str_eq id model.provider_instance) && is_last_model_for_enabled_provider config alias
    raise_if (moves && not confirmed) (
        model_error "[MODEL_MANAGER] Moving the last model away from provider \""
          model.provider_instance
          "\" would leave it without models. Pass confirmNonBootable: true to proceed.")
    moved ← set_model alias (record model { provider_instance = id })
    give (moved, moves)

  abbrev pub set_fallback : String → String → ModelConfig n → M n (ModelConfig n)
  set_fallback alias fallback model = do
    config ← current
    raise_if (str_eq fallback alias) (error (units "Fallback cannot be the same alias."))
    target ←
        found_row (value_of fallback config.models)
          (model_error "Unknown model alias: " fallback "")
    raise_if (is_back target.fallback alias) (error (units "Circular fallback detected."))
    set_model alias (record model { fallback = some fallback })

  abbrev pub edit_fallback : String → Option (Option String) → ModelConfig n → M n (ModelConfig n)
  edit_fallback alias none model = give model
  edit_fallback alias (some none) model = set_model alias (record model { fallback = none })
  edit_fallback alias (some (some f)) model =
      if str_eq f ""
      then set_model alias (record model { fallback = none })
      else set_fallback alias (o.trim f) model

  abbrev pub edit_streaming : String → Option Bool → ModelConfig n → M n (ModelConfig n)
  edit_streaming alias none model = give model
  edit_streaming alias (some on) model =
      set_model alias (record model { capabilities = record model.capabilities { streaming = on } })

  abbrev rejects_sampling : String → Option ProviderType → Bool
  rejects_sampling model_id none = false
  rejects_sampling model_id (some t) = provider_model_rejects_sampling_params model_id t

  abbrev edited_policy : Option ProviderType → ModelConfig n → PolicyInput n → ModelPolicy n
  edited_policy t model given =
      let defaults = default_model_policy literals model.model_id t in
      let base = or_else (policy_of model) defaults in
      let old = base.params.defaults in
      let rejects : Bool = rejects_sampling model.model_id t in
      record {
        source = record base.source {
          timeout_ms = some given.timeout_ms;
          retry = some (record {
            max_attempts = some given.max_attempts;
            on_status = first_of (status_of base.source) (status_of defaults.source);
          });
        };
        params = record {
          defaults = record old {
            temperature =
                if rejects
                then none
                else first_of given.temperature
                    (some (or_else old.temperature literals.seven_tenths));
            max_output_tokens = some given.max_output_tokens;
          };
          allow_overrides = defaults.params.allow_overrides;
          bounds = defaults.params.bounds;
        };
      }

  abbrev pub edit_policy : String → Option (PolicyInput n) → ModelConfig n → M n (ModelConfig n)
  edit_policy alias none model = give model
  edit_policy alias (some given) model = do
    config ← current
    set_model alias
        (with_policy model (edited_policy (type_of config model.provider_instance) model given))

  unfoldable pub apply_edit_model : EditModelInput n → M n ApplyMutationResult
  apply_edit_model input = do
    config ← current
    row ← found_row (value_of input.alias config.models) (model_not_found input.alias)
    renamed_row ← edit_model_id input.alias input.model_id row
    moved ← edit_instance input.alias input.provider_instance input.confirm_non_bootable renamed_row
    with_fallback ← edit_fallback input.alias input.fallback moved.0
    with_streaming ← edit_streaming input.alias input.streaming with_fallback
    edited ← edit_policy input.alias input.policy with_streaming
    saved ← persist_config o moved.1 false
    give touched_config
