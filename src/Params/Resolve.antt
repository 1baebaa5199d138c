-- ===== src/Params/Resolve.antt =====
-- src/chat/helpers/resolve-provider-call-options.ts
use ai_provider_gateway.Prelude.{
  ℕ, ◌+◌, Bool, true, false, not, ◌&&◌, Option, none, some, String, List, [], ◌∷◌, ◌++◌, any, ltb,
  is_some, or_else, str_eq, if◌then◌else◌,
}
use ai_provider_gateway.Prelude.Texts.{units, show_nat}
use ai_provider_gateway.Prelude.Json.{
  Json, Items, nil, cons, field, end, lit, num, str, arr, obj, single,
}
use ai_provider_gateway.Errors.{
  Thrown, http, Settled, returned, threw, ◌>>◌, throw_if, payload, model_not_allowed,
  validation_failed,
}
use ai_provider_gateway.Params.Numbers.{Numbers, naturals, clamp}

-- `OVERRIDE_KEYS`, and the one key of the DTO that is not among them.
pub data ParamKey : Type 0 where
  temperature max_output_tokens top_p stop frequency_penalty presence_penalty : ParamKey
  seed top_k response_format thinking_enabled thinking_budget parallel_tool_calls : ParamKey

abbrev pub key_name : ParamKey → String
key_name temperature = "temperature"
key_name max_output_tokens = "maxOutputTokens"
key_name top_p = "topP"
key_name stop = "stop"
key_name frequency_penalty = "frequencyPenalty"
key_name presence_penalty = "presencePenalty"
key_name seed = "seed"
key_name top_k = "topK"
key_name response_format = "responseFormat"
key_name thinking_enabled = "thinkingEnabled"
key_name thinking_budget = "thinkingBudget"
key_name parallel_tool_calls = "parallelToolCalls"

unfoldable pub is_override_key : ParamKey → Bool
is_override_key parallel_tool_calls = false
is_override_key key = true

abbrev pub key_eq : ParamKey → ParamKey → Bool
key_eq a b = str_eq (key_name a) (key_name b)

unfoldable pub allows : List ParamKey → ParamKey → Bool
allows keys key = any (λ k. key_eq k key) keys

pub data ThinkingBudget : Type 0 where
  effort : String → ThinkingBudget
  tokens : ℕ → ThinkingBudget

module _ (n : Numbers) where
  -- `ChatParamsDto` and `ProviderCallOptions` have the same fields; an absent one is `none`. `stop`
  -- and `responseFormat` are passed on as they are.
  pub record Options : Type 0 where
    pub temperature : Option n.N
    pub max_output_tokens : Option ℕ
    pub top_p : Option n.N
    pub top_k : Option n.N
    pub stop : Option Json
    pub frequency_penalty : Option n.N
    pub presence_penalty : Option n.N
    pub seed : Option n.N
    pub response_format : Option Json
    pub thinking_enabled : Option Bool
    pub thinking_budget : Option ThinkingBudget
    pub parallel_tool_calls : Option Bool

  pub record Defaults : Type 0 where
    pub temperature : Option n.N
    pub max_output_tokens : Option ℕ
    pub top_p : Option n.N
    pub frequency_penalty : Option n.N
    pub presence_penalty : Option n.N
    pub seed : Option n.N
    pub thinking_enabled : Option Bool

  -- A range is a pair of `min` and `max`.
  pub record Bounds : Type 0 where
    pub temperature : Option (n.N × n.N)
    pub max_output_tokens : Option (ℕ × ℕ)
    pub top_p : Option (n.N × n.N)
    pub frequency_penalty : Option (n.N × n.N)
    pub presence_penalty : Option (n.N × n.N)

  -- `GatewayParamsConfig` with its `?? {}` and `?? []` made.
  pub record Policy : Type 0 where
    pub defaults : Defaults
    pub allow_overrides : List ParamKey
    pub bounds : Bounds

  -- `bodyParams[key] !== undefined`
  unfoldable pub is_set : Options → ParamKey → Bool
  is_set body temperature = is_some body.temperature
  is_set body max_output_tokens = is_some body.max_output_tokens
  is_set body top_p = is_some body.top_p
  is_set body stop = is_some body.stop
  is_set body frequency_penalty = is_some body.frequency_penalty
  is_set body presence_penalty = is_some body.presence_penalty
  is_set body seed = is_some body.seed
  is_set body top_k = is_some body.top_k
  is_set body response_format = is_some body.response_format
  is_set body thinking_enabled = is_some body.thinking_enabled
  is_set body thinking_budget = is_some body.thinking_budget
  is_set body parallel_tool_calls = is_some body.parallel_tool_calls

abbrev key_items : List ParamKey → Items
key_items [] = nil
key_items (k ∷ ks) = cons (lit (key_name k)) (key_items ks)

-- The message of one of the three throws ends in a full stop.
unfoldable pub not_allowed : String → List ParamKey → ParamKey → Thrown
unfolding payload
not_allowed stop_mark allowed key = http 400 (
    payload model_not_allowed
      (units "Parameter "
        ++ (units (key_name key)
            ++ (units " is not allowed for this model alias" ++ units stop_mark)))
      (single (
        obj (
          field "field" (str (units "params." ++ units (key_name key)))
            (field "allowOverrides" (arr (key_items allowed)) end)))))

unfoldable pub budget_error : ℕ → ℕ → Thrown
unfolding payload
budget_error effective budget = http 400 (
    payload validation_failed
      (units "maxOutputTokens ("
        ++ (show_nat effective
            ++ (units ") is insufficient for thinking mode with budget "
                ++ (show_nat budget
                    ++ (units ". Minimum required: "
                        ++ (show_nat (budget + 512)
                            ++ units
                                " tokens (thinking budget + 512 token buffer for response text)."))))))
      (single (
        obj (
          field "field" (lit "params.maxOutputTokens") (
            field "currentValue" (num effective) (
              field "thinkingBudget" (num budget) (
                field "minimumRequired" (num (budget + 512)) (
                  field "hint"
                    (lit
                      "Increase maxOutputTokens in request/config, reduce thinkingBudget, or use string effort level (e.g. \"medium\") for adaptive thinking without fixed budget.")
                    end))))))))

-- `if (body !== undefined) value = body`
abbrev pub override {ℓ} : {A : Type ℓ} → Option A → Option A → Option A
override none value = value
override (some b) value = some b

-- `if (value !== undefined && bounds) value = clamp(value, bounds.min, bounds.max)`
abbrev pub bounded : (n : Numbers) → Option n.N → Option (n.N × n.N) → Option n.N
bounded n none bounds = none
bounded n (some v) none = some v
bounded n (some v) (some (lo, hi)) = some (clamp n v lo hi)

abbrev is_on : Option Bool → Bool
is_on none = false
is_on (some b) = b

-- The last check: a numeric budget needs 512 more tokens for the answer.
unfoldable pub check_budget : Option Bool → Option ThinkingBudget → Option ℕ → Settled (Unit {0})
check_budget enabled none most = returned tt
check_budget enabled (some (effort name)) most = returned tt
check_budget enabled (some (tokens budget)) most =
    throw_if (is_on enabled && ltb (or_else most 1024) (budget + 512))
      (budget_error (or_else most 1024) budget)

module _ (n : Numbers) where
  -- The loop over `Object.keys(bodyParams)`.
  unfoldable pub check_keys : List ParamKey → List ParamKey → Options n → Settled (Unit {0})
  check_keys allowed [] body = returned tt
  check_keys allowed (key ∷ keys) body =
      let rest = check_keys allowed keys body in
      if is_override_key key && (is_set n body key && not (allows allowed key))
      then threw (not_allowed "" allowed key)
      else rest

  -- The parameters of the call, once the checks have passed.
  unfoldable pub effective : Policy n → Options n → Options n
  effective p body = record {
    temperature = bounded n (override body.temperature p.defaults.temperature) p.bounds.temperature;
    max_output_tokens =
        bounded naturals (override body.max_output_tokens p.defaults.max_output_tokens)
          p.bounds.max_output_tokens;
    top_p = bounded n (override body.top_p p.defaults.top_p) p.bounds.top_p;
    top_k = body.top_k;
    stop = body.stop;
    frequency_penalty =
        bounded n (override body.frequency_penalty p.defaults.frequency_penalty)
          p.bounds.frequency_penalty;
    presence_penalty =
        bounded n (override body.presence_penalty p.defaults.presence_penalty)
          p.bounds.presence_penalty;
    seed = override body.seed p.defaults.seed;
    response_format = body.response_format;
    thinking_enabled = override body.thinking_enabled p.defaults.thinking_enabled;
    thinking_budget = body.thinking_budget;
    parallel_tool_calls = body.parallel_tool_calls;
  }

  -- `body` with no field set stands for absent `bodyParams` too; `keys` is `Object.keys(bodyParams)`.
  -- The later two tests of `allowOverrides` repeat tests of the loop.
  unfoldable pub resolve_provider_call_options :
      Policy n → List ParamKey → Options n → Settled (Options n)
  resolve_provider_call_options p keys body =
      check_keys p.allow_overrides keys body
      >> (throw_if
            (is_some body.thinking_enabled && not (allows p.allow_overrides thinking_enabled))
            (not_allowed "" p.allow_overrides thinking_enabled)
          >> (throw_if
                (is_some body.thinking_budget && not (allows p.allow_overrides thinking_budget))
                (not_allowed "." p.allow_overrides thinking_budget)
              >> (check_budget (effective p body).thinking_enabled body.thinking_budget
                    (effective p body).max_output_tokens
                  >> returned (effective p body))))
