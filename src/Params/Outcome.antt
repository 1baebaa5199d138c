-- ===== src/Params/Outcome.antt =====
-- When resolve-provider-call-options.ts succeeds, and how it fails.
use ai_provider_gateway.Prelude.{
  ℕ, ◌+◌, ◌≤◌, ◌≡◌, Bool, true, Option, some, List, All, or_else, is_some,
}
use ai_provider_gateway.Errors.{ThrewHttp, Settled}
use ai_provider_gateway.Params.Numbers.{Numbers}
use ai_provider_gateway.Params.Resolve.{
  ParamKey, thinking_enabled, thinking_budget, ThinkingBudget, tokens, Options, Policy, allows,
  effective,
}
use ai_provider_gateway.Params.Laws.{IsAllowed}

-- A step of the resolution passes, or it throws an HTTP 400.
abbrev Is400 : {A : Type 0} → Settled A → Type 0
Is400 m = ThrewHttp 400 m

abbrev pub HasRoom : Option Bool → Option ThinkingBudget → Option ℕ → Type 0
HasRoom enabled budget most =
    (b : ℕ) → enabled ≡ some true → budget ≡ some (tokens b) → b + 512 ≤ or_else most 1024

-- What a body must meet.
pub record Permits (n : Numbers) (p : Policy n) (keys : List ParamKey) (body : Options n)
    : Type 0 where
  pub keys_allowed : All (IsAllowed n p.allow_overrides body) keys
  pub switch_allowed :
      is_some body.thinking_enabled ≡ true → allows p.allow_overrides thinking_enabled ≡ true
  pub budget_allowed :
      is_some body.thinking_budget ≡ true → allows p.allow_overrides thinking_budget ≡ true
  pub room :
      HasRoom
        (effective n p body).thinking_enabled
        body.thinking_budget
        (effective n p body).max_output_tokens
