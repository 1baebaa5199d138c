-- ===== src/Resilience/Policy.antt =====
-- src/chat/resilience/resilience.types.ts, is-retryable-http-error.ts, fallback-chain.ts,
-- src/chat/helpers/retry-policy.ts and src/common/retry-policy-defaults.ts
use ai_provider_gateway.Prelude.{
  ℕ, ◌-◌, ◌*◌, ◌^◌, min, Bool, false, Option, none, some, String, List, [], ◌∷◌, ◌++◌, includes,
  str_eq, or_else, if◌then◌else◌,
}
use ai_provider_gateway.Prelude.Texts.{units}
use ai_provider_gateway.Errors.{
  Thrown, http, Settled, returned, threw, http_error, validation_failed,
}

-- An absent field is `none`. An alias is a non-empty string.
pub record RetryPolicy : Type 0 where
  pub max_attempts : ℕ
  pub on_status : List ℕ
  pub timeout_ms : Option ℕ
  pub initial_delay_ms : Option ℕ
  pub max_delay_ms : Option ℕ

abbrev pub default_max_attempts : ℕ
default_max_attempts = 3

abbrev pub default_on_status : List ℕ
default_on_status = 429 ∷ 500 ∷ 502 ∷ 503 ∷ 504 ∷ []

abbrev pub default_timeout_ms : ℕ
default_timeout_ms = 30000

abbrev pub default_initial_delay_ms : ℕ
default_initial_delay_ms = 500

abbrev pub default_max_delay_ms : ℕ
default_max_delay_ms = 8000

-- The part of a resolved model that the policy is built from; `retry` is `policy.retry`.
pub record RetrySource : Type 0 where
  pub max_attempts : Option ℕ
  pub on_status : Option (List ℕ)

pub record PolicySource : Type 0 where
  pub timeout_ms : Option ℕ
  pub retry : Option RetrySource

abbrev raw_max_attempts : Option PolicySource → Option ℕ
raw_max_attempts none = none
raw_max_attempts (some p) = elim p.retry [ none ↦ none | some r ↦ r.max_attempts ]

abbrev raw_on_status : Option PolicySource → Option (List ℕ)
raw_on_status none = none
raw_on_status (some p) = elim p.retry [ none ↦ none | some r ↦ r.on_status ]

abbrev raw_timeout_ms : Option PolicySource → Option ℕ
raw_timeout_ms none = none
raw_timeout_ms (some p) = p.timeout_ms

unfoldable pub build_retry_policy_from_resolved : Option PolicySource → RetryPolicy
build_retry_policy_from_resolved policy = record {
  max_attempts = or_else (raw_max_attempts policy) default_max_attempts;
  on_status = or_else (raw_on_status policy) default_on_status;
  timeout_ms = some (or_else (raw_timeout_ms policy) default_timeout_ms);
  initial_delay_ms = some default_initial_delay_ms;
  max_delay_ms = some default_max_delay_ms;
}

unfoldable pub is_retryable_http_error : Thrown → List ℕ → Bool
is_retryable_http_error (http status response) on_status = includes on_status status
is_retryable_http_error e on_status = false

-- delay = min(maxDelayMs, initialDelayMs * 2^(attempt - 1)), for the 1-based failed attempt
unfoldable pub compute_backoff_delay_ms : ℕ → RetryPolicy → ℕ
compute_backoff_delay_ms attempt retry =
    min (or_else retry.max_delay_ms default_max_delay_ms)
      (or_else retry.initial_delay_ms default_initial_delay_ms * 2 ^ (attempt - 1))

unfoldable pub assert_no_fallback_cycle : String → Option String → Settled (Unit {0})
unfolding http_error
assert_no_fallback_cycle primary none = returned tt
assert_no_fallback_cycle primary (some fallback) =
    if str_eq fallback primary
    then threw (
        http_error 400 validation_failed (
          units "Circular fallback detected: alias \""
          ++ (units primary ++ units "\" cannot fallback to itself")))
    else returned tt
