-- ===== src/Resilience/Executor.antt =====
-- src/chat/resilience/resilient-executor.ts
--
-- A provider call is `Call`: it settles after some milliseconds, or never. The executor passes on
-- the world `W` that calls act on, and the milliseconds that have gone by. `pending` is a promise
-- that never settles. Log lines are not modelled.
use ai_provider_gateway.Prelude.{
  ℕ, zero, suc, ◌+◌, ◌-◌, ◌*◌, Bool, true, false, Option, none, some, String, [], ◌++◌, ltb,
  is_some, if◌then◌else◌,
}
use ai_provider_gateway.Prelude.Texts.{Text, units, show_nat}
use ai_provider_gateway.Prelude.Json.{Json, lit, opt_lit, single, Fields, has_field, set_field}
use ai_provider_gateway.Prelude.Json
use ai_provider_gateway.Errors.{
  Thrown, http, Response, object, Settled, returned, threw, http_error, payload, provider_timeout,
  provider_unavailable,
}
use ai_provider_gateway.Errors
use ai_provider_gateway.Resilience.Policy.{
  RetryPolicy, is_retryable_http_error, compute_backoff_delay_ms, assert_no_fallback_cycle,
}

pub data Call {ℓ} (A : Type ℓ) : Type ℓ where
  settles : ℕ → Settled A → Call A
  hangs : Call A

pub data Completion {ℓ} (A : Type ℓ) : Type ℓ where
  done : ℕ → A → Completion A
  pending : Completion A

pub record AttemptResult {ℓ} (A : Type ℓ) : Type ℓ where
  pub outcome : Settled A
  pub used_alias : String
  pub attempts : ℕ

pub record ResilientExecutionResult {ℓ} (A : Type ℓ) : Type ℓ where
  pub value : A
  pub used_alias : String
  pub attempts : ℕ
  pub did_fallback : Bool

abbrev pub timeout_error : ℕ → Thrown
timeout_error ms =
    http_error 504 provider_timeout (units "Request timeout after " ++ (show_nat ms ++ units "ms"))

-- The race of the call against the deadline. A deadline of 0 or none is no deadline; a call that
-- settles at the deadline or later has lost.
unfoldable pub run_with_timeout {ℓ} : {A : Type ℓ} → Option ℕ → Call A → Call A
run_with_timeout none call = call
run_with_timeout (some zero) call = call
run_with_timeout (some (suc t)) hangs = settles (suc t) (threw (timeout_error (suc t)))
run_with_timeout (some (suc t)) (settles at result) =
    if ltb at (suc t) then settles at result else settles (suc t) (threw (timeout_error (suc t)))

-- `http_message` is the message that the framework's HttpException makes of a status and a response.
unfoldable pub extract_error_message : (http_message : ℕ → Response → Text) → Thrown → Text
extract_error_message http_message (http status response) = http_message status response
extract_error_message http_message (Errors.error message) = message
extract_error_message http_message (Errors.thrown_text message) = message
extract_error_message http_message Errors.thrown_undefined = units "Unknown error"

module _ {ℓ κ} {A : Type ℓ} {W : Type κ} (run_once : String → ℕ → W → Call A × W)
    (retry : RetryPolicy) where
  abbrev pub TryResult : Type (ℓ ⊔ κ)
  TryResult = Completion (AttemptResult A) × W

  -- What follows one call: `next` is the rest of the loop, from the time and the error given.
  unfoldable pub after_call :
      (next : ℕ → Thrown → TryResult) (alias : String) (attempt max_attempts elapsed : ℕ)
      → W
      → Call A
      → TryResult
  after_call next alias attempt max_attempts elapsed w hangs = (pending, w)
  after_call next alias attempt max_attempts elapsed w (settles at (returned value)) = (
    done (elapsed + at)
        (record { outcome = returned value; used_alias = alias; attempts = attempt }),
    w,
  )
  after_call next alias attempt max_attempts elapsed w (settles at (threw e)) =
      if is_retryable_http_error e retry.on_status
      then next
          (elapsed
            + at
            + (if ltb attempt max_attempts then compute_backoff_delay_ms attempt retry else 0))
          e
      else (
        done (elapsed + at) (record { outcome = threw e; used_alias = alias; attempts = attempt }),
        w,
      )

  -- `for (attempt = 1; attempt <= maxAttempts; attempt++)`, with `rounds` rounds left. `elapsed` is
  -- the time gone by, `last_error` the error of the round before.
  unfoldable pub try_from :
      String → (rounds attempt max_attempts elapsed : ℕ) → Thrown → W → TryResult
  unfolding after_call
  try_from alias zero attempt max_attempts elapsed last_error w = (
    done elapsed
        (record { outcome = threw last_error; used_alias = alias; attempts = attempt - 1 }),
    w,
  )
  try_from alias (suc rounds) attempt max_attempts elapsed last_error w =
      let (call, w') = run_once alias attempt w in
      after_call (λ elapsed' e. try_from alias rounds (attempt + 1) max_attempts elapsed' e w')
        alias attempt max_attempts elapsed w' (run_with_timeout retry.timeout_ms call)

  unfoldable pub try_alias : String → ℕ → W → TryResult
  unfolding try_from
  try_alias alias elapsed w =
      try_from alias retry.max_attempts 1 retry.max_attempts elapsed Errors.thrown_undefined w

abbrev exhausted_message : RetryPolicy → String → Option String → Text
exhausted_message retry primary fallback =
    units "Provider exhausted after "
    ++ (show_nat retry.max_attempts
        ++ (units " retries on primary ("
            ++ (units primary
                ++ (units ")" ++ elim fallback [
                  | none ↦ []
                  | some f ↦ units " and fallback (" ++ (units f ++ units ")")
                ]))))

-- `{ ...response, message, details }` for a primary error that has a code.
unfoldable pub exhausted_body : RetryPolicy → String → Option String → Fields → Fields
exhausted_body retry primary fallback fields =
    let details = single (
      Json.obj (
        Json.field "primaryAlias" (lit primary) (
          Json.field "fallbackAlias" (opt_lit fallback) (
            Json.field "totalAttempts"
              (Json.num (retry.max_attempts * (if is_some fallback then 2 else 1))) Json.end)))) in
    set_field "details" details
      (set_field "message" (Json.str (exhausted_message retry primary fallback)) fields)

-- The error for a primary error without a code.
unfoldable pub unavailable_error : Text → Text → RetryPolicy → String → Option String → Thrown
unfolding payload
unavailable_error primary_message fallback_message retry primary fallback = http 502 (
    payload provider_unavailable (exhausted_message retry primary fallback) (
      single (
        Json.obj (
          Json.field "primaryAlias" (lit primary) (
            Json.field "fallbackAlias" (opt_lit fallback) (
              Json.field "primaryError" (Json.str primary_message) (
                Json.field "fallbackError"
                  (elim fallback [ none ↦ Json.undefined | some f ↦ Json.str fallback_message ])
                  Json.end)))))))

unfoldable pub to_exhausted_exception :
    (http_message : ℕ → Response → Text)
    → Thrown
    → Thrown
    → RetryPolicy
    → String
    → Option String
    → Thrown
unfolding unavailable_error exhausted_body extract_error_message
to_exhausted_exception http_message primary_error fallback_error retry primary fallback =
    let unavailable =
      unavailable_error (extract_error_message http_message primary_error)
        (extract_error_message http_message fallback_error) retry primary fallback in
    elim primary_error [
      | http status (object fields) ↦
          if has_field "code" fields
          then http status (object (exhausted_body retry primary fallback fields))
          else unavailable
      | _ ↦ unavailable
    ]

module _ {ℓ κ} {A : Type ℓ} {W : Type κ} (http_message : ℕ → Response → Text)
    (run_once : String → ℕ → W → Call A × W) (retry : RetryPolicy) where
  abbrev pub ExecuteResult : Type (ℓ ⊔ κ)
  ExecuteResult = Completion (Settled (ResilientExecutionResult A)) × W

  -- What follows the attempt on the fallback alias, which took `primary_attempts` and ended as given.
  unfoldable pub after_fallback :
      (primary : String) (fallback : Option String)
      → ℕ
      → Thrown
      → TryResult run_once retry
      → ExecuteResult
  after_fallback primary fallback primary_attempts primary_error (pending, w) = (pending, w)
  after_fallback primary fallback primary_attempts primary_error (done at r, w) = (
    done at (elim r.outcome [
      | returned value ↦ returned (record {
        value = value;
        used_alias = r.used_alias;
        attempts = primary_attempts + r.attempts;
        did_fallback = true;
      })
      | threw e ↦ threw (to_exhausted_exception http_message primary_error e retry primary fallback)
    ]),
    w,
  )

  unfoldable pub after_primary : String → Option String → TryResult run_once retry → ExecuteResult
  unfolding after_fallback
  after_primary primary fallback (pending, w) = (pending, w)
  after_primary primary fallback (done at r, w) = elim r.outcome [
    | returned value ↦ (
      done at (
          returned (record {
            value = value;
            used_alias = primary;
            attempts = r.attempts;
            did_fallback = false;
          })),
      w,
    )
    | threw e ↦ elim fallback [
      | none ↦ (done at (threw e), w)
      | some alias ↦
          after_fallback primary (some alias) r.attempts e (try_alias run_once retry alias at w)
    ]
  ]

  unfoldable pub after_check : String → Option String → W → Settled (Unit {0}) → ExecuteResult
  unfolding after_primary
  after_check primary fallback w (threw e) = (done 0 (threw e), w)
  after_check primary fallback w (returned _) =
      after_primary primary fallback (try_alias run_once retry primary 0 w)

  -- The default chain check is used: no caller passes its own.
  unfoldable pub execute_with_retry_and_fallback : String → Option String → W → ExecuteResult
  unfolding after_check
  execute_with_retry_and_fallback primary fallback w =
      after_check primary fallback w (assert_no_fallback_cycle primary fallback)
