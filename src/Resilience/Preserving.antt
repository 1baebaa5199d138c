-- ===== src/Resilience/Preserving.antt =====
-- What src/chat/resilience/resilient-executor.ts keeps of the world that its calls act on.
use ai_provider_gateway.Prelude.{
  ℕ, zero, suc, ◌+◌, Option, none, some, String, Bool-cases, inl, inr, ltb,
}
use ai_provider_gateway.Errors.{Thrown, Response, Settled, returned, threw}
use ai_provider_gateway.Prelude.Texts.{Text}
use ai_provider_gateway.Errors
use ai_provider_gateway.Resilience.Policy.{
  RetryPolicy, is_retryable_http_error, assert_no_fallback_cycle,
}
use ai_provider_gateway.Resilience.Executor.{
  Call, settles, hangs, done, pending, run_with_timeout, TryResult, after_call, try_from, try_alias,
  ExecuteResult, after_fallback, after_primary, after_check, execute_with_retry_and_fallback,
}

-- `Always` holds of every world, and `After value` of the world in which a call has returned `value`.
module _ {ℓ κ} {A : Type ℓ} {W : Type κ} (run_once : String → ℕ → W → Call A × W)
    (retry : RetryPolicy) (Always : W → Type 0) (After : A → W → Type 0) where
  abbrev pub IsCalled : Call A → W → Type 0
  IsCalled (settles at (returned value)) w = After value w
  IsCalled (settles at (threw e)) w = Unit
  IsCalled hangs w = Unit

  abbrev IsTried : TryResult run_once retry → Type 0
  IsTried (pending, w) = Always w
  IsTried (done at r, w) = Always w × IsCalled (settles at r.outcome) w

  run_with_timeout-IsCalled :
      (timeout : Option ℕ) (call : Call A) (w : W)
      → IsCalled call w
      → IsCalled (run_with_timeout timeout call) w
  unfolding run_with_timeout
  run_with_timeout-IsCalled none call w h = h
  run_with_timeout-IsCalled (some zero) call w h = h
  run_with_timeout-IsCalled (some (suc t)) hangs w h = tt
  run_with_timeout-IsCalled (some (suc t)) (settles at r) w h = elim (Bool-cases (ltb at (suc t))) [
    | inl early ↦ rw early h
    | inr late ↦ rw late tt
  ]

  after_call-IsTried :
      (next : ℕ → Thrown → TryResult run_once retry) (alias : String) (attempt most elapsed : ℕ)
      (w : W) (call : Call A)
      → ((at : ℕ) (e : Thrown) → IsTried (next at e))
      → Always w
      → IsCalled call w
      → IsTried (after_call run_once retry next alias attempt most elapsed w call)
  unfolding after_call
  after_call-IsTried next alias attempt most elapsed w hangs later kept h = kept
  after_call-IsTried next alias attempt most elapsed w (settles at (returned value)) later kept h =
      (kept, h)
  after_call-IsTried next alias attempt most elapsed w (settles at (threw e)) later kept h =
      elim (Bool-cases (is_retryable_http_error e retry.on_status)) [
        | inl again ↦ rw again (later _ e)
        | inr final ↦ rw final (kept, tt)
      ]

  module _
      (calls_keep : (alias : String) (attempt : ℕ) (w : W)
        → Always w
        → Always (run_once alias attempt w).1
          × IsCalled (run_once alias attempt w).0 (run_once alias attempt w).1) where
    try_from-IsTried :
        (alias : String) (rounds attempt most elapsed : ℕ) (e : Thrown) (w : W)
        → Always w
        → IsTried (try_from run_once retry alias rounds attempt most elapsed e w)
    unfolding try_from
    try_from-IsTried alias zero attempt most elapsed e w kept = (kept, tt)
    try_from-IsTried alias (suc rounds) attempt most elapsed e w kept =
        let (kept', called) = calls_keep alias attempt w kept in
        after_call-IsTried _ alias attempt most elapsed _ _
          (λ at f. try_from-IsTried alias rounds (attempt + 1) most at f _ kept') kept'
          (run_with_timeout-IsCalled retry.timeout_ms _ _ called)

    try_alias-IsTried :
        (alias : String) (elapsed : ℕ) (w : W)
        → Always w
        → IsTried (try_alias run_once retry alias elapsed w)
    unfolding try_alias
    try_alias-IsTried alias elapsed w kept =
        try_from-IsTried alias retry.max_attempts 1 retry.max_attempts elapsed
          Errors.thrown_undefined w kept

    module _ (http_message : ℕ → Response → Text) where
      abbrev pub IsExecuted : ExecuteResult http_message run_once retry → Type 0
      IsExecuted (pending, w) = Always w
      IsExecuted (done at (threw e), w) = Always w
      IsExecuted (done at (returned result), w) = Always w × After result.value w

      after_fallback-IsExecuted :
          (primary : String) (fallback : Option String) (attempts : ℕ) (e : Thrown)
          (r : TryResult run_once retry)
          → IsTried r
          → IsExecuted (after_fallback http_message run_once retry primary fallback attempts e r)
      unfolding after_fallback
      after_fallback-IsExecuted primary fallback attempts e (pending, w) h = h
      after_fallback-IsExecuted primary fallback attempts e (done at r, w) h = ended r.outcome h
        where
          ended :
              (o : Settled A)
              → IsTried (done at (record r { outcome = o }), w)
              → IsExecuted (
                  after_fallback http_message run_once retry primary fallback attempts e
                    (done at (record r { outcome = o }), w))
          ended (returned value) (kept, h) = (kept, h)
          ended (threw f) (kept, h) = kept

      after_primary-IsExecuted :
          (primary : String) (fallback : Option String) (r : TryResult run_once retry)
          → IsTried r
          → IsExecuted (after_primary http_message run_once retry primary fallback r)
      unfolding after_primary
      after_primary-IsExecuted primary fallback (pending, w) h = h
      after_primary-IsExecuted primary fallback (done at r, w) h = ended r.outcome fallback h
        where
          ended :
              (o : Settled A) (f : Option String)
              → IsTried (done at (record r { outcome = o }), w)
              → IsExecuted (
                  after_primary http_message run_once retry primary f
                    (done at (record r { outcome = o }), w))
          ended (returned value) f (kept, h) = (kept, h)
          ended (threw e) none (kept, h) = kept
          ended (threw e) (some alias) (kept, h) =
              after_fallback-IsExecuted primary (some alias) r.attempts e _
                (try_alias-IsTried alias at w kept)

      -- What holds of every world holds of the executor's last one, and what holds after a call that returns
      -- holds of the executor's value, that of the last call.
      pub execute-IsExecuted :
          (primary : String) (fallback : Option String) (w : W)
          → Always w
          → IsExecuted
              (execute_with_retry_and_fallback http_message run_once retry primary fallback w)
      unfolding execute_with_retry_and_fallback
      execute-IsExecuted primary fallback w kept =
          checked (assert_no_fallback_cycle primary fallback)
        where
          checked :
              (check : Settled (Unit {0}))
              → IsExecuted (after_check http_message run_once retry primary fallback w check)
          checked (threw e) = kept
          checked (returned u) =
              after_primary-IsExecuted primary fallback _ (try_alias-IsTried primary 0 w kept)
