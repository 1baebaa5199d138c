-- ===== src/Resilience/Deadline.antt =====
-- With a deadline the executor of resilient-executor.ts always settles, within a bound.
use ai_provider_gateway.Prelude.{
  ℕ, zero, suc, ◌+◌, ◌*◌, ◌≤◌, ◌≡◌, refl, sym, ◌∙◌, ap, subst, inl, inr, Bool, true, false, Option,
  none, some, String, arith, ltb, or_else, Bool-cases, if◌then◌else◌,
}
use ai_provider_gateway.Errors.{Thrown, Settled, returned, threw, Response}
use ai_provider_gateway.Errors
use ai_provider_gateway.Prelude.Texts.{Text}
use ai_provider_gateway.Resilience.Policy.{
  RetryPolicy, default_max_delay_ms, is_retryable_http_error, compute_backoff_delay_ms,
  assert_no_fallback_cycle,
}
use ai_provider_gateway.Resilience.Executor.{
  Call, settles, hangs, done, pending, run_with_timeout, timeout_error, TryResult, after_call,
  try_from, try_alias, ExecuteResult, after_fallback, after_primary, after_check,
  execute_with_retry_and_fallback,
}

abbrev pub max_delay : RetryPolicy → ℕ
max_delay retry = or_else retry.max_delay_ms default_max_delay_ms

pub compute_backoff_delay_ms-le :
    (attempt : ℕ) (retry : RetryPolicy) → compute_backoff_delay_ms attempt retry ≤ max_delay retry
unfolding compute_backoff_delay_ms
compute_backoff_delay_ms-le attempt retry = omega arith

pub run_with_timeout-settles {ℓ} :
    {A : Type ℓ} (t : ℕ) (call : Call A)
    → (at : ℕ) × (result : Settled A) × (run_with_timeout (some (suc t)) call ≡ settles at result)
      × (at ≤ suc t)
unfolding run_with_timeout
run_with_timeout-settles t hangs = (suc t, threw (timeout_error (suc t)), refl, omega arith)
run_with_timeout-settles t (settles at result) = elim (Bool-cases (ltb at (suc t))) [
  | inl early ↦ (at, result, rw early, ground arith)
  | inr late ↦ (suc t, threw (timeout_error (suc t)), rw late, omega arith)
]

if-le : (b : Bool) (x y : ℕ) → x ≤ y → (if b then x else 0) ≤ y
if-le true x y h = h
if-le false x y h = omega arith

module _ {ℓ κ} {A : Type ℓ} {W : Type κ} (run_once : String → ℕ → W → Call A × W)
    (retry : RetryPolicy) where
  -- The promise settles at this time or before.
  abbrev pub SettlesBy : ℕ → TryResult run_once retry → Type 0
  SettlesBy bound (done at a, w) = at ≤ bound
  SettlesBy bound (pending, w) = ⊥

  SettlesBy-weaken :
      (b c : ℕ) (r : TryResult run_once retry) → b ≤ c → SettlesBy b r → SettlesBy c r
  SettlesBy-weaken b c (done at a, w) h s = omega arith
  SettlesBy-weaken b c (pending, w) h s = s

module _ {ℓ κ} {A : Type ℓ} {W : Type κ} (run_once : String → ℕ → W → Call A × W)
    (retry : RetryPolicy) (t : ℕ) (deadline : retry.timeout_ms ≡ some (suc t)) where
  after_call-SettlesBy :
      (next : ℕ → Thrown → TryResult run_once retry) (alias : String)
      (attempt max_attempts elapsed at rest : ℕ) (w : W) (result : Settled A)
      → at ≤ suc t
      → ((now : ℕ) (e : Thrown) → SettlesBy run_once retry (now + rest) (next now e))
      → SettlesBy run_once retry
          (elapsed + (suc t + max_delay retry) + rest)
          (after_call run_once retry next alias attempt max_attempts elapsed w (settles at result))
  unfolding after_call
  after_call-SettlesBy next alias attempt max_attempts elapsed at rest w (returned v) soon later =
      omega arith
  after_call-SettlesBy next alias attempt max_attempts elapsed at rest w (threw e) soon later =
      elim (Bool-cases (is_retryable_http_error e retry.on_status)) [
        | inl again ↦
            let wait : ℕ =
              if ltb attempt max_attempts then compute_backoff_delay_ms attempt retry else 0 in
            let short : wait ≤ max_delay retry =
              if-le (ltb attempt max_attempts) _ _ (compute_backoff_delay_ms-le attempt retry) in
            rw again (
              SettlesBy-weaken run_once retry (elapsed + at + wait + rest) _
                (next (elapsed + at + wait) e) (omega arith) (later (elapsed + at + wait) e))
        | inr fatal ↦ rw fatal (omega arith)
      ]

  try_from-SettlesBy :
      (alias : String) (rounds attempt max_attempts elapsed : ℕ) (e : Thrown) (w : W)
      → SettlesBy run_once retry
          (elapsed + rounds * (suc t + max_delay retry))
          (try_from run_once retry alias rounds attempt max_attempts elapsed e w)
  unfolding try_from
  try_from-SettlesBy alias zero attempt max_attempts elapsed e w = omega arith
  try_from-SettlesBy alias (suc rounds) attempt max_attempts elapsed e w =
      let (call, w') = run_once alias attempt w in
      let (at, result, settled, soon) = run_with_timeout-settles t call in
      let next = λ (now : ℕ) (e' : Thrown).
        try_from run_once retry alias rounds (attempt + 1) max_attempts now e' w' in
      let rest = rounds * (suc t + max_delay retry) in
      subst
        (λ c.
          SettlesBy run_once retry (elapsed + suc rounds * (suc t + max_delay retry))
            (after_call run_once retry next alias attempt max_attempts elapsed w' c))
        (sym (ap (λ d. run_with_timeout d call) deadline ∙ settled))
        (SettlesBy-weaken run_once retry (elapsed + (suc t + max_delay retry) + rest) _ _
          (omega arith)
          (after_call-SettlesBy next alias attempt max_attempts elapsed at rest w' result soon
            (λ now e'. try_from-SettlesBy alias rounds (attempt + 1) max_attempts now e' w')))

module _ {ℓ κ} {A : Type ℓ} {W : Type κ} (http_message : ℕ → Response → Text)
    (run_once : String → ℕ → W → Call A × W) (retry : RetryPolicy) where
  abbrev pub EndsBy : ℕ → ExecuteResult http_message run_once retry → Type 0
  EndsBy bound (done at r, w) = at ≤ bound
  EndsBy bound (pending, w) = ⊥

  after_fallback-EndsBy :
      (primary : String) (fallback : Option String) (k bound : ℕ) (e : Thrown)
      (r : TryResult run_once retry)
      → SettlesBy run_once retry bound r
      → EndsBy bound (after_fallback http_message run_once retry primary fallback k e r)
  unfolding after_fallback
  after_fallback-EndsBy primary fallback k bound e (done at r, w) h = h
  after_fallback-EndsBy primary fallback k bound e (pending, w) h = h

  after_primary-EndsBy :
      (primary : String) (fallback : Option String) (bound : ℕ) (r : TryResult run_once retry)
      → ((alias : String) (now : ℕ) (w : W)
          → SettlesBy run_once retry (now + bound) (try_alias run_once retry alias now w))
      → SettlesBy run_once retry bound r
      → EndsBy (2 * bound) (after_primary http_message run_once retry primary fallback r)
  unfolding after_primary
  after_primary-EndsBy primary fallback bound (pending, w) later h = h
  after_primary-EndsBy primary fallback bound (done at r, w) later h = go r.outcome fallback
    where
      go :
          (o : Settled A) (f : Option String)
          → EndsBy (2 * bound) (
              after_primary http_message run_once retry primary f
                (done at (record r { outcome = o }), w))
      go (returned v) f = omega arith
      go (threw e) none = omega arith
      go (threw e) (some alias) =
          after_fallback-EndsBy primary (some alias) r.attempts (2 * bound) e _ (
            SettlesBy-weaken run_once retry (at + bound) (2 * bound) _ (omega arith)
              (later alias at w))

  after_check-EndsBy :
      (primary : String) (fallback : Option String) (bound : ℕ) (w : W)
      → ((alias : String) (now : ℕ) (w' : W)
          → SettlesBy run_once retry (now + bound) (try_alias run_once retry alias now w'))
      → (check : Settled (Unit {0}))
      → EndsBy (2 * bound) (after_check http_message run_once retry primary fallback w check)
  unfolding after_check
  after_check-EndsBy primary fallback bound w all (threw e) = omega arith
  after_check-EndsBy primary fallback bound w all (returned _) =
      after_primary-EndsBy primary fallback bound (try_alias run_once retry primary 0 w) all
        (SettlesBy-weaken run_once retry (0 + bound) bound _ (omega arith) (all primary 0 w))

-- With a deadline of at least one millisecond per attempt, whatever the providers do (a call that
-- never settles included) the executor settles, and within twice (one time for each alias) the
-- number of attempts times the deadline and the greatest backoff delay.
pub execute-EndsBy {ℓ κ} :
    {A : Type ℓ} {W : Type κ} (http_message : ℕ → Response → Text)
    (run_once : String → ℕ → W → Call A × W) (retry : RetryPolicy) (t : ℕ) (primary : String)
    (fallback : Option String) (w : W)
    → retry.timeout_ms ≡ some (suc t)
    → EndsBy http_message run_once retry
        (2 * (retry.max_attempts * (suc t + max_delay retry)))
        (execute_with_retry_and_fallback http_message run_once retry primary fallback w)
unfolding execute_with_retry_and_fallback
execute-EndsBy http_message run_once retry t primary fallback w deadline =
    after_check-EndsBy http_message run_once retry primary fallback
      (retry.max_attempts * (suc t + max_delay retry)) w
      (λ alias now w'.
        unfold try_alias in
        try_from-SettlesBy run_once retry t deadline alias retry.max_attempts 1 retry.max_attempts
          now Errors.thrown_undefined w')
      (assert_no_fallback_cycle primary fallback)
