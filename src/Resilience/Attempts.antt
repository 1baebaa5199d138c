-- ===== src/Resilience/Attempts.antt =====
-- Which calls resilient-executor.ts makes: a run is observed by a wrapper that writes down the
-- alias and the attempt number of every call.
use mathlib.Core.List.{append_assoc, append-nil}
use ai_provider_gateway.Prelude.{
  ℕ, zero, suc, ◌+◌, ◌-◌, ◌≤◌, ◌≡◌, refl, sym, inl, inr, String, List, [], ◌∷◌, ◌++◌, arith,
  Bool-cases,
}
use ai_provider_gateway.Errors.{Thrown, Settled, returned, threw, Response}
use ai_provider_gateway.Errors
use ai_provider_gateway.Resilience.Policy.{RetryPolicy, is_retryable_http_error}
use ai_provider_gateway.Resilience.Executor.{
  Call, settles, hangs, done, pending, run_with_timeout, TryResult, after_call, try_from, try_alias,
}

abbrev pub Calls : Type 0
Calls = List (String × ℕ)

-- The calls of `n` attempts on an alias, numbered from 1.
abbrev pub numbered : String → ℕ → Calls
numbered alias zero = []
numbered alias (suc n) = numbered alias n ++ (alias, suc n) ∷ []

abbrev pub logged {ℓ κ} :
    {A : Type ℓ} {W : Type κ}
    → (String → ℕ → W → Call A × W)
    → String
    → ℕ
    → W × Calls
    → Call A × (W × Calls)
logged run_once alias attempt (w, calls) =
    let (call, w') = run_once alias attempt w in (call, (w', calls ++ (alias, attempt) ∷ []))

module _ {ℓ κ} {A : Type ℓ} {W : Type κ} (run_once : String → ℕ → W → Call A × W)
    (retry : RetryPolicy) (before : Calls) (alias : String) where
  -- The calls made are attempts 1 to `attempts` on the alias, no more than allowed, at least one if
  -- a value came back.
  abbrev pub Tried : TryResult (logged run_once) retry → Type ℓ
  Tried (done at r, (w, calls)) =
      (calls ≡ before ++ numbered alias r.attempts)
      × (r.used_alias ≡ alias)
      × (r.attempts ≤ retry.max_attempts)
      × ((v : A) → r.outcome ≡ returned v → 1 ≤ r.attempts)
  Tried (pending, w) = Unit {ℓ}

  after_call-Tried :
      (next : ℕ → Thrown → TryResult (logged run_once) retry) (k attempt elapsed : ℕ) (w : W)
      (calls : Calls) (call : Call A)
      → attempt ≡ suc k
      → suc k ≤ retry.max_attempts
      → calls ≡ before ++ numbered alias (suc k)
      → ((now : ℕ) (e : Thrown) → Tried (next now e))
      → Tried (
          after_call
            (logged run_once)
            retry
            next
            alias
            attempt
            retry.max_attempts
            elapsed
            (w, calls)
            call)
  unfolding after_call
  after_call-Tried next k attempt elapsed w calls hangs same room trace later = tt
  after_call-Tried next k attempt elapsed w calls (settles at (returned v)) same room trace later =
      (rw same trace, refl, omega arith, λ v' _. omega arith)
  after_call-Tried next k attempt elapsed w calls (settles at (threw e)) same room trace later =
      elim (Bool-cases (is_retryable_http_error e retry.on_status)) [
        | inl again ↦ rw again (later _ e)
        | inr fatal ↦ rw fatal (rw same trace, refl, omega arith, λ v' h. cc)
      ]

  try_from-Tried :
      (rounds k attempt elapsed : ℕ) (e : Thrown) (w : W) (calls : Calls)
      → attempt ≡ suc k
      → rounds + k ≡ retry.max_attempts
      → calls ≡ before ++ numbered alias k
      → Tried (
          try_from
            (logged run_once)
            retry
            alias
            rounds
            attempt
            retry.max_attempts
            elapsed
            e
            (w, calls))
  unfolding try_from
  try_from-Tried zero k attempt elapsed e w calls same count trace =
      let made : attempt - 1 ≡ k = omega arith in (rw made trace, refl, omega arith, λ v' h. cc)
  try_from-Tried (suc rounds) k attempt elapsed e w calls same count trace =
      let trace' : calls ++ (alias, attempt) ∷ [] ≡ before ++ numbered alias (suc k) =
        rw (trace, same, append_assoc) refl in
      let (call, w') = run_once alias attempt w in
      let calls' = calls ++ (alias, attempt) ∷ [] in
      after_call-Tried
        (λ now e'.
          try_from (logged run_once) retry alias rounds (attempt + 1) retry.max_attempts now e'
            (w', calls'))
        k attempt elapsed w' calls' (run_with_timeout retry.timeout_ms call) same (omega arith)
        trace'
        (λ now e'.
          try_from-Tried rounds (suc k) (attempt + 1) now e' w' calls' (omega arith) (omega arith)
            trace')

pub try_alias-Tried {ℓ κ} :
    {A : Type ℓ} {W : Type κ} (run_once : String → ℕ → W → Call A × W) (retry : RetryPolicy)
    (before : Calls) (alias : String) (elapsed : ℕ) (w : W)
    → Tried run_once retry before alias
        (try_alias (logged run_once) retry alias elapsed (w, before))
unfolding try_alias
try_alias-Tried run_once retry before alias elapsed w =
    try_from-Tried run_once retry before alias retry.max_attempts 0 1 elapsed
      Errors.thrown_undefined w before refl (omega arith) (sym (append-nil before))
