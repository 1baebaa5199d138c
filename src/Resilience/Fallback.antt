-- ===== src/Resilience/Fallback.antt =====
-- What a result of resilient-executor.ts says about the calls behind it, on every path, and what is
-- left of the primary error when both aliases have failed.
use ai_provider_gateway.Prelude.{
  ℕ, ◌+◌, ◌≤◌, ◌≡◌, refl, subst, true, false, Option, none, some, String, [], ◌++◌, arith,
}
use ai_provider_gateway.Prelude.Texts.{Text}
use ai_provider_gateway.Errors.{Thrown, Settled, returned, threw, Response}
use ai_provider_gateway.Resilience.Policy.{RetryPolicy, assert_no_fallback_cycle}
use ai_provider_gateway.Resilience.Executor.{
  Call, done, pending, ResilientExecutionResult, TryResult, try_alias, ExecuteResult,
  after_fallback, after_primary, after_check, execute_with_retry_and_fallback,
}
use ai_provider_gateway.Resilience.Attempts.{Calls, numbered, logged, Tried, try_alias-Tried}
use mathlib.Core.List.{append-nil}

module _ {ℓ κ} {A : Type ℓ} {W : Type κ} (http_message : ℕ → Response → Text)
    (run_once : String → ℕ → W → Call A × W) (retry : RetryPolicy) (primary : String)
    (fallback : Option String) where
  -- The calls behind a value: `k` attempts on the primary alias and then `j` on the fallback.
  pub record Provenance (r : ResilientExecutionResult A) (calls : Calls) : Type 0 where
    pub k : ℕ
    pub j : ℕ
    pub other : String
    pub trace : calls ≡ numbered primary k ++ numbered other j
    pub total : r.attempts ≡ k + j
    pub allowed : k ≤ retry.max_attempts
    pub allowed' : j ≤ retry.max_attempts
    pub direct : r.did_fallback ≡ false → (j ≡ 0) × (1 ≤ k) × (r.used_alias ≡ primary)
    pub indirect :
        r.did_fallback ≡ true → (1 ≤ j) × (fallback ≡ some other) × (r.used_alias ≡ other)

  abbrev pub Explained : ExecuteResult http_message (logged run_once) retry → Type 0
  Explained (done at (returned r), (w, calls)) = Provenance r calls
  Explained (done at (threw e), (w, calls)) =
      (k : ℕ) × (j : ℕ) × (other : String) × (calls ≡ numbered primary k ++ numbered other j)
      × (k ≤ retry.max_attempts)
      × (j ≤ retry.max_attempts)
      × (1 ≤ j → fallback ≡ some other)
  Explained (pending, w) = Unit

  after_fallback-Explained :
      (f : Option String) (alias : String) (k : ℕ) (e : Thrown)
      (r : TryResult (logged run_once) retry)
      → fallback ≡ some alias
      → k ≤ retry.max_attempts
      → Tried run_once retry (numbered primary k) alias r
      → Explained (after_fallback http_message (logged run_once) retry primary f k e r)
  unfolding after_fallback
  after_fallback-Explained f alias k e (pending, w) chain few h = tt
  after_fallback-Explained f alias k e (done at r, (w, calls)) chain few
        (trace, used, most, least) =
      go r.outcome least
    where
      go :
          (o : Settled A)
          → ((v : A) → o ≡ returned v → 1 ≤ r.attempts)
          → Explained (
              after_fallback http_message
                (logged run_once)
                retry
                primary
                f
                k
                e
                (done at (record r { outcome = o }), (w, calls)))
      go (returned v) least' = record {
        k = k;
        j = r.attempts;
        other = alias;
        trace = trace;
        total = refl;
        allowed = few;
        allowed' = most;
        direct = λ h. cc;
        indirect = λ _. (least' v refl, chain, used);
      }
      go (threw e') least' = (k, r.attempts, alias, trace, few, most, λ _. chain)

  after_primary-Explained :
      (rest : Option String) (r : TryResult (logged run_once) retry)
      → fallback ≡ rest
      → Tried run_once retry [] primary r
      → Explained (after_primary http_message (logged run_once) retry primary rest r)
  unfolding after_primary
  after_primary-Explained rest (pending, w) same h = tt
  after_primary-Explained rest (done at r, (w, calls)) same (trace, used, most, least) =
      go r.outcome rest same least
    where
      whole : calls ≡ numbered primary r.attempts ++ []
      whole = rw append-nil trace

      go :
          (o : Settled A) (f : Option String)
          → fallback ≡ f
          → ((v : A) → o ≡ returned v → 1 ≤ r.attempts)
          → Explained (
              after_primary http_message
                (logged run_once)
                retry
                primary
                f
                (done at (record r { outcome = o }), (w, calls)))
      go (returned v) f same' least' = record {
        k = r.attempts;
        j = 0;
        other = primary;
        trace = whole;
        total = omega arith;
        allowed = most;
        allowed' = omega arith;
        direct = λ _. (refl, least' v refl, refl);
        indirect = λ h. cc;
      }
      go (threw e) none same' least' =
          (r.attempts, 0, primary, whole, most, omega arith, λ h. absurd (omega arith))
      go (threw e) (some alias) same' least' =
          after_fallback-Explained (some alias) alias r.attempts e _ same' most (
            subst
              (λ b.
                Tried run_once retry b alias
                  (try_alias (logged run_once) retry alias at (w, calls)))
              trace (try_alias-Tried run_once retry calls alias at w))

  after_check-Explained :
      (w : W) (check : Settled (Unit {0}))
      → Explained (after_check http_message (logged run_once) retry primary fallback (w, []) check)
  unfolding after_check
  after_check-Explained w (threw e) =
      (0, 0, primary, refl, omega arith, omega arith, λ h. absurd (omega arith))
  after_check-Explained w (returned _) =
      after_primary-Explained fallback _ refl (try_alias-Tried run_once retry [] primary 0 w)

-- The calls behind every result, for a run that starts with an empty list of calls: attempts 1, 2, …
-- on the primary alias, then attempts 1, 2, … on the fallback alias if there are any, each at most
-- `max_attempts` in number. A value has `attempts` calls behind it; with `did_fallback` false none
-- was on the fallback, with `did_fallback` true the fallback alias is the one used.
pub execute-Explained {ℓ κ} :
    {A : Type ℓ} {W : Type κ} (http_message : ℕ → Response → Text)
    (run_once : String → ℕ → W → Call A × W) (retry : RetryPolicy) (primary : String)
    (fallback : Option String) (w : W)
    → Explained http_message run_once retry primary fallback (
        execute_with_retry_and_fallback http_message
          (logged run_once)
          retry
          primary
          fallback
          (w, []))
unfolding execute_with_retry_and_fallback
execute-Explained http_message run_once retry primary fallback w =
    after_check-Explained http_message run_once retry primary fallback w
      (assert_no_fallback_cycle primary fallback)
