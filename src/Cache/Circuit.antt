-- ===== src/Cache/Circuit.antt =====
-- src/cache/semantic/embedding-circuit-breaker.ts, against an abstract circuit breaker of three modes.
-- The time that `Date.now()` gives is an argument.
use ai_provider_gateway.Prelude.{
  ℕ, ◌+◌, ◌<◌, ◌≡◌, refl, ap, ◌∙◌, Bool, true, false, not, ◌&&◌, List, [], ◌∷◌, arith, ltb, leb,
  lt→ltb, if◌then◌else◌,
}

pub record EmbeddingCircuitBreaker : Type 0 where
  pub failures : ℕ
  pub opened_at_ms : ℕ
  pub trial_in_flight : Bool

abbrev pub new_breaker : EmbeddingCircuitBreaker
new_breaker = record { failures = 0; opened_at_ms = 0; trial_in_flight = false }

module _ (open_after cooldown_ms : ℕ) where
  unfoldable pub should_skip_embed : ℕ → EmbeddingCircuitBreaker → Bool × EmbeddingCircuitBreaker
  should_skip_embed now b =
      if ltb b.failures open_after
      then (false, b)
      else if not (leb (b.opened_at_ms + cooldown_ms) now)
      then (true, b)
      else if b.trial_in_flight
      then (true, b)
      else (false, record b { trial_in_flight = true })

  unfoldable pub is_circuit_open : ℕ → EmbeddingCircuitBreaker → Bool
  is_circuit_open now b = leb open_after b.failures && ltb now (b.opened_at_ms + cooldown_ms)

  unfoldable pub record_embed_failure : ℕ → EmbeddingCircuitBreaker → EmbeddingCircuitBreaker
  record_embed_failure now b = record {
    failures = b.failures + 1;
    opened_at_ms = if leb open_after (b.failures + 1) then now else b.opened_at_ms;
    trial_in_flight = false;
  }

  unfoldable pub record_embed_success : EmbeddingCircuitBreaker → EmbeddingCircuitBreaker
  record_embed_success b = new_breaker

  -- What a circuit breaker promises: closed with a count of failures, open since a time, or half
  -- open while one trial call is out.
  pub data Mode : Type 0 where
    closed : ℕ → Mode
    opened : ℕ → Mode
    half_open : Mode

  abbrev pub ask : ℕ → Mode → Bool × Mode
  ask now (closed n) = (false, closed n)
  ask now (opened since) =
      if leb (since + cooldown_ms) now then (false, half_open) else (true, opened since)
  ask now half_open = (true, half_open)

  abbrev pub fail : ℕ → Mode → Mode
  fail now (closed n) = if ltb (n + 1) open_after then closed (n + 1) else opened now
  fail now (opened since) = opened now
  fail now half_open = opened now

  -- The calls on the breaker, in the order in which they come.
  pub data Operation : Type 0 where
    asks fails : ℕ → Operation
    succeeds : Operation

  unfoldable pub answers : List Operation → EmbeddingCircuitBreaker → List Bool
  answers [] b = []
  answers (asks now ∷ ops) b = let (skip, b') = should_skip_embed now b in skip ∷ answers ops b'
  answers (fails now ∷ ops) b = answers ops (record_embed_failure now b)
  answers (succeeds ∷ ops) b = answers ops (record_embed_success b)

  unfoldable pub abstract_answers : List Operation → Mode → List Bool
  abstract_answers [] m = []
  abstract_answers (asks now ∷ ops) m = let (skip, m') = ask now m in skip ∷ abstract_answers ops m'
  abstract_answers (fails now ∷ ops) m = abstract_answers ops (fail now m)
  abstract_answers (succeeds ∷ ops) m = abstract_answers ops (closed 0)

  -- The mode that a state stands for.
  abbrev mode : EmbeddingCircuitBreaker → Mode
  mode b =
      if ltb b.failures open_after
      then closed b.failures
      else if b.trial_in_flight
      then half_open
      else opened b.opened_at_ms

  ask-mode :
      (now : ℕ) (b : EmbeddingCircuitBreaker)
      → ((should_skip_embed now b).0 ≡ (ask now (mode b)).0)
        × (mode (should_skip_embed now b).1 ≡ (ask now (mode b)).1)
  unfolding should_skip_embed
  ask-mode now b = (ground arith, ground arith)

  fail-mode :
      (now : ℕ) (b : EmbeddingCircuitBreaker)
      → mode (record_embed_failure now b) ≡ fail now (mode b)
  unfolding record_embed_failure
  fail-mode now b = ground arith

  mode-new : 0 < open_after → mode new_breaker ≡ closed 0
  mode-new pos = rw (lt→ltb 0 open_after pos)

  answers-mode :
      (ops : List Operation) (b : EmbeddingCircuitBreaker)
      → 0 < open_after
      → answers ops b ≡ abstract_answers ops (mode b)
  unfolding answers abstract_answers record_embed_success
  answers-mode [] b pos = refl
  answers-mode (asks now ∷ ops) b pos =
      let (skip, b') = should_skip_embed now b in
      let (same, onward) = ask-mode now b in
      ap (λ s. s ∷ answers ops b') same
      ∙ ap (λ l. (ask now (mode b)).0 ∷ l)
          (answers-mode ops b' pos ∙ ap (abstract_answers ops) onward)
  answers-mode (fails now ∷ ops) b pos =
      answers-mode ops (record_embed_failure now b) pos
      ∙ ap (abstract_answers ops) (fail-mode now b)
  answers-mode (succeeds ∷ ops) b pos =
      answers-mode ops new_breaker pos ∙ ap (abstract_answers ops) (mode-new pos)

-- The breaker answers every sequence of calls, at any times, as the abstract breaker does from the
-- closed mode with no failure, if it is set to open after at least one failure: it opens at the
-- configured number of failures in a row, skips until the cooldown is over, then lets one trial
-- through and skips until that one has ended, which closes it or opens it again.
pub answers-abstract_answers :
    (open_after cooldown_ms : ℕ) (ops : List (Operation open_after cooldown_ms))
    → 0 < open_after
    → answers open_after cooldown_ms ops new_breaker
      ≡ abstract_answers open_after cooldown_ms ops (closed 0)
answers-abstract_answers open_after cooldown_ms ops pos =
    answers-mode open_after cooldown_ms ops new_breaker pos
    ∙ ap (abstract_answers open_after cooldown_ms ops) (mode-new open_after cooldown_ms pos)

-- `isCircuitOpen` is true exactly in the time in which every call is skipped whatever trial is out:
-- where it is true, `shouldSkipEmbed` skips and changes nothing; where it is false, `shouldSkipEmbed`
-- skips only while a trial is out.
pub is_circuit_open_lem :
    (open_after cooldown_ms now : ℕ) (b : EmbeddingCircuitBreaker)
    → (is_circuit_open open_after cooldown_ms now b ≡ true
        → should_skip_embed open_after cooldown_ms now b ≡ (true, b))
      × (is_circuit_open open_after cooldown_ms now b ≡ false
          → (should_skip_embed open_after cooldown_ms now b).0 ≡ true
          → b.trial_in_flight ≡ true)
unfolding is_circuit_open should_skip_embed
is_circuit_open_lem open_after cooldown_ms now b = (λ h. ground arith, λ h k. ground arith)
