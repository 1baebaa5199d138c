-- ===== src/RateLimit/Bounds.antt =====
-- How many requests the token bucket of smart-rate-limiter.service.ts lets through.
use ai_provider_gateway.Prelude.{
  ℕ, suc, ◌+◌, ◌-◌, ◌*◌, ◌/◌, ◌≤◌, ◌≡◌, refl, inl, inr, none, some, List, [], ◌∷◌, arith, leb,
  le→leb, leb→le, Bool-cases, if◌then◌else◌,
}
use ai_provider_gateway.Prelude.Texts.{Text}
use ai_provider_gateway.RateLimit.Redis.{Redis}
use ai_provider_gateway.RateLimit.Bucket.{refilled, current_tokens, take_token, ttl_ms}

refill-le : (d rate : ℕ) → d * rate / 1000 * 1000 ≤ d * rate
refill-le d rate = omega arith

refill_mono : (now last rate : ℕ) → last ≤ now → (now - last) * rate + last * rate ≡ now * rate
refill_mono now last rate h = grind arith

-- A refill never brings in more than the time since the last one allows.
refilled-le :
    (rate burst now tokens last : ℕ)
    → last ≤ now
    → refilled rate burst 1000 now tokens last * 1000 + last * rate ≤ tokens * 1000 + now * rate
unfolding refilled
refilled-le rate burst now tokens last h =
    rw (le→leb last now h) (omega (arith, refill-le (now - last) rate, refill_mono now last rate h))

mul_mono : (a b rate : ℕ) → a ≤ b → a * rate ≤ b * rate
mul_mono a b rate h = grind arith

-- Times that do not fall, from a first one on, and the last of them.
abbrev pub IsOrdered : ℕ → List ℕ → Type 0
IsOrdered last [] = Unit
IsOrdered last (t ∷ ts) = (last ≤ t) × IsOrdered t ts

abbrev pub last_time : ℕ → List ℕ → ℕ
last_time last [] = last
last_time last (t ∷ ts) = last_time t ts

module _ (r : Redis) (key : Text) (rate burst : ℕ) where
  -- The requests at these times, one after the other: how many are let through.
  unfoldable pub admitted : List ℕ → r.Db → ℕ × r.Db
  admitted [] db = (0, db)
  admitted (now ∷ later) db =
      let (answer, db') = take_token r key now rate burst 1000 db in
      let (n, db'') = admitted later db' in (if answer.allowed then suc n else n, db'')

  module _ (start : ℕ) where
    -- What the database holds at `at`, when `granted` requests were let through since `start`.
    data Balance (granted : ℕ) (db : r.Db) (at : ℕ) : Type 0 where
      fresh : granted ≡ 0 → ((later : ℕ) → r.hash key later db ≡ none) → Balance granted db at
      stored :
          (tokens last : ℕ)
          → last ≤ at
          → ((later : ℕ)
              → r.hash key later db
                ≡ (if leb (last + ttl_ms) later then none else some (tokens, last)))
          → (granted + tokens) * 1000 + start * rate ≤ burst * 1000 + last * rate
          → Balance granted db at

    current_tokens-le :
        (granted : ℕ) (db : r.Db) (at now : ℕ)
        → burst ≤ 60 * rate
        → start ≤ now
        → at ≤ now
        → Balance granted db at
        → (granted + current_tokens rate burst 1000 now (r.hash key now db)) * 1000 + start * rate
          ≤ burst * 1000 + now * rate
    unfolding current_tokens
    current_tokens-le granted db at now small begun onward (fresh none_yet missing) =
        rw missing (omega (arith, mul_mono start now rate begun))
    current_tokens-le granted db at now small begun onward (stored tokens last past held fits) =
        elim (Bool-cases (leb (last + ttl_ms) now)) [
          | inl expired ↦
              rw (held, expired)
                (omega (arith, mul_mono (last + ttl_ms) now rate (leb→le _ _ expired)))
          | inr alive ↦
              rw (held, alive) (omega (arith, refilled-le rate burst now tokens last (omega arith)))
        ]

    Balance-later :
        (granted : ℕ) (db : r.Db) {at now : ℕ}
        → at ≤ now
        → Balance granted db at
        → Balance granted db now
    Balance-later granted db onward (fresh none_yet missing) = fresh none_yet missing
    Balance-later granted db onward (stored tokens last past held fits) =
        stored tokens last (omega arith) held fits

    abbrev Bounded : ℕ → ℕ → Type 0
    Bounded granted at = granted * 1000 + start * rate ≤ burst * 1000 + at * rate

    Balance-Bounded :
        (granted : ℕ) (db : r.Db) (at : ℕ) → start ≤ at → Balance granted db at → Bounded granted at
    Balance-Bounded granted db at begun (fresh none_yet missing) =
        omega (arith, mul_mono start at rate begun)
    Balance-Bounded granted db at begun (stored tokens last past held fits) =
        omega (arith, mul_mono last at rate past)

    admitted-Bounded :
        (times : List ℕ) (granted : ℕ) (db : r.Db) (at : ℕ)
        → burst ≤ 60 * rate
        → start ≤ at
        → IsOrdered at times
        → Balance granted db at
        → Bounded (granted + (admitted times db).0) (last_time at times)
    unfolding admitted take_token
    admitted-Bounded [] granted db at small begun order b =
        omega (arith, Balance-Bounded granted db at begun b)
    admitted-Bounded (now ∷ times) granted db at small begun (onward, order) b =
        elim (Bool-cases (leb 1 (current_tokens rate burst 1000 now (r.hash key now db)))) [
          | inl enough ↦ rw enough (
              let tokens = current_tokens rate burst 1000 now (r.hash key now db) in
              let db' = r.set_hash key (tokens - 1, now) ttl_ms now db in
              let covered = current_tokens-le granted db at now small (omega arith) onward b in
              let b' : Balance (suc granted) db' now =
                stored (tokens - 1) now (omega arith)
                  (λ later. r.hash-set_hash key (tokens - 1, now) ttl_ms now later db)
                  (omega (arith, leb→le _ _ enough)) in
              omega
                (arith, admitted-Bounded times (suc granted) db' now small (omega arith) order b'))
          | inr short ↦ rw short (
              admitted-Bounded times granted db now small (omega arith) order
                (Balance-later granted db onward b))
        ]

-- Requests with one gateway key at times that do not fall, from `start` on, with no bucket stored at
-- the start: at most `burst` of them are let through, and `rate` more for each second from `start` to
-- the last one (in thousandths). The burst must be no more than what a minute refills, since Redis
-- drops a bucket a minute after its last write and the next request finds it full.
pub admitted-le :
    (r : Redis) (key : Text) (rate burst start : ℕ) (times : List ℕ) (db : r.Db)
    → burst ≤ 60 * rate
    → IsOrdered start times
    → ((later : ℕ) → r.hash key later db ≡ none)
    → (admitted r key rate burst times db).0 * 1000 + start * rate
      ≤ burst * 1000 + last_time start times * rate
admitted-le r key rate burst start times db small order missing = omega (
  arith,
  admitted-Bounded r key rate burst start times 0 db start small (omega arith) order
      (fresh refl missing),
)
