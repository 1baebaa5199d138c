-- ===== src/RateLimit/Bucket.antt =====
-- The token bucket: the Lua script of `checkRateLimit` in src/rate-limit/smart-rate-limiter.service.ts.
-- Redis runs a script atomically. The script's doubles are exact numbers here:
-- floor((elapsed / window) * rate) is a division.
use ai_provider_gateway.Prelude.{
  ℕ, ◌+◌, ◌-◌, ◌*◌, ◌/◌, min, Bool, true, false, Option, none, some, leb, if◌then◌else◌,
}
use ai_provider_gateway.Prelude.Texts.{Text}
use ai_provider_gateway.RateLimit.Redis.{Redis}

-- Tokens after the refill. If the clock went back the script adds a negative number; the test
-- `tokens >= 1` is false for all results below 1, so 0 stands for these.
unfoldable pub refilled : (rate burst window now tokens last_refill : ℕ) → ℕ
refilled rate burst window now tokens last_refill =
    if leb last_refill now
    then min burst (tokens + (now - last_refill) * rate / window)
    else min burst (tokens - ((last_refill - now) * rate + window - 1) / window)

unfoldable pub current_tokens : (rate burst window now : ℕ) → Option (ℕ × ℕ) → ℕ
current_tokens rate burst window now none = burst
current_tokens rate burst window now (some (tokens, last_refill)) =
    refilled rate burst window now tokens last_refill

abbrev pub ttl_ms : ℕ
ttl_ms = 60000

-- The script's answer {allowed, remaining, lastRefill}.
pub record Answer : Type 0 where
  pub allowed : Bool
  pub remaining : ℕ
  pub last_refill : ℕ

-- `lastRefill` is `now` on every path. A refusal writes nothing.
unfoldable pub take_token : (r : Redis) → Text → (now rate burst window : ℕ) → r.Db → Answer × r.Db
take_token r key now rate burst window db =
    let tokens = current_tokens rate burst window now (r.hash key now db) in
    if leb 1 tokens
    then (
      record { allowed = true; remaining = tokens - 1; last_refill = now },
      r.set_hash key (tokens - 1, now) ttl_ms now db,
    )
    else (record { allowed = false; remaining = 0; last_refill = now }, db)
