-- ===== src/RateLimit/Cooldown.antt =====
-- The operations of SmartRateLimiterService against what they promise: the cooldown after a 429, one
-- check of the stream counter, and the behaviour without Redis.
use ai_provider_gateway.Prelude.{
  ℕ, ◌+◌, ◌*◌, ◌≤◌, ◌≡◌, refl, ◌⊎◌, inl, inr, true, false, not, Option, String, arith, ltb, lt→ltb,
  Bool-cases, if◌then◌else◌, ap, ◌∙◌,
}
use ai_provider_gateway.Prelude.Int
use ai_provider_gateway.Prelude.Int.{ℤ, pos, negsuc, leb_nat}
use ai_provider_gateway.RateLimit.Redis.{Redis}
use ai_provider_gateway.RateLimit.Service.{
  Connection, Limits, LimitsConfig, of_config, on_redis, check_rate_limit, check_concurrent_streams,
  release_stream, check_cooldown, set_cooldown, streams_key, cooldown_key,
}

abbrev pub IsUp : Connection → Type 0
IsUp conn = (conn.is_ready ≡ true) × (conn.has_client ≡ true) × (conn.fails ≡ false)

abbrev pub cooldown_seconds : Option LimitsConfig → ℕ
cooldown_seconds config = of_config config (λ c. c.cooldown_after_429) 60

on_redis_up {ℓ κ} :
    {A : Type ℓ} {D : Type κ} (conn : Connection) (unready closed : A) (db : D) (run : A × D)
    → IsUp conn
    → on_redis conn unready closed db run ≡ run
on_redis_up conn unready closed db run (ready, client, fine) = rw (ready, client, fine)

set_cooldown_up :
    (r : Redis) (conn : Connection) (config : Option LimitsConfig) (key provider : String) (now : ℕ)
    (db : r.Db)
    → IsUp conn
    → set_cooldown r conn config key provider now db
      ≡ r.set_ex (cooldown_key key provider) (cooldown_seconds config) now db
unfolding set_cooldown
set_cooldown_up r conn config key provider now db up =
    ap (λ p. p.1) (on_redis_up {0, 0} conn tt tt db _ up)

check_cooldown_up :
    (r : Redis) (conn : Connection) (key provider : String) (now : ℕ) (db : r.Db)
    → IsUp conn
    → (check_cooldown r conn key provider now db).allowed
      ≡ not (ltb 0 (r.ttl (cooldown_key key provider) now db))
unfolding check_cooldown
check_cooldown_up r conn key provider now db (ready, client, fine) = ground arith

-- After `setCooldown` for a key and a provider at `now`, with Redis up: `checkCooldown` refuses that
-- pair until one second before the configured seconds are over, and allows it from their end on. (In
-- the last second Redis rounds.)
pub check_cooldown-set_cooldown :
    (r : Redis) (conn : Connection) (config : Option LimitsConfig) (key provider : String)
    (now later : ℕ) (db : r.Db)
    → IsUp conn
    → (later + 1000 ≤ now + cooldown_seconds config * 1000
        → (check_cooldown r conn key provider later
            (set_cooldown r conn config key provider now db)).allowed
          ≡ false)
      × (now + cooldown_seconds config * 1000 ≤ later
          → (check_cooldown r conn key provider later
              (set_cooldown r conn config key provider now db)).allowed
            ≡ true)
check_cooldown-set_cooldown r conn config key provider now later db up =
    let k = cooldown_key key provider in
    let n = cooldown_seconds config in
    (
      λ early.
          rw
            (
              set_cooldown_up r conn config key provider now db up,
              check_cooldown_up r conn key provider later _ up,
            )
            (rw (lt→ltb 0 _ (r.ttl-set_ex k n now later db early))),
      λ late.
          rw
            (
              set_cooldown_up r conn config key provider now db up,
              check_cooldown_up r conn key provider later _ up,
            )
            (rw (r.ttl-set_ex_expired k n now later db late)),
    )

pub decr-incr : (z : ℤ) → Int.decr (Int.incr z) ≡ z
decr-incr (pos n) = ground arith
decr-incr (negsuc n) = ground arith

-- One check of the stream limit, with Redis up: it allows exactly when the counter, with this stream
-- counted, is at most the client's limit; then the counter has grown by one, else it is unchanged.
pub check_concurrent_streams_lem :
    (r : Redis) (conn : Connection) (limits : Limits) (key : String) (now : ℕ) (db : r.Db)
    → IsUp conn
    → ((check_concurrent_streams r conn limits key now db).0.allowed
        ≡ leb_nat (Int.incr (r.count (streams_key key) now db)) limits.max_concurrent_streams)
      × (r.count (streams_key key) now (check_concurrent_streams r conn limits key now db).1 ≡ (
          if (check_concurrent_streams r conn limits key now db).0.allowed
          then Int.incr (r.count (streams_key key) now db)
          else r.count (streams_key key) now db))
unfolding check_concurrent_streams
check_concurrent_streams_lem r conn limits key now db (ready, client, fine) =
    let k = streams_key key in
    let c = r.count k now db in
    let counted = r.count-incr k now db in
    let kept = r.count-expire k 300000 now (r.incr k now db) (omega arith) ∙ counted in
    let undone =
      r.count-decr k now (r.expire k 300000 now (r.incr k now db))
      ∙ (ap Int.decr kept ∙ decr-incr c) in
    rw (ready, client, fine)
      (rw counted (elim (Bool-cases (leb_nat (Int.incr c) limits.max_concurrent_streams)) [
        | inl room ↦ rw room (refl, kept)
        | inr busy ↦ rw busy (refl, undone)
      ]))

-- A release undoes an admission: after an allowed check and a release, with Redis up, the counter is
-- as before.
pub release_stream-check_concurrent_streams :
    (r : Redis) (conn : Connection) (limits : Limits) (key : String) (now : ℕ) (db : r.Db)
    → IsUp conn
    → (check_concurrent_streams r conn limits key now db).0.allowed ≡ true
    → r.count
        (streams_key key)
        now
        (release_stream r conn key now (check_concurrent_streams r conn limits key now db).1)
      ≡ r.count (streams_key key) now db
unfolding release_stream
release_stream-check_concurrent_streams r conn limits key now db (ready, client, fine) allowed =
    let k = streams_key key in
    let after = (check_concurrent_streams r conn limits key now db).1 in
    let grown =
      (check_concurrent_streams_lem r conn limits key now db (ready, client, fine)).1
      ∙ ap (λ b. if b then Int.incr (r.count k now db) else r.count k now db) allowed in
    ap (λ p. r.count k now p.1)
      (on_redis_up {0, 0} conn tt tt after (tt, r.decr k now after) (ready, client, fine))
    ∙ (r.count-decr k now after ∙ (ap Int.decr grown ∙ decr-incr (r.count k now db)))

-- Without Redis (not ready, no client, or a first command that fails) every check allows and nothing is
-- written.
pub fail_open :
    (r : Redis) (conn : Connection) (limits : Limits) (key provider : String) (now : ℕ) (db : r.Db)
    → ((conn.is_ready ≡ false) ⊎ (conn.has_client ≡ false) ⊎ (conn.fails ≡ true))
    → ((check_rate_limit r conn limits key now db).0.allowed ≡ true)
      × ((check_rate_limit r conn limits key now db).1 ≡ db)
      × ((check_concurrent_streams r conn limits key now db).0.allowed ≡ true)
      × ((check_concurrent_streams r conn limits key now db).1 ≡ db)
      × ((check_cooldown r conn key provider now db).allowed ≡ true)
unfolding check_rate_limit check_concurrent_streams check_cooldown
fail_open r conn limits key provider now db down = ground arith
