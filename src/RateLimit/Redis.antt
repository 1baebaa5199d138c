-- ===== src/RateLimit/Redis.antt =====
-- What the rate limiter asks of a Redis server: an interface, since Redis is no code of the
-- repository. Times are milliseconds of one clock for the gateway and for Redis; a command is
-- given the time at which it runs. The laws are those of the commands' documentation.
use ai_provider_gateway.Prelude.{ℕ, ◌+◌, ◌*◌, ◌≤◌, ◌<◌, ◌≡◌, Option, none, some, leb, if◌then◌else◌}
use ai_provider_gateway.Prelude.Texts.{Text}
use ai_provider_gateway.Prelude.Int
use ai_provider_gateway.Prelude.Int.{ℤ}

pub record Redis : Type 1 where
  pub Db : Type 0
  -- HGETALL of a bucket's fields `tokens` and `lastRefill`; `none` for a missing key.
  pub hash : Text → ℕ → Db → Option (ℕ × ℕ)
  -- HSET of both fields, then EXPIRE in so many milliseconds.
  pub set_hash : Text → ℕ × ℕ → ℕ → ℕ → Db → Db
  pub hash-set_hash :
      (k : Text) (v : ℕ × ℕ) (ttl now later : ℕ) (db : Db)
      → hash k later (set_hash k v ttl now db) ≡ (if leb (now + ttl) later then none else some v)
  -- The integer at a key, 0 for a missing key; INCR and DECR write it, EXPIRE leaves it.
  pub count : Text → ℕ → Db → ℤ
  pub incr : Text → ℕ → Db → Db
  pub decr : Text → ℕ → Db → Db
  pub expire : Text → ℕ → ℕ → Db → Db
  pub count-incr :
      (k : Text) (now : ℕ) (db : Db) → count k now (incr k now db) ≡ Int.incr (count k now db)
  pub count-decr :
      (k : Text) (now : ℕ) (db : Db) → count k now (decr k now db) ≡ Int.decr (count k now db)
  pub count-set_hash :
      (k j : Text) (v : ℕ × ℕ) (ttl now later : ℕ) (db : Db)
      → count k later (set_hash j v ttl now db) ≡ count k later db
  pub count-expire :
      (k : Text) (ttl now : ℕ) (db : Db)
      → 0 < ttl
      → count k now (expire k ttl now db) ≡ count k now db
  -- SET with EX, and TTL in seconds with 0 for its negative answers. Redis rounds, so nothing is
  -- said of the last second.
  pub set_ex : Text → ℕ → ℕ → Db → Db
  pub ttl : Text → ℕ → Db → ℕ
  pub ttl-set_ex :
      (k : Text) (seconds now later : ℕ) (db : Db)
      → later + 1000 ≤ now + seconds * 1000
      → 0 < ttl k later (set_ex k seconds now db)
  pub ttl-set_ex_expired :
      (k : Text) (seconds now later : ℕ) (db : Db)
      → now + seconds * 1000 ≤ later
      → ttl k later (set_ex k seconds now db) ≡ 0
