-- ===== src/Examples/Memory.antt =====
-- A Redis server in memory, which shows that the interface of RateLimit/Redis.antt can be met.
use ai_provider_gateway.Prelude.{
  ℕ, ◌+◌, ◌-◌, ◌*◌, ◌/◌, ◌≤◌, ◌<◌, ◌≡◌, refl, Option, none, some, leb, arith, if◌then◌else◌,
}
use ai_provider_gateway.Prelude.Texts.{Text, text_eq, text_eq_refl}
use ai_provider_gateway.Prelude.Int
use ai_provider_gateway.Prelude.Int.{ℤ, pos}
use ai_provider_gateway.RateLimit.Redis.{Redis}

-- A value with the time at which it expires.
pub record Memory : Type 0 where
  pub hashes : Text → Option ((ℕ × ℕ) × ℕ)
  pub counts : Text → ℤ × Option ℕ
  pub cooldowns : Text → ℕ

abbrev pub empty_memory : Memory
empty_memory = record { hashes = λ k. none; counts = λ k. (pos 0, none); cooldowns = λ k. 0 }

abbrev put {ℓ} : {A : Type ℓ} → Text → A → (Text → A) → Text → A
put k v f j = if text_eq k j then v else f j

abbrev live_hash : ℕ → Option ((ℕ × ℕ) × ℕ) → Option (ℕ × ℕ)
live_hash now none = none
live_hash now (some (v, expires)) = if leb expires now then none else some v

abbrev live_count : ℕ → ℤ × Option ℕ → ℤ × Option ℕ
live_count now (z, none) = (z, none)
live_count now (z, some expires) = if leb expires now then (pos 0, none) else (z, some expires)

abbrev count_at : Text → ℕ → Memory → ℤ × Option ℕ
count_at k now m = live_count now (m.counts k)

abbrev change_count : (ℤ × Option ℕ → ℤ × Option ℕ) → Text → ℕ → Memory → Memory
change_count f k now m = record m { counts = put k (f (count_at k now m)) m.counts }

abbrev remaining_seconds : Text → ℕ → Memory → ℕ
remaining_seconds k now m = (m.cooldowns k - now + 500) / 1000

pub hash-put :
    (k : Text) (v : ℕ × ℕ) (ttl now later : ℕ) (m : Memory)
    → live_hash later (put k (some (v, now + ttl)) m.hashes k)
      ≡ (if leb (now + ttl) later then none else some v)
hash-put k v ttl now later m = rw (text_eq_refl k) refl

pub count-incr :
    (k : Text) (now : ℕ) (m : Memory)
    → (count_at k now (change_count (λ (z, e). (Int.incr z, e)) k now m)).0
      ≡ Int.incr (count_at k now m).0
count-incr k now m = rw (text_eq_refl k) (go (m.counts k))
  where
    go :
        (c : ℤ × Option ℕ)
        → (live_count now (Int.incr (live_count now c).0, (live_count now c).1)).0
          ≡ Int.incr (live_count now c).0
    go (z, none) = refl
    go (z, some e) = ground arith

pub count-decr :
    (k : Text) (now : ℕ) (m : Memory)
    → (count_at k now (change_count (λ (z, e). (Int.decr z, e)) k now m)).0
      ≡ Int.decr (count_at k now m).0
count-decr k now m = rw (text_eq_refl k) (go (m.counts k))
  where
    go :
        (c : ℤ × Option ℕ)
        → (live_count now (Int.decr (live_count now c).0, (live_count now c).1)).0
          ≡ Int.decr (live_count now c).0
    go (z, none) = refl
    go (z, some e) = ground arith

pub count-expire :
    (k : Text) (ttl now : ℕ) (m : Memory)
    → 0 < ttl
    → (count_at k now (change_count (λ (z, e). (z, some (now + ttl))) k now m)).0
      ≡ (count_at k now m).0
count-expire k ttl now m pos_ttl = rw (text_eq_refl k) (ground arith)

pub seconds-set :
    (k : Text) (seconds now later : ℕ) (m : Memory)
    → later + 1000 ≤ now + seconds * 1000
    → 0
      < remaining_seconds k later
          (record m { cooldowns = put k (now + seconds * 1000) m.cooldowns })
seconds-set k seconds now later m early = rw (text_eq_refl k) (omega arith)

pub seconds-over :
    (k : Text) (seconds now later : ℕ) (m : Memory)
    → now + seconds * 1000 ≤ later
    → remaining_seconds k later (record m { cooldowns = put k (now + seconds * 1000) m.cooldowns })
      ≡ 0
seconds-over k seconds now later m late = rw (text_eq_refl k) (omega arith)

abbrev pub in_memory : Redis
in_memory = record {
  Db = Memory;
  hash = λ k now m. live_hash now (m.hashes k);
  set_hash = λ k v ttl now m. record m { hashes = put k (some (v, now + ttl)) m.hashes };
  hash-set_hash = hash-put;
  count = λ k now m. (count_at k now m).0;
  incr = change_count (λ (z, e). (Int.incr z, e));
  decr = change_count (λ (z, e). (Int.decr z, e));
  expire = λ k ttl now m. change_count (λ (z, e). (z, some (now + ttl))) k now m;
  count-incr = count-incr;
  count-decr = count-decr;
  count-set_hash = λ k j v ttl now later m. refl;
  count-expire = count-expire;
  set_ex = λ k seconds now m. record m { cooldowns = put k (now + seconds * 1000) m.cooldowns };
  ttl = λ k now m. remaining_seconds k now m;
  ttl-set_ex = seconds-set;
  ttl-set_ex_expired = seconds-over;
}
