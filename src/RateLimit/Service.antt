-- ===== src/RateLimit/Service.antt =====
-- The operations of SmartRateLimiterService in src/rate-limit/smart-rate-limiter.service.ts, with
-- src/common/resolveClientIdFromKey.ts. Metrics and log lines are not modelled.
use ai_provider_gateway.Prelude.{
  ℕ, ◌+◌, ◌*◌, Bool, true, false, not, ◌&&◌, Option, none, some, String, List, [], ◌∷◌, ◌++◌, ltb,
  or_else, str_eq, find, if◌then◌else◌,
}
use ai_provider_gateway.Prelude.Texts.{Text, units, show_nat}
use ai_provider_gateway.Prelude.Int.{leb_nat, below}
use ai_provider_gateway.RateLimit.Bucket.{take_token}
use ai_provider_gateway.RateLimit.Redis.{Redis}

pub record RateLimitResult : Type 0 where
  pub allowed : Bool
  pub remaining : ℕ
  pub reset_at : ℕ
  pub reason : Option Text

pub record Limits : Type 0 where
  pub rps : ℕ
  pub burst : ℕ
  pub max_concurrent_streams : ℕ

pub record LimitsConfig : Type 0 where
  pub rps : Option ℕ
  pub burst : Option ℕ
  pub max_concurrent_streams : Option ℕ
  pub cooldown_after_429 : Option ℕ

-- `gatewayKey` and `name` are "" where they are not set.
pub record GatewayClient : Type 0 where
  pub name : String
  pub gateway_key : String
  pub rate_limit : Option Limits

-- What a call finds of Redis: `isReady()`, whether `getClient()` is not null, and whether the first
-- command fails; a failure after a command that went through is not modelled.
pub record Connection : Type 0 where
  pub is_ready : Bool
  pub has_client : Bool
  pub fails : Bool

-- `new Map(clients.filter(c => c.gatewayKey).map(...)).get(key)`: of two clients with one key the
-- later counts.
unfoldable pub find_client : String → List GatewayClient → Option GatewayClient
find_client key [] = none
find_client key (c ∷ cs) =
    let later = find_client key cs in
    elim later [
      | some c' ↦ some c'
      | none ↦ if not (str_eq c.gateway_key "") && str_eq c.gateway_key key then some c else none
    ]

abbrev pub of_config : Option LimitsConfig → (LimitsConfig → Option ℕ) → ℕ → ℕ
of_config none field d = d
of_config (some c) field d = or_else (field c) d

unfoldable pub default_limits : Option LimitsConfig → Limits
default_limits config = record {
  rps = of_config config (λ c. c.rps) 10;
  burst = of_config config (λ c. c.burst) 20;
  max_concurrent_streams = of_config config (λ c. c.max_concurrent_streams) 3;
}

unfoldable pub get_limits_for_client : List GatewayClient → Option LimitsConfig → String → Limits
unfolding default_limits
get_limits_for_client clients config key = elim (find_client key clients) [
  | none ↦ default_limits config
  | some c ↦ elim c.rate_limit [ some limits ↦ limits | none ↦ default_limits config ]
]

-- resolveClientIdFromKey.ts: the first client with the key.
unfoldable pub resolve_client_id_from_key : String → List GatewayClient → String
resolve_client_id_from_key key clients =
    elim (find (λ (c : GatewayClient). str_eq c.gateway_key key) clients) [
      | none ↦ "unknown"
      | some c ↦ if str_eq c.name "" then "unknown" else c.name
    ]

abbrev pub allow : ℕ → ℕ → RateLimitResult
allow remaining reset_at = record {
  allowed = true;
  remaining = remaining;
  reset_at = reset_at;
  reason = none;
}

abbrev pub deny : ℕ → Text → RateLimitResult
deny reset_at reason = record {
  allowed = false;
  remaining = 0;
  reset_at = reset_at;
  reason = some reason;
}

-- `if (!isReady()) …; if (!client) …; try { … } catch { return fail open }`: the four operations open
-- in this way. The first command, if it fails, leaves the database as it was.
abbrev pub on_redis {ℓ κ} : {A : Type ℓ} {D : Type κ} → Connection → A → A → D → A × D → A × D
on_redis conn unready closed db run =
    if not conn.is_ready
    then (unready, db)
    else if not conn.has_client
    then (closed, db)
    else if conn.fails
    then (closed, db)
    else run

unfoldable pub streams_key : String → Text
streams_key key = units "rateLimit:streams:" ++ units key

unfoldable pub cooldown_key : String → String → Text
cooldown_key key provider =
    units "rateLimit:cooldown:" ++ (units key ++ (units ":" ++ units provider))

module _ (r : Redis) (conn : Connection) where
  unfoldable pub check_rate_limit : Limits → String → ℕ → r.Db → RateLimitResult × r.Db
  check_rate_limit limits key now db = on_redis conn (allow 9999999 now) (allow 999 now) db (
      let (answer, db') =
        take_token r (units "rateLimit:key:" ++ units key) now limits.rps limits.burst 1000 db in
      (
        if answer.allowed
            then allow answer.remaining (answer.last_refill + 1000)
            else deny now (units "Rate limit exceeded for gateway key."),
        db',
      ))

  unfoldable pub check_concurrent_streams : Limits → String → ℕ → r.Db → RateLimitResult × r.Db
  check_concurrent_streams limits key now db =
      let most = limits.max_concurrent_streams in
      let counted = r.incr (streams_key key) now db in
      let current = r.count (streams_key key) now counted in
      let kept = r.expire (streams_key key) 300000 now counted in
      on_redis conn (allow 999 now) (allow 999 now) db (
        if leb_nat current most then (allow (below most current) (now + 300000), kept) else (
          deny (now + 300000) (
              units "Max concurrent streams ("
              ++ (show_nat most ++ units ") exceeded for gateway key.")),
          r.decr (streams_key key) now kept,
        ))

  unfoldable pub release_stream : String → ℕ → r.Db → r.Db
  release_stream key now db =
      (on_redis {0, 0} conn tt tt db (tt, r.decr (streams_key key) now db)).1

  unfoldable pub check_cooldown : String → String → ℕ → r.Db → RateLimitResult
  check_cooldown key provider now db =
      let ttl = r.ttl (cooldown_key key provider) now db in
      (on_redis conn (allow 999 now) (allow 999 now) db (
        if ltb 0 ttl
            then deny (now + ttl * 1000) (
                units "Provider "
                ++ (units provider
                    ++ (units " in cooldown after 429. " ++ (show_nat ttl ++ units " remaining."))))
            else allow 999 now,
        db,
      )).0

  unfoldable pub set_cooldown : Option LimitsConfig → String → String → ℕ → r.Db → r.Db
  set_cooldown config key provider now db =
      (on_redis {0, 0} conn tt tt db (
        tt,
        r.set_ex (cooldown_key key provider) (of_config config (λ c. c.cooldown_after_429) 60) now
            db,
      )).1
