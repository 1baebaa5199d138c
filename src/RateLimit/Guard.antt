-- ===== src/RateLimit/Guard.antt =====
-- src/guards/smart-rate-limit-guard.ts and src/common/interceptors/stream-cleanup.interceptor.ts: what
-- a request acquires before its handler runs, and what is given back when the handler has ended.
use ai_provider_gateway.Prelude.{
  ℕ, ◌≡◌, ◌∙◌, ap, sym, refl, Bool, true, false, not, ◌&&◌, Option, String, List, [], ◌∷◌, ◌++◌,
  ◌==◌, arith, or_else, drop, length, str_eq, leb, ◌-◌, Bool-cases, inl, inr, if◌then◌else◌,
}
use ai_provider_gateway.Prelude.Texts.{Text, units, text_eq}
use ai_provider_gateway.Prelude.Int
use ai_provider_gateway.Errors.{
  Thrown, Settled, returned, threw, request_error, gateway_key_missing, rate_limited,
}
use ai_provider_gateway.RateLimit.Redis.{Redis}
use ai_provider_gateway.RateLimit.Bucket.{current_tokens, take_token, ttl_ms}
use ai_provider_gateway.RateLimit.Service.{
  Connection, LimitsConfig, GatewayClient, RateLimitResult, get_limits_for_client, check_rate_limit,
  check_concurrent_streams, release_stream, streams_key,
}
use ai_provider_gateway.RateLimit.Cooldown.{IsUp, decr-incr, check_concurrent_streams_lem}

-- `gateway_key` is what readClientGatewayKey finds, "" for nothing.
pub record Request : Type 0 where
  pub url : Text
  pub gateway_key : String
  pub request_id : String

-- `url.split('?')[0]`
unfoldable pub path_of : Text → Text
path_of [] = []
path_of (c ∷ rest) = let more = path_of rest in if c == b'?' then [] else c ∷ more

-- `text.endsWith('/stream')`
unfoldable pub ends_with_stream : Text → Bool
ends_with_stream t = leb 7 (length t) && text_eq (drop (length t - 7) t) (units "/stream")

abbrev pub too_many : RateLimitResult → Text → Request → Thrown
too_many result fallback req =
    request_error 429 rate_limited (or_else result.reason fallback) req.request_id

module _ (r : Redis) (conn : Connection) (clients : List GatewayClient)
    (config : Option LimitsConfig) where
  abbrev pub after_streams : Request → RateLimitResult × r.Db → Settled Bool × r.Db
  after_streams req (result, db) = (
    if result.allowed
        then returned true
        else threw (too_many result (units "Concurrent streams limit exceeded") req),
    db,
  )

  -- The part of `canActivate` behind the rate limit.
  abbrev pub after_rate : Request → ℕ → RateLimitResult × r.Db → Settled Bool × r.Db
  after_rate req now (result, db) =
      if not result.allowed
      then (threw (too_many result (units "Rate limit exceeded") req), db)
      else if ends_with_stream (path_of req.url)
      then after_streams req (
          check_concurrent_streams r conn (get_limits_for_client clients config req.gateway_key)
            req.gateway_key now db)
      else (returned true, db)

  -- `enabled` is the setting RATE_LIMIT_SMART_ENABLED.
  unfoldable pub can_activate : Bool → Request → ℕ → r.Db → Settled Bool × r.Db
  can_activate enabled req now db =
      if text_eq (path_of req.url) (units "/api/v1/health")
      then (returned true, db)
      else if not enabled
      then (returned true, db)
      else if str_eq req.gateway_key ""
      then (
        threw (
            request_error 401 gateway_key_missing (units "Missing client gateway key.")
              req.request_id),
        db,
      )
      else after_rate req now (
          check_rate_limit r conn (get_limits_for_client clients config req.gateway_key)
            req.gateway_key now db)

  -- The interceptor's `finalize`.
  unfoldable pub cleanup : Request → ℕ → r.Db → r.Db
  cleanup req now db =
      if ends_with_stream req.url && not (str_eq req.gateway_key "")
      then release_stream r conn req.gateway_key now db
      else db

module _ (r : Redis) (conn : Connection) (clients : List GatewayClient)
    (config : Option LimitsConfig) (req : Request) (now : ℕ) where
  abbrev counter : r.Db → Int.ℤ
  counter db = r.count (streams_key req.gateway_key) now db

  check_rate_limit-counter :
      (db : r.Db)
      → counter
          (check_rate_limit r conn
            (get_limits_for_client clients config req.gateway_key)
            req.gateway_key
            now
            db).1
        ≡ counter db
  unfolding check_rate_limit take_token
  check_rate_limit-counter db =
      let limits = get_limits_for_client clients config req.gateway_key in
      let bucket = units "rateLimit:key:" ++ units req.gateway_key in
      let tokens = current_tokens limits.rps limits.burst 1000 now (r.hash bucket now db) in
      ground (
        arith,
        r.count-set_hash (streams_key req.gateway_key) bucket (tokens - 1, now) ttl_ms now now db,
      )

  cleanup-counter :
      (db : r.Db)
      → IsUp conn
      → str_eq req.gateway_key "" ≡ false
      → counter (cleanup r conn clients config req now db)
        ≡ (if ends_with_stream req.url then Int.decr (counter db) else counter db)
  unfolding cleanup release_stream
  cleanup-counter db (ready, client, fine) key = elim (Bool-cases (ends_with_stream req.url)) [
    | inl e ↦
        rw (e, key) (rw (ready, client, fine) (r.count-decr (streams_key req.gateway_key) now db))
    | inr e ↦ rw e refl
  ]

  after_rate-counter :
      (result : RateLimitResult) (db : r.Db)
      → IsUp conn
      → ends_with_stream (path_of req.url) ≡ true
      → (after_rate r conn clients config req now (result, db)).0 ≡ returned true
      → counter (after_rate r conn clients config req now (result, db)).1 ≡ Int.incr (counter db)
  after_rate-counter result db up streaming passed =
      let limits = get_limits_for_client clients config req.gateway_key in
      let (answer, db') = check_concurrent_streams r conn limits req.gateway_key now db in
      let (_, grown) = check_concurrent_streams_lem r conn limits req.gateway_key now db up in
      elim (Bool-cases result.allowed) [
        | inr refused ↦ absurd (let no = rw refused at passed in cc)
        | inl allowed ↦ elim (Bool-cases answer.allowed) [
          | inr refused ↦ absurd (let no = rw (allowed, streaming, refused) at passed in cc)
          | inl room ↦
              rw (allowed, streaming)
                (grown ∙ ap (λ b. if b then Int.incr (counter db) else counter db) room)
        ]
      ]

-- A streaming request (its path ends in /stream) with a gateway key, let in with Redis up while the
-- smart limits are on, and its cleanup, at the same time and with nothing else in between: the stream
-- counter of its key is as before if the url as a whole ends in /stream; if not (there is a query) the
-- counter has grown by one.
pub cleanup-can_activate :
    (r : Redis) (conn : Connection) (clients : List GatewayClient) (config : Option LimitsConfig)
    (req : Request) (now : ℕ) (db : r.Db)
    → IsUp conn
    → str_eq req.gateway_key "" ≡ false
    → text_eq (path_of req.url) (units "/api/v1/health") ≡ false
    → ends_with_stream (path_of req.url) ≡ true
    → (can_activate r conn clients config true req now db).0 ≡ returned true
    → r.count (streams_key req.gateway_key) now (
        cleanup r conn clients config req now
          (can_activate r conn clients config true req now db).1)
      ≡ (if ends_with_stream req.url
          then r.count (streams_key req.gateway_key) now db
          else Int.incr (r.count (streams_key req.gateway_key) now db))
cleanup-can_activate r conn clients config req now db up key health streaming passed =
    let (result, db') =
      check_rate_limit r conn (get_limits_for_client clients config req.gateway_key) req.gateway_key
        now db in
    let k = streams_key req.gateway_key in
    let reached : can_activate r conn clients config true req now db
        ≡ after_rate r conn clients config req now (result, db') =
      unfold can_activate in rw (health, key) refl in
    let grown : r.count k now (can_activate r conn clients config true req now db).1
        ≡ Int.incr (r.count k now db) =
      ap (λ p. r.count k now p.1) reached
      ∙ (after_rate-counter r conn clients config req now result db' up streaming
            (ap (λ p. p.0) (sym reached) ∙ passed)
          ∙ ap Int.incr (check_rate_limit-counter r conn clients config req now db)) in
    cleanup-counter r conn clients config req now _ up key
    ∙ (ap (λ c. if ends_with_stream req.url then Int.decr c else c) grown
        ∙ ap (λ c. if ends_with_stream req.url then c else Int.incr (r.count k now db))
            (decr-incr (r.count k now db)))
