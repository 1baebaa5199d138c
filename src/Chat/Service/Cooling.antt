-- ===== src/Chat/Service/Cooling.antt =====
-- The cooldown after a provider's 429, through src/chat/chat.service.ts: set where a request ends with that
-- error, found where the next one is prepared.
use ai_provider_gateway.Prelude.{
  ℕ, ◌+◌, ◌*◌, ◌≤◌, ◌≡◌, refl, ap, ◌∙◌, Bool, true, false, String, str_eq,
}
use ai_provider_gateway.Errors.{
  Thrown, http, Response, returned, threw, ThrewHttp, is_provider_rate_limit_error,
}
use ai_provider_gateway.Params.Numbers.{Numbers}
use ai_provider_gateway.RateLimit.Service.{check_cooldown, set_cooldown}
use ai_provider_gateway.RateLimit.Cooldown.{IsUp, cooldown_seconds, check_cooldown-set_cooldown}
use ai_provider_gateway.Resilience.Executor.{done, pending}
use ai_provider_gateway.Chat.Deployment.{Deployment, GatewayState}
use ai_provider_gateway.Chat.Service.{
  ChatExecutionPrep, Incoming, EmbedState, Executed, assert_not_in_cooldown, check_provider,
  validate, prepare_request_for_execution, handle_provider_error, on_result, on_executed,
  complete_chat_and_store, on_prepared, execute_chat, run_provider,
}

module _ {n : Numbers} (g : Deployment n) where
  refused :
      (key provider request_id : String) (now : ℕ) (db : g.redis.Db)
      → (check_cooldown g.redis g.connection key provider now db).allowed ≡ false
      → ThrewHttp 429 (assert_not_in_cooldown g key provider request_id now db)
  unfolding assert_not_in_cooldown
  refused key provider request_id now db over = rw over (_, refl)

  -- A request that the rate limiter refuses is answered at once, and nothing happens.
  execute_chat_refused :
      (incoming : Incoming n) (prep : ChatExecutionPrep n) (s : GatewayState g)
      → validate g incoming ≡ returned prep
      → str_eq incoming.gateway_key "" ≡ false
      → (check_cooldown g.redis g.connection incoming.gateway_key
          prep.primary_resolved.provider_name s.now s.cooldowns).allowed
        ≡ false
      → (r : Response) × (execute_chat g incoming s ≡ (done 0 (threw (http 429 r)), s))
  unfolding execute_chat prepare_request_for_execution check_provider
  execute_chat_refused incoming prep s valid keyed over =
      let (r, thrown) =
        refused incoming.gateway_key prep.primary_resolved.provider_name incoming.request_id s.now
          s.cooldowns over in
      (r, rw (valid, keyed, thrown) (unfold on_prepared in refl))

  -- What the executor's error leaves in the rate limiter.
  cooldowns-on_executed :
      (incoming : Incoming n) (prep : ChatExecutionPrep n) (embed_state : EmbedState g)
      (s : GatewayState g) (ran : Executed g) (at : ℕ) (e : Thrown)
      → (on_executed g incoming prep embed_state s ran).0 ≡ done at (threw e)
      → str_eq incoming.gateway_key "" ≡ false
      → is_provider_rate_limit_error e ≡ true
      → (on_executed g incoming prep embed_state s ran).1.cooldowns
        ≡ set_cooldown g.redis g.connection g.limits incoming.gateway_key
            prep.primary_resolved.provider_name
            (s.now + at)
            s.cooldowns
  unfolding on_executed on_result handle_provider_error
  cooldowns-on_executed incoming prep embed_state s (pending, w) at e ended keyed limited = cc
  cooldowns-on_executed incoming prep embed_state s (done t (returned result), w) at e ended keyed
        limited =
      cc
  cooldowns-on_executed incoming prep embed_state s (done t (threw f), w) at e ended keyed limited =
      let same_error : f ≡ e = cc in
      let same_time : t ≡ at = cc in rw (keyed, same_error, limited, same_time) refl

  -- After a request under a gateway key that ended with a provider's 429, while Redis answers: until one
  -- second before the configured cooldown is over, every valid request under the same key whose model
  -- alias stands for the same provider instance is answered with HTTP 429 at once, no provider is asked and
  -- nothing is changed, whatever else has changed in between.
  pub execute_chat-complete_chat_and_store :
      (incoming later_incoming : Incoming n) (prep later_prep : ChatExecutionPrep n)
      (embed_state : EmbedState g) (s later : GatewayState g) (at : ℕ) (e : Thrown)
      → let after : GatewayState g = (complete_chat_and_store g incoming prep embed_state s).1 in
        IsUp g.connection
        → (complete_chat_and_store g incoming prep embed_state s).0 ≡ done at (threw e)
        → is_provider_rate_limit_error e ≡ true
        → str_eq incoming.gateway_key "" ≡ false
        → validate g later_incoming ≡ returned later_prep
        → later_incoming.gateway_key ≡ incoming.gateway_key
        → later_prep.primary_resolved.provider_name ≡ prep.primary_resolved.provider_name
        → later.cooldowns ≡ after.cooldowns
        → later.now + 1000 ≤ (s.now + at) + cooldown_seconds g.limits * 1000
        → (r : Response) × (execute_chat g later_incoming later
            ≡ (done 0 (threw (http 429 r)), later))
  unfolding complete_chat_and_store
  execute_chat-complete_chat_and_store incoming later_incoming prep later_prep embed_state s later
        at e up ended limited keyed valid same_key same_provider kept early =
      let set =
        cooldowns-on_executed incoming prep embed_state s
          (run_provider g incoming.body prep.primary_resolved s.providers) at e ended keyed
          limited in
      let provider = prep.primary_resolved.provider_name in
      let over =
        (check_cooldown-set_cooldown g.redis g.connection g.limits incoming.gateway_key provider
            (s.now + at) later.now s.cooldowns up).0
          early in
      let check : String → String → g.redis.Db → Bool =
        λ k p db. (check_cooldown g.redis g.connection k p later.now db).allowed in
      execute_chat_refused later_incoming later_prep later valid
        (ap (λ k. str_eq k "") same_key ∙ keyed)
        (ap (λ k. check k later_prep.primary_resolved.provider_name later.cooldowns) same_key
          ∙ ap (λ p. check incoming.gateway_key p later.cooldowns) same_provider
          ∙ ap (check incoming.gateway_key provider) (kept ∙ set)
          ∙ over)
