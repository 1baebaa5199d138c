-- ===== src/Chat/Service/Caching.antt =====
-- What a later request gets of the answers that src/chat/chat.service.ts keeps.
use ai_provider_gateway.Prelude.{
  ℕ, ◌+◌, ◌*◌, ◌≤◌, ◌<◌, ◌≡◌, refl, ap, sym, ◌∙◌, true, false, none, some, String, or_else, str_eq,
  arith, subst,
}
use ai_provider_gateway.Prelude.Texts.{Text}
use ai_provider_gateway.Errors.{returned}
use ai_provider_gateway.Params.Numbers.{Numbers}
use ai_provider_gateway.Params.Resolve.{Options}
use ai_provider_gateway.RateLimit.Cooldown.{IsUp}
use ai_provider_gateway.Resilience.Executor.{done, ResilientExecutionResult}
use ai_provider_gateway.Cache.Exact.{IsReadable, get_cached_response}
use ai_provider_gateway.Cache.Stored.{set_cached_response-get_cached_response}
use ai_provider_gateway.Chat.Request.{ChatRequest}
use ai_provider_gateway.Chat.Answer.{CachedChatResponse, to_cached_chat_response}
use ai_provider_gateway.Chat.Deployment.{Deployment, GatewayState}
use ai_provider_gateway.Chat.Pipeline.{
  hit, exact, is_cache_allowed, identity_key, on_exact, get_cached_if_allowed,
}
use ai_provider_gateway.Chat.Service.{
  ChatExecutionPrep, CompleteOnceResult, Incoming, EmbedState, cached, answer_of, run_provider,
  on_executed, complete_chat_and_store, may_coalesce, on_lookup, on_prepared,
  prepare_request_for_execution, execute_chat,
}
use ai_provider_gateway.Chat.Service.Keeping.{IsKept, answers_kept}

module _ {n : Numbers} (g : Deployment n) where
  -- A read through the pipeline that finds a reply in the exact cache.
  get_cached_if_allowed_hit :
      (request : ChatRequest n) (options : Options n) (client_id key : String)
      (reply : CachedChatResponse) (s : GatewayState g)
      → is_cache_allowed g request client_id key ≡ true
      → get_cached_response g.strings g.connection g.codec
          (identity_key g request client_id options)
          s.now
          s.answers
        ≡ (some reply, s.answers)
      → get_cached_if_allowed g request options client_id key s ≡ (hit reply exact, s)
  unfolding get_cached_if_allowed on_exact
  get_cached_if_allowed_hit request options client_id key reply s allowed found =
      rw (allowed, found) refl

  -- Requests may share a run exactly where their answers may be kept.
  may_coalesce_lem :
      (incoming : Incoming n)
      → may_coalesce g incoming
        ≡ is_cache_allowed g incoming.body incoming.client_id incoming.gateway_key
  unfolding may_coalesce is_cache_allowed
  may_coalesce_lem incoming = ground arith

  keyed_of_allowed :
      (request : ChatRequest n) (client_id key : String)
      → is_cache_allowed g request client_id key ≡ true
      → str_eq key "" ≡ false
  unfolding is_cache_allowed
  keyed_of_allowed request client_id key h = ground arith

  execute_chat_hit :
      (incoming : Incoming n) (prep : ChatExecutionPrep n) (reply : CachedChatResponse)
      (s : GatewayState g)
      → prepare_request_for_execution g incoming s ≡ returned prep
      → is_cache_allowed g incoming.body incoming.client_id incoming.gateway_key ≡ true
      → get_cached_response g.strings g.connection g.codec
          (identity_key g incoming.body incoming.client_id prep.options)
          s.now
          s.answers
        ≡ (some reply, s.answers)
      → execute_chat g incoming s ≡ (
        done 0 (returned (cached reply prep.response_conversation_id exact incoming.request_id)),
        s,
      )
  unfolding execute_chat on_prepared
  execute_chat_hit incoming prep reply s prepared allowed found =
      rw
        (
          prepared,
          keyed_of_allowed incoming.body incoming.client_id incoming.gateway_key allowed,
          get_cached_if_allowed_hit incoming.body prep.options incoming.client_id
              incoming.gateway_key reply s allowed found,
        )
        (unfold on_lookup in refl)

  -- After a request whose run was kept, while Redis answers, if its key was free and the answer is read as
  -- it was written: until the time to live
  -- is over, the same request of the same client, under new ids, that is prepared with the same options gets
  -- the kept answer from the cache at once, under its own conversation id and request id. No provider is
  -- asked and nothing is changed, whatever else than the exact cache has changed in between.
  pub execute_chat_served :
      (incoming : Incoming n) (request_id : String) (conversation_id response_id : Text)
      (prep later_prep : ChatExecutionPrep n) (embed_state : EmbedState g)
      (s later : GatewayState g) (at : ℕ) (result : ResilientExecutionResult (CompleteOnceResult n))
      (w : g.Providers)
      → let again : Incoming n = record incoming {
        request_id = request_id;
        new_conversation_id = conversation_id;
        new_response_id = response_id;
      } in
        let stored_in = s.now + at in
        IsUp g.connection
        → run_provider g incoming.body prep.primary_resolved s.providers
          ≡ (done at (returned result), w)
        → IsKept g incoming prep (done at (returned result), w)
        → IsReadable g.codec
            (to_cached_chat_response (g.iso stored_in) (answer_of g incoming prep result))
        → 0 < or_else g.cache_ttl 3600
        → g.strings.get
            (identity_key g incoming.body incoming.client_id prep.options)
            stored_in
            s.answers
          ≡ none
        → prepare_request_for_execution g again later ≡ returned later_prep
        → later_prep.options ≡ prep.options
        → later.answers ≡ (complete_chat_and_store g incoming prep embed_state s).1.answers
        → stored_in ≤ later.now
        → later.now < stored_in + or_else g.cache_ttl 3600 * 1000
        → execute_chat g again later ≡ (
          done 0 (
              returned (
                cached
                  (to_cached_chat_response (g.iso stored_in) (answer_of g incoming prep result))
                  later_prep.response_conversation_id
                  exact
                  request_id)),
          later,
        )
  unfolding complete_chat_and_store
  execute_chat_served incoming request_id conversation_id response_id prep later_prep embed_state s
        later at result w up ran kept readable lasting free prepared same_options same_answers after
        live =
      let reply = to_cached_chat_response (g.iso (s.now + at)) (answer_of g incoming prep result) in
      let key : Options n → Text =
        λ options. identity_key g incoming.body incoming.client_id options in
      let db =
        same_answers
        ∙ ap (λ r. (on_executed g incoming prep embed_state s r).1.answers) ran
        ∙ answers_kept g incoming prep embed_state s at result w kept in
      let stored =
        (set_cached_response-get_cached_response g.strings g.connection g.codec (key prep.options)
          g.cache_ttl (g.iso (s.now + at)) (answer_of g incoming prep result) reply (s.now + at)
          later.now later.now s.answers up readable kept.1.1 lasting free after (omega arith)
          live).0 in
      execute_chat_hit _ later_prep reply later prepared kept.1.0 (
        ap (λ o. get_cached_response g.strings g.connection g.codec (key o) later.now later.answers)
          same_options
        ∙ subst
            (λ d.
              get_cached_response g.strings g.connection g.codec (key prep.options) later.now d
              ≡ (some reply, d))
            (sym db) stored)
