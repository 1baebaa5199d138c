-- ===== src/Chat/Service/Keeping.antt =====
-- Which answers src/chat/chat.service.ts keeps in the exact cache.
use ai_provider_gateway.Prelude.{
  ℕ, ◌+◌, ◌≡◌, refl, ap, ◌∙◌, Bool, true, false, some, String, List, [], ◌∷◌, All, str_eq,
  if◌then◌else◌,
}
use ai_provider_gateway.Errors.{returned, threw}
use ai_provider_gateway.Params.Numbers.{Numbers}
use ai_provider_gateway.Params.Resolve.{Options}
use ai_provider_gateway.Resilience.Executor.{done, pending, ResilientExecutionResult}
use ai_provider_gateway.Cache.Identity.{ChatCacheIdentity}
use ai_provider_gateway.Cache.Exact.{set_cached_response}
use ai_provider_gateway.Prelude.Texts.{trim, is_empty}
use ai_provider_gateway.Facade.Events.{GatewayToolCall, calls_of, has_any}
use ai_provider_gateway.Facade.Events
use ai_provider_gateway.Providers.Registry.{ModelConfig, ProviderRow}
use ai_provider_gateway.Chat.Request.{Message, ChatRequest, is_tool, names_of}
use ai_provider_gateway.Chat.Answer.{
  ChatResponseData, CachedChatResponse, should_store_chat_response, to_cached_chat_response,
}
use ai_provider_gateway.Chat.Deployment.{Deployment, GatewayState}
use ai_provider_gateway.Chat.Pipeline.{
  is_cache_allowed, identity_key, store_semantic, store_both, set_cached_if_allowed,
}
use ai_provider_gateway.Chat.Service.{
  ChatExecutionPrep, CompleteOnceResult, Incoming, EmbedState, Executed, answer_of, on_result,
  on_executed,
}

-- No result of a tool, and no call of one.
abbrev pub HasNoTools : Message → Type 0
HasNoTools m = (is_tool m.role ≡ false) × (calls_of m.tool_calls ≡ [])

no_calls : (calls : List GatewayToolCall) → has_any calls ≡ false → calls ≡ []
no_calls [] h = refl
no_calls (call ∷ calls) h = cc

module _ {n : Numbers} (g : Deployment n) where
  -- The alias is a model of an enabled provider.
  abbrev pub IsServed : String → Type 0
  IsServed alias =
      (model : ModelConfig n) × ((row : ProviderRow) × ((g.config.models alias ≡ some model)
          × ((g.config.providers model.provider_instance ≡ some row) × (row.enabled ≡ true))))

  -- A reply that was stored in the exact cache at `at` under a request's identity.
  abbrev pub stored_at :
      ℕ → ChatRequest n → Options n → String → CachedChatResponse → g.strings.Db → g.strings.Db
  stored_at at request options client_id reply db =
      set_cached_response g.strings g.connection g.codec g.cache_ttl
        (identity_key g request client_id options) reply at db

  answers-if :
      (test : Bool) (s t : GatewayState g) (db : g.strings.Db)
      → s.answers ≡ db
      → t.answers ≡ db
      → (if test then s else t).answers ≡ db
  answers-if true s t db left right = left
  answers-if false s t db left right = right

  answers-store_semantic :
      (identity : ChatCacheIdentity n) (reply : CachedChatResponse) (embed_state : EmbedState g)
      (s : GatewayState g)
      → (store_semantic g identity reply embed_state s).answers ≡ s.answers
  unfolding store_semantic
  answers-store_semantic identity reply embed_state s =
      answers-if g.has_semantic _ s s.answers refl refl

  answers-set_cached_if_allowed :
      (request : ChatRequest n) (response : ChatResponseData) (options : Options n)
      (client_id key : String) (embed_state : EmbedState g) (s : GatewayState g)
      → is_cache_allowed g request client_id key ≡ true
      → should_store_chat_response response ≡ true
      → (set_cached_if_allowed g request response options client_id key embed_state s).answers
        ≡ stored_at s.now request options client_id
            (to_cached_chat_response (g.iso s.now) response)
            s.answers
  unfolding set_cached_if_allowed store_both
  answers-set_cached_if_allowed request response options client_id key embed_state s allowed
        storable =
      rw (allowed, storable) (answers-store_semantic _ _ embed_state _)

  -- The run of a request that is kept: it ended in time `at` with an answer of the alias asked for, from
  -- which nothing is missing, and the request is one that the cache serves.
  abbrev pub IsKept : Incoming n → ChatExecutionPrep n → Executed g → Type 0
  IsKept incoming prep (pending, w) = ⊥
  IsKept incoming prep (done at (threw e), w) = ⊥
  IsKept incoming prep (done at (returned result), w) =
      (result.did_fallback ≡ false)
      × ((is_cache_allowed g incoming.body incoming.client_id incoming.gateway_key ≡ true)
          × (should_store_chat_response (answer_of g incoming prep result) ≡ true))

  abbrev IsAllowed : ChatRequest n → String → String → Type 0
  IsAllowed request client_id key =
      (names_of request.tool_names ≡ [])
      × (All HasNoTools request.messages
          × ((str_eq key "" ≡ false) × (str_eq client_id "unknown" ≡ false)))

  -- A request and its answer that may be kept.
  pub record IsWorthKeeping (incoming : Incoming n) (answer : ChatResponseData) : Type 0 where
    pub no_tools : names_of incoming.body.tool_names ≡ []
    pub no_tool_turns : All HasNoTools incoming.body.messages
    pub has_key : str_eq incoming.gateway_key "" ≡ false
    pub is_known : str_eq incoming.client_id "unknown" ≡ false
    pub is_served : IsServed incoming.body.model_alias
    pub is_complete : answer.finish_reason ≡ some Events.stop
    pub has_text : is_empty (trim answer.text) ≡ false
    pub no_calls : calls_of answer.tool_calls ≡ []

  -- The run of a request that is kept: it ended with an answer of the alias asked for.
  abbrev pub EndsWorthKeeping : Incoming n → ChatExecutionPrep n → Executed g → Type 0
  EndsWorthKeeping incoming prep (pending, w) = ⊥
  EndsWorthKeeping incoming prep (done at (threw e), w) = ⊥
  EndsWorthKeeping incoming prep (done at (returned result), w) =
      (result.did_fallback ≡ false) × IsWorthKeeping incoming (answer_of g incoming prep result)

  pub answers_kept :
      (incoming : Incoming n) (prep : ChatExecutionPrep n) (embed_state : EmbedState g)
      (s : GatewayState g) (at : ℕ) (result : ResilientExecutionResult (CompleteOnceResult n))
      (w : g.Providers)
      → let ran : Executed g = (done at (returned result), w) in
        IsKept incoming prep ran
        → (on_executed g incoming prep embed_state s ran).1.answers
          ≡ stored_at
              (s.now + at)
              incoming.body
              prep.options
              incoming.client_id
              (to_cached_chat_response (g.iso (s.now + at)) (answer_of g incoming prep result))
              s.answers
  unfolding on_executed on_result
  answers_kept incoming prep embed_state s at result w (stayed, (allowed, storable)) =
      let s' : GatewayState g = record s { now = s.now + at; providers = w } in
      let set =
        set_cached_if_allowed g incoming.body (answer_of g incoming prep result) prep.options
          incoming.client_id incoming.gateway_key embed_state s' in
      ap (λ b. (if b then s' else set).answers) stayed
      ∙ answers-set_cached_if_allowed incoming.body (answer_of g incoming prep result) prep.options
          incoming.client_id incoming.gateway_key embed_state s' allowed storable
