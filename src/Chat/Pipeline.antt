-- ===== src/Chat/Pipeline.antt =====
-- src/chat/services/chat-cache-pipeline.service.ts. Metrics are not modelled.
use ai_provider_gateway.Prelude.{
  Bool, false, not, ◌||◌, Option, none, some, String, or_else, str_eq, if◌then◌else◌,
}
use ai_provider_gateway.Prelude.Texts.{Text}
use ai_provider_gateway.Params.Numbers.{Numbers}
use ai_provider_gateway.Params.Resolve.{Options}
use ai_provider_gateway.Cache.Identity.{
  ChatCacheIdentity, to_chat_cache_identity, is_cached_chat_allowed_for_model_alias,
  build_identity_key,
}
use ai_provider_gateway.Cache.Exact.{get_cached_response, set_cached_response}
use ai_provider_gateway.Cache.Semantic.{
  SemanticLookupResult, SemanticStoreEmbedState, State, lookup, store_reply,
}
use ai_provider_gateway.Chat.Request.{ChatRequest, is_tooling_request}
use ai_provider_gateway.Chat.Answer.{
  ChatResponseData, CachedChatResponse, should_store_chat_response, to_cached_chat_response,
}
use ai_provider_gateway.Chat.Deployment.{Deployment, GatewayState}

pub data ChatCacheSource : Type 0 where
  exact semantic : ChatCacheSource

-- A miss has the state of the embedding if the semantic cache was asked.
pub data ChatCacheLookupResult (V : Type 0) : Type 0 where
  hit : CachedChatResponse → ChatCacheSource → ChatCacheLookupResult V
  miss : Option (SemanticStoreEmbedState V) → ChatCacheLookupResult V

module _ {n : Numbers} (g : Deployment n) where
  abbrev pub Lookup : Type 0
  Lookup = ChatCacheLookupResult g.backends.V

  -- An empty key counts as no key.
  unfoldable pub is_cache_allowed : ChatRequest n → String → String → Bool
  is_cache_allowed request client_id key =
      if is_tooling_request n request || (str_eq key "" || str_eq client_id "unknown")
      then false
      else is_cached_chat_allowed_for_model_alias g.config request.model_alias

  unfoldable pub identity_key : ChatRequest n → String → Options n → Text
  identity_key request client_id options =
      build_identity_key n g.number g.sha256 g.key_prefix g.prompts
        (to_chat_cache_identity request client_id options)

  unfoldable pub on_semantic :
      SemanticLookupResult g.backends.V × State g.backends g.semantic
      → GatewayState g
      → Lookup × GatewayState g
  on_semantic (r, (circuit, w)) s =
      let s' : GatewayState g = record s { circuit = circuit; vectors = w } in
      elim r.reply [
        | some reply ↦ (hit reply semantic, s')
        | none ↦
            (miss (some (record { vector = r.vector; embed_attempted = r.embed_attempted })), s')
      ]

  unfoldable pub on_exact :
      ChatCacheIdentity n
      → Option CachedChatResponse × g.strings.Db
      → GatewayState g
      → Lookup × GatewayState g
  unfolding on_semantic
  on_exact identity (some reply, db) s = (hit reply exact, record s { answers = db })
  on_exact identity (none, db) s =
      let s' : GatewayState g = record s { answers = db } in
      if not g.has_semantic
      then (miss none, s')
      else on_semantic
          (lookup g.backends g.semantic n g.number g.sha256 g.prompts identity
            (s.circuit, s.vectors))
          s'

  unfoldable pub get_cached_if_allowed :
      ChatRequest n → Options n → String → String → GatewayState g → Lookup × GatewayState g
  unfolding on_exact is_cache_allowed identity_key
  get_cached_if_allowed request options client_id key s =
      if not (is_cache_allowed request client_id key)
      then (miss none, s)
      else on_exact (to_chat_cache_identity request client_id options)
          (get_cached_response g.strings g.connection g.codec
            (identity_key request client_id options) s.now s.answers)
          s

  unfoldable pub store_semantic :
      ChatCacheIdentity n
      → CachedChatResponse
      → Option (SemanticStoreEmbedState g.backends.V)
      → GatewayState g
      → GatewayState g
  store_semantic identity reply embed_state s =
      let (circuit, w) =
        store_reply g.backends g.semantic n g.number g.sha256 g.prompts identity reply
          (or_else embed_state (record { vector = none; embed_attempted = false }))
          (s.circuit, s.vectors) in
      if g.has_semantic then record s { circuit = circuit; vectors = w } else s

  -- Both caches get the same reply.
  unfoldable pub store_both :
      ChatRequest n
      → CachedChatResponse
      → Options n
      → String
      → Option (SemanticStoreEmbedState g.backends.V)
      → GatewayState g
      → GatewayState g
  unfolding store_semantic identity_key
  store_both request reply options client_id embed_state s =
      store_semantic (to_chat_cache_identity request client_id options) reply embed_state
        (record s {
          answers =
              set_cached_response g.strings g.connection g.codec g.cache_ttl
                (identity_key request client_id options) reply s.now s.answers;
        })

  unfoldable pub set_cached_if_allowed :
      ChatRequest n
      → ChatResponseData
      → Options n
      → (client_id key : String) → Option (SemanticStoreEmbedState g.backends.V)
      → GatewayState g
      → GatewayState g
  unfolding store_both is_cache_allowed
  set_cached_if_allowed request response options client_id key embed_state s =
      if not (is_cache_allowed request client_id key)
      then s
      else if not (should_store_chat_response response)
      then s
      else store_both request (to_cached_chat_response (g.iso s.now) response) options client_id
          embed_state s
