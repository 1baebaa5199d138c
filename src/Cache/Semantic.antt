-- ===== src/Cache/Semantic.antt =====
-- src/cache/semantic/semantic-cache.service.ts over the interfaces of embedding-backend.interface.ts and
-- vector-store.interface.ts. `W` is the world that the backends act on; `clock` is what `Date.now()` reads
-- in it. Metrics, log lines and `probeEmbedding` are not modelled.
pub mod Embeds
pub mod Replies
use ai_provider_gateway.Prelude.{
  ℕ, Bool, true, false, not, Option, none, some, String, List, [], ◌∷◌, if◌then◌else◌,
}
use ai_provider_gateway.Prelude.Texts.{Text}
use ai_provider_gateway.Prelude.Json.{Json}
use ai_provider_gateway.Errors.{Settled, returned, threw}
use ai_provider_gateway.Params.Numbers.{Numbers}
use ai_provider_gateway.Chat.Answer.{CachedChatResponse}
use ai_provider_gateway.Chat.ProviderInput.{ResolvedSystemPrompts}
use ai_provider_gateway.Cache.Circuit.{
  EmbeddingCircuitBreaker, should_skip_embed, record_embed_failure, record_embed_success,
}
use ai_provider_gateway.Cache.Identity.{
  ChatCacheIdentity, last_user_message_text, is_single_turn_user_request, compute_system_signature,
  hash_call_params,
}

pub record VectorSearchHit (S : Type 0) : Type 0 where
  pub similarity : S
  pub reply : CachedChatResponse

-- VectorStoreTextIdentityInput; what a search and an upsert have beside it are arguments of theirs.
pub record TextIdentity : Type 0 where
  pub text : Text
  pub model_alias : String
  pub client_id : String
  pub system_signature : Text
  pub call_params : Text

-- `V` is a vector of numbers, `S` a similarity. A search does not read the text of its identity.
pub record Backends : Type 1 where
  pub W : Type 0
  pub V : Type 0
  pub S : Type 0
  pub at_least : S → S → Bool
  pub clock : W → ℕ
  pub embed : Text → W → Settled V × W
  pub get_by_text_identity : TextIdentity → W → Option CachedChatResponse × W
  pub knn : V → TextIdentity → ℕ → W → Settled (List (VectorSearchHit S)) × W
  pub upsert : V → TextIdentity → CachedChatResponse → ℕ → W → Settled (Unit {0}) × W

-- `ttl` is in seconds.
pub record SemanticConfig (S : Type 0) : Type 0 where
  pub enabled : Bool
  pub k : ℕ
  pub min_similarity : S
  pub ttl : ℕ

pub record SemanticLookupResult (V : Type 0) : Type 0 where
  pub reply : Option CachedChatResponse
  pub vector : Option V
  pub embed_attempted : Bool

pub record SemanticStoreEmbedState (V : Type 0) : Type 0 where
  pub vector : Option V
  pub embed_attempted : Bool

abbrev pub embed_not_attempted : (V : Type 0) → SemanticLookupResult V
embed_not_attempted V = record { reply = none; vector = none; embed_attempted = false }

module _ (b : Backends) (cfg : SemanticConfig b.S) where
  -- The service's breaker and the world.
  abbrev pub State : Type 0
  State = EmbeddingCircuitBreaker × b.W

  abbrev pub Result : Type 0
  Result = SemanticLookupResult b.V

  -- `hits.find`
  unfoldable pub best_hit : List (VectorSearchHit b.S) → Option CachedChatResponse
  best_hit [] = none
  best_hit (hit ∷ hits) =
      let rest = best_hit hits in
      if b.at_least hit.similarity cfg.min_similarity then some hit.reply else rest

  -- A failed search gives no reply.
  unfoldable pub on_hits : b.V → Settled (List (VectorSearchHit b.S)) → Result
  unfolding best_hit
  on_hits v (returned hits) = record {
    reply = best_hit hits;
    vector = some v;
    embed_attempted = true;
  }
  on_hits v (threw e) = record { reply = none; vector = some v; embed_attempted = true }

  unfoldable pub on_embedded : EmbeddingCircuitBreaker → Settled b.V × b.W → Option b.V × State
  on_embedded circuit (returned v, w) = (some v, (record_embed_success 3 30000 circuit, w))
  on_embedded circuit (threw e, w) = (none, (record_embed_failure 3 30000 (b.clock w) circuit, w))

  unfoldable pub search : TextIdentity → Option b.V × State → Result × State
  unfolding on_hits
  search q (none, s) = (record { reply = none; vector = none; embed_attempted = true }, s)
  search q (some v, (circuit, w)) =
      let (hits, w') = b.knn v q cfg.k w in (on_hits v hits, (circuit, w'))

  -- What follows where no reply has the same text.
  unfoldable pub embed_and_search : TextIdentity → State → Result × State
  unfolding on_embedded search
  embed_and_search q (circuit, w) =
      let (skip, circuit') = should_skip_embed 3 30000 (b.clock w) circuit in
      if skip
      then (embed_not_attempted b.V, (circuit', w))
      else search q (on_embedded circuit' (b.embed q.text w))

  unfoldable pub on_identity_reply :
      TextIdentity → EmbeddingCircuitBreaker → Option CachedChatResponse × b.W → Result × State
  unfolding embed_and_search
  on_identity_reply q circuit (some reply, w) =
      (record { reply = some reply; vector = none; embed_attempted = false }, (circuit, w))
  on_identity_reply q circuit (none, w) = embed_and_search q (circuit, w)

  unfoldable pub lookup_text : TextIdentity → State → Result × State
  unfolding on_identity_reply
  lookup_text q (circuit, w) = on_identity_reply q circuit (b.get_by_text_identity q w)

  unfoldable pub upsert_with : TextIdentity → CachedChatResponse → Option b.V × State → State
  upsert_with q reply (none, s) = s
  upsert_with q reply (some v, (circuit, w)) = (circuit, (b.upsert v q reply cfg.ttl w).1)

  unfoldable pub embed_and_upsert : TextIdentity → CachedChatResponse → State → State
  unfolding upsert_with on_embedded
  embed_and_upsert q reply (circuit, w) =
      let (skip, circuit') = should_skip_embed 3 30000 (b.clock w) circuit in
      if skip then (circuit', w) else upsert_with q reply (on_embedded circuit' (b.embed q.text w))

  unfoldable pub store_with : TextIdentity → CachedChatResponse → Option b.V → Bool → State → State
  unfolding embed_and_upsert
  store_with q reply (some v) attempted s = upsert_with q reply (some v, s)
  store_with q reply none attempted s = if attempted then s else embed_and_upsert q reply s

  -- Nothing is looked up or stored where there is no text to search for.
  unfoldable pub lookup_if : Option TextIdentity → State → Result × State
  unfolding lookup_text
  lookup_if none s = (embed_not_attempted b.V, s)
  lookup_if (some q) s = lookup_text q s

  unfoldable pub store_if :
      Option TextIdentity → CachedChatResponse → SemanticStoreEmbedState b.V → State → State
  unfolding store_with
  store_if none reply given s = s
  store_if (some q) reply given s = store_with q reply given.vector given.embed_attempted s

  module _ (n : Numbers) (number : n.N → Json) (sha256 : Text → Text)
      (prompts : ResolvedSystemPrompts) where
    abbrev pub text_identity : ChatCacheIdentity n → Text → TextIdentity
    text_identity identity text = record {
      text = text;
      model_alias = identity.model_alias;
      client_id = identity.client_id;
      system_signature = compute_system_signature sha256 prompts identity.model_alias;
      call_params = hash_call_params n number sha256 identity.call_params;
    }

    -- The text that the cache is asked for, if it is on and serves the request. (A text found is not
    -- empty.)
    unfoldable pub searchable_text : ChatCacheIdentity n → Option TextIdentity
    searchable_text identity =
        if not cfg.enabled
        then none
        else if not (is_single_turn_user_request identity.messages)
        then none
        else elim (last_user_message_text identity.messages) [
          | none ↦ none
          | some text ↦ some (text_identity identity text)
        ]

    unfoldable pub lookup : ChatCacheIdentity n → State → Result × State
    unfolding lookup_if searchable_text
    lookup identity s = lookup_if (searchable_text identity) s

    unfoldable pub store_reply :
        ChatCacheIdentity n → CachedChatResponse → SemanticStoreEmbedState b.V → State → State
    unfolding store_if searchable_text
    store_reply identity reply given s = store_if (searchable_text identity) reply given s
