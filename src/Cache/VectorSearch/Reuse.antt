-- ===== src/Cache/VectorSearch/Reuse.antt =====
-- The semantic cache of src/cache/semantic over the vector store on Redis: a reply that was stored is found again.
use ai_provider_gateway.Prelude.{
  ◌+◌, ◌*◌, ◌≤◌, ◌<◌, ◌≡◌, refl, ap, sym, ◌∙◌, subst, true, false, none, some, or_else,
}
use ai_provider_gateway.Prelude.Json.{Json}
use ai_provider_gateway.Params.Numbers.{Numbers}
use ai_provider_gateway.Chat.Answer.{CachedChatResponse, is_unservable_cached_reply}
use ai_provider_gateway.Chat.ProviderInput.{ResolvedSystemPrompts}
use ai_provider_gateway.Cache.Identity.{ChatCacheIdentity}
use ai_provider_gateway.Cache.Circuit.{EmbeddingCircuitBreaker}
use ai_provider_gateway.Cache.Exact.{IsReadable}
use ai_provider_gateway.Cache.Semantic.{
  SemanticConfig, SemanticStoreEmbedState, TextIdentity, lookup, lookup_if, lookup_text,
  on_identity_reply, searchable_text, store_reply, store_if, store_with, upsert_with,
}
use ai_provider_gateway.Cache.VectorStore.{is_incomplete, upsert, get_by_text_identity}
use ai_provider_gateway.Cache.VectorStore.Upserts.{get_by_text_identity-upsert}
use ai_provider_gateway.Cache.VectorSearch.{
  StoreSetup, StoreWorld, key_of, store_get, store_upsert, redis_backends,
}

module _ (t : StoreSetup) (cfg : SemanticConfig t.S) (n : Numbers) (number : n.N → Json)
    (prompts : ResolvedSystemPrompts) where
  lookup_hit :
      (q : TextIdentity) (reply : CachedChatResponse) (circuit : EmbeddingCircuitBreaker)
      (w : StoreWorld t)
      → get_by_text_identity t.hashes true t.codec (key_of t q) w.now w.adapter.db
        ≡ (some reply, w.adapter.db)
      → lookup_if (redis_backends t) cfg (some q) (circuit, w)
        ≡ (record { reply = some reply; vector = none; embed_attempted = false }, (circuit, w))
  unfolding lookup_if lookup_text store_get on_identity_reply
  lookup_hit q reply circuit w found = rw found refl

  stored_db :
      (q : TextIdentity) (reply : CachedChatResponse) (v : t.V) (circuit : EmbeddingCircuitBreaker)
      (w : StoreWorld t)
      → (store_if
          (redis_backends t)
          cfg
          (some q)
          reply
          (record { vector = some v; embed_attempted = true })
          (circuit, w)).1.adapter.db
        ≡ (upsert t.hashes true
            (key_of t q)
            (t.codec.encode reply)
            (t.blob v)
            cfg.ttl
            w.now
            w.adapter).db
  unfolding store_if store_with upsert_with store_upsert
  stored_db q reply v circuit w = refl

  -- A reply that may be served and is read as it was written, stored with the vector of a lookup under an
  -- identity for which no reply is there: until its time to live is over, every lookup of the same identity
  -- gives it back without an embedding, whatever the state of the breaker, and changes nothing.
  pub lookup-store_reply :
      (identity : ChatCacheIdentity n) (q : TextIdentity) (reply : CachedChatResponse) (v : t.V)
      (circuit later_circuit : EmbeddingCircuitBreaker) (w later : StoreWorld t)
      → searchable_text (redis_backends t) cfg n number t.sha256 prompts identity ≡ some q
      → IsReadable t.codec reply
      → is_unservable_cached_reply reply ≡ false
      → 1 ≤ cfg.ttl
      → (t.hashes.entry (key_of t q) w.now w.adapter.db).reply ≡ none
      → is_incomplete t.hashes true (t.hashes.entry (key_of t q) w.now w.adapter.db) ≡ true
      → later.adapter.db
        ≡ (store_reply
            (redis_backends t)
            cfg
            n
            number
            t.sha256
            prompts
            identity
            reply
            (record { vector = some v; embed_attempted = true })
            (circuit, w)).1.adapter.db
      → w.now ≤ later.now
      → later.now < w.now + cfg.ttl * 1000
      → lookup (redis_backends t) cfg n number t.sha256 prompts identity (later_circuit, later) ≡ (
        record { reply = some reply; vector = none; embed_attempted = false },
        (later_circuit, later),
      )
  unfolding lookup store_reply
  lookup-store_reply identity q reply v circuit later_circuit w later searched readable good lasting
        free lacks kept after live =
      let given : SemanticStoreEmbedState t.V = record {
        vector = some v;
        embed_attempted = true;
      } in
      let db =
        kept
        ∙ ap (λ f. (store_if (redis_backends t) cfg f reply given (circuit, w)).1.adapter.db)
            searched
        ∙ stored_db q reply v circuit w in
      let read =
        get_by_text_identity-upsert t.hashes t.codec (key_of t q) (t.codec.encode reply) reply
          (t.blob v) cfg.ttl w.now later.now w.adapter lasting after live readable good lacks
          (ap (λ o. or_else o (t.codec.encode reply)) free) in
      ap (λ f. lookup_if (redis_backends t) cfg f (later_circuit, later)) searched
      ∙ lookup_hit q reply later_circuit later (
          subst
            (λ d.
              get_by_text_identity t.hashes true t.codec (key_of t q) later.now d ≡ (some reply, d))
            (sym db) read)
