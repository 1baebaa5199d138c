-- ===== src/Cache/Semantic/Embeds.antt =====
-- How often src/cache/semantic/semantic-cache.service.ts asks for an embedding, and what its lookup gives.
use ai_provider_gateway.Prelude.{
  ℕ, ◌+◌, ◌≤◌, ◌≡◌, refl, inl, inr, Bool, true, false, Option, none, some, List, ◌∙◌, arith,
  Bool-cases,
}
use ai_provider_gateway.Errors.{Settled, returned, threw}
use ai_provider_gateway.Chat.Answer.{CachedChatResponse}
use ai_provider_gateway.Prelude.Texts.{Text}
use ai_provider_gateway.Prelude.Json.{Json}
use ai_provider_gateway.Params.Numbers.{Numbers}
use ai_provider_gateway.Chat.ProviderInput.{ResolvedSystemPrompts}
use ai_provider_gateway.Cache.Identity.{ChatCacheIdentity}
use ai_provider_gateway.Cache.Circuit.{EmbeddingCircuitBreaker, should_skip_embed}
use ai_provider_gateway.Cache.Semantic.{
  Backends, SemanticConfig, TextIdentity, VectorSearchHit, State, on_hits, on_embedded, search,
  embed_and_search, on_identity_reply, lookup_text, upsert_with, embed_and_upsert, store_with,
  lookup_if, store_if, searchable_text, lookup, store_reply,
}

-- The backends with a count of the calls of `embed`.
abbrev pub counted : Backends → Backends
counted b = record {
  W = b.W × ℕ;
  V = b.V;
  S = b.S;
  at_least = b.at_least;
  clock = λ w. b.clock w.0;
  embed = λ text w. let (v, w') = b.embed text w.0 in (v, (w', w.1 + 1));
  get_by_text_identity = λ q w. let (r, w') = b.get_by_text_identity q w.0 in (r, (w', w.1));
  knn = λ v q k w. let (hits, w') = b.knn v q k w.0 in (hits, (w', w.1));
  upsert = λ v q reply ttl w. let (u, w') = b.upsert v q reply ttl w.0 in (u, (w', w.1));
}

abbrev pub one_if : Bool → ℕ
one_if true = 1
one_if false = 0

module _ (b : Backends) (cfg : SemanticConfig b.S) where
  abbrev pub Counted : Type 0
  Counted = State (counted b) cfg

  abbrev pub embeds : Counted → ℕ
  embeds (circuit, (w, count)) = count

  on_hits_attempted :
      (v : b.V) (hits : Settled (List (VectorSearchHit b.S)))
      → (on_hits (counted b) cfg v hits).embed_attempted ≡ true
  unfolding on_hits
  on_hits_attempted v (returned hits) = refl
  on_hits_attempted v (threw e) = refl

  embeds-search :
      (q : TextIdentity) (p : Option b.V × Counted)
      → let r = search (counted b) cfg q p in
        (embeds r.1 ≡ embeds p.1) × (r.0.embed_attempted ≡ true)
  unfolding search
  embeds-search q (none, s) = (refl, refl)
  embeds-search q (some v, (circuit, (w, count))) = (refl, on_hits_attempted v _)

  embeds-on_embedded :
      (circuit : EmbeddingCircuitBreaker) (p : Settled b.V × (b.W × ℕ))
      → embeds (on_embedded (counted b) cfg circuit p).1 ≡ p.1.1
  unfolding on_embedded
  embeds-on_embedded circuit (returned v, w) = refl
  embeds-on_embedded circuit (threw e, w) = refl

  -- A lookup by vectors embeds once if it says so, else never.
  embeds-embed_and_search :
      (q : TextIdentity) (s : Counted)
      → let r = embed_and_search (counted b) cfg q s in
        embeds r.1 ≡ embeds s + one_if r.0.embed_attempted
  unfolding embed_and_search
  embeds-embed_and_search q (circuit, (w, count)) =
      let asked = should_skip_embed 3 30000 (b.clock w) circuit in
      let p = (counted b).embed q.text (w, count) in
      let (same, attempted) = embeds-search q (on_embedded (counted b) cfg asked.1 p) in
      elim (Bool-cases asked.0) [
        | inl skip ↦ rw skip (omega arith)
        | inr try ↦ rw (try, attempted) (same ∙ embeds-on_embedded asked.1 p)
      ]

  embeds-on_identity_reply :
      (q : TextIdentity) (circuit : EmbeddingCircuitBreaker)
      (p : Option CachedChatResponse × (b.W × ℕ))
      → let r = on_identity_reply (counted b) cfg q circuit p in
        embeds r.1 ≡ p.1.1 + one_if r.0.embed_attempted
  unfolding on_identity_reply
  embeds-on_identity_reply q circuit (some reply, (w, count)) = omega arith
  embeds-on_identity_reply q circuit (none, w) = embeds-embed_and_search q (circuit, w)

  embeds-upsert_with :
      (q : TextIdentity) (reply : CachedChatResponse) (p : Option b.V × Counted)
      → embeds (upsert_with (counted b) cfg q reply p) ≡ embeds p.1
  unfolding upsert_with
  embeds-upsert_with q reply (none, s) = refl
  embeds-upsert_with q reply (some v, (circuit, (w, count))) = refl

  embeds-embed_and_upsert :
      (q : TextIdentity) (reply : CachedChatResponse) (s : Counted)
      → embeds (embed_and_upsert (counted b) cfg q reply s) ≤ embeds s + 1
  unfolding embed_and_upsert
  embeds-embed_and_upsert q reply (circuit, (w, count)) =
      let asked = should_skip_embed 3 30000 (b.clock w) circuit in
      let p = (counted b).embed q.text (w, count) in
      let stored = embeds-upsert_with q reply (on_embedded (counted b) cfg asked.1 p) in
      let embedded = embeds-on_embedded asked.1 p in
      elim (Bool-cases asked.0) [
        | inl skip ↦ rw skip (omega arith)
        | inr try ↦ rw (try, stored, embedded) (omega arith)
      ]

  -- Storing embeds at most once, and not at all where an attempt was made before.
  embeds-store_with :
      (q : TextIdentity) (reply : CachedChatResponse) (v : Option b.V) (attempted : Bool)
      (s : Counted)
      → embeds (store_with (counted b) cfg q reply v attempted s) + one_if attempted ≤ embeds s + 1
  unfolding store_with
  embeds-store_with q reply (some v) true s = omega (arith, embeds-upsert_with q reply (some v, s))
  embeds-store_with q reply (some v) false s = omega (arith, embeds-upsert_with q reply (some v, s))
  embeds-store_with q reply none true s = omega arith
  embeds-store_with q reply none false s = omega (arith, embeds-embed_and_upsert q reply s)

  embeds-store_if-lookup_if :
      (found : Option TextIdentity) (reply : CachedChatResponse) (s : Counted)
      (circuit : EmbeddingCircuitBreaker) (w : b.W)
      → let (r, s') = lookup_if (counted b) cfg found s in
        embeds (
          store_if
            (counted b)
            cfg
            found
            reply
            (record { vector = r.vector; embed_attempted = r.embed_attempted })
            (circuit, (w, embeds s')))
        ≤ embeds s + 1
  unfolding lookup_if store_if lookup_text
  embeds-store_if-lookup_if none reply s circuit w = omega arith
  embeds-store_if-lookup_if (some q) reply (c, (w₀, count)) circuit w =
      let (r, s') = lookup_text (counted b) cfg q (c, (w₀, count)) in
      omega (
        arith,
        embeds-on_identity_reply q c ((counted b).get_by_text_identity q (w₀, count)),
        embeds-store_with q reply r.vector r.embed_attempted (circuit, (w, embeds s')),
      )

  module _ (n : Numbers) (number : n.N → Json) (sha256 : Text → Text)
      (prompts : ResolvedSystemPrompts) where
    -- A request that looks a reply up and then stores one, with what the lookup says of its embedding, asks
    -- the embedding backend at most once, whatever the breaker and the rest of the world have become in
    -- between.
    pub embeds-store_reply-lookup :
        (identity : ChatCacheIdentity n) (reply : CachedChatResponse) (s : Counted)
        (circuit : EmbeddingCircuitBreaker) (w : b.W)
        → let (r, s') = lookup (counted b) cfg n number sha256 prompts identity s in
          embeds (
            store_reply
              (counted b)
              cfg
              n
              number
              sha256
              prompts
              identity
              reply
              (record { vector = r.vector; embed_attempted = r.embed_attempted })
              (circuit, (w, embeds s')))
          ≤ embeds s + 1
    unfolding lookup store_reply
    embeds-store_reply-lookup identity reply s circuit w =
        embeds-store_if-lookup_if (searchable_text (counted b) cfg n number sha256 prompts identity)
          reply s circuit w
