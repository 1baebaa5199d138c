-- ===== src/Cache/Semantic/Replies.antt =====
-- Which replies the lookup of src/cache/semantic/semantic-cache.service.ts gives.
use ai_provider_gateway.Prelude.{◌≡◌, ◌⊎◌, true, none, some, List, [], ◌∷◌}
use ai_provider_gateway.Prelude.Texts.{Text}
use ai_provider_gateway.Prelude.Json.{Json}
use ai_provider_gateway.Errors.{returned}
use ai_provider_gateway.Params.Numbers.{Numbers}
use ai_provider_gateway.Chat.Answer.{CachedChatResponse}
use ai_provider_gateway.Chat.ProviderInput.{ResolvedSystemPrompts}
use ai_provider_gateway.Cache.Identity.{
  ChatCacheIdentity, last_user_message_text, is_single_turn_user_request, compute_system_signature,
  hash_call_params,
}
use ai_provider_gateway.Cache.Semantic.{Backends, SemanticConfig, TextIdentity, VectorSearchHit}

module _ (b : Backends) (cfg : SemanticConfig b.S) where
  -- One of the hits has the reply and is at least as similar as configured.
  abbrev pub IsAnswered : CachedChatResponse → List (VectorSearchHit b.S) → Type 0
  IsAnswered reply [] = ⊥
  IsAnswered reply (hit ∷ hits) =
      ((hit.reply ≡ reply) × (b.at_least hit.similarity cfg.min_similarity ≡ true))
      ⊎ IsAnswered reply hits

  -- The vectors' way to a reply: the text's embedding, made in the world `w`, and a search with it.
  abbrev pub IsNear : TextIdentity → CachedChatResponse → b.W → Type 0
  IsNear q reply w =
      (v : b.V) × ((hits : List (VectorSearchHit b.S)) × (((b.embed q.text w).0 ≡ returned v)
          × (((b.knn v q cfg.k (b.embed q.text w).1).0 ≡ returned hits) × IsAnswered reply hits)))

  abbrev pub IsFound : TextIdentity → CachedChatResponse → b.W → Type 0
  IsFound q reply w =
      let p = b.get_by_text_identity q w in (p.0 ≡ some reply) ⊎ ((p.0 ≡ none) × IsNear q reply p.1)

  module _ (n : Numbers) (number : n.N → Json) (sha256 : Text → Text)
      (prompts : ResolvedSystemPrompts) where
    -- What belongs to the request: its own model alias and client, the signature of the prompts of its alias, the
    -- hash of its parameters, and the text of its user's last message; the request is a single turn of a user.
    pub record IsOwn (identity : ChatCacheIdentity n) (q : TextIdentity) : Type 0 where
      pub own_alias : q.model_alias ≡ identity.model_alias
      pub own_client : q.client_id ≡ identity.client_id
      pub own_prompts :
          q.system_signature ≡ compute_system_signature sha256 prompts identity.model_alias
      pub own_params : q.call_params ≡ hash_call_params n number sha256 identity.call_params
      pub own_text : last_user_message_text identity.messages ≡ some q.text
      pub single_turn : is_single_turn_user_request identity.messages ≡ true
      pub is_on : cfg.enabled ≡ true
