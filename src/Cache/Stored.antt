-- ===== src/Cache/Stored.antt =====
-- What the exact cache of src/cache/response-cache.service.ts gives back.
use ai_provider_gateway.Prelude.{
  ℕ, ◌+◌, ◌*◌, ◌≤◌, ◌<◌, ◌≡◌, refl, ap, [], ◌∙◌, ◌⊎◌, true, false, not, Option, none, some, or_else,
  leb, ltb, lt→ltb, arith, if◌then◌else◌,
}
use ai_provider_gateway.Prelude.Texts.{Text}
use ai_provider_gateway.RateLimit.Service.{Connection}
use ai_provider_gateway.RateLimit.Cooldown.{IsUp}
use ai_provider_gateway.Chat.Answer.{
  ChatResponseData, CachedChatResponse, is_unservable_cached_reply, should_store_chat_response,
  to_cached_chat_response,
}
use ai_provider_gateway.Cache.Store.{Strings, backend_get, backend_set}
use ai_provider_gateway.Cache.Exact.{
  Codec, IsReadable, on_decoded, on_found, get_cached_response, set_cached_response,
}

-- An answer that may be stored is one that may be served.
pub should_store-servable :
    (now : Text) (response : ChatResponseData)
    → should_store_chat_response response ≡ true
    → is_unservable_cached_reply (to_cached_chat_response now response) ≡ false
unfolding should_store_chat_response is_unservable_cached_reply to_cached_chat_response
should_store-servable now response h = ground arith

-- Before its end a time to live has not ended.
live_still {ℓ} :
    {A : Type ℓ} (end later : ℕ) (v : A)
    → later < end
    → (if leb end later then none else some v) ≡ some v
live_still end later v l = ground arith

module _ (r : Strings) (conn : Connection) (codec : Codec) (key : Text) where
  backend_get_up :
      (now : ℕ) (db : r.Db) → IsUp conn → backend_get r conn key now db ≡ r.get key now db
  unfolding backend_get
  backend_get_up now db (ready, client, fine) = rw (client, fine) refl

  on_found_encoded :
      (reply : CachedChatResponse) (now : ℕ) (db : r.Db)
      → IsReadable codec reply
      → is_unservable_cached_reply reply ≡ false
      → on_found r conn codec key now db (some (codec.encode reply)) ≡ (some reply, db)
  unfolding on_found on_decoded
  on_found_encoded reply now db readable good = rw (codec.encode_full reply, readable, good) refl

  get_cached_response_up :
      (now : ℕ) (db : r.Db)
      → IsUp conn
      → get_cached_response r conn codec key now db
        ≡ on_found r conn codec key now db (r.get key now db)
  unfolding get_cached_response
  get_cached_response_up now db (ready, client, fine) =
      ap
        (λ b.
          if not b
          then (none, db)
          else on_found r conn codec key now db (backend_get r conn key now db))
        ready
      ∙ ap (on_found r conn codec key now db) (backend_get_up now db (ready, client, fine))

  set_cached_response_up :
      (configured_ttl : Option ℕ) (reply : CachedChatResponse) (now : ℕ) (db : r.Db)
      → IsUp conn
      → ltb 0 (or_else configured_ttl 3600) ≡ true
      → set_cached_response r conn codec configured_ttl key reply now db
        ≡ r.set_nx key (codec.encode reply) (some (or_else configured_ttl 3600 * 1000)) now db
  unfolding set_cached_response backend_set
  set_cached_response_up configured_ttl reply now db (ready, client, fine) lasting =
      ap
        (λ b.
          if not b
          then db
          else (backend_set r conn key (codec.encode reply) (or_else configured_ttl 3600) now db).1)
        ready
      ∙ rw (client, fine, lasting) refl

  get_cached_response_stored :
      (reply : CachedChatResponse) (now : ℕ) (db : r.Db)
      → IsUp conn
      → IsReadable codec reply
      → is_unservable_cached_reply reply ≡ false
      → r.get key now db ≡ some (codec.encode reply)
      → get_cached_response r conn codec key now db ≡ (some reply, db)
  get_cached_response_stored reply now db up readable good stored =
      get_cached_response_up now db up
      ∙ ap (on_found r conn codec key now db) stored
      ∙ on_found_encoded reply now db readable good

  -- An answer that may be stored and is read as it was written, kept under a free key while Redis answers, is what the key gives
  -- until its time to live has passed; another answer stored meanwhile changes nothing, and the read
  -- changes nothing either.
  pub set_cached_response-get_cached_response :
      (configured_ttl : Option ℕ)
      → (stamp : Text) → (response : ChatResponseData) → (other : CachedChatResponse)
      → (now meanwhile later : ℕ) → (db : r.Db) → IsUp conn
      → IsReadable codec (to_cached_chat_response stamp response)
      → should_store_chat_response response ≡ true
      → 0 < or_else configured_ttl 3600
      → r.get key now db ≡ none
      → now ≤ meanwhile
      → meanwhile ≤ later
      → later < now + or_else configured_ttl 3600 * 1000
      → let reply : CachedChatResponse = to_cached_chat_response stamp response in
        let db' : r.Db = set_cached_response r conn codec configured_ttl key reply now db in
        (get_cached_response r conn codec key later db' ≡ (some reply, db'))
        × (set_cached_response r conn codec configured_ttl key other meanwhile db' ≡ db')
  set_cached_response-get_cached_response configured_ttl stamp response other now meanwhile later db
        up readable storable lasting free w₁ w₂ live =
      let reply = to_cached_chat_response stamp response in
      let ttl = or_else configured_ttl 3600 in
      let written = set_cached_response_up configured_ttl reply now db up (lt→ltb 0 ttl lasting) in
      let kept : (at : ℕ)
          → now ≤ at
          → at < now + ttl * 1000
          → r.get key at (set_cached_response r conn codec configured_ttl key reply now db)
            ≡ some (codec.encode reply) =
        λ at w l.
          ap (r.get key at) written
          ∙ r.get-set_nx_new key (codec.encode reply) (ttl * 1000) now at db free w
          ∙ live_still (now + ttl * 1000) at (codec.encode reply) l in
      (
        get_cached_response_stored reply later _ up readable
            (should_store-servable stamp response storable) (kept later (omega arith) live),
        set_cached_response_up configured_ttl other meanwhile _ up (lt→ltb 0 ttl lasting)
            ∙ r.get-set_nx_old key (codec.encode reply) (codec.encode other) (some (ttl * 1000))
                meanwhile _ (kept meanwhile w₁ (omega arith)),
      )

  -- A result of a read at `now`: an answer that may be served, with nothing written, or none, and then
  -- the key has no text but perhaps the empty one.
  abbrev pub Settles : ℕ → r.Db → Option CachedChatResponse × r.Db → Type 0
  Settles now db p =
      ((reply : CachedChatResponse) × ((p ≡ (some reply, db))
          × (is_unservable_cached_reply reply ≡ false)))
      ⊎ ((p.0 ≡ none) × ((r.get key now p.1 ≡ none) ⊎ (r.get key now p.1 ≡ some [])))
