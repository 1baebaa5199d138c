-- ===== src/Cache/Exact.antt =====
-- src/cache/response-cache.service.ts. Metrics and log lines are not modelled.
use ai_provider_gateway.Prelude.{ℕ, ◌≡◌, false, not, Option, none, some, or_else, if◌then◌else◌}
use ai_provider_gateway.Prelude.Texts.{Text, is_empty}
use ai_provider_gateway.RateLimit.Service.{Connection}
use ai_provider_gateway.Chat.Answer.{CachedChatResponse, is_unservable_cached_reply}
use ai_provider_gateway.Cache.Store.{Strings, backend_get, backend_set, backend_delete}

-- What JSON.parse and the schema of cached-chat-response.schema.ts make of a stored text.
pub data Decoded : Type 0 where
  unparsable wrong_shape : Decoded
  shaped : CachedChatResponse → Decoded

-- JSON.stringify, and JSON.parse with the schema: an interface, since both are libraries' work. A reply
-- that is read as it was written is readable.
pub record Codec : Type 0 where
  pub encode : CachedChatResponse → Text
  pub decode : Text → Decoded
  pub encode_full : (reply : CachedChatResponse) → is_empty (encode reply) ≡ false

abbrev pub IsReadable : Codec → CachedChatResponse → Type 0
IsReadable codec reply = codec.decode (codec.encode reply) ≡ shaped reply

module _ (r : Strings) (conn : Connection) (codec : Codec) where
  -- What is done with the text found under a key.
  unfoldable pub on_decoded : Text → ℕ → r.Db → Decoded → Option CachedChatResponse × r.Db
  on_decoded key now db unparsable = (none, (backend_delete r conn key now db).1)
  on_decoded key now db wrong_shape = (none, (backend_delete r conn key now db).1)
  on_decoded key now db (shaped reply) =
      if is_unservable_cached_reply reply
      then (none, (backend_delete r conn key now db).1)
      else (some reply, db)

  -- `if (!cached)`: no entry, or the empty text.
  unfoldable pub on_found : Text → ℕ → r.Db → Option Text → Option CachedChatResponse × r.Db
  unfolding on_decoded
  on_found key now db none = (none, db)
  on_found key now db (some text) =
      if is_empty text then (none, db) else on_decoded key now db (codec.decode text)

  -- `key` is the key of the identity.
  unfoldable pub get_cached_response : Text → ℕ → r.Db → Option CachedChatResponse × r.Db
  unfolding on_found
  get_cached_response key now db =
      if not conn.is_ready then (none, db) else on_found key now db (backend_get r conn key now db)

  -- `configured_ttl` is in seconds; no caller gives a time to live of its own.
  unfoldable pub set_cached_response : Option ℕ → Text → CachedChatResponse → ℕ → r.Db → r.Db
  set_cached_response configured_ttl key reply now db =
      if not conn.is_ready
      then db
      else (backend_set r conn key (codec.encode reply) (or_else configured_ttl 3600) now db).1

  unfoldable pub invalidate_cache : Text → ℕ → r.Db → r.Db
  invalidate_cache key now db = (backend_delete r conn key now db).1
