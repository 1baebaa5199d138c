-- ===== src/Cache/VectorStore.antt =====
-- src/cache/semantic/adapters/redis-vector-store.adapter.ts: the index, the entries and their keys. The
-- commands on hashes are an interface with the laws of their documentation; a hash of the store is seen as an
-- `Entry`, its tags beside the vector being left out. A command on a hash that fails and log lines
-- are not modelled. The search is in Cache/VectorSearch.

pub mod Upserts
use ai_provider_gateway.Prelude.{
  ℕ, ◌+◌, ◌*◌, ◌≤◌, ◌<◌, ◌≡◌, Bool, true, false, not, ◌&&◌, ◌||◌, ◌==◌, Option, none, some, String,
  List, [], ◌∷◌, ◌++◌, take, is_some, or_else, leb, if◌then◌else◌,
}
use ai_provider_gateway.Prelude.Texts.{Text, units, is_empty}
use ai_provider_gateway.Errors.{Settled, returned, threw}
use ai_provider_gateway.Chat.Answer.{CachedChatResponse, is_unservable_cached_reply}
use ai_provider_gateway.Cache.Exact.{Decoded, unparsable, wrong_shape, shaped, Codec}
use ai_provider_gateway.Cache.Semantic.{TextIdentity}

-- TTL: -2, -1, or the time left.
pub data TimeToLive : Type 0 where
  no_key no_expiry expiring : TimeToLive

pub record Entry (B : Type 0) : Type 0 where
  pub reply : Option Text
  pub vector : Option B
  pub ttl : TimeToLive

-- HSETNX of the reply on an entry, and MULTI with HSET of the vector and EXPIRE.
abbrev pub claimed_ttl : TimeToLive → TimeToLive
claimed_ttl no_key = no_expiry
claimed_ttl no_expiry = no_expiry
claimed_ttl expiring = expiring

abbrev pub claimed : {B : Type 0} → Text → Entry B → Entry B
claimed text e = record {
  reply = some (or_else e.reply text);
  vector = e.vector;
  ttl = if is_some e.reply then e.ttl else claimed_ttl e.ttl;
}

-- FT.INFO and FT.CREATE of the index may fail; `message` is an error's message.
pub record Hashes : Type 1 where
  pub Db : Type 0
  pub B : Type 0
  pub E : Type 0
  pub message : E → Text
  pub ft_info : Db → Option E
  pub ft_create : Db → Option E × Db
  pub entry : Text → ℕ → Db → Entry B
  pub hsetnx : Text → Text → ℕ → Db → Db
  pub hset_expire : Text → B → ℕ → ℕ → Db → Db
  pub del : Text → ℕ → Db → Db
  pub entry-ft_create :
      (k : Text) (now : ℕ) (db : Db) → entry k now (ft_create db).1 ≡ entry k now db
  pub hsetnx-held :
      (k text : Text) (now : ℕ) (db : Db)
      → is_some (entry k now db).reply ≡ true
      → hsetnx k text now db ≡ db
  pub entry-hsetnx :
      (k text : Text) (now : ℕ) (db : Db)
      → entry k now (hsetnx k text now db) ≡ claimed text (entry k now db)
  pub entry-hset_expire :
      (k : Text) (b : B) (seconds now later : ℕ) (db : Db)
      → is_some (entry k now db).reply ≡ true
      → now ≤ later
      → later < now + seconds * 1000
      → entry k later (hset_expire k b seconds now db)
        ≡ record { reply = (entry k now db).reply; vector = some b; ttl = expiring }

-- redis-search-error.ts, on the message of an error: tests that do not tell capitals from small letters.
abbrev lower : ℕ → ℕ
lower c = if leb 65 c && leb c 90 then c + 32 else c

abbrev starts_with : Text → Text → Bool
starts_with [] text = true
starts_with (c ∷ pattern) [] = false
starts_with (c ∷ pattern) (d ∷ text) = c == lower d && starts_with pattern text

abbrev contains : Text → Text → Bool
contains pattern [] = is_empty pattern
contains pattern (c ∷ text) = starts_with pattern (c ∷ text) || contains pattern text

unfoldable pub is_already_there : Text → Bool
is_already_there message = contains (units "already exists") message

unfoldable pub is_missing_index : Text → Bool
is_missing_index message =
    contains (units "unknown index") message || contains (units "no such index") message

unfoldable pub is_module_missing : Text → Bool
is_module_missing message = contains (units "unknown command") message

-- The adapter's field `indexCreated`, and the database.
pub record Adapter (r : Hashes) : Type 0 where
  pub index_created : Bool
  pub db : r.Db

-- `index` is the index's name.
unfoldable pub entry_key :
    (sha256 : Text → Text) (index embedding_model : Text) → TextIdentity → Text
entry_key sha256 index embedding_model q =
    index
    ++ (units ":"
        ++ take 32 (
            sha256 (
              units q.client_id
              ++ (units "|"
                  ++ (units q.model_alias
                      ++ (units "|"
                          ++ (embedding_model
                              ++ (units "|"
                                  ++ (q.system_signature
                                      ++ (units "|"
                                          ++ (q.call_params ++ (units "|" ++ q.text))))))))))))

module _ (r : Hashes) (has_client : Bool) where
  unfoldable pub on_created : Adapter r → Option r.E × r.Db → Adapter r
  on_created a (none, db) = record { index_created = true; db = db }
  on_created a (some e, db) = record { index_created = is_already_there (r.message e); db = db }

  unfoldable pub on_info : Adapter r → Option r.E → Adapter r
  unfolding on_created
  on_info a none = record a { index_created = true }
  on_info a (some e) =
      if is_module_missing (r.message e) then a else on_created a (r.ft_create a.db)

  -- Without others that do the same at the same time.
  unfoldable pub ensure_index : Adapter r → Adapter r
  unfolding on_info
  ensure_index a =
      if a.index_created then a else if not has_client then a else on_info a (r.ft_info a.db)

  abbrev lacks_expiry : TimeToLive → Bool
  lacks_expiry expiring = false
  lacks_expiry t = true

  -- `hasVector === 0 || keyTtl < 0`
  unfoldable pub is_incomplete : Entry r.B → Bool
  is_incomplete e = not (is_some e.vector) || lacks_expiry e.ttl

  -- `write`, of an encoded reply: whoever finds the reply free claims it and completes the entry; else an
  -- entry that is not complete is healed.
  unfoldable pub write : Text → Text → r.B → ℕ → ℕ → r.Db → r.Db
  unfolding is_incomplete
  write key text blob ttl now db =
      let db' = r.hsetnx key text now db in
      if not (is_some (r.entry key now db).reply)
      then r.hset_expire key blob ttl now db'
      else if is_incomplete (r.entry key now db')
      then r.hset_expire key blob ttl now db'
      else db'

  -- `ttl` is in seconds.
  unfoldable pub upsert : Text → Text → r.B → ℕ → ℕ → Adapter r → Adapter r
  unfolding ensure_index write
  upsert key text blob ttl now a =
      if not has_client
      then a
      else if not (leb 1 ttl)
      then a
      else let a' = ensure_index a in record a' { db = write key text blob ttl now a'.db }

  module _ (codec : Codec) where
    unfoldable pub delete_corrupt_entry : Text → ℕ → r.Db → r.Db
    delete_corrupt_entry key now db = if has_client then r.del key now db else db

    unfoldable pub on_reply : Text → ℕ → r.Db → Decoded → Option CachedChatResponse × r.Db
    unfolding delete_corrupt_entry
    on_reply key now db unparsable = (none, delete_corrupt_entry key now db)
    on_reply key now db wrong_shape = (none, delete_corrupt_entry key now db)
    on_reply key now db (shaped reply) =
        if is_unservable_cached_reply reply
        then (none, delete_corrupt_entry key now db)
        else (some reply, db)

    -- `if (!replyRaw)`, then the vector: an orphan is a miss and stays. (A vector is not the empty text.)
    unfoldable pub on_entry :
        Text → ℕ → r.Db → Option Text → Option r.B → Option CachedChatResponse × r.Db
    unfolding on_reply
    on_entry key now db none vector = (none, db)
    on_entry key now db (some text) none = (none, db)
    on_entry key now db (some text) (some b) =
        if is_empty text then (none, db) else on_reply key now db (codec.decode text)

    unfoldable pub get_by_text_identity : Text → ℕ → r.Db → Option CachedChatResponse × r.Db
    unfolding on_entry
    get_by_text_identity key now db =
        if not has_client
        then (none, db)
        else on_entry key now db (r.entry key now db).reply (r.entry key now db).vector
