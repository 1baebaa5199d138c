-- ===== src/Cache/VectorSearch.antt =====
-- The search of src/cache/semantic/adapters/redis-vector-store.adapter.ts with
-- src/cache/semantic/parse-knn-hits.ts, and the adapter as the vector store of the semantic cache. What
-- FT.SEARCH answers is a count and rows, whose values are texts; `similarity_of` is 1 - parseFloat of a
-- distance, if that is finite.

pub mod Reuse
use ai_provider_gateway.Prelude.{
  ℕ, Bool, true, false, not, Option, none, some, String, List, [], ◌∷◌, ltb, if◌then◌else◌,
}
use ai_provider_gateway.Prelude.Texts.{Text, units, is_empty, text_eq}
use ai_provider_gateway.Errors.{Settled, returned, threw, Thrown}
use ai_provider_gateway.Chat.Answer.{CachedChatResponse, is_unservable_cached_reply}
use ai_provider_gateway.Cache.Exact.{Decoded, unparsable, wrong_shape, shaped, Codec}
use ai_provider_gateway.Cache.Semantic.{TextIdentity, VectorSearchHit, Backends}
use ai_provider_gateway.Cache.VectorStore.{
  Hashes, Adapter, entry_key, is_missing_index, ensure_index, delete_corrupt_entry,
  get_by_text_identity, upsert,
}

-- A key with its fields, which may be no array.
pub record Row : Type 0 where
  pub key : Text
  pub fields : Option (List (Text × Text))

-- `new Map` of the fields: the last value of a name counts.
unfoldable pub field_of : Text → List (Text × Text) → Option Text
field_of name [] = none
field_of name ((k, v) ∷ fields) =
    let later = field_of name fields in
    elim later [ some w ↦ some w | none ↦ if text_eq name k then some v else none ]

abbrev or_empty : Option Text → Text
or_empty none = []
or_empty (some t) = t

module _ (codec : Codec) (S : Type 0) (similarity_of : Text → Option S) where
  abbrev pub ParsedKnnHits : Type 0
  ParsedKnnHits = List (VectorSearchHit S) × List Text

  -- `if (key) corruptKeys.push(key);`
  abbrev pub with_corrupt : Text → ParsedKnnHits → ParsedKnnHits
  with_corrupt key (hits, corrupt) = if is_empty key then (hits, corrupt) else (hits, key ∷ corrupt)

  abbrev with_hit : CachedChatResponse → Option S → ParsedKnnHits → ParsedKnnHits
  with_hit reply none parsed = parsed
  with_hit reply (some similarity) (hits, corrupt) =
      (record { similarity = similarity; reply = reply } ∷ hits, corrupt)

  unfoldable pub with_reply : Text → (dist : Text) → Decoded → ParsedKnnHits → ParsedKnnHits
  with_reply key dist unparsable parsed = with_corrupt key parsed
  with_reply key dist wrong_shape parsed = with_corrupt key parsed
  with_reply key dist (shaped reply) parsed =
      if is_unservable_cached_reply reply
      then with_corrupt key parsed
      else with_hit reply (similarity_of dist) parsed

  -- `replyRaw` may be absent or empty.
  unfoldable pub with_row : Text → Option (List (Text × Text)) → ParsedKnnHits → ParsedKnnHits
  unfolding with_reply field_of
  with_row key none parsed = parsed
  with_row key (some fields) parsed =
      let raw = or_empty (field_of (units "reply") fields) in
      if is_empty raw
      then with_corrupt key parsed
      else with_reply key (or_empty (field_of (units "dist") fields)) (codec.decode raw) parsed

  unfoldable pub parse_rows : List Row → ParsedKnnHits
  unfolding with_row
  parse_rows [] = ([], [])
  parse_rows (row ∷ rows) = with_row row.key row.fields (parse_rows rows)

  unfoldable pub parse_knn_hits : ℕ → List Row → ParsedKnnHits
  unfolding parse_rows
  parse_knn_hits count rows = if ltb count 1 then ([], []) else parse_rows rows

  -- FT.SEARCH for a query, a vector and a number of hits: an error, or a count and rows.
  pub data Found (E : Type 0) : Type 0 where
    fails : E → Found E
    finds : ℕ → List Row → Found E

  module _ (r : Hashes) (has_client : Bool) where
    unfoldable pub delete_all : List Text → ℕ → r.Db → r.Db
    unfolding delete_corrupt_entry
    delete_all [] now db = db
    delete_all (key ∷ keys) now db =
        delete_all keys now (delete_corrupt_entry r has_client codec key now db)

    abbrev pub Hits : Type 0
    Hits = List (VectorSearchHit S)

    -- `searchKnn` after the search itself: the hits, or the error that it throws.
    pub data Searched : Type 0 where
      hits : Hits → Searched
      failed : r.E → Searched

    unfoldable pub on_hits_found : ℕ → Adapter r → Found r.E → Searched × Adapter r
    unfolding delete_all
    on_hits_found now a (fails e) = (failed e, a)
    on_hits_found now a (finds count rows) =
        let (found, corrupt) = parse_knn_hits count rows in
        (hits found, record a { db = delete_all corrupt now a.db })

    -- `search` is FT.SEARCH with the query, the vector and the number of hits of the input.
    module _ (search : r.Db → Found r.E) where
      unfoldable pub search_knn : ℕ → Adapter r → Searched × Adapter r
      unfolding on_hits_found
      search_knn now a = if not has_client then (hits [], a) else on_hits_found now a (search a.db)

      -- The second search gives nothing where it fails.
      unfoldable pub or_nothing : Searched × Adapter r → Searched × Adapter r
      or_nothing (hits found, a) = (hits found, a)
      or_nothing (failed e, a) = (hits [], a)

      unfoldable pub on_searched : ℕ → Searched × Adapter r → Searched × Adapter r
      unfolding search_knn or_nothing ensure_index
      on_searched now (hits found, a) = (hits found, a)
      on_searched now (failed e, a) =
          if is_missing_index (r.message e)
          then or_nothing
              (search_knn now (ensure_index r has_client (record a { index_created = false })))
          else (failed e, a)

      unfoldable pub knn : ℕ → Adapter r → Searched × Adapter r
      unfolding on_searched
      knn now a =
          if not has_client
          then (hits [], a)
          else on_searched now (search_knn now (ensure_index r has_client a))

-- What the adapter is built with, and the embedding model: `blob` is the bytes of a vector, `thrown_of` the
-- error that the client library throws.
pub record StoreSetup : Type 1 where
  pub hashes : Hashes
  pub codec : Codec
  pub sha256 : Text → Text
  pub index : Text
  pub embedding_model : Text
  pub Model : Type 0
  pub V : Type 0
  pub S : Type 0
  pub at_least : S → S → Bool
  pub similarity_of : Text → Option S
  pub embed : Text → Model → Settled V × Model
  pub blob : V → hashes.B
  pub thrown_of : hashes.E → Thrown
  pub search : V → TextIdentity → ℕ → hashes.Db → Found codec S similarity_of hashes.E

pub record StoreWorld (t : StoreSetup) : Type 0 where
  pub adapter : Adapter t.hashes
  pub model : t.Model
  pub now : ℕ

module _ (t : StoreSetup) where
  abbrev pub key_of : TextIdentity → Text
  key_of q = entry_key t.sha256 t.index t.embedding_model q

  unfoldable pub on_searched_hits :
      StoreWorld t
      → Searched t.codec t.S t.similarity_of t.hashes true × Adapter t.hashes
      → Settled (List (VectorSearchHit t.S)) × StoreWorld t
  on_searched_hits w (hits found, a) = (returned found, record w { adapter = a })
  on_searched_hits w (failed e, a) = (threw (t.thrown_of e), record w { adapter = a })

  -- The adapter, with a Redis client, as the vector store of the semantic cache.
  unfoldable pub store_get : TextIdentity → StoreWorld t → Option CachedChatResponse × StoreWorld t
  store_get q w =
      let (reply, db) = get_by_text_identity t.hashes true t.codec (key_of q) w.now w.adapter.db in
      (reply, record w { adapter = record w.adapter { db = db } })

  unfoldable pub store_upsert :
      t.V → TextIdentity → CachedChatResponse → ℕ → StoreWorld t → Settled (Unit {0}) × StoreWorld t
  store_upsert v q reply ttl w = (
    returned tt,
    record w {
      adapter =
          upsert t.hashes true (key_of q) (t.codec.encode reply) (t.blob v) ttl w.now w.adapter;
    },
  )

  abbrev pub redis_backends : Backends
  redis_backends = record {
    W = StoreWorld t;
    V = t.V;
    S = t.S;
    at_least = t.at_least;
    clock = λ w. w.now;
    embed = λ text w. let (v, m) = t.embed text w.model in (v, record w { model = m });
    get_by_text_identity = store_get;
    knn = λ v q k w.
        on_searched_hits w
          (knn t.codec t.S t.similarity_of t.hashes true (t.search v q k) w.now w.adapter);
    upsert = store_upsert;
  }
