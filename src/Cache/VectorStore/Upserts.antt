-- ===== src/Cache/VectorStore/Upserts.antt =====
-- What an upsert of src/cache/semantic/adapters/redis-vector-store.adapter.ts leaves, and what is read of it.
use ai_provider_gateway.Prelude.{
  ℕ, ◌+◌, ◌*◌, ◌≤◌, ◌<◌, ◌≡◌, refl, ap, sym, ◌∙◌, ◌⊎◌, inl, inr, Bool, true, false, not, Option,
  none, some, or_else, is_some, leb, arith, Bool-cases, if◌then◌else◌,
}
use ai_provider_gateway.Prelude.Texts.{Text}
use ai_provider_gateway.Chat.Answer.{CachedChatResponse, is_unservable_cached_reply}
use ai_provider_gateway.Cache.Exact.{Codec, IsReadable}
use ai_provider_gateway.Cache.VectorStore.{
  Hashes, Entry, Adapter, expiring, on_created, on_info, ensure_index, is_incomplete,
  is_module_missing, write, upsert, on_reply, on_entry, get_by_text_identity,
}

module _ (r : Hashes) where
  entry-on_info :
      (has_client : Bool) (a : Adapter r) (key : Text) (now : ℕ) (info : Option r.E)
      → r.entry key now (on_info r has_client a info).db ≡ r.entry key now a.db
  unfolding on_info
  entry-on_info has_client a key now none = refl
  entry-on_info has_client a key now (some e) =
      elim (Bool-cases (is_module_missing (r.message e))) [
        | inl missing ↦ rw missing refl
        | inr other ↦ rw other (created (r.ft_create a.db) ∙ r.entry-ft_create key now a.db)
      ]
    where
      created :
          (p : Option r.E × r.Db)
          → r.entry key now (on_created r has_client a p).db ≡ r.entry key now p.1
      created (none, db) = refl
      created (some f, db) = refl

  entry-ensure_index :
      (has_client : Bool) (a : Adapter r) (key : Text) (now : ℕ)
      → r.entry key now (ensure_index r has_client a).db ≡ r.entry key now a.db
  unfolding ensure_index
  entry-ensure_index has_client a key now = elim (Bool-cases a.index_created) [
    | inl created ↦ ap (λ b. r.entry key now (if b then a else rest).db) created
    | inr missing ↦
        ap (λ b. r.entry key now (if b then a else rest).db) missing
        ∙ (elim (Bool-cases has_client) [
          | inl up ↦
              ap (λ b. r.entry key now (if not b then a else info).db) up
              ∙ entry-on_info has_client a key now _
          | inr down ↦ ap (λ b. r.entry key now (if not b then a else info).db) down
        ])
  ]
    where
      info : Adapter r
      info = on_info r has_client a (r.ft_info a.db)

      rest : Adapter r
      rest = if not has_client then a else info

  -- A complete entry, under the first reply that the key had.
  abbrev pub complete : Option Text → Text → r.B → Entry r.B
  complete reply text blob = record {
    reply = some (or_else reply text);
    vector = some blob;
    ttl = expiring;
  }

  completed :
      (key text : Text) (blob : r.B) (ttl now later : ℕ) (db : r.Db)
      → now ≤ later
      → later < now + ttl * 1000
      → r.entry key later (r.hset_expire key blob ttl now (r.hsetnx key text now db))
        ≡ complete (r.entry key now db).reply text blob
  completed key text blob ttl now later db after live =
      let got = r.entry-hsetnx key text now db in
      r.entry-hset_expire key blob ttl now later _ (ap (λ x. is_some x.reply) got) after live
      ∙ ap (λ (x : Entry r.B). record { reply = x.reply; vector = some blob; ttl = expiring }) got

  write_lem :
      (has_client : Bool) (key text : Text) (blob : r.B) (ttl now later : ℕ) (db : r.Db)
      → now ≤ later
      → later < now + ttl * 1000
      → ((is_some (r.entry key now db).reply ≡ true)
          × ((is_incomplete r has_client (r.entry key now db) ≡ false)
              × (write r has_client key text blob ttl now db ≡ db)))
        ⊎ (r.entry key later (write r has_client key text blob ttl now db)
            ≡ complete (r.entry key now db).reply text blob)
  unfolding write
  write_lem has_client key text blob ttl now later db after live =
      let done = completed key text blob ttl now later db after live in
      elim (Bool-cases (is_some (r.entry key now db).reply)) [
        | inr free ↦ rw free (inr done)
        | inl held ↦
            let same = r.hsetnx-held key text now db held in
            let e = r.entry key now (r.hsetnx key text now db) in
            elim (Bool-cases (is_incomplete r has_client e)) [
              | inl lacks ↦ rw (held, lacks) (inr done)
              | inr full ↦
                  rw (held, full)
                    (inl (
                      refl,
                      (
                        ap (λ d. is_incomplete r has_client (r.entry key now d)) (sym same) ∙ full,
                        same,
                      ),
                    ))
            ]
      ]

  upsert_up :
      (key text : Text) (blob : r.B) (ttl now : ℕ) (a : Adapter r)
      → 1 ≤ ttl
      → (upsert r true key text blob ttl now a).db
        ≡ write r true key text blob ttl now (ensure_index r true a).db
  unfolding upsert
  upsert_up key text blob ttl now a lasting = elim (Bool-cases (leb 1 ttl)) [
    | inl long ↦ rw long refl
    | inr short ↦ absurd (ground (arith))
  ]

  pub upsert_lem :
      (key text : Text) (blob : r.B) (ttl now later : ℕ) (a : Adapter r)
      → 1 ≤ ttl
      → now ≤ later
      → later < now + ttl * 1000
      → ((is_some (r.entry key now a.db).reply ≡ true)
          × ((is_incomplete r true (r.entry key now a.db) ≡ false)
              × ((upsert r true key text blob ttl now a).db ≡ (ensure_index r true a).db)))
        ⊎ (r.entry key later (upsert r true key text blob ttl now a).db
            ≡ complete (r.entry key now a.db).reply text blob)
  upsert_lem key text blob ttl now later a lasting after live =
      let written = upsert_up key text blob ttl now a lasting in
      let kept = sym (entry-ensure_index true a key now) in
      elim (write_lem true key text blob ttl now later (ensure_index r true a).db after live) [
        | inl (held, (full, same)) ↦ inl (
          ap (λ (x : Entry r.B). is_some x.reply) kept ∙ held,
          (ap (is_incomplete r true) kept ∙ full, written ∙ same),
        )
        | inr done ↦ inr (
            ap (r.entry key later) written
            ∙ done
            ∙ ap (λ (x : Entry r.B). complete x.reply text blob) (sym kept))
      ]

  get_by_text_identity_entry :
      (codec : Codec) (key : Text) (reply : CachedChatResponse) (blob : r.B) (now : ℕ) (db : r.Db)
      → r.entry key now db
        ≡ record { reply = some (codec.encode reply); vector = some blob; ttl = expiring }
      → IsReadable codec reply
      → is_unservable_cached_reply reply ≡ false
      → get_by_text_identity r true codec key now db ≡ (some reply, db)
  unfolding get_by_text_identity on_entry on_reply
  get_by_text_identity_entry codec key reply blob now db here readable good =
      rw (here, codec.encode_full reply, readable, good) refl

  -- With a Redis client: after an upsert on an entry that is not complete (there is none, or one that a
  -- writer left halfway), the key gives, for the whole time to live, the reply that it had before, or else
  -- the one that was upserted, if that reply may be served and is read as it was written.
  pub get_by_text_identity-upsert :
      (codec : Codec) (key text : Text) (reply : CachedChatResponse) (blob : r.B)
      (ttl now later : ℕ) (a : Adapter r)
      → 1 ≤ ttl
      → now ≤ later
      → later < now + ttl * 1000
      → IsReadable codec reply
      → is_unservable_cached_reply reply ≡ false
      → is_incomplete r true (r.entry key now a.db) ≡ true
      → or_else (r.entry key now a.db).reply text ≡ codec.encode reply
      → let db' = (upsert r true key text blob ttl now a).db in
        get_by_text_identity r true codec key later db' ≡ (some reply, db')
  get_by_text_identity-upsert codec key text reply blob ttl now later a lasting after live readable
        good lacks this =
      elim (upsert_lem key text blob ttl now later a lasting after live) [
        | inl (held, (full, same)) ↦ absurd (cc)
        | inr done ↦
            get_by_text_identity_entry codec key reply blob later _
              (done ∙ ap (λ t. record { reply = some t; vector = some blob; ttl = expiring }) this)
              readable good
      ]
