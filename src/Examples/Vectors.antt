-- ===== src/Examples/Vectors.antt =====
-- A vector store in memory, which shows that the interface of Cache/VectorStore.antt can be met, and its
-- upserts at concrete inputs.
use ai_provider_gateway.Prelude.{
  ℕ, ◌+◌, ◌*◌, ◌≡◌, refl, ap, sym, ◌∙◌, inl, inr, true, false, none, some, or_else, is_some, ltb,
  lt→ltb, arith, Bool-cases, Option-cases, if◌then◌else◌,
}
use ai_provider_gateway.Prelude.Texts.{Text, units, text_eq, text_eq_refl, trim}
use ai_provider_gateway.Chat.Answer.{is_unservable_cached_reply}
use ai_provider_gateway.Cache.VectorStore.{
  Entry, Hashes, Adapter, no_key, expiring, claimed, claimed_ttl, is_incomplete,
}
use ai_provider_gateway.Prelude.{[], length, leb}
use ai_provider_gateway.Prelude.Json.{num}
use ai_provider_gateway.Errors.{returned}
use ai_provider_gateway.Errors
use ai_provider_gateway.Params.Numbers.{naturals}
use ai_provider_gateway.Cache.Circuit.{new_breaker}
use ai_provider_gateway.Cache.Identity.{
  ChatCacheIdentity, compute_system_signature, hash_call_params, is_single_turn_user_request,
  last_user_message_text,
}
use ai_provider_gateway.Cache.Semantic.{TextIdentity, searchable_text, lookup, store_reply}
use ai_provider_gateway.Cache.VectorSearch.{StoreSetup, StoreWorld, redis_backends, finds}
use ai_provider_gateway.Cache.VectorSearch.Reuse.{lookup-store_reply}
use ai_provider_gateway.Examples.Chat.{gateway, request_for, nothing}
use ai_provider_gateway.Examples.Stores.{text_codec, reply_with, semantic_config}

-- What a key will hold at each time if nothing more is written.
abbrev Outlook : Type 0
Outlook = Text → ℕ → Entry ℕ

abbrev nothing_there : Entry ℕ
nothing_there = record { reply = none; vector = none; ttl = no_key }

abbrev put : Text → (ℕ → Entry ℕ) → Outlook → Outlook
put k v db j = if text_eq k j then v else db j

claimed-held : (text : Text) (e : Entry ℕ) → is_some e.reply ≡ true → e ≡ claimed text e
claimed-held text e held = elim (Option-cases e.reply) [
  | inl free ↦ absurd (let no_reply = ap is_some free in cc)
  | inr (t, here) ↦
      ap (λ o. record { reply = o; vector = e.vector; ttl = e.ttl }) here
      ∙ sym (
          ap
            (λ o. record {
              reply = some (or_else o text);
              vector = e.vector;
              ttl = if is_some o then e.ttl else claimed_ttl e.ttl;
            })
            here)
]

abbrev claim : Text → Text → ℕ → Outlook → Outlook
claim k text now db = if is_some (db k now).reply then db else put k (λ t. claimed text (db k t)) db

claim-claimed :
    (k text : Text) (now : ℕ) (db : Outlook) → claim k text now db k now ≡ claimed text (db k now)
claim-claimed k text now db = elim (Bool-cases (is_some (db k now).reply)) [
  | inl held ↦
      ap (λ b. (if b then db else put k (λ t. claimed text (db k t)) db) k now) held
      ∙ claimed-held text (db k now) held
  | inr free ↦
      ap (λ b. (if b then db else put k (λ t. claimed text (db k t)) db) k now) free
      ∙ ap (λ b. (if b then (λ t. claimed text (db k t)) else db k) now) (text_eq_refl k)
]

abbrev set_until : Text → ℕ → ℕ → ℕ → Outlook → Outlook
set_until k b seconds now db =
    put k
      (λ t.
        if ltb t (now + seconds * 1000)
        then record { reply = (db k now).reply; vector = some b; ttl = expiring }
        else nothing_there)
      db

abbrev vector_memory : Hashes
vector_memory = record {
  Db = Outlook;
  B = ℕ;
  E = Unit;
  message = λ e. [];
  ft_info = λ db. none;
  ft_create = λ db. (none, db);
  entry = λ k now db. db k now;
  hsetnx = claim;
  hset_expire = set_until;
  del = λ k now db. put k (λ t. nothing_there) db;
  entry-ft_create = λ k now db. refl;
  hsetnx-held =
      λ k text now db held. ap (λ b. if b then db else put k (λ t. claimed text (db k t)) db) held;
  entry-hsetnx = claim-claimed;
  entry-hset_expire = λ k b seconds now later db held after live.
      rw (text_eq_refl k) (rw (lt→ltb later (now + seconds * 1000) live) refl);
}

-- A reply without a vector, left under every key.
abbrev orphans : Adapter vector_memory
orphans = record {
  index_created = false;
  db = λ k t. record {
    reply = some (text_codec.encode (reply_with (units "old")));
    vector = none;
    ttl = no_key;
  };
}

-- The embedding model gives a text's length; the search finds nothing.
abbrev setup : StoreSetup
setup = record {
  hashes = vector_memory;
  codec = text_codec;
  sha256 = λ text. text;
  index = units "i";
  embedding_model = units "m";
  Model = Unit;
  V = ℕ;
  S = ℕ;
  at_least = λ a b. leb b a;
  similarity_of = λ text. none;
  embed = λ text m. (returned (length text), m);
  blob = λ v. v;
  thrown_of = λ e. Errors.thrown_undefined;
  search = λ v q k db. finds 0 [];
}

abbrev empty_store : StoreWorld setup
empty_store = record {
  adapter = record { index_created = false; db = λ k t. nothing_there };
  model = tt;
  now = 1000;
}

abbrev asked : ChatCacheIdentity naturals
asked = record {
  model_alias = "good";
  client_id = "web";
  messages = (request_for "good").messages;
  call_params = nothing;
}

abbrev asked_text : TextIdentity
asked_text = record {
  text = units "hi";
  model_alias = "good";
  client_id = "web";
  system_signature = compute_system_signature (λ text. text) gateway.prompts "good";
  call_params = hash_call_params naturals num (λ text. text) nothing;
}

searched :
    searchable_text
      (redis_backends setup)
      semantic_config
      naturals
      num
      (λ text. text)
      gateway.prompts
      asked
    ≡ some asked_text
unfolding searchable_text is_single_turn_user_request last_user_message_text trim
searched = refl

new_good : is_unservable_cached_reply (reply_with (units "new")) ≡ false
unfolding is_unservable_cached_reply trim
new_good = refl

nothing_lacks : is_incomplete vector_memory true nothing_there ≡ true
unfolding is_incomplete
nothing_lacks = refl

abbrev later_store : StoreWorld setup
later_store =
    record (store_reply (redis_backends setup) semantic_config naturals num (λ text. text)
      gateway.prompts asked (reply_with (units "new"))
      (record { vector = some 2; embed_attempted = true }) (new_breaker, empty_store)).1 {
        now = 60999;
      }

lookup-store_reply_example :
    lookup
      (redis_backends setup)
      semantic_config
      naturals
      num
      (λ text. text)
      gateway.prompts
      asked
      (new_breaker, later_store)
    ≡ (
      record { reply = some (reply_with (units "new")); vector = none; embed_attempted = false },
      (new_breaker, later_store),
    )
lookup-store_reply_example =
    lookup-store_reply setup semantic_config naturals num gateway.prompts asked asked_text
      (reply_with (units "new")) 2 new_breaker new_breaker empty_store later_store searched refl
      new_good (omega arith) refl nothing_lacks refl (omega arith) (omega arith)
