-- ===== src/Examples/Stores.antt =====
-- Stores in memory and a small embedding backend, which show that the interfaces of Cache/Store.antt,
-- Cache/Exact.antt and Cache/Semantic.antt can be met.
use ai_provider_gateway.Prelude.{
  ℕ, ◌+◌, refl, ap, ◌∙◌, true, Option, none, some, [], ◌∷◌, leb, length, if◌then◌else◌,
}
use ai_provider_gateway.Prelude.Texts.{Text, units, text_eq, text_eq_refl}
use ai_provider_gateway.Errors.{returned}
use ai_provider_gateway.Facade.Events
use ai_provider_gateway.Chat.Answer.{CachedChatResponse}
use ai_provider_gateway.Cache.Store.{Strings}
use ai_provider_gateway.Cache.Exact.{Decoded, unparsable, shaped, Codec}
use ai_provider_gateway.Cache.Semantic.{Backends, SemanticConfig}

-- A text with the time at which it expires, if it does.
abbrev pub Entries : Type 0
Entries = Text → Option (Text × Option ℕ)

abbrev live : ℕ → Option (Text × Option ℕ) → Option Text
live now none = none
live now (some (v, none)) = some v
live now (some (v, some end)) = if leb end now then none else some v

abbrev expiry : Option ℕ → ℕ → Option ℕ
expiry none now = none
expiry (some ttl) now = some (now + ttl)

abbrev put : Text → Option (Text × Option ℕ) → Entries → Entries
put k v db j = if text_eq k j then v else db j

abbrev put_if_free : Option Text → Text → Text → Option ℕ → ℕ → Entries → Entries
put_if_free none k v ttl now db = put k (some (v, expiry ttl now)) db
put_if_free (some old) k v ttl now db = db

abbrev pub string_memory : Strings
string_memory = record {
  Db = Entries;
  get = λ k now db. live now (db k);
  set_nx = λ k v ttl now db. put_if_free (live now (db k)) k v ttl now db;
  del = λ k now db. put k none db;
  get-set_nx_old = λ k old v ttl now db h. ap (λ o. put_if_free o k v ttl now db) h;
  get-set_nx_new = λ k v ttl now later db h w.
      ap (λ o. live later (put_if_free o k v (some ttl) now db k)) h ∙ rw (text_eq_refl k) refl;
  get-set_nx_forever = λ k v now later db h w.
      ap (λ o. live later (put_if_free o k v none now db k)) h ∙ rw (text_eq_refl k) refl;
  get-del = λ k now later db w. rw (text_eq_refl k) refl;
}

abbrev pub reply_with : Text → CachedChatResponse
reply_with text = record {
  id = units "gw_1";
  provider = "p";
  model = "good";
  text = text;
  usage = none;
  cached_at = units "today";
  finish_reason = Events.stop;
  warnings = [];
  thinking_content = none;
  effective_model_alias = none;
  usage_details = none;
  system_fingerprint = none;
}

-- The replies of these examples differ in their text only.
abbrev text_of_stored : Text → Decoded
text_of_stored [] = unparsable
text_of_stored (c ∷ text) = shaped (reply_with text)

abbrev pub text_codec : Codec
text_codec = record {
  encode = λ reply. 123 ∷ reply.text;
  decode = text_of_stored;
  encode_full = λ reply. refl;
}

-- A text's vector is its length; the world is the time.
abbrev pub length_backends : Backends
length_backends = record {
  W = ℕ;
  V = ℕ;
  S = ℕ;
  at_least = λ a b. leb b a;
  clock = λ w. w;
  embed = λ text w. (returned (length text), w + 5);
  get_by_text_identity = λ q w. (none, w);
  knn = λ v q k w. (
    returned (
        record { similarity = 40; reply = reply_with (units "far") }
        ∷ record { similarity = 95; reply = reply_with (units "near") }
        ∷ []),
    w + 1,
  );
  upsert = λ v q reply ttl w. (returned tt, w);
}

abbrev pub semantic_config : SemanticConfig ℕ
semantic_config = record { enabled = true; k = 3; min_similarity = 90; ttl = 60 }
