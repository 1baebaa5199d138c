-- ===== src/Cache/Tag.antt =====
-- src/cache/semantic/escape-tag.ts and `buildKnnQuery` of
-- src/cache/semantic/adapters/redis-vector-store.adapter.ts: the filter of a vector search.
use ai_provider_gateway.Prelude.{
  ℕ, ◌≡◌, refl, ap, sym, drop, ◌∙◌, Bool, true, false, not, ◌&&◌, [], ◌∷◌, ◌++◌, any, includes,
  ◌==◌, ==_iff, Bool-cases, inl, inr, subst, if◌then◌else◌,
}
use ai_provider_gateway.Prelude.Texts.{Text, units, is_empty, show_nat}

-- REDIS_SEARCH_TAG_SPECIAL_CHARS.
abbrev pub special_chars : Text
special_chars = units ",.<>{}[]\"':;!@#$%^&*()-+=~|/\\ "

unfoldable pub is_special : ℕ → Bool
is_special c = includes special_chars c

unfoldable pub escape_redis_search_tag : Text → Text
escape_redis_search_tag [] = []
escape_redis_search_tag (c ∷ value) =
    let rest = escape_redis_search_tag value in if is_special c then b'\\' ∷ c ∷ rest else c ∷ rest

-- REDIS_SEARCH_TAG_ID_FORBIDDEN has the same characters but for the hyphen.
unfoldable pub is_redis_search_tag_safe_id : Text → Bool
is_redis_search_tag_safe_id value =
    not (is_empty value) && not (any (λ c. is_special c && not (c == b'-')) value)

-- How a tag of a query is read: a unit behind a backslash stands for itself, and the tag ends before
-- the first special character that has none. `escaped` tells that a backslash has just been read.
unfoldable pub read_tag : (escaped : Bool) → Text → Text × Text
read_tag escaped [] = ([], [])
read_tag true (c ∷ rest) = let (value, after) = read_tag false rest in (c ∷ value, after)
read_tag false (c ∷ rest) = elim (c == b'\\') [
  | true ↦ read_tag true rest
  | false ↦ elim (is_special c) [
    | true ↦ ([], c ∷ rest)
    | false ↦ let (value, after) = read_tag false rest in (c ∷ value, after)
  ]
]

special_backslash : is_special b'\\' ≡ true
unfolding is_special
special_backslash = refl

brace-read : (rest : Text) → read_tag false (b'}' ∷ rest) ≡ ([], b'}' ∷ rest)
unfolding read_tag is_special
brace-read rest = refl

plain-not_backslash : (c : ℕ) → is_special c ≡ false → (c == b'\\') ≡ false
plain-not_backslash c plain = elim (Bool-cases (c == b'\\')) [
  | inr other ↦ other
  | inl same ↦
      let equal = (==_iff c b'\\').0 same in
      let no = subst (λ d. is_special d ≡ false) equal plain in absurd (cc (special_backslash, no))
]

plain-read :
    (c : ℕ) (rest : Text)
    → is_special c ≡ false
    → read_tag false (c ∷ rest) ≡ (c ∷ (read_tag false rest).0, (read_tag false rest).1)
unfolding read_tag
plain-read c rest plain = go (c == b'\\') (is_special c) (plain-not_backslash c plain) plain
  where
    go :
        (backslash special : Bool)
        → backslash ≡ false
        → special ≡ false
        → elim backslash as (λ _. Text × Text) [
          | true ↦ read_tag true rest
          | false ↦ elim special as (λ _. Text × Text) [
            | true ↦ ([], c ∷ rest)
            | false ↦ (c ∷ (read_tag false rest).0, (read_tag false rest).1)
          ]
        ]
          ≡ (c ∷ (read_tag false rest).0, (read_tag false rest).1)
    go true special b p = cc
    go false true b p = cc
    go false false b p = refl

-- Whatever a value is: escaped and with a closing brace and a rest behind it, it is read back as
-- itself, and the brace and the rest are left.
pub read_tag-escape_redis_search_tag :
    (value rest : Text)
    → read_tag false (escape_redis_search_tag value ++ b'}' ∷ rest) ≡ (value, b'}' ∷ rest)
unfolding read_tag escape_redis_search_tag
read_tag-escape_redis_search_tag [] rest = brace-read rest
read_tag-escape_redis_search_tag (c ∷ value) rest =
    let text = escape_redis_search_tag value ++ b'}' ∷ rest in
    let later : ◌≡◌ {A = Text × Text} (c ∷ (read_tag false text).0, (read_tag false text).1)
        (c ∷ value, b'}' ∷ rest) =
      ap (λ (p : Text × Text). (c ∷ p.0, p.1)) (read_tag-escape_redis_search_tag value rest) in
    elim (Bool-cases (is_special c)) [
      | inl special ↦ rw special later
      | inr plain ↦ rw plain (plain-read c text plain ∙ later)
    ]

-- The parts of VectorStoreKnnInput that the query is made of, and the configured embedding model.
pub record KnnInput : Type 0 where
  pub model_alias : Text
  pub client_id : Text
  pub embedding_model : Text
  pub system_signature : Text
  pub call_params : Text
  pub k : ℕ

-- `buildKnnQuery` of src/cache/semantic/adapters/redis-vector-store.adapter.ts
unfoldable pub build_knn_query : KnnInput → Text
build_knn_query input =
    units "(@modelAlias:{"
    ++ (escape_redis_search_tag input.model_alias
        ++ (units "} @clientId:{"
            ++ (escape_redis_search_tag input.client_id
                ++ (units "} @embeddingModel:{"
                    ++ (escape_redis_search_tag input.embedding_model
                        ++ (units "} @systemSignature:{"
                            ++ (escape_redis_search_tag input.system_signature
                                ++ (units "} @callParams:{"
                                    ++ (escape_redis_search_tag input.call_params
                                        ++ (units "})=>[KNN "
                                            ++ (show_nat input.k
                                                ++ units " @vector $blob AS dist]")))))))))))

escape_redis_search_tag-injective :
    (a b r s : Text)
    → escape_redis_search_tag a ++ b'}' ∷ r ≡ escape_redis_search_tag b ++ b'}' ∷ s
    → (a ≡ b) × (r ≡ s)
escape_redis_search_tag-injective a b r s same =
    let read : ◌≡◌ {A = Text × Text} (a, b'}' ∷ r) (b, b'}' ∷ s) =
      sym (read_tag-escape_redis_search_tag a r)
      ∙ (ap (read_tag false) same ∙ read_tag-escape_redis_search_tag b s) in
    (ap (λ (p : Text × Text). p.0) read, ap (λ (p : Text × Text). drop 1 p.1) read)

-- Two searches with one query text are for the same model alias, client, embedding model, system
-- signature and call parameters, whatever characters these have.
pub build_knn_query-injective :
    (x y : KnnInput)
    → build_knn_query x ≡ build_knn_query y
    → (x.model_alias ≡ y.model_alias)
      × (x.client_id ≡ y.client_id)
      × (x.embedding_model ≡ y.embedding_model)
      × (x.system_signature ≡ y.system_signature)
      × (x.call_params ≡ y.call_params)
unfolding build_knn_query
build_knn_query-injective x y same =
    let (alias, r1) =
      escape_redis_search_tag-injective x.model_alias y.model_alias _ _ (ap (drop 14) same) in
    let (client, r2) =
      escape_redis_search_tag-injective x.client_id y.client_id _ _ (ap (drop 12) r1) in
    let (model, r3) =
      escape_redis_search_tag-injective x.embedding_model y.embedding_model _ _ (ap (drop 18) r2) in
    let (signature, r4) =
      escape_redis_search_tag-injective x.system_signature y.system_signature _ _
        (ap (drop 19) r3) in
    let (params, r5) =
      escape_redis_search_tag-injective x.call_params y.call_params _ _ (ap (drop 14) r4) in
    (alias, client, model, signature, params)
