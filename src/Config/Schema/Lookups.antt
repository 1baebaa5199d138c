-- ===== src/Config/Schema/Lookups.antt =====
-- What a check of every entry of src/config/gateway-config.schema.ts says of the entry that a name finds.
use ai_provider_gateway.Prelude.{
  ◌≡◌, ◌⊎◌, refl, sym, ap, ◌∙◌, inl, inr, Bool, true, false, not, ◌&&◌, ◌||◌, Option, none, some,
  String, List, [], ◌∷◌, arith, is_some, some-injective, str_eq, eq_iff, Bool-cases,
}
use ai_provider_gateway.Params.Numbers.{Numbers}
use ai_provider_gateway.Providers.Registry.{ModelConfig}
use ai_provider_gateway.Config.Rows.{Entries, value_of}
use ai_provider_gateway.Config.Schema.{
  every, if_set, has_models, is_fallback_accepted, are_fallbacks_accepted, with_retry,
  with_defaults,
}

abbrev pub Some : {A : Type 0} → (A → Type 0) → List A → Type 0
Some P [] = ⊥
Some P (x ∷ xs) = P x ⊎ Some P xs

pub every-value_of :
    {A : Type 0} (test : String × A → Bool) (entries : Entries A) (k : String) (v : A)
    → every test entries ≡ true
    → value_of k entries ≡ some v
    → test (k, v) ≡ true
every-value_of test [] k v all found = cc
every-value_of test ((j, w) ∷ entries) k v all found = elim (Bool-cases (str_eq k j)) [
  | inl same ↦
      let key : k ≡ j = (eq_iff k j).0 same in
      let value = some-injective w v (rw same at found) in
      let here : test (j, w) ≡ true = ground arith in
      ap (λ k'. test (k', v)) key ∙ (ap (λ u. test (j, u)) (sym value) ∙ here)
  | inr other ↦ every-value_of test entries k v (ground arith) (rw other at found)
]

pub some_of : {A : Type 0} (o : Option A) → is_some o ≡ true → (a : A) × (o ≡ some a)
some_of none h = cc
some_of (some a) h = (a, refl)

pub any-Some :
    {n : Numbers} (id : String) (models : Entries (ModelConfig n))
    → has_models models id ≡ true
    → Some (λ (_, model). model.provider_instance ≡ id) models
any-Some id [] h = cc
any-Some id ((alias, model) ∷ models) h = elim (Bool-cases (str_eq model.provider_instance id)) [
  | inl same ↦ inl ((eq_iff _ _).0 same)
  | inr other ↦ inr (any-Some id models (rw other at h))
]

pub is_fallback_accepted-value_of :
    {n : Numbers} (all models : Entries (ModelConfig n)) (alias : String) (model : ModelConfig n)
    (fallback : String)
    → are_fallbacks_accepted all models ≡ true
    → value_of alias models ≡ some model
    → model.fallback ≡ some fallback
    → is_fallback_accepted all alias fallback ≡ true
unfolding are_fallbacks_accepted
is_fallback_accepted-value_of all [] alias model fallback h found named = cc
is_fallback_accepted-value_of {n} all ((k, m) ∷ models) alias model fallback h found named =
    elim (Bool-cases (str_eq alias k)) [
      | inl same ↦
          let key : alias ≡ k = (eq_iff alias k).0 same in
          let value = some-injective m model (rw same at found) in
          let here : if_set (is_fallback_accepted all k) m.fallback ≡ true = ground arith in
          let there = ap (λ (x : ModelConfig n). x.fallback) value ∙ named in
          rw key (rw there at here)
      | inr other ↦
          is_fallback_accepted-value_of all models alias model fallback (ground arith)
            (rw other at found) named
    ]

pub value_of-with_defaults :
    {n : Numbers} (models : Entries (ModelConfig n)) (alias : String) (model : ModelConfig n)
    → value_of alias (with_defaults models) ≡ some model
    → (raw : ModelConfig n) × ((value_of alias models ≡ some raw)
        × (record raw { policy = some (with_retry raw.policy) } ≡ model))
unfolding with_defaults
value_of-with_defaults [] alias model found = cc
value_of-with_defaults ((k, m) ∷ models) alias model found = elim (Bool-cases (str_eq alias k)) [
  | inl same ↦ (m, (rw same refl, some-injective _ _ (rw same at found)))
  | inr other ↦
      let (raw, (there, e)) = value_of-with_defaults models alias model (rw other at found) in
      (raw, (rw other there, e))
]

pub Some-with_defaults :
    {n : Numbers} (id : String) (models : Entries (ModelConfig n))
    → Some (λ (_, model). model.provider_instance ≡ id) models
    → Some (λ (_, model). model.provider_instance ≡ id) (with_defaults models)
unfolding with_defaults
Some-with_defaults id [] h = h
Some-with_defaults id (m ∷ models) (inl h) = inl h
Some-with_defaults id (m ∷ models) (inr h) = inr (Some-with_defaults id models h)

pub value_of-with_defaults_of :
    {n : Numbers} (models : Entries (ModelConfig n)) (alias : String) (raw : ModelConfig n)
    → value_of alias models ≡ some raw
    → value_of alias (with_defaults models)
      ≡ some (record raw { policy = some (with_retry raw.policy) })
unfolding with_defaults
value_of-with_defaults_of [] alias raw found = cc
value_of-with_defaults_of ((k, m) ∷ models) alias raw found = elim (Bool-cases (str_eq alias k)) [
  | inl same ↦ rw same (rw (some-injective m raw (rw same at found)) refl)
  | inr other ↦ rw other (value_of-with_defaults_of models alias raw (rw other at found))
]

pub both : (a b : Bool) → a && b ≡ true → (a ≡ true) × (b ≡ true)
both true b h = (refl, h)
both false b h = cc

abbrev pub is_some_entry : {A : Type 0} → Entries A → Bool
is_some_entry [] = false
is_some_entry (x ∷ xs) = true

pub is_some_of :
    {A : Type 0} (entries : Entries A)
    → not (elim entries [ [] ↦ true | x ∷ xs ↦ false ]) ≡ true
    → is_some_entry entries ≡ true
is_some_of [] h = h
is_some_of (x ∷ xs) h = refl

pub or_enabled : (a b : Bool) → a ≡ true → not a || b ≡ true → b ≡ true
or_enabled a b on h = rw on at h
