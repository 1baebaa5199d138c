-- ===== src/Params/Laws.antt =====
-- What resolve-provider-call-options.ts guarantees to a provider call.
use ai_provider_gateway.Prelude.{
  ℕ, ◌+◌, ◌≤◌, ◌≡◌, refl, subst, inl, inr, Bool, true, false, not, ◌&&◌, Option, none, some, List,
  [], ◌∷◌, arith, or_else, All, Bool-cases,
}
use ai_provider_gateway.Errors.{Thrown, Settled, returned, threw, ◌>>◌, throw_if}
use ai_provider_gateway.Params.Numbers.{Numbers, naturals, clamp-in_range}
use ai_provider_gateway.Params.Resolve.{
  ParamKey, tokens, Options, Policy, is_set, is_override_key, allows, not_allowed, bounded,
  check_budget, check_keys, effective, resolve_provider_call_options,
}

pub >>-eq-returned :
    {A : Type 0} (m : Settled (Unit {0})) (k : Settled A) {a : A}
    → (m >> k) ≡ returned a
    → (m ≡ returned tt) × (k ≡ returned a)
>>-eq-returned (returned tt) k h = (refl, h)
>>-eq-returned (threw e) k h = cc

returned-injective : {A : Type 0} {a b : A} → returned a ≡ returned b → a ≡ b
returned-injective h = cc

pub throw_if-eq-returned : (b : Bool) (e : Thrown) → throw_if b e ≡ returned tt → b ≡ false
throw_if-eq-returned true e h = cc
throw_if-eq-returned false e h = refl

-- A value that is there lies in the range, if a range is configured and is one.
abbrev pub InRange : (n : Numbers) → Option n.N → Option (n.N × n.N) → Type 0
InRange n (some v) (some (lo, hi)) = n.le lo hi ≡ true → (n.le lo v ≡ true) × (n.le v hi ≡ true)
InRange n _ _ = Unit

bounded-InRange :
    (n : Numbers) (v : Option n.N) (range : Option (n.N × n.N))
    → InRange n (bounded n v range) range
bounded-InRange n none none = tt
bounded-InRange n none (some r) = tt
bounded-InRange n (some v) none = tt
bounded-InRange n (some v) (some (lo, hi)) = clamp-in_range n v lo hi

module _ (n : Numbers) where
  -- The steps of a successful resolution.
  pub record Resolved (p : Policy n) (keys : List ParamKey) (body o : Options n) : Type 0 where
    pub keys_pass : check_keys n p.allow_overrides keys body ≡ returned tt
    pub budget_passes :
        check_budget
          (effective n p body).thinking_enabled
          body.thinking_budget
          (effective n p body).max_output_tokens
        ≡ returned tt
    pub result : effective n p body ≡ o

  pub resolve-Resolved :
      (p : Policy n) (keys : List ParamKey) (body o : Options n)
      → resolve_provider_call_options n p keys body ≡ returned o
      → Resolved p keys body o
  unfolding resolve_provider_call_options
  resolve-Resolved p keys body o h =
      let (keys_pass, h') = >>-eq-returned _ _ h in
      let (enabled, h'') = >>-eq-returned _ _ h' in
      let (budget, h''') = >>-eq-returned _ _ h'' in
      let (budget_passes, last) = >>-eq-returned _ _ h''' in
      record {
        keys_pass = keys_pass;
        budget_passes = budget_passes;
        result = returned-injective last;
      }

  abbrev pub IsAllowed : List ParamKey → Options n → ParamKey → Type 0
  IsAllowed allowed body key =
      is_override_key key ≡ true → is_set n body key ≡ true → allows allowed key ≡ true

  pub check_keys-IsAllowed :
      (allowed keys : List ParamKey) (body : Options n)
      → check_keys n allowed keys body ≡ returned tt
      → All (IsAllowed allowed body) keys
  unfolding check_keys
  check_keys-IsAllowed allowed [] body h = tt
  check_keys-IsAllowed allowed (key ∷ keys) body h =
      elim (Bool-cases (is_override_key key && (is_set n body key && not (allows allowed key)))) [
        | inl refused ↦
            let no : threw (not_allowed "" allowed key) ≡ returned tt =
              rw (refused, check_keys) at h in
            cc no
        | inr fine ↦ (
          λ o s. ground arith,
          check_keys-IsAllowed allowed keys body (rw (fine, check_keys) at h),
        )
      ]

-- Every key of the body that is set and that the override list governs is allowed, if the resolution
-- succeeds; `keys` are the body's own keys in their order.
pub resolve-IsAllowed :
    (n : Numbers) (p : Policy n) (keys : List ParamKey) (body o : Options n)
    → resolve_provider_call_options n p keys body ≡ returned o
    → All (IsAllowed n p.allow_overrides body) keys
resolve-IsAllowed n p keys body o h =
    check_keys-IsAllowed n p.allow_overrides keys body
      (resolve-Resolved n p keys body o h).keys_pass

-- Whatever the body asks for and the defaults are, the five parameters with configured ranges lie in
-- them after a successful resolution, where a range has its minimum below its maximum.
pub resolve-InRange :
    (n : Numbers) (p : Policy n) (keys : List ParamKey) (body o : Options n)
    → resolve_provider_call_options n p keys body ≡ returned o
    → InRange n o.temperature p.bounds.temperature
      × InRange naturals o.max_output_tokens p.bounds.max_output_tokens
      × InRange n o.top_p p.bounds.top_p
      × InRange n o.frequency_penalty p.bounds.frequency_penalty
      × InRange n o.presence_penalty p.bounds.presence_penalty
unfolding effective
resolve-InRange n p keys body o h = rw (← (resolve-Resolved n p keys body o h).result) (
  bounded-InRange n _ _,
  bounded-InRange naturals _ _,
  bounded-InRange n _ _,
  bounded-InRange n _ _,
  bounded-InRange n _ _,
)

pub check_budget-le :
    (most : Option ℕ) (budget : ℕ)
    → check_budget (some true) (some (tokens budget)) most ≡ returned tt
    → budget + 512 ≤ or_else most 1024
unfolding check_budget
check_budget-le most budget h = ground (arith, throw_if-eq-returned _ _ h)

-- With thinking on and a numeric budget, a successful resolution leaves at least 512 output tokens
-- beyond the budget, where an output limit that is not set counts as 1024.
pub resolve-leaves_room :
    (n : Numbers) (p : Policy n) (keys : List ParamKey) (body o : Options n) (budget : ℕ)
    → resolve_provider_call_options n p keys body ≡ returned o
    → o.thinking_enabled ≡ some true
    → o.thinking_budget ≡ some (tokens budget)
    → budget + 512 ≤ or_else o.max_output_tokens 1024
unfolding effective
resolve-leaves_room n p keys body o budget h on numeric =
    let r = resolve-Resolved n p keys body o h in
    let passes =
      subst
        (λ (x : Options n).
          check_budget x.thinking_enabled x.thinking_budget x.max_output_tokens ≡ returned tt)
        r.result r.budget_passes in
    check_budget-le o.max_output_tokens budget (
      subst (λ b. check_budget (some true) b o.max_output_tokens ≡ returned tt) numeric
        (subst (λ e. check_budget e o.thinking_budget o.max_output_tokens ≡ returned tt) on passes))
