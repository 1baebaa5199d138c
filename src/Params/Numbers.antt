-- ===== src/Params/Numbers.antt =====
-- The numbers of the generation parameters are doubles, which are no part of the repository: a type
-- with the order that `Math.min` and `Math.max` use. Validation lets no NaN through.
use ai_provider_gateway.Prelude.{ℕ, ◌≡◌, ◌⊎◌, inl, inr, Bool, true, leb, arith, if◌then◌else◌}

pub record Numbers : Type 1 where
  pub N : Type 0
  pub le : N → N → Bool
  pub le_total : (a b : N) → (le a b ≡ true) ⊎ (le b a ≡ true)

module _ (num : Numbers) where
  abbrev pub minimum : num.N → num.N → num.N
  minimum a b = if num.le a b then a else b

  abbrev pub maximum : num.N → num.N → num.N
  maximum a b = if num.le a b then b else a

  -- `Math.min(max, Math.max(min, value))`
  unfoldable pub clamp : num.N → num.N → num.N → num.N
  clamp value lo hi = minimum hi (maximum lo value)

  le_refl : (a : num.N) → num.le a a ≡ true
  le_refl a = elim (num.le_total a a) [ inl h ↦ h | inr h ↦ h ]

  -- A clamped value is in the range, if the range is one.
  pub clamp-in_range :
      (value lo hi : num.N)
      → num.le lo hi ≡ true
      → (num.le lo (clamp value lo hi) ≡ true) × (num.le (clamp value lo hi) hi ≡ true)
  unfolding clamp
  clamp-in_range value lo hi h = ground (
    arith,
    le_refl lo,
    le_refl hi,
    num.le_total lo value,
    num.le_total hi value,
    num.le_total hi lo,
  )

pub leb_total : (a b : ℕ) → (leb a b ≡ true) ⊎ (leb b a ≡ true)
leb_total a b = ground arith

abbrev pub naturals : Numbers
naturals = record { N = ℕ; le = leb; le_total = leb_total }
