-- ===== src/Prelude/Texts.antt =====
-- JavaScript strings that the program walks or builds, as lists of UTF-16 code units. Identifiers
-- and keys, which are only compared, are native strings; `units` takes one to its code units.
use Prim.Native.Char.{code}
use Prim.Native.Nat.{ℕ, zero, suc, ◌+◌, ◌-◌, ◌/◌, ◌%◌}
use Prim.Native.String.{String}
use mathlib.Core.Path.{◌≡◌, refl, ap, ◌∙◌}
use mathlib.Core.Bool.{Bool, true, false, ◌&&◌, ◌||◌}
use mathlib.Core.List.{List, [], ◌∷◌, reverse}
use native.Mathlib.Omega.{arith}
use ai_provider_gateway.Prelude.Tests.{ltb, leb, ◌==◌, ==_iff, if◌then◌else◌}

abbrev pub Text : Type 0
Text = List ℕ

abbrev pub unit_pair : ℕ → Text → Text
unit_pair c rest =
    if ltb c 0x10000
    then c ∷ rest
    else (0xd800 + (c - 0x10000) / 0x400) ∷ (0xdc00 + (c - 0x10000) % 0x400) ∷ rest

abbrev pub units : String → Text
units String.[] = []
units (String.◌∷◌ c s) = unit_pair (code c) (units s)

abbrev pub is_empty : Text → Bool
is_empty [] = true
is_empty (c ∷ s) = false

-- Decimal notation of a number; a number has fewer digits than its value plus one, so the fuel of
-- `show_nat` is never used up.
pub show_digits : ℕ → ℕ → Text → Text
show_digits zero n acc = acc
show_digits (suc f) n acc =
    let acc' = (48 + n % 10) ∷ acc in
    let more = show_digits f (n / 10) acc' in if n / 10 == 0 then acc' else more

unfoldable pub show_nat : ℕ → Text
unfolding show_digits
show_nat n = show_digits (suc n) n []

-- ECMAScript white space and line terminators, which `trim` removes.
pub is_space : ℕ → Bool
is_space c =
    (leb 9 c && leb c 13)
    || c == 32
    || c == 0xa0
    || c == 0x1680
    || (leb 0x2000 c && leb c 0x200a)
    || c == 0x2028
    || c == 0x2029
    || c == 0x202f
    || c == 0x205f
    || c == 0x3000
    || c == 0xfeff

pub trim_start : Text → Text
trim_start [] = []
trim_start (c ∷ s) = if is_space c then trim_start s else c ∷ s

unfoldable pub trim : Text → Text
unfolding trim_start is_space
trim s = reverse (trim_start (reverse (trim_start s)))

abbrev pub text_eq : Text → Text → Bool
text_eq [] [] = true
text_eq (c ∷ s) (d ∷ t) = c == d && text_eq s t
text_eq _ _ = false

pub text_eq_refl : (t : Text) → text_eq t t ≡ true
text_eq_refl [] = refl
text_eq_refl (c ∷ t) = ground (arith, ==_iff c c, text_eq_refl t)

pub text_eq_sound : (s t : Text) → text_eq s t ≡ true → s ≡ t
text_eq_sound [] [] h = refl
text_eq_sound [] (d ∷ t) h = cc
text_eq_sound (c ∷ s) [] h = cc
text_eq_sound (c ∷ s) (d ∷ t) h =
    let head : c ≡ d = ground (arith, ==_iff c d) in
    let tail : text_eq s t ≡ true = ground arith in
    ap (λ x. x ∷ s) head ∙ ap (λ u. d ∷ u) (text_eq_sound s t tail)

show_nat_tests : (show_nat 0 ≡ units "0") × (show_nat 1024 ≡ units "1024")
unfolding show_nat
show_nat_tests = (refl, refl)

trim_test : trim (units "  a b ") ≡ units "a b"
unfolding trim
trim_test = refl
