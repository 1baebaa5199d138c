-- ===== src/Prelude/Json.antt =====
-- JavaScript values that the program builds, and `JSON.stringify` over them.
use ai_provider_gateway.Prelude.Texts.{Text, units, show_nat}
use ai_provider_gateway.Prelude.Tests.{ltb, ◌==◌, if◌then◌else◌}
use Prim.Native.Nat.{ℕ, ◌+◌, ◌/◌, ◌%◌}
use Prim.Native.String.{String}
use mathlib.Core.Path.{◌≡◌, refl}
use mathlib.Core.Bool.{Bool, true, false, ◌||◌}
use mathlib.Core.List.{[], ◌∷◌, ◌++◌}
use mathlib.Core.Option.{Option, none, some}
use text.Mathlib.Text.{◌==◌ as str_eq}

-- Numbers are natural: token counts, indices, statuses and milliseconds are.
mutual
  pub data Json : Type 0 where
    undefined null : Json
    bool : Bool → Json
    num : ℕ → Json
    str : Text → Json
    arr : Items → Json
    obj : Fields → Json

  pub data Items : Type 0 where
    nil : Items
    cons : Json → Items → Items

  pub data Fields : Type 0 where
    end : Fields
    field : String → Json → Fields → Fields

abbrev pub lit : String → Json
lit s = str (units s)

abbrev pub opt_lit : Option String → Json
opt_lit none = undefined
opt_lit (some s) = lit s

abbrev pub single : Json → Json
single j = arr (cons j nil)

-- `key in object`
unfoldable pub has_field : String → Fields → Bool
has_field k end = false
has_field k (field j v fs) = str_eq j k || has_field k fs

unfoldable pub get_field : String → Fields → Option Json
get_field k end = none
get_field k (field j v fs) = if str_eq j k then some v else get_field k fs

-- `{ ...object, key: value }`: an old key keeps its place, a new one comes last.
unfoldable pub set_field : String → Json → Fields → Fields
set_field k v end = field k v end
set_field k v (field j w fs) = if str_eq j k then field j v fs else field j w (set_field k v fs)

-- A hexadecimal digit in lower case.
hex_digit : ℕ → ℕ
hex_digit n = if ltb n 10 then 48 + n else 87 + n

-- The escapes of ECMAScript's QuoteJSONString.
unfoldable pub quote_unit : ℕ → Text
unfolding hex_digit
quote_unit c =
    if c == 34
    then 92 ∷ 34 ∷ []
    else if c == 92
    then 92 ∷ 92 ∷ []
    else if c == 8
    then 92 ∷ b'b' ∷ []
    else if c == 9
    then 92 ∷ b't' ∷ []
    else if c == 10
    then 92 ∷ b'n' ∷ []
    else if c == 12
    then 92 ∷ b'f' ∷ []
    else if c == 13
    then 92 ∷ b'r' ∷ []
    else if ltb c 32
    then 92 ∷ b'u' ∷ 48 ∷ 48 ∷ hex_digit (c / 16) ∷ hex_digit (c % 16) ∷ []
    else c ∷ []

unfoldable pub quote_units : Text → Text
quote_units [] = 34 ∷ []
quote_units (c ∷ s) = quote_unit c ++ quote_units s

unfoldable pub quote : Text → Text
unfolding quote_units quote_unit
quote s = 34 ∷ quote_units s

-- A comma before every member but the first.
unfoldable pub comma : Bool → Text
comma true = []
comma false = 44 ∷ []

-- Members whose value is `undefined` are left out; in an array it is written as null. (Well-formed
-- UTF-16 is assumed: a lone surrogate is written as it is.)
unfoldable mutual
  unfolding quote comma show_nat

  pub stringify : Json → Text
  stringify undefined = units "null"
  stringify null = units "null"
  stringify (bool true) = units "true"
  stringify (bool false) = units "false"
  stringify (num n) = show_nat n
  stringify (str s) = quote s
  stringify (arr xs) = 91 ∷ stringify_items true xs
  stringify (obj fs) = 123 ∷ stringify_fields true fs

  pub stringify_items : Bool → Items → Text
  stringify_items first nil = 93 ∷ []
  stringify_items first (cons x xs) = comma first ++ (stringify x ++ stringify_items false xs)

  pub stringify_fields : Bool → Fields → Text
  stringify_fields first end = 125 ∷ []
  stringify_fields first (field k undefined fs) = stringify_fields first fs
  stringify_fields first (field k v fs) =
      comma first ++ (quote (units k) ++ (58 ∷ (stringify v ++ stringify_fields false fs)))

stringify_test :
    stringify
      (obj (field "a" (num 12) (field "b" undefined (field "c" (single (str (34 ∷ 10 ∷ []))) end))))
    ≡ units "{\"a\":12,\"c\":[\"\\\"\\n\"]}"
unfolding stringify
stringify_test = refl
