-- ===== src/Cli/EnvFile/Laws.antt =====
-- What is read of .env after a variable was set.
use ai_provider_gateway.Prelude.{
  ℕ, ◌≡◌, refl, sym, ap, ◌∙◌, inl, inr, true, false, ◌&&◌, Option, none, some, String, List, [],
  ◌∷◌, ◌++◌, ◌==◌, ==_iff, arith, some-injective, All, All-append, any, Bool-cases, Option-cases,
  if◌then◌else◌,
}
use ai_provider_gateway.Prelude.Texts.{Text, units, text_eq, text_eq_sound}
use ai_provider_gateway.Cli.EnvFile.{
  read_lines, after_prefix, is_hit, prefix_of, is_line_of, first_value, get_var, value_in, set_each,
  set_lines, set_var,
}
use ai_provider_gateway.Cli.EnvFile.Lines.{lacks, IsLine, read_lines-write_lines}

lacks_rest : (u c : ℕ) (s : Text) → lacks u (c ∷ s) ≡ true → lacks u s ≡ true
lacks_rest u c s h = elim (Bool-cases (c == u)) [
  | inl is ↦ let bad : false ≡ true = rw is at h in cc
  | inr other ↦ rw other at h
]

-- What is found for one name in the line of another.
after_prefix_set :
    (a b value : Text)
    → lacks 61 a ≡ true
    → lacks 61 b ≡ true
    → after_prefix (b ++ (61 ∷ [])) ((a ++ (61 ∷ [])) ++ value)
      ≡ (if text_eq a b then some value else none)
unfolding after_prefix
after_prefix_set [] [] value ha hb = refl
after_prefix_set [] (d ∷ b) value ha hb = elim (Bool-cases (d == 61)) [
  | inl is ↦ let bad : false ≡ true = rw is at hb in cc
  | inr other ↦ rw other refl
]
after_prefix_set (c ∷ a) [] value ha hb = elim (Bool-cases (c == 61)) [
  | inl is ↦ let bad : false ≡ true = rw is at ha in cc
  | inr other ↦
      let other' : (61 == c) ≡ false = ground (arith, ==_iff c 61, ==_iff 61 c) in rw other' refl
]
after_prefix_set (c ∷ a) (d ∷ b) value ha hb = elim (Bool-cases (c == d)) [
  | inl same ↦
      let same' : (d == c) ≡ true = ground (arith, ==_iff c d, ==_iff d c) in
      rw (same, same') (after_prefix_set a b value (lacks_rest 61 c a ha) (lacks_rest 61 d b hb))
  | inr other ↦
      let other' : (d == c) ≡ false = ground (arith, ==_iff c d, ==_iff d c) in
      rw (other, other') refl
]

hit_of : (found : Option Text) → is_hit found ≡ true → (rest : Text) × (found ≡ some rest)
hit_of none h = cc
hit_of (some rest) h = (rest, refl)

-- What is cut off in front is in front.
after_prefix-some : (p line rest : Text) → after_prefix p line ≡ some rest → line ≡ p ++ rest
unfolding after_prefix
after_prefix-some [] line rest h = some-injective line rest h
after_prefix-some (d ∷ p) [] rest h = cc
after_prefix-some (d ∷ p) (c ∷ line) rest h = elim (Bool-cases (d == c)) [
  | inl same ↦
      let unit : d ≡ c = (==_iff d c).0 same in
      ap (λ l. c ∷ l) (after_prefix-some p line rest (rw same at h))
      ∙ ap (λ u. u ∷ (p ++ rest)) (sym unit)
  | inr other ↦ let bad : none ≡ some rest = rw other at h in cc
]

-- A line belongs to one name.
one_name :
    (a b line : Text)
    → lacks 61 a ≡ true
    → lacks 61 b ≡ true
    → is_line_of (a ++ (61 ∷ [])) line ≡ true
    → text_eq a b ≡ false
    → after_prefix (b ++ (61 ∷ [])) line ≡ none
one_name a b line ha hb hit differ =
    let (rest, found) = hit_of (after_prefix (a ++ (61 ∷ [])) line) hit in
    ap (after_prefix (b ++ (61 ∷ []))) (after_prefix-some (a ++ (61 ∷ [])) line rest found)
    ∙ (after_prefix_set a b rest ha hb ∙ rw differ refl)

missed : (found : Option Text) → is_hit found ≡ false → found ≡ none
missed none h = refl
missed (some rest) h = cc

value_in-none : (o : Option Text) → value_in o none ≡ o
value_in-none none = refl
value_in-none (some v) = refl

module _ (a b value : Text) (ha : lacks 61 a ≡ true) (hb : lacks 61 b ≡ true) where
  abbrev pa : Text
  pa = a ++ (61 ∷ [])

  abbrev pb : Text
  pb = b ++ (61 ∷ [])

  set_each_found :
      (lines : List Text)
      → first_value pb (set_each pa value lines)
        ≡ (if text_eq a b && any (is_line_of pa) lines then some value else first_value pb lines)
  set_each_found [] = elim (Bool-cases (text_eq a b)) [
    | inl same ↦ rw same refl
    | inr differ ↦ rw differ refl
  ]
  set_each_found (line ∷ lines) =
      let ih = set_each_found lines in
      elim (Bool-cases (is_line_of pa line)) [
        | inl hit ↦
            let written = after_prefix_set a b value ha hb in
            elim (Bool-cases (text_eq a b)) [
              | inl same ↦ rw (hit, written, same) refl
              | inr differ ↦
                  rw (hit, written, differ, one_name a b line ha hb hit differ) (rw differ at ih)
            ]
        | inr miss ↦ elim (Bool-cases (text_eq a b)) [
          | inl same ↦
              let absent : after_prefix pb line ≡ none =
                ap (λ t. after_prefix (t ++ (61 ∷ [])) line) (sym (text_eq_sound a b same))
                ∙ missed (after_prefix pa line) miss in
              rw (miss, same, absent) (rw same at ih)
          | inr differ ↦ rw (miss, differ) (ap (value_in (after_prefix pb line)) (rw differ at ih))
        ]
      ]

  first_value-append :
      (lines : List Text) (line : Text)
      → first_value pb (lines ++ (line ∷ []))
        ≡ value_in (first_value pb lines) (after_prefix pb line)
  first_value-append [] line = elim (Option-cases (after_prefix pb line)) [
    | inl absent ↦ rw absent refl
    | inr (v, found) ↦ rw found refl
  ]
  first_value-append (x ∷ lines) line = elim (Option-cases (after_prefix pb x)) [
    | inl absent ↦ rw absent (first_value-append lines line)
    | inr (v, found) ↦ rw found refl
  ]

  first_value_same :
      (lines : List Text)
      → any (is_line_of pa) lines ≡ false
      → text_eq a b ≡ true
      → first_value pb lines ≡ none
  first_value_same [] h same = refl
  first_value_same (line ∷ lines) h same = elim (Bool-cases (is_line_of pa line)) [
    | inl hit ↦ let bad : true ≡ false = rw hit at h in cc
    | inr miss ↦
        let absent : after_prefix pb line ≡ none =
          ap (λ t. after_prefix (t ++ (61 ∷ [])) line) (sym (text_eq_sound a b same))
          ∙ missed (after_prefix pa line) miss in
        rw absent (first_value_same lines (rw miss at h) same)
  ]

  first_value-set_lines :
      (lines : List Text)
      → first_value pb (set_lines pa value lines)
        ≡ (if text_eq a b then some value else first_value pb lines)
  unfolding set_lines
  first_value-set_lines lines = elim (Bool-cases (any (is_line_of pa) lines)) [
    | inl hit ↦ elim (Bool-cases (text_eq a b)) [
      | inl same ↦ rw (hit, same) (set_each_found lines ∙ rw (same, hit) refl)
      | inr differ ↦ rw (hit, differ) (set_each_found lines ∙ rw differ refl)
    ]
    | inr miss ↦
        let appended =
          first_value-append (set_each pa value lines) (pa ++ value)
          ∙ ap (value_in (first_value pb (set_each pa value lines)))
              (after_prefix_set a b value ha hb) in
        elim (Bool-cases (text_eq a b)) [
          | inl same ↦
              let gone : first_value pb (set_each pa value lines) ≡ none =
                set_each_found lines ∙ rw (same, miss) (first_value_same lines miss same) in
              rw (miss, same) (appended ∙ rw (same, gone) refl)
          | inr differ ↦
              let kept : first_value pb (set_each pa value lines) ≡ first_value pb lines =
                set_each_found lines ∙ rw differ refl in
              rw (miss, differ) (appended ∙ rw differ (value_in-none _ ∙ kept))
        ]
  ]

set_each-IsLine :
    (prefix value : Text) (lines : List Text)
    → IsLine (prefix ++ value)
    → All IsLine lines
    → All IsLine (set_each prefix value lines)
set_each-IsLine prefix value [] h all = tt
set_each-IsLine prefix value (line ∷ lines) h all = elim (Bool-cases (is_line_of prefix line)) [
  | inl hit ↦ rw hit (h, set_each-IsLine prefix value lines h all.1)
  | inr miss ↦ rw miss (all.0, set_each-IsLine prefix value lines h all.1)
]

set_lines-IsLine :
    (prefix value : Text) (lines : List Text)
    → IsLine (prefix ++ value)
    → All IsLine lines
    → All IsLine (set_lines prefix value lines)
unfolding set_lines
set_lines-IsLine prefix value lines h all = elim (Bool-cases (any (is_line_of prefix) lines)) [
  | inl hit ↦ rw hit (set_each-IsLine prefix value lines h all)
  | inr miss ↦ rw miss (
      All-append IsLine (set_each prefix value lines) ((prefix ++ value) ∷ [])
        (set_each-IsLine prefix value lines h all) (h, tt))
]

-- After a variable was set, every variable is read from .env as before, but for this one, which has the new
-- value. This holds for names without "=", and if the lines that were there and the new one are read as
-- they are written: no line feed in the value, and no carriage return at the end of a line.
pub get_var-set_var :
    (key other : String) (value : Text) (file : Option Text)
    → lacks 61 (units key) ≡ true
    → lacks 61 (units other) ≡ true
    → All IsLine (read_lines file)
    → IsLine (prefix_of key ++ value)
    → get_var other (set_var key value file)
      ≡ (if text_eq (units key) (units other) then some value else get_var other file)
unfolding get_var set_var
get_var-set_var key other value file hk ho lines line =
    ap (first_value (prefix_of other)) (
      read_lines-write_lines _
        (set_lines-IsLine (prefix_of key) value (read_lines file) line lines))
    ∙ first_value-set_lines (units key) (units other) value hk ho (read_lines file)
