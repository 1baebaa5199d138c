-- ===== src/Cli/EnvFile/Lines.antt =====
-- Lines that Cli.EnvFile writes are the lines that it reads.
use ai_provider_gateway.Prelude.{
  ℕ, ◌≡◌, refl, ap, ◌∙◌, inl, inr, Bool, true, false, not, ◌&&◌, some, List, [], ◌∷◌, ◌++◌, ◌==◌,
  All, Bool-cases,
}
use ai_provider_gateway.Prelude.Texts.{Text, is_empty}
use ai_provider_gateway.Cli.EnvFile.{
  strip_cr, split_lines, strip_all, keep, read_lines, write_lines,
}

-- A text without a unit.
abbrev pub lacks : ℕ → Text → Bool
lacks u [] = true
lacks u (c ∷ s) = not (c == u) && lacks u s

-- A line that is read as it was written: not empty, without a line feed, and without a carriage return at its
-- end.
pub record IsLine (line : Text) : Type 0 where
  pub some_unit : is_empty line ≡ false
  pub one_line : lacks 10 line ≡ true
  pub no_return : strip_cr line ≡ line

split_lines-append :
    (line rest : Text)
    → lacks 10 line ≡ true
    → split_lines (line ++ (10 ∷ rest)) ≡ line ∷ split_lines rest
unfolding split_lines
split_lines-append [] rest h = refl
split_lines-append (c ∷ line) rest h = elim (Bool-cases (c == 10)) [
  | inl feed ↦ let bad : false ≡ true = rw feed at h in cc
  | inr other ↦ rw (other, split_lines-append line rest (rw other at h)) refl
]

-- The pieces of a file that was written, before the empty ones are dropped.
abbrev pieces : List Text → List Text
pieces [] = [] ∷ []
pieces (line ∷ lines) = line ∷ pieces lines

split_lines-write_lines :
    (line : Text) (lines : List Text)
    → All IsLine (line ∷ lines)
    → split_lines (write_lines (line ∷ lines)) ≡ pieces (line ∷ lines)
unfolding write_lines split_lines
split_lines-write_lines line [] h = split_lines-append line [] h.0.one_line
split_lines-write_lines line (next ∷ lines) h =
    split_lines-append line (write_lines (next ∷ lines)) h.0.one_line
    ∙ ap (λ p. line ∷ p) (split_lines-write_lines next lines h.1)

strip_all-pieces : (lines : List Text) → All IsLine lines → strip_all (pieces lines) ≡ pieces lines
strip_all-pieces [] h = refl
strip_all-pieces (line ∷ []) h = rw h.0.no_return refl
strip_all-pieces (line ∷ (next ∷ lines)) h =
    rw h.0.no_return (ap (λ p. line ∷ p) (strip_all-pieces (next ∷ lines) h.1))

keep-pieces :
    (lines : List Text)
    → All IsLine lines
    → keep (λ line. not (is_empty line)) (pieces lines) ≡ lines
keep-pieces [] h = refl
keep-pieces (line ∷ lines) h = rw h.0.some_unit (ap (λ p. line ∷ p) (keep-pieces lines h.1))

-- Lines that are written are read back.
pub read_lines-write_lines :
    (lines : List Text) → All IsLine lines → read_lines (some (write_lines lines)) ≡ lines
unfolding read_lines split_lines write_lines
read_lines-write_lines [] h = refl
read_lines-write_lines (line ∷ lines) h =
    ap (λ p. keep (λ l. not (is_empty l)) (strip_all p)) (split_lines-write_lines line lines h)
    ∙ (ap (λ p. keep (λ l. not (is_empty l)) p) (strip_all-pieces (line ∷ lines) h)
        ∙ keep-pieces (line ∷ lines) h)
