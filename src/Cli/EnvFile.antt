-- ===== src/Cli/EnvFile.antt =====
-- src/cli/services/env-patch.service.ts: the lines of .env. A file is its text, or none; reading one that
-- is not there gives no lines; Session says when a write fails.
pub mod Lines
pub mod Laws
use ai_provider_gateway.Prelude.{
  ℕ, Bool, true, false, not, ◌&&◌, Option, none, some, String, List, [], ◌∷◌, ◌++◌, ◌==◌, any,
  if◌then◌else◌,
}
use ai_provider_gateway.Prelude.Texts.{Text, units, trim, is_empty}

-- A line that a `\n` ended, without its `\r`.
abbrev pub strip_cr : Text → Text
strip_cr [] = []
strip_cr (c ∷ []) = if c == 13 then [] else c ∷ []
strip_cr (c ∷ (d ∷ s)) = c ∷ strip_cr (d ∷ s)

abbrev pub put_front : ℕ → List Text → List Text
put_front c [] = (c ∷ []) ∷ []
put_front c (line ∷ lines) = (c ∷ line) ∷ lines

-- `raw.split('\n')`
unfoldable pub split_lines : Text → List Text
split_lines [] = [] ∷ []
split_lines (c ∷ s) = let rest = split_lines s in if c == 10 then [] ∷ rest else put_front c rest

-- The `\r` before each `\n` belongs to the separator; the last piece has none behind it.
abbrev pub strip_all : List Text → List Text
strip_all [] = []
strip_all (line ∷ []) = line ∷ []
strip_all (line ∷ (next ∷ lines)) = strip_cr line ∷ strip_all (next ∷ lines)

abbrev pub keep : (Text → Bool) → List Text → List Text
keep test [] = []
keep test (line ∷ lines) = let rest = keep test lines in if test line then line ∷ rest else rest

-- `raw.split(/\r?\n/).filter((line) => line.length > 0)`
unfoldable pub read_lines : Option Text → List Text
unfolding split_lines
read_lines none = []
read_lines (some raw) = keep (λ line. not (is_empty line)) (strip_all (split_lines raw))

-- `line.startsWith(prefix)`, and what stands behind the prefix.
unfoldable pub after_prefix : Text → Text → Option Text
after_prefix [] line = some line
after_prefix (p ∷ prefix) [] = none
after_prefix (p ∷ prefix) (c ∷ line) = if p == c then after_prefix prefix line else none

abbrev pub is_hit : Option Text → Bool
is_hit none = false
is_hit (some rest) = true

abbrev pub prefix_of : String → Text
prefix_of key = units key ++ (61 ∷ [])

abbrev pub is_line_of : (prefix : Text) → Text → Bool
is_line_of prefix line = is_hit (after_prefix prefix line)

abbrev pub value_in : Option Text → Option Text → Option Text
value_in none later = later
value_in (some value) later = some value

abbrev pub first_value : (prefix : Text) → List Text → Option Text
first_value prefix [] = none
first_value prefix (line ∷ lines) = value_in (after_prefix prefix line) (first_value prefix lines)

unfoldable pub get_var : String → Option Text → Option Text
unfolding read_lines after_prefix
get_var key file = first_value (prefix_of key) (read_lines file)

-- `lines.join('\n') + '\n'`
unfoldable pub write_lines : List Text → Text
write_lines [] = 10 ∷ []
write_lines (line ∷ []) = line ++ (10 ∷ [])
write_lines (line ∷ (next ∷ lines)) = line ++ (10 ∷ write_lines (next ∷ lines))

abbrev pub set_line : (prefix value : Text) → Text → Text
set_line prefix value line = if is_line_of prefix line then prefix ++ value else line

abbrev pub set_each : (prefix value : Text) → List Text → List Text
set_each prefix value [] = []
set_each prefix value (line ∷ lines) = set_line prefix value line ∷ set_each prefix value lines

unfoldable pub set_lines : (prefix value : Text) → List Text → List Text
unfolding after_prefix
set_lines prefix value lines =
    let next = set_each prefix value lines in
    if any (is_line_of prefix) lines then next else next ++ ((prefix ++ value) ∷ [])

unfoldable pub set_var : String → Text → Option Text → Option Text
unfolding read_lines set_lines write_lines
set_var key value file = some (write_lines (set_lines (prefix_of key) value (read_lines file)))

unfoldable pub remove_var : String → Option Text → Option Text
unfolding read_lines write_lines after_prefix
remove_var key file =
    some (write_lines (keep (λ line. not (is_line_of (prefix_of key) line)) (read_lines file)))

unfoldable pub is_var_non_empty : String → Option Text → Bool
unfolding get_var
is_var_non_empty key file = elim (get_var key file) [
  | none ↦ false
  | some v ↦ not (is_empty (trim v))
]

unfoldable pub ensure_var_exists : String → Text → Option Text → Option Text
unfolding get_var set_var
ensure_var_exists key value file = elim (get_var key file) [
  | none ↦ set_var key value file
  | some v ↦ file
]
