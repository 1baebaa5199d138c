-- ===== src/Cli/Session/Keeping.antt =====
-- Whatever a command does, and also when it throws, the configuration in the file stays one that hangs together.
use ai_provider_gateway.Prelude.{◌≡◌, refl, Bool, true, false, Option, none, some, List, [], ◌∷◌}
use ai_provider_gateway.Prelude.Texts.{Text}
use ai_provider_gateway.Errors.{Thrown, Settled, returned, threw}
use ai_provider_gateway.Params.Numbers.{Numbers}
use ai_provider_gateway.Config.Rows.{RawConfig}
use ai_provider_gateway.Config.Schema.{safe_parse}
use ai_provider_gateway.Config.Schema.Sound.{IsLinked, safe_parse-IsLinked}
use ai_provider_gateway.Cli.Session.{
  Session, Outside, M, carry_on, caught, ◌>>=◌, ◌>>◌, try_catch, give, raise, raise_if, current,
  change, patch_env, patched, persist_config, persist_parsed, backed_up, written, write_config,
  checked, check_effective,
}

-- The file is there, and what is in it hangs together.
unfoldable pub IsSound : {n : Numbers} → Option (RawConfig n) → Type 0
IsSound {n} file = (config : RawConfig n) × ((file ≡ some config) × IsLinked config)

unfoldable pub Keeps : {n : Numbers} {A : Type 0} → M n A → Type 0
Keeps {n = n} m = (s : Session n) → IsSound s.config_file → IsSound (m s).1.config_file

carry_on-IsSound :
    {n : Numbers} {A B : Type 0} (r : Settled A × Session n) (f : A → M n B)
    → IsSound r.1.config_file
    → ((a : A) → Keeps (f a))
    → IsSound (carry_on r f).1.config_file
unfolding Keeps
carry_on-IsSound (returned a, s) f h k = k a s h
carry_on-IsSound (threw e, s) f h k = h

caught-IsSound :
    {n : Numbers} {A : Type 0} (r : Settled A × Session n) (handler : Thrown → M n A)
    → IsSound r.1.config_file
    → ((e : Thrown) → Keeps (handler e))
    → IsSound (caught r handler).1.config_file
unfolding Keeps
caught-IsSound (returned a, s) handler h k = h
caught-IsSound (threw e, s) handler h k = k e s h

module _ {n : Numbers} {A : Type 0} where
  pub bind-Keeps :
      {B : Type 0} (m : M n A) (f : A → M n B) → Keeps m → ((a : A) → Keeps (f a)) → Keeps (m >>= f)
  unfolding Keeps ◌>>=◌
  bind-Keeps m f h k s sound = carry_on-IsSound (m s) f (h s sound) k

  pub then-Keeps : (m : M n (Unit {0})) (k : M n A) → Keeps m → Keeps k → Keeps (m >> k)
  unfolding Keeps ◌>>◌
  then-Keeps m k h h' s sound = carry_on-IsSound (m s) (λ _. k) (h s sound) (λ _. h')

  pub try_catch-Keeps :
      (m : M n A) (handler : Thrown → M n A)
      → Keeps m
      → ((e : Thrown) → Keeps (handler e))
      → Keeps (try_catch m handler)
  unfolding Keeps try_catch
  try_catch-Keeps m handler h k s sound = caught-IsSound (m s) handler (h s sound) k

-- Of the simple steps, what they are steps of is explicit.
pub give-Keeps : (n : Numbers) {A : Type 0} (a : A) → Keeps {n = n} (give a)
unfolding Keeps give
give-Keeps n a s sound = sound

pub raise-Keeps : (n : Numbers) (A : Type 0) (e : Thrown) → Keeps {n = n} {A = A} (raise e)
unfolding Keeps raise
raise-Keeps n A e s sound = sound

pub raise_if-Keeps : (n : Numbers) (test : Bool) (e : Thrown) → Keeps {n = n} (raise_if test e)
unfolding Keeps raise_if
raise_if-Keeps n test e s sound = sound

pub current-Keeps : (n : Numbers) → Keeps {n = n} current
unfolding Keeps current
current-Keeps n s sound = sound

pub change-Keeps : {n : Numbers} (f : RawConfig n → RawConfig n) → Keeps (change f)
unfolding Keeps change
change-Keeps f s sound = sound

patched-Keeps :
    (n : Numbers) (f : Option Text → Option Text) (faults : List (Option Thrown))
    → Keeps {n = n} (patched f faults)
unfolding Keeps patched
patched-Keeps n f [] s sound = sound
patched-Keeps n f (none ∷ later) s sound = sound
patched-Keeps n f (some e ∷ later) s sound = sound

pub patch_env-Keeps : (n : Numbers) (f : Option Text → Option Text) → Keeps {n = n} (patch_env f)
unfolding Keeps patch_env
patch_env-Keeps n f s sound = patched-Keeps n f s.faults s sound

module _ {n : Numbers} (o : Outside n) where
  backed_up-Keeps :
      (parsed old : RawConfig n) (faults : List (Option Thrown))
      → IsLinked parsed
      → Keeps (backed_up o parsed old faults)
  unfolding Keeps IsSound backed_up
  backed_up-Keeps parsed old [] linked s sound = (parsed, (refl, linked))
  backed_up-Keeps parsed old (none ∷ later) linked s sound = (parsed, (refl, linked))
  backed_up-Keeps parsed old (some e ∷ later) linked s sound = sound

  written-Keeps :
      (parsed : RawConfig n) (old : Option (RawConfig n))
      → IsLinked parsed
      → Keeps (written o parsed old)
  unfolding Keeps IsSound written
  written-Keeps parsed none linked s sound = sound
  written-Keeps parsed (some old) linked s sound =
      backed_up-Keeps parsed old s.faults linked s sound

  write_config-Keeps : (parsed : RawConfig n) → IsLinked parsed → Keeps (write_config o parsed)
  unfolding Keeps write_config
  write_config-Keeps parsed linked s sound = written-Keeps parsed s.config_file linked s sound

  checked-Keeps : (r : Settled (RawConfig n)) → Keeps (checked o r)
  unfolding Keeps checked
  checked-Keeps (returned effective) s sound = sound
  checked-Keeps (threw e) s sound = sound

  check_effective-Keeps :
      (parsed : RawConfig n) (allow : Bool) → Keeps (check_effective o parsed allow)
  unfolding Keeps check_effective
  check_effective-Keeps parsed allow s sound = checked-Keeps _ _ sound

  persist_parsed-Keeps :
      (skip allow : Bool) (s : Session n) (parsed : Option (RawConfig n))
      → safe_parse o.literals s.config ≡ parsed
      → IsSound s.config_file
      → IsSound (persist_parsed o skip allow parsed s).1.config_file
  unfolding Keeps persist_parsed
  persist_parsed-Keeps skip allow s none e sound = sound
  persist_parsed-Keeps true allow s (some parsed) e sound =
      write_config-Keeps parsed (safe_parse-IsLinked o.literals s.config parsed e) s sound
  persist_parsed-Keeps false allow s (some parsed) e sound =
      then-Keeps _ _ (check_effective-Keeps parsed allow)
        (write_config-Keeps parsed (safe_parse-IsLinked o.literals s.config parsed e)) s sound

  pub persist_config-Keeps : (skip allow : Bool) → Keeps (persist_config o skip allow)
  unfolding Keeps persist_config
  persist_config-Keeps skip allow s sound =
      persist_parsed-Keeps skip allow s (safe_parse o.literals s.config) refl sound

pub ruleset keeping = (
  bind-Keeps, then-Keeps, try_catch-Keeps, give-Keeps, raise-Keeps, raise_if-Keeps, current-Keeps,
  change-Keeps, patch_env-Keeps, persist_config-Keeps,
)
