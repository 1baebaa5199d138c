-- ===== src/Cli/Session.antt =====
-- What a command of src/cli works on: the configuration in memory, the files, the environment of the process;
-- with src/cli/services/config-persistence.service.ts.
pub mod Keeping
pub mod Settling
use ai_provider_gateway.Prelude.{
  Bool, true, false, Option, none, some, String, List, [], ◌∷◌, if◌then◌else◌,
}
use ai_provider_gateway.Prelude.Texts.{Text}
use ai_provider_gateway.Errors.{
  Thrown, http, error, thrown_text, thrown_undefined, Settled, returned, threw,
}
use ai_provider_gateway.Errors
use ai_provider_gateway.Params.Numbers.{Numbers}
use ai_provider_gateway.Config.Rows.{RawConfig}
use ai_provider_gateway.Config.Secrets.{Env}
use ai_provider_gateway.Config.Schema.{Literals, safe_parse}
use ai_provider_gateway.Config.Effective.{build_effective_gateway_config}

-- `prompts` are the aliases whose prompt files are there. `faults` tells of each write of
-- a file to come what it rejects with, if anything; those beyond the list go through.
pub record Session (n : Numbers) : Type 0 where
  pub config : RawConfig n
  pub config_file : Option (RawConfig n)
  pub backups : List (RawConfig n)
  pub env_file : Option Text
  pub process_env : Env
  pub prompts : List String
  pub faults : List (Option Thrown)

-- What is not in the repository, or is terminal output: the URL parser; `dotenv`, which
-- copies the variables of a file into an environment; the trimming of names; the texts of
-- ValidationFormatter; and what the system says of a file that is not there.
pub record Outside (n : Numbers) : Type 0 where
  pub literals : Literals n
  pub is_http_url : Text → Bool
  pub load_env : Option Text → Env → Env
  pub trim : String → String
  pub format_zod_error : RawConfig n → Text
  pub format_runtime_error : Thrown → Text
  pub no_such_file : Text

-- An async method: it settles, and what it changed stays changed when it throws.
abbrev pub M : Numbers → Type 0 → Type 0
M n A = Session n → Settled A × Session n

abbrev pub carry_on :
    {n : Numbers} {A B : Type 0} → Settled A × Session n → (A → M n B) → Settled B × Session n
carry_on (returned a, s) f = f a s
carry_on (threw e, s) f = (threw e, s)

abbrev pub caught :
    {n : Numbers} {A : Type 0} → Settled A × Session n → (Thrown → M n A) → Settled A × Session n
caught (returned a, s) handler = (returned a, s)
caught (threw e, s) handler = handler e s

infixl 5 ◌>>=◌ ◌>>◌
unfoldable pub ◌>>=◌ : {n : Numbers} {A B : Type 0} → M n A → (A → M n B) → M n B
◌>>=◌ m f s = carry_on (m s) f

unfoldable pub ◌>>◌ : {n : Numbers} {B : Type 0} → M n (Unit {0}) → M n B → M n B
◌>>◌ m k s = carry_on (m s) (λ _. k)

-- `try { m } catch (e) { handler(e) }`
unfoldable pub try_catch : {n : Numbers} {A : Type 0} → M n A → (Thrown → M n A) → M n A
try_catch m handler s = caught (m s) handler

unfoldable pub give : {n : Numbers} {A : Type 0} → A → M n A
give a s = (returned a, s)

unfoldable pub raise : {n : Numbers} {A : Type 0} → Thrown → M n A
raise e s = (threw e, s)

unfoldable pub raise_if : {n : Numbers} → Bool → Thrown → M n (Unit {0})
raise_if test e s = (Errors.throw_if test e, s)

unfoldable pub current : {n : Numbers} → M n (RawConfig n)
current s = (returned s.config, s)

unfoldable pub change : {n : Numbers} → (RawConfig n → RawConfig n) → M n (Unit {0})
change f s = (returned tt, record s { config = f s.config })

unfoldable pub patched :
    {n : Numbers} → (Option Text → Option Text) → List (Option Thrown) → M n (Unit {0})
patched f [] s = (returned tt, record s { env_file = f s.env_file; faults = [] })
patched f (none ∷ later) s = (returned tt, record s { env_file = f s.env_file; faults = later })
patched f (some e ∷ later) s = (threw e, record s { faults = later })

unfoldable pub patch_env : {n : Numbers} → (Option Text → Option Text) → M n (Unit {0})
unfolding patched
patch_env f s = patched f s.faults s

module _ {n : Numbers} (o : Outside n) where
  open o use {literals, is_http_url, load_env, format_zod_error, format_runtime_error, no_such_file}

  -- backupFile and writeYaml of a file that is there: both happen, or the write rejects and neither does.
  unfoldable pub backed_up : RawConfig n → RawConfig n → List (Option Thrown) → M n (RawConfig n)
  backed_up parsed old [] s = (
    returned parsed,
    record s { config_file = some parsed; backups = old ∷ s.backups; faults = [] },
  )
  backed_up parsed old (none ∷ later) s = (
    returned parsed,
    record s { config_file = some parsed; backups = old ∷ s.backups; faults = later },
  )
  backed_up parsed old (some e ∷ later) s = (threw e, record s { faults = later })

  -- A file that is not there cannot be copied.
  unfoldable pub written : RawConfig n → Option (RawConfig n) → M n (RawConfig n)
  unfolding backed_up
  written parsed none s = (threw (error no_such_file), s)
  written parsed (some old) s = backed_up parsed old s.faults s

  unfoldable pub write_config : RawConfig n → M n (RawConfig n)
  unfolding written
  write_config parsed s = written parsed s.config_file s

  unfoldable pub checked : Settled (RawConfig n) → M n (Unit {0})
  checked (returned effective) s = (returned tt, s)
  checked (threw e) s = (threw (error (format_runtime_error e)), s)

  -- The variables of .env are copied into the environment before the check.
  unfoldable pub check_effective : RawConfig n → (allow : Bool) → M n (Unit {0})
  unfolding checked
  check_effective parsed allow s =
      let env = load_env s.env_file s.process_env in
      checked (build_effective_gateway_config is_http_url parsed env allow)
        (record s { process_env = env })

  unfoldable pub persist_parsed : (skip allow : Bool) → Option (RawConfig n) → M n (RawConfig n)
  persist_parsed skip allow none s = (threw (error (format_zod_error s.config)), s)
  persist_parsed true allow (some parsed) s = write_config parsed s
  persist_parsed false allow (some parsed) s =
      (check_effective parsed allow >> write_config parsed) s

  -- `skip` is skipEffectiveCheck, `allow` allowMissingProviderSecrets. In what the schema gives, `enabled` is
  -- set, so that normalizeGatewayConfigForWrite changes nothing.
  unfoldable pub persist_config : (skip allow : Bool) → M n (RawConfig n)
  unfolding persist_parsed
  persist_config skip allow s = persist_parsed skip allow (safe_parse literals s.config) s
