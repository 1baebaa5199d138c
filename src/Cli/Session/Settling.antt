-- ===== src/Cli/Session/Settling.antt =====
-- What persistConfig of src/cli/services/config-persistence.service.ts leaves behind when it throws.
use ai_provider_gateway.Prelude.{◌≡◌, refl, Bool, true, false, Option, none, some, List, [], ◌∷◌}
use ai_provider_gateway.Errors.{Thrown, Settled, returned, threw}
use ai_provider_gateway.Params.Numbers.{Numbers}
use ai_provider_gateway.Config.Rows.{RawConfig}
use ai_provider_gateway.Config.Schema.{safe_parse}
use ai_provider_gateway.Config.Effective.{build_effective_gateway_config}
use ai_provider_gateway.Cli.Session.{
  Session, Outside, persist_config, persist_parsed, backed_up, written, write_config, checked,
  check_effective, carry_on, ◌>>◌,
}

-- The configuration in memory is not touched, and the file only where nothing is thrown.
pub record Saves {n : Numbers} (s : Session n) (r : Settled (RawConfig n) × Session n)
    : Type 0 where
  pub same_config : r.1.config ≡ s.config
  pub same_file : (e : Thrown) → r.0 ≡ threw e → r.1.config_file ≡ s.config_file

module _ {n : Numbers} (o : Outside n) where
  backed_up-Saves :
      (parsed old : RawConfig n) (faults : List (Option Thrown)) (s : Session n)
      → Saves s (backed_up o parsed old faults s)
  unfolding backed_up
  backed_up-Saves parsed old [] s = record { same_config = refl; same_file = λ e h. cc }
  backed_up-Saves parsed old (none ∷ later) s = record { same_config = refl; same_file = λ e h. cc }
  backed_up-Saves parsed old (some e' ∷ later) s = record {
    same_config = refl;
    same_file = λ e h. refl;
  }

  written-Saves :
      (parsed : RawConfig n) (old : Option (RawConfig n)) (s : Session n)
      → Saves s (written o parsed old s)
  unfolding written
  written-Saves parsed none s = record { same_config = refl; same_file = λ e h. refl }
  written-Saves parsed (some old) s = backed_up-Saves parsed old s.faults s

  -- The check changes the environment alone.
  checked-Saves :
      (parsed : RawConfig n) (r : Settled (RawConfig n)) (s : Session n)
      → Saves s (carry_on (checked o r s) (λ _. write_config o parsed))
  unfolding checked write_config
  checked-Saves parsed (returned effective) s = written-Saves parsed s.config_file s
  checked-Saves parsed (threw e) s = record { same_config = refl; same_file = λ e' h. refl }

  persist_parsed-Saves :
      (skip allow : Bool) (parsed : Option (RawConfig n)) (s : Session n)
      → Saves s (persist_parsed o skip allow parsed s)
  unfolding persist_parsed write_config check_effective ◌>>◌
  persist_parsed-Saves skip allow none s = record { same_config = refl; same_file = λ e h. refl }
  persist_parsed-Saves true allow (some parsed) s = written-Saves parsed s.config_file s
  persist_parsed-Saves false allow (some parsed) s =
      let r =
        checked-Saves parsed
          (build_effective_gateway_config o.is_http_url parsed (o.load_env s.env_file s.process_env)
            allow)
          (record s { process_env = o.load_env s.env_file s.process_env }) in
      record { same_config = r.same_config; same_file = r.same_file }

  pub persist_config-Saves :
      (skip allow : Bool) (s : Session n) → Saves s (persist_config o skip allow s)
  unfolding persist_config
  persist_config-Saves skip allow s =
      persist_parsed-Saves skip allow (safe_parse o.literals s.config) s
