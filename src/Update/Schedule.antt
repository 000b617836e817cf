-- ===== src/Update/Schedule.antt =====
-- server/src/update.rs: `preflight` and `wait_for_update`; server/src/main.rs: the time of a retry.
pub mod Laws
pub mod Waiting
pub mod Confined
mod Tests
use dookie.Base.{
  ℕ, zero, suc, ◌+◌, ◌-◌, String, ◌<>◌, Bool, not, ◌||◌, ◌&&◌, Option, none, some, List, [], ◌∷◌,
  ◌++◌, leb, str_eq, if◌then◌else◌,
}
use dookie.Base.Result.{Result, ok, err}
use dookie.Base.Trim.{trim}
use dookie.Disk.{FilePath, Disk}
use dookie.Update.{Version, UpdateError, message, PreparedUpdate, Semver}
use dookie.Update.Install.{join, close}
use dookie.Update.Archive.{Codec}
use dookie.Update.Check.{Net, check_for_update}

-- Seconds.
abbrev pub day : ℕ
day = 86400

-- What a command line leaves: its output as text, or an error to start it or to end in time.
pub record Output : Type 0 where
  pub success : Bool
  pub stdout : String

abbrev pub Run : Type 0
Run = FilePath → List String → Result UpdateError Output

-- The web server, the random name of a staging directory and the command lines at one time.
pub record World : Type 0 where
  pub net : Net
  pub temp : String
  pub run : Run

-- The time after which the restarted program may try again; a clock before 1970 is not modelled.
unfoldable pub retry_after_of : ℕ → ℕ
retry_after_of now = now + day

abbrev pub min : ℕ → ℕ → ℕ
min a b = if leb a b then a else b

unfoldable pub retry_delay : Option ℕ → ℕ → ℕ
retry_delay none now = 0
retry_delay (some retry_after) now = min (retry_after - now) day

module _ (sv : Semver) where
  abbrev pub is_candidate : PreparedUpdate → Output → Bool
  is_candidate u output =
      output.success && str_eq (trim output.stdout) ("dookie_server " <> sv.show u.version)

  abbrev pub config_checked : Result UpdateError Output → Result UpdateError (Unit {0})
  config_checked (err e) = err e
  config_checked (ok output) =
      if output.success
      then ok tt
      else err (message "Candidate cannot read the existing configuration")

  unfoldable pub preflight : Run → PreparedUpdate → List String → Result UpdateError (Unit {0})
  preflight run u args =
      let binary = join u.staging "dookie_server" in
      elim (run binary ("--version" ∷ [])) [
        | err e ↦ err e
        | ok output ↦
            if not (is_candidate u output)
            then err (message "Candidate version check failed")
            else config_checked (run binary (args ++ "--check-config" ∷ []))
      ]

  -- An update that is not returned is dropped, and with it its staging directory.
  abbrev pub keep_or_drop :
      PreparedUpdate → Result UpdateError (Unit {0}) → Disk → Option PreparedUpdate × Disk
  keep_or_drop u (ok _) d = (some u, d)
  keep_or_drop u (err _) d = (none, (close u.staging d).1)

  module _ (codec : Codec) (install_dir : FilePath) (current : Version) (args : List String) where
    abbrev pub after_check :
        Run → Result UpdateError (Option PreparedUpdate) → Disk → Option PreparedUpdate × Disk
    after_check run (ok (some u)) d = keep_or_drop u (preflight run u args) d
    after_check run (ok none) d = (none, d)
    after_check run (err _) d = (none, d)

    -- One round of the loop.
    unfoldable pub attempt : World → Disk → Option PreparedUpdate × Disk
    attempt w d =
        let (r, d') = check_for_update sv codec w.net w.temp install_dir current d in
        after_check w.run r d'

    module _ (world : ℕ → World) where
      -- The rounds that the fuel gives, a day apart; an update comes with the time of its round.
      unfoldable pub attempts : ℕ → ℕ → Disk → Option (ℕ × PreparedUpdate) × Disk
      attempts zero time d = (none, d)
      attempts (suc n) time d =
          let (o, d') = attempt (world time) d in
          elim o [ some u ↦ (some (time, u), d') | none ↦ attempts n (time + day) d' ]

      -- `supported`: an Intel Mac, and the program runs from its installed path; else it waits for
      -- ever. `retry_after` is the variable of the environment, if it is there and a number.
      unfoldable pub wait_for_update :
          Bool → Option ℕ → ℕ → ℕ → Disk → Option (ℕ × PreparedUpdate) × Disk
      wait_for_update supported retry_after now n d =
          if supported then attempts n (now + retry_delay retry_after now) d else (none, d)
