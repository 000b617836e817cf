-- ===== src/Logging.antt =====
-- server/src/logging.rs: the removal of old files from the directory of the logs. What the system says
-- of the directory and of the time is an argument of each round.
pub mod Pass
pub mod Retention
mod Tests
use dookie.Base.{ℕ, ◌*◌, ◌-◌, ◌/◌, Bool, true, false, List, [], ◌∷◌, ltb, if◌then◌else◌}
use dookie.Base.Result.{Result, ok, err}
use dookie.Disk.{FilePath, IoError, Io, remove_file}

-- `modified` is what `metadata`, of it `modified`, and its distance from the epoch give, in
-- nanoseconds.
pub record LogFile : Type 0 where
  pub path : FilePath
  pub modified : Result IoError ℕ

-- Seven days, in seconds.
abbrev pub threshold : ℕ
threshold = 60 * 60 * 24 * 7

-- `now.saturating_sub(modified)`, in whole seconds.
abbrev pub age_secs : ℕ → ℕ → ℕ
age_secs now modified = (now - modified) / 1000000000

-- The `while let` over the entries, which an entry that cannot be read ends.
unfoldable pub remove_old : ℕ → List (Result IoError LogFile) → Io (Unit {0})
remove_old now [] d = (ok tt, d)
remove_old now (err e ∷ rest) d = (ok tt, d)
remove_old now (ok file ∷ rest) d = elim file.modified [
  | err e ↦ (err e, d)
  | ok modified ↦ elim (ltb threshold (age_secs now modified)) [
    | false ↦ remove_old now rest d
    | true ↦
        let (r, d') = remove_file file.path d in
        elim r [ ok _ ↦ remove_old now rest d' | err e ↦ (err e, d') ]
  ]
]

-- What one round of the loop meets: `read_dir`, and the time.
pub record Round : Type 0 where
  pub files : Result IoError (List (Result IoError LogFile))
  pub now : Result IoError ℕ

abbrev pub round : Round → Io (Unit {0})
round r d = elim r.files [
  | err e ↦ (err e, d)
  | ok files ↦ elim r.now [ err e ↦ (err e, d) | ok now ↦ remove_old now files d ]
]

-- The rounds until the message that ends the task, a day apart; an error ends it at once.
unfoldable pub retain : List Round → Io (Unit {0})
retain [] d = (ok tt, d)
retain (r ∷ rounds) d =
    let (result, d') = round r d in elim result [ ok _ ↦ retain rounds d' | err e ↦ (err e, d') ]
