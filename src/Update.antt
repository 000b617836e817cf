-- ===== src/Update.antt =====
-- server/src/update.rs: release checks, the verified archive, installation with rollback.
pub mod Steps
pub mod Install
pub mod Archive
pub mod Release
pub mod Download
pub mod Check
pub mod Schedule
mod Tests
use dookie.Base.{ℕ, String, ◌<>◌, Bool, Option, List, if◌then◌else◌}
use dookie.Base.Result.{Result, ok, err, map_err}
use dookie.Disk.{FilePath, IoError, Disk, Io}

-- The fields of `semver::Version`, a type of another crate.
pub record Version : Type 0 where
  pub major : ℕ
  pub minor : ℕ
  pub patch : ℕ
  pub pre : String
  pub build : String

-- `Box<dyn Error>`, as far as a caller tells its contents apart.
pub data UpdateError : Type 0 where
  message : String → UpdateError
  io : IoError → UpdateError
  rollback_incomplete : List (FilePath × IoError) → UpdateError

-- Both verified executables, staged on the installation file system.
pub record PreparedUpdate : Type 0 where
  pub staging : FilePath
  pub install_dir : FilePath
  pub version : Version

abbrev pub Replacement : Type 0
Replacement = FilePath × Option FilePath

pub record InstalledUpdate : Type 0 where
  pub server : FilePath
  pub replacements : List Replacement

-- Steps on the disk that may fail with an `UpdateError`.
abbrev pub Upd : Type 0 → Type 0
Upd A = Disk → Result UpdateError A × Disk

pub on_disk : {A : Type 0} → Io A → Upd A
on_disk m d = let (r, d') = m d in (map_err io r, d')

pub lift : {A : Type 0} → Result UpdateError A → Upd A
lift r d = (r, d)

pub guard : Bool → UpdateError → Upd (Unit {0})
guard b e d = if b then (ok tt, d) else (err e, d)

infixl 5 ◌>>=◌ ◌>>◌
-- Opening this opens the three steps above too.
unfoldable pub ◌>>=◌ : {A B : Type 0} → Upd A → (A → Upd B) → Upd B
unfolding on_disk lift guard
◌>>=◌ m f d = let (r, d') = m d in elim r [ ok a ↦ f a d' | err e ↦ (err e, d') ]

abbrev pub ◌>>◌ : {A B : Type 0} → Upd A → Upd B → Upd B
m >> k = m >>= λ _. k

-- The `Display` of `semver::Version` and its parser and order, which are that crate's.
pub record Semver : Type 0 where
  pub parse : String → Option Version
  pub le : Version → Version → Bool
  pub show : Version → String

abbrev pub archive_name : Semver → Version → String
archive_name sv v = "dookie-v" <> sv.show v <> "-x86_64-apple-darwin.tar.gz"
