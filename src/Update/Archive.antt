-- ===== src/Update/Archive.antt =====
-- server/src/update.rs: `PreparedUpdate::from_archive`, the verified unpacking of a release.
-- SHA-256, gzip and tar are other crates; `Codec` is what the code asks of them.
pub mod Staging
pub mod Sound
pub mod Confined
use Prim.Native.Char.{Char, code}
use dookie.Base.{
  ℕ, zero, suc, ◌+◌, ◌*◌, ◌^◌, ◌≡◌, String, ◌<>◌, Bool, true, false, not, ◌&&◌, ◌||◌, Option, none,
  some, List, [], ◌∷◌, ◌++◌, leb, ltb, ◌==◌, str_eq, length, take, if◌then◌else◌,
}
use dookie.Base.Result.{Result, ok, err}
use dookie.Disk.{FilePath, IoError, Fs, Disk, write_file, touch, create_dir, read_exact}
use dookie.Update.{
  Version, UpdateError, message, io, PreparedUpdate, Semver, archive_name, Upd, ◌>>=◌, ◌>>◌,
  on_disk, lift, guard,
}
use dookie.Update.Install.{join, close}

abbrev pub max_archive : ℕ
max_archive = 100 * 1024 * 1024

abbrev pub max_binary : ℕ
max_binary = 128 * 1024 * 1024

abbrev pub max_unpacked : ℕ
max_unpacked = 2 * max_binary + 2 * 1024 * 1024

-- A tar entry: its name if that is UTF-8, its header, and what reading it gives.
pub record Entry : Type 0 where
  pub path : Option String
  pub is_dir : Bool
  pub is_file : Bool
  pub size : ℕ
  pub content : Result UpdateError (List ℕ)

-- The digest in hexadecimal; at most so many bytes of the decompressed stream; the tar entries.
pub record Codec : Type 0 where
  pub sha256 : List ℕ → String
  pub gunzip : ℕ → List ℕ → Result UpdateError (List ℕ)
  pub entries : List ℕ → Result UpdateError (List (Result UpdateError Entry))

abbrev pub bytes_eq : List ℕ → List ℕ → Bool
bytes_eq [] [] = true
bytes_eq (a ∷ xs) (b ∷ ys) = a == b && bytes_eq xs ys
bytes_eq _ _ = false

-- Thin, little-endian Mach-O 64 for x86-64.
abbrev pub mach_o : List ℕ
mach_o = 0xcf ∷ 0xfa ∷ 0xed ∷ 0xfe ∷ 0x07 ∷ 0x00 ∷ 0x00 ∷ 0x01 ∷ []

-- `char::is_whitespace`
abbrev pub is_whitespace : Char → Bool
is_whitespace ch =
    let c = code ch in
    (leb 9 c && leb c 13)
    || c == 32
    || c == 0x85
    || c == 0xa0
    || c == 0x1680
    || (leb 0x2000 c && leb c 0x200a)
    || c == 0x2028
    || c == 0x2029
    || c == 0x202f
    || c == 0x205f
    || c == 0x3000

abbrev pub flush : String → List String → List String
flush word rest = if str_eq word "" then rest else word ∷ rest

-- `str::split_whitespace`, with the word that is being read.
unfoldable pub split_from : String → String → List String
split_from word String.[] = flush word []
split_from word (String.◌∷◌ c s) =
    let next = split_from "" s in
    let more = split_from (word <> String.◌∷◌ c String.[]) s in
    if is_whitespace c then flush word next else more

abbrev pub split_whitespace : String → List String
split_whitespace = split_from ""

-- The checksum file has two fields, the digest and the name of the archive.
abbrev pub checksum_matches : String → String → List String → Bool
checksum_matches digest name (a ∷ b ∷ []) = str_eq a digest && str_eq b name
checksum_matches digest name _ = false

pub data Role : Type 0 where
  server client ignored unexpected : Role

-- The `match` on the path of an entry.
unfoldable pub role_of : Entry → Role
role_of e = elim e.path [
  | none ↦ unexpected
  | some p ↦
      if str_eq p "dookie/dookie_server"
      then server
      else if str_eq p "dookie/dookie_cli_client"
      then client
      else if (str_eq p "dookie" || str_eq p "dookie/") && e.is_dir && e.size == 0
      then ignored
      else if str_eq p "dookie/README.md" && e.is_file && leb e.size (1024 * 1024)
      then ignored
      else unexpected
]

-- A binary is written, made executable, synced, and read back for its header.
unfoldable pub stage : FilePath → Entry → Upd (Unit {0})
stage destination e = do
  on_disk (write_file destination [])
  bytes ← lift e.content
  on_disk (write_file destination bytes)
  on_disk touch
  on_disk touch
  header ← on_disk (read_exact destination 8)
  guard (bytes_eq header mach_o) (message "Release executable is not an Intel macOS binary")

pub record Found : Type 0 where
  pub server : Bool
  pub client : Bool

-- The guard before a binary is written.
abbrev pub acceptable : Bool → Entry → Bool
acceptable found e = not found && e.is_file && leb e.size max_binary

abbrev pub refusal : UpdateError
refusal = message "Duplicate, non-regular, or oversized executable in release"

unfoldable pub take_entry : FilePath → Entry → Role → Found → Upd Found
take_entry staging e server f = do
  guard (acceptable f.server e) refusal
  stage (join staging "dookie_server") e
  lift (ok (record f { server = true }))
take_entry staging e client f = do
  guard (acceptable f.client e) refusal
  stage (join staging "dookiec") e
  lift (ok (record f { client = true }))
take_entry staging e ignored f = lift (ok f)
take_entry staging e unexpected f = lift (err (message "Unexpected archive entry"))

-- The loop over the entries, with its `enumerate` counter.
unfoldable pub take_entries : FilePath → ℕ → List (Result UpdateError Entry) → Found → Upd Found
take_entries staging count [] f = lift (ok f)
take_entries staging count (r ∷ rs) f = do
  guard (ltb count 4) (message "Too many entries in release archive")
  e ← lift r
  f' ← take_entry staging e (role_of e) f
  take_entries staging (count + 1) rs f'

-- What runs while the staging directory is owned by the function.
unfoldable pub fill : Codec → FilePath → List ℕ → Upd (Unit {0})
fill codec staging unpacked = do
  entries ← lift (codec.entries unpacked)
  found ← take_entries staging 0 entries (record { server = false; client = false })
  guard (found.server && found.client) (message "Release must contain both server and CLI binaries")

-- An error drops the staging directory.
abbrev pub or_drop : FilePath → Upd (Unit {0}) → Upd (Unit {0})
or_drop staging m d =
    let (r, d') = m d in elim r [ ok _ ↦ (ok tt, d') | err e ↦ (err e, (close staging d').1) ]

-- `temp` is the random name that `tempfile` gives to the staging directory.
unfoldable pub from_archive :
    Semver → Codec → String → FilePath → Version → List ℕ → String → Upd PreparedUpdate
from_archive sv codec temp install_dir version bytes checksum = do
  guard (leb (length bytes) max_archive) (message "Release archive exceeds size limit")
  guard
      (checksum_matches (codec.sha256 bytes) (archive_name sv version) (split_whitespace checksum))
      (message "Release checksum or archive name does not match")
  unpacked ← lift (codec.gunzip (max_unpacked + 1) bytes)
  guard (leb (length unpacked) max_unpacked) (message "Unpacked release exceeds size limit")
  on_disk (create_dir (join install_dir temp))
  or_drop (join install_dir temp) (fill codec (join install_dir temp) unpacked)
  lift (
      ok (record { staging = join install_dir temp; install_dir = install_dir; version = version }))
