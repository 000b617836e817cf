-- ===== src/Update/Check.antt =====
-- server/src/update.rs: `check_for_update`. The answers of the web server, the decoding of JSON and
-- of UTF-8 are parameters.
pub mod Sound
pub mod Exact
use dookie.Base.{ℕ, ◌*◌, String, ◌<>◌, Option, none, some, List, ◌==◌, if◌then◌else◌}
use dookie.Base.Result.{Result, ok, err}
use dookie.Disk.{FilePath}
use dookie.Update.{
  Version, UpdateError, PreparedUpdate, Semver, archive_name, Upd, ◌>>=◌, ◌>>◌, lift,
}
use dookie.Update.Archive.{Codec, from_archive, max_archive}
use dookie.Update.Release.{Release, newer_version, asset_url}
use dookie.Update.Download.{Response, read_response}

pub record Net : Type 0 where
  pub get : String → Result UpdateError Response
  pub parse_release : List ℕ → Result UpdateError Release
  pub from_utf8 : List ℕ → Result UpdateError String

abbrev pub release_api : String
release_api = "https://api.github.com/repos/f3lixding/dookie/releases/latest"

module _ (sv : Semver) (codec : Codec) (net : Net) (temp : String) (install_dir : FilePath) where
  -- From the choice of the assets on.
  unfoldable pub fetch : Release → Version → Upd PreparedUpdate
  fetch release version = do
    archive_url ← lift (asset_url release (archive_name sv version))
    checksum_url ← lift (asset_url release (archive_name sv version <> ".sha256"))
    checksum_response ← lift (net.get checksum_url)
    checksum ← lift (read_response checksum_response 4096)
    archive_response ← lift (net.get archive_url)
    archive ← lift (read_response archive_response max_archive)
    text ← lift (net.from_utf8 checksum)
    from_archive sv codec temp install_dir version archive text

  abbrev pub fetch_if : Release → Option Version → Upd (Option PreparedUpdate)
  fetch_if release none = lift (ok none)
  fetch_if release (some version) = do update ← fetch release version; lift (ok (some update))

  unfoldable pub check_for_update : Version → Upd (Option PreparedUpdate)
  check_for_update current = do
    response ← lift (net.get release_api)
    if response.status == 404 then lift (ok none) else do
      bytes ← lift (read_response response (1024 * 1024))
      release ← lift (net.parse_release bytes)
      version ← lift (newer_version sv release current)
      fetch_if release version
