-- ===== src/Update/Check/Sound.antt =====
-- What an offered update is, and what checking for one may change.
use mathlib.Core.Path.{subst}
use mathlib.Core.Option.{some-injective}
use dookie.Base.{
  ℕ, ◌*◌, ◌≡◌, refl, ◌∙◌, String, ◌<>◌, Bool, true, false, Option, none, some, List, ◌==◌, arith,
  if◌then◌else◌,
}
use dookie.Base.Result.{ok, ok-injective}
use dookie.Disk.{FilePath, Disk, Fs}
use dookie.Disk.Paths.{strip_prefix}
use dookie.Update.{Version, PreparedUpdate, Semver, archive_name, ◌>>=◌, lift}
use dookie.Update.Steps.{
  Leaves, leaves_rules, Leaves-bind, Leaves-lift, Ensures, Ensures-bind, Ensures-lift, Ensures-step,
}
use dookie.Update.Install.{join}
use dookie.Update.Archive.{Codec, from_archive, max_archive}
use dookie.Update.Archive.Sound.{IsVerified, from_archive_sound}
use dookie.Update.Archive.Confined.{from_archive_confined}
use dookie.Update.Release.{Release, newer_version, asset_url}
use dookie.Update.Release.Laws.{IsNewer, newer_version_exact}
use dookie.Update.Download.{Response, read_response}
use dookie.Update.Check.{Net, release_api, fetch, fetch_if, check_for_update}

module _ (sv : Semver) (codec : Codec) (net : Net) (temp : String) (install_dir : FilePath)
    (current : Version) where
  -- The update is a release above the running version; its archive and its checksum file came,
  -- whole and within their limits, from the addresses of its own assets; and the archive was
  -- verified against that checksum file.
  pub record IsOffered (u : PreparedUpdate) (fs : Fs) : Type 0 where
    pub release : Release
    pub version : Version
    pub newer : IsNewer sv release current version
    pub archive_url : String
    pub archive_asset : asset_url release (archive_name sv version) ≡ ok archive_url
    pub archive_response : Response
    pub archive_answer : net.get archive_url ≡ ok archive_response
    pub archive : List ℕ
    pub archive_read : read_response archive_response max_archive ≡ ok archive
    pub checksum_url : String
    pub checksum_asset : asset_url release (archive_name sv version <> ".sha256") ≡ ok checksum_url
    pub checksum_response : Response
    pub checksum_answer : net.get checksum_url ≡ ok checksum_response
    pub checksum : List ℕ
    pub checksum_read : read_response checksum_response 4096 ≡ ok checksum
    pub text : String
    pub decoded : net.from_utf8 checksum ≡ ok text
    pub verified : IsVerified sv codec temp install_dir version archive text u fs

  abbrev Offers : Option PreparedUpdate → Disk → Type 0
  Offers o d = (u : PreparedUpdate) → o ≡ some u → IsOffered u d.fs

  fetch_ensures :
      (release : Release) (version : Version)
      → IsNewer sv release current version
      → Ensures
          (λ _. Unit {0})
          (fetch sv codec net temp install_dir release version)
          (λ u d. IsOffered u d.fs)
  unfolding fetch
  fetch_ensures release version n = Ensures-step _ _ λ archive_url archive_asset.
      Ensures-step _ _ λ checksum_url checksum_asset.
        Ensures-step _ _ λ checksum_response checksum_answer.
          Ensures-step _ _ λ checksum checksum_read.
            Ensures-step _ _ λ archive_response archive_answer.
              Ensures-step _ _ λ archive archive_read. Ensures-step _ _ λ text decoded. record {
                at = λ d p u h. record {
                  release = release;
                  version = version;
                  newer = n;
                  archive_url = archive_url;
                  archive_asset = archive_asset;
                  archive_response = archive_response;
                  archive_answer = archive_answer;
                  archive = archive;
                  archive_read = archive_read;
                  checksum_url = checksum_url;
                  checksum_asset = checksum_asset;
                  checksum_response = checksum_response;
                  checksum_answer = checksum_answer;
                  checksum = checksum;
                  checksum_read = checksum_read;
                  text = text;
                  decoded = decoded;
                  verified =
                      from_archive_sound sv codec temp install_dir version archive text d u h;
                };
              }

  fetch_if_ensures :
      (release : Release) (o : Option Version)
      → newer_version sv release current ≡ ok o
      → Ensures (λ _. Unit {0}) (fetch_if sv codec net temp install_dir release o) Offers
  fetch_if_ensures release none e = Ensures-lift _ (λ d a p h u q. absurd (ground arith))
  fetch_if_ensures release (some version) e =
      Ensures-bind _ _ (λ u d. IsOffered u d.fs)
        (fetch_ensures release version ((newer_version_exact sv release current version).0 e))
        λ u.
          Ensures-lift _
            λ d a p h v q. subst (λ x. IsOffered x d.fs) (some-injective _ _ (ok-injective h ∙ q)) p

  rest_ensures :
      (response : Response) (not_found : Bool)
      → Ensures
          (λ _. Unit {0})
          (if not_found then lift (ok none) else do
            bytes ← lift (read_response response (1024 * 1024))
            release ← lift (net.parse_release bytes)
            version ← lift (newer_version sv release current)
            fetch_if sv codec net temp install_dir release version)
          Offers
  rest_ensures response true = Ensures-lift _ (λ d a p h u q. absurd (ground arith))
  rest_ensures response false = Ensures-step _ _ λ bytes _.
      Ensures-step _ _ λ release _. Ensures-step _ _ λ version n. fetch_if_ensures release version n

  -- An update that is offered is a newer stable release, downloaded whole and within its limits
  -- from the release's own addresses, and verified.
  pub check_for_update_sound :
      (d : Disk) (u : PreparedUpdate)
      → (check_for_update sv codec net temp install_dir current d).0 ≡ ok (some u)
      → IsOffered u (check_for_update sv codec net temp install_dir current d).1.fs
  unfolding check_for_update
  check_for_update_sound d u h =
      (Ensures-step {P = λ _. Unit {0}} {R = Offers} (net.get release_api) _
          λ response _. rest_ensures response (response.status == 404)).at
        d tt (some u) h u refl

  module _ (q : FilePath) (outside : strip_prefix (join install_dir temp) q ≡ none) where
    archive-Leaves :
        (version : Version) (archive : List ℕ) (text : String)
        → Leaves q (from_archive sv codec temp install_dir version archive text)
    archive-Leaves version archive text = record {
      at = λ d. from_archive_confined sv codec temp install_dir version archive text q d outside;
    }

    fetch-Leaves :
        (release : Release) (version : Version)
        → Leaves q (fetch sv codec net temp install_dir release version)
    unfolding fetch
    fetch-Leaves release version = search (leaves_rules, archive-Leaves) depth 20

    fetch_if-Leaves :
        (release : Release) (o : Option Version)
        → Leaves q (fetch_if sv codec net temp install_dir release o)
    fetch_if-Leaves release none = search leaves_rules
    fetch_if-Leaves release (some version) = search (leaves_rules, fetch-Leaves) depth 8

    rest-Leaves :
        (response : Response) (not_found : Bool)
        → Leaves q (
            if not_found then lift (ok none) else do
              bytes ← lift (read_response response (1024 * 1024))
              release ← lift (net.parse_release bytes)
              version ← lift (newer_version sv release current)
              fetch_if sv codec net temp install_dir release version)
    rest-Leaves response true = search leaves_rules
    rest-Leaves response false = search (leaves_rules, fetch_if-Leaves) depth 12

    -- Looking for an update changes nothing outside the staging directory, whatever the web server
    -- answers and whatever calls fail.
    pub check_for_update_confined :
        (d : Disk) → (check_for_update sv codec net temp install_dir current d).1.fs q ≡ d.fs q
    unfolding check_for_update
    check_for_update_confined d =
        (Leaves-bind q (lift (net.get release_api)) _ (Leaves-lift q (net.get release_api))
            (λ response. rest-Leaves response (response.status == 404))).at
          d
