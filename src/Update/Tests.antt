-- ===== src/Update/Tests.antt =====
-- A release that is offered, with its archive and its download, and the theorems at them.
use dookie.Base.{
  ℕ, String, ◌≡◌, ◌↔◌, ◌≤◌, refl, true, false, none, some, List, [], ◌∷◌, ◌++◌, ◌==◌, keep_if,
  str_eq, if◌then◌else◌,
}
use dookie.Base.Result.{ok}
use dookie.Disk.{FilePath, dir, put, Disk, create_dir, write_file, touch, read_exact}
use dookie.Update.{Version, PreparedUpdate, Semver, ◌>>=◌}
use dookie.Update.Archive.{
  Entry, Codec, mach_o, split_from, role_of, stage, take_entry, take_entries, fill, from_archive,
}
use dookie.Update.Archive.Sound.{IsVerified, from_archive_sound}
use dookie.Update.Check.{Net, fetch, check_for_update}
use dookie.Update.Check.Exact.{answers_exact}
use dookie.Update.Check.Sound.{IsOffered, check_for_update_sound}
use dookie.Update.Download.{Response, error_for_status, exceeds, read_response}
use dookie.Update.Download.Bounds.{chunks_of, body}
use dookie.Update.Install.{join}
use dookie.Update.Release.{Asset, Release, expected_url, newer_version, asset_url}
use dookie.Update.Release.Laws.{IsNewer}

abbrev pub old_version : Version
old_version = record { major = 1; minor = 0; patch = 0; pre = ""; build = "" }

abbrev new_version : Version
new_version = record { major = 1; minor = 1; patch = 0; pre = ""; build = "" }

-- Two versions only, told apart by their minor number.
abbrev pub sv : Semver
sv = record {
  parse = λ s. if str_eq s "1.1.0" then some new_version else none;
  le = λ a b. if a.minor == 1 then b.minor == 1 else true;
  show = λ v. if v.minor == 1 then "1.1.0" else "1.0.0";
}

abbrev entry : String → Entry
entry path = record {
  path = some path;
  is_dir = false;
  is_file = true;
  size = 9;
  content = ok (mach_o ++ 1 ∷ []);
}

abbrev pub codec : Codec
codec = record {
  sha256 = λ bytes. "abc";
  gunzip = λ limit bytes. ok bytes;
  entries =
      λ bytes. ok (ok (entry "dookie/dookie_server") ∷ ok (entry "dookie/dookie_cli_client") ∷ []);
}

abbrev pub home : FilePath
home = "opt" ∷ []

abbrev pub disk : Disk
disk = record { fs = put (λ p. none) home (some dir); fails = λ n. false; calls = 0 }

abbrev checksum : String
checksum = "abc dookie-v1.1.0-x86_64-apple-darwin.tar.gz"

abbrev archive_asset : Asset
archive_asset = record {
  name = "dookie-v1.1.0-x86_64-apple-darwin.tar.gz";
  browser_download_url =
      "https://github.com/f3lixding/dookie/releases/download/v1.1.0/dookie-v1.1.0-x86_64-apple-darwin.tar.gz";
}

abbrev checksum_asset : Asset
checksum_asset = record {
  name = "dookie-v1.1.0-x86_64-apple-darwin.tar.gz.sha256";
  browser_download_url =
      "https://github.com/f3lixding/dookie/releases/download/v1.1.0/dookie-v1.1.0-x86_64-apple-darwin.tar.gz.sha256";
}

abbrev release : Release
release = record {
  tag_name = "v1.1.0";
  draft = false;
  prerelease = false;
  assets = archive_asset ∷ checksum_asset ∷ [];
}

abbrev response : Response
response = record {
  status = 200;
  content_length = some 3;
  chunks = ok (1 ∷ 2 ∷ []) ∷ ok (3 ∷ []) ∷ [];
}

abbrev pub net : Net
net = record {
  get = λ url. ok response;
  parse_release = λ bytes. ok release;
  from_utf8 = λ bytes. ok checksum;
}

abbrev pub update : PreparedUpdate
update = record { staging = join home "tmp"; install_dir = home; version = new_version }

archive_ok :
    (from_archive sv codec "tmp" home new_version (1 ∷ 2 ∷ 3 ∷ []) checksum disk).0 ≡ ok update
unfolding from_archive fill take_entries take_entry role_of stage split_from create_dir write_file
    touch read_exact ◌>>=◌
archive_ok = refl

from_archive_sound_example :
    IsVerified sv codec "tmp" home new_version
      (1 ∷ 2 ∷ 3 ∷ [])
      checksum
      update
      (from_archive sv codec "tmp" home new_version (1 ∷ 2 ∷ 3 ∷ []) checksum disk).1.fs
from_archive_sound_example =
    from_archive_sound sv codec "tmp" home new_version (1 ∷ 2 ∷ 3 ∷ []) checksum disk update
      archive_ok

offered : (check_for_update sv codec net "tmp" home old_version disk).0 ≡ ok (some update)
unfolding check_for_update fetch newer_version asset_url read_response from_archive fill
    take_entries take_entry role_of stage split_from create_dir write_file touch read_exact ◌>>=◌
offered = refl

check_for_update_sound_example :
    IsOffered sv codec net "tmp" home old_version update
      (check_for_update sv codec net "tmp" home old_version disk).1.fs
check_for_update_sound_example =
    check_for_update_sound sv codec net "tmp" home old_version disk update offered

answers_exact_example :
    ((newer_version sv release old_version ≡ ok (some new_version))
      ↔ IsNewer sv release old_version new_version)
    × ((asset_url release archive_asset.name ≡ ok archive_asset.browser_download_url) ↔ (
        (a : Asset) × (keep_if (λ (b : Asset). str_eq b.name archive_asset.name) release.assets
          ≡ a ∷ [])
        × (a.browser_download_url ≡ expected_url release archive_asset.name)
        × (archive_asset.browser_download_url ≡ expected_url release archive_asset.name)))
    × ((read_response response 3 ≡ ok (1 ∷ 2 ∷ 3 ∷ [])) ↔ (
        (error_for_status 200 ≡ ok tt)
        × (exceeds (some 3) 3 ≡ false)
        × ((cs : List (List ℕ)) × (response.chunks ≡ chunks_of cs)
            × ((1 ∷ 2 ∷ 3 ∷ []) ≡ body cs)
            × (3 ≤ 3))))
answers_exact_example =
    answers_exact sv release old_version new_version archive_asset.name
      archive_asset.browser_download_url response 3 (1 ∷ 2 ∷ 3 ∷ [])
