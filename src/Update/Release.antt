-- ===== src/Update/Release.antt =====
-- server/src/update.rs: `Release::newer_version` and `Release::asset_url`.
pub mod Laws
use Prim.Native.Char.{code}
use dookie.Base.{
  String, ◌<>◌, Bool, true, false, not, ◌||◌, Option, none, some, List, [], ◌∷◌, ◌==◌, str_eq,
  keep_if, if◌then◌else◌,
}
use dookie.Base.Result.{Result, ok, err, ok_or, ◌>>=◌}
use dookie.Update.{Version, UpdateError, message, Semver}

pub record Asset : Type 0 where
  pub name : String
  pub browser_download_url : String

pub record Release : Type 0 where
  pub tag_name : String
  pub draft : Bool
  pub prerelease : Bool
  pub assets : List Asset

-- `str::strip_prefix('v')`
abbrev pub strip_v : String → Option String
strip_v String.[] = none
strip_v (String.◌∷◌ c s) = if code c == b'v' then some s else none

-- Whether a parsed version is passed over.
abbrev pub is_stale : Semver → Version → Version → Bool
is_stale sv version current =
    not (str_eq version.pre "") || not (str_eq version.build "") || sv.le version current

unfoldable pub newer_version : Semver → Release → Version → Result UpdateError (Option Version)
newer_version sv r current = if r.draft || r.prerelease then ok none else do
  tag ← ok_or (strip_v r.tag_name) (message "Missing v tag prefix")
  version ← ok_or (sv.parse tag) (message "invalid version")
  if is_stale sv version current then ok none else ok (some version)

abbrev pub download_base : String
download_base = "https://github.com/f3lixding/dookie/releases/download"

abbrev pub expected_url : Release → String → String
expected_url r name = download_base <> "/" <> r.tag_name <> "/" <> name

-- The assets of that name; there must be one, at the expected address.
pick : String → List Asset → Result UpdateError String
pick expected [] = err (message "Release asset is missing")
pick expected (a ∷ []) =
    if str_eq a.browser_download_url expected
    then ok expected
    else err (message "Unexpected release asset URL or duplicate asset")
pick expected (a ∷ b ∷ rest) = err (message "Unexpected release asset URL or duplicate asset")

unfoldable pub asset_url : Release → String → Result UpdateError String
unfolding pick
asset_url r name = pick (expected_url r name) (keep_if (λ a. str_eq a.name name) r.assets)
