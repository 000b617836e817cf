-- ===== src/Update/Check/Exact.antt =====
-- What the check asks of each answer that it gets.
use dookie.Base.{ℕ, ◌≤◌, String, ◌≡◌, ◌↔◌, false, some, List, [], ◌∷◌, length, keep_if, str_eq}
use dookie.Base.Result.{ok}
use dookie.Update.{Version, Semver}
use dookie.Update.Download.{Response, error_for_status, exceeds, read_response}
use dookie.Update.Download.Bounds.{chunks_of, body, read_response_exact}
use dookie.Update.Release.{Asset, Release, expected_url, newer_version, asset_url}
use dookie.Update.Release.Laws.{IsNewer, newer_version_exact, asset_url_exact}

-- A version is offered exactly if the release is published and stable, its tag is `v` and that
-- version, the version has no pre-release and no build part, and it is above the current one; an
-- address is given exactly if one asset alone has the name, and its address is the one below the
-- repository's own releases, which is then given; and a download returns these bytes exactly if the
-- status is no error, the stated length is within the limit, and the bytes are the chunks, none of
-- which failed, in their order, and within the limit.
pub answers_exact :
    (sv : Semver) (r : Release) (current version : Version) (name url : String)
    (response : Response) (limit : ℕ) (bytes : List ℕ)
    → ((newer_version sv r current ≡ ok (some version)) ↔ IsNewer sv r current version)
      × ((asset_url r name ≡ ok url) ↔ (
          (a : Asset) × (keep_if (λ (b : Asset). str_eq b.name name) r.assets ≡ a ∷ [])
          × (a.browser_download_url ≡ expected_url r name)
          × (url ≡ expected_url r name)))
      × ((read_response response limit ≡ ok bytes) ↔ (
          (error_for_status response.status ≡ ok tt)
          × (exceeds response.content_length limit ≡ false)
          × ((cs : List (List ℕ)) × (response.chunks ≡ chunks_of cs)
              × (bytes ≡ body cs)
              × (length bytes ≤ limit))))
answers_exact sv r current version name url response limit bytes = (
  newer_version_exact sv r current version,
  asset_url_exact r name url,
  read_response_exact response limit bytes,
)
