-- ===== src/Update/Release/Laws.antt =====
-- Which releases are taken for newer, and which addresses are downloaded from.
use dookie.Base.{
  ◌≡◌, refl, ◌↔◌, inl, inr, String, false, some, List, [], ◌∷◌, arith, str_eq, eq_iff, keep_if,
  Option-cases,
}
use dookie.Base.Result.{ok}
use dookie.Update.{Version, Semver}
use dookie.Update.Release.{Asset, Release, strip_v, newer_version, expected_url, asset_url, pick}

-- What the updater accepts: a published stable release whose tag is `v` and a plain version that
-- is above the running one.
pub record IsNewer (sv : Semver) (r : Release) (current version : Version) : Type 0 where
  pub published : r.draft ≡ false
  pub stable : r.prerelease ≡ false
  pub tag : String
  pub tagged : strip_v r.tag_name ≡ some tag
  pub parsed : sv.parse tag ≡ some version
  pub plain : version.pre ≡ ""
  pub unbuilt : version.build ≡ ""
  pub above : sv.le version current ≡ false

module _ (sv : Semver) (r : Release) (current version : Version) where
  newer_version_sound :
      newer_version sv r current ≡ ok (some version) → IsNewer sv r current version
  unfolding newer_version
  newer_version_sound h = elim (Option-cases (strip_v r.tag_name)) [
    | inl none_e ↦ absurd (ground arith)
    | inr (tag, e) ↦ elim (Option-cases (sv.parse tag)) [
      | inl none_e ↦ absurd (ground arith)
      | inr (v, e') ↦ record {
        published = ground arith;
        stable = ground arith;
        tag = tag;
        tagged = e;
        parsed = ground arith;
        plain = ground (arith, eq_iff version.pre "", eq_iff v.pre "");
        unbuilt = ground (arith, eq_iff version.build "", eq_iff v.build "");
        above = ground arith;
      }
    ]
  ]

  newer_version_complete :
      IsNewer sv r current version → newer_version sv r current ≡ ok (some version)
  unfolding newer_version
  newer_version_complete n = ground (
    arith,
    n.published,
    n.stable,
    n.tagged,
    n.parsed,
    n.plain,
    n.unbuilt,
    n.above,
    eq_iff version.pre "",
    eq_iff version.build "",
  )

  -- A version is offered exactly if the release is published and stable, its tag is `v` and that
  -- version, the version has no pre-release and no build part, and it is above the current one.
  pub newer_version_exact :
      (newer_version sv r current ≡ ok (some version)) ↔ IsNewer sv r current version
  newer_version_exact = (newer_version_sound, newer_version_complete)

pick_exact :
    (expected url : String) (l : List Asset)
    → (pick expected l ≡ ok url)
      ↔ ((a : Asset) × (l ≡ a ∷ []) × (a.browser_download_url ≡ expected) × (url ≡ expected))
unfolding pick
pick_exact expected url [] = (λ h. absurd (ground arith), λ t. absurd (ground (arith, t.1)))
pick_exact expected url (a ∷ []) = (
  λ h. (
    a,
    refl,
    ground (arith, eq_iff a.browser_download_url expected),
    ground (arith, eq_iff a.browser_download_url expected),
  ),
  λ t. ground (arith, t.1, t.2, t.3, eq_iff a.browser_download_url expected),
)
pick_exact expected url (a ∷ b ∷ rest) =
    (λ h. absurd (ground arith), λ t. absurd (ground (arith, t.1)))

module _ (r : Release) (name url : String) where
  -- An address is given exactly if one asset alone has the name, and its address is the one below
  -- the repository's own releases, which is then given.
  pub asset_url_exact : (asset_url r name ≡ ok url) ↔ (
      (a : Asset) × (keep_if (λ (b : Asset). str_eq b.name name) r.assets ≡ a ∷ [])
      × (a.browser_download_url ≡ expected_url r name)
      × (url ≡ expected_url r name))
  unfolding asset_url
  asset_url_exact =
      pick_exact (expected_url r name) url (keep_if (λ a. str_eq a.name name) r.assets)
