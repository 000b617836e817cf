-- ===== src/Update/Archive/Confined.antt =====
-- Preparing an update changes nothing outside its staging directory.
use dookie.Base.{ℕ, ◌≡◌, refl, ◌∙◌, ◌≢◌, none, some, List, [], ◌∷◌, String, arith, eq_iff}
use dookie.Base.Result.{Result, ok, err}
use dookie.Disk.Paths.{strip_prefix, strip_prefix-append}
use dookie.Disk.{FilePath, Disk, create_dir}
use dookie.Disk.Laws.{create_dir_frame}
use dookie.Update.{Version, UpdateError, Semver, Upd}
use dookie.Update.Steps.{Leaves, leaves_rules}
use dookie.Update.Install.{join}
use dookie.Update.Install.Calls.{close_frame}
use dookie.Update.Archive.{
  Entry, Codec, Found, Role, server, client, ignored, unexpected, stage, take_entry, take_entries,
  fill, or_drop, from_archive,
}
use dookie.Update.Archive.Staging.{stage-Leaves}

inside_ne :
    (staging q : FilePath) (name : String) → strip_prefix staging q ≡ none → join staging name ≢ q
inside_ne staging q name h e = cc (strip_prefix-append staging (name ∷ []))

strip_prefix_self : (p : FilePath) → strip_prefix p p ≡ some []
strip_prefix_self [] = refl
strip_prefix_self (a ∷ p) = ground (arith, eq_iff a a, strip_prefix_self p)

self_ne : (staging q : FilePath) → strip_prefix staging q ≡ none → staging ≢ q
self_ne p q h e = cc (strip_prefix_self p)

module _ (staging q : FilePath) (outside : strip_prefix staging q ≡ none) where
  stage_in : (name : String) (e : Entry) → Leaves q (stage (join staging name) e)
  stage_in name e = stage-Leaves (join staging name) e q (inside_ne staging q name outside)

  take_entry-Leaves : (e : Entry) (role : Role) (f : Found) → Leaves q (take_entry staging e role f)
  unfolding take_entry
  take_entry-Leaves e server f = search (leaves_rules, stage_in) depth 9
  take_entry-Leaves e client f = search (leaves_rules, stage_in) depth 9
  take_entry-Leaves e ignored f = search leaves_rules
  take_entry-Leaves e unexpected f = search leaves_rules

  take_entries-Leaves :
      (count : ℕ) (rs : List (Result UpdateError Entry)) (f : Found)
      → Leaves q (take_entries staging count rs f)
  unfolding take_entries
  take_entries-Leaves count [] f = search leaves_rules
  take_entries-Leaves count (r ∷ rs) f =
      search (leaves_rules, take_entry-Leaves, λ (n : ℕ) (g : Found). take_entries-Leaves n rs g)
        depth 12

  fill-Leaves : (codec : Codec) (unpacked : List ℕ) → Leaves q (fill codec staging unpacked)
  unfolding fill
  fill-Leaves codec unpacked = search (leaves_rules, take_entries-Leaves) depth 9

  dropped_at :
      (r : Result UpdateError (Unit {0})) (d : Disk)
      → (or_drop staging (λ _. (r, d)) d).1.fs q ≡ d.fs q
  dropped_at (ok _) d = refl
  dropped_at (err x) d = close_frame staging q d outside

  or_drop-Leaves : (m : Upd (Unit {0})) → Leaves q m → Leaves q (or_drop staging m)
  or_drop-Leaves m h = record { at = λ d. dropped_at (m d).0 (m d).1 ∙ h.at d }

module _ (sv : Semver) (codec : Codec) (temp : String) (install_dir : FilePath) (version : Version)
    (bytes : List ℕ) (checksum : String) where
  -- Whether the archive is accepted or refused, and whatever calls fail, every path outside the
  -- staging directory keeps its node; so the installed binaries stay as they are.
  pub from_archive_confined :
      (q : FilePath) (d : Disk)
      → strip_prefix (join install_dir temp) q ≡ none
      → (from_archive sv codec temp install_dir version bytes checksum d).1.fs q ≡ d.fs q
  from_archive_confined q d h = leaves.at d
    where
      created : (x : Disk) → (create_dir (join install_dir temp) x).1.fs q ≡ x.fs q
      created x = create_dir_frame (join install_dir temp) q x (self_ne _ q h)

      filled :
          (x : List ℕ)
          → Leaves q (or_drop (join install_dir temp) (fill codec (join install_dir temp) x))
      filled x = or_drop-Leaves _ q h _ (fill-Leaves _ q h codec x)

      leaves : Leaves q (from_archive sv codec temp install_dir version bytes checksum)
      leaves = unfold from_archive in search (leaves_rules, created, filled) depth 16
