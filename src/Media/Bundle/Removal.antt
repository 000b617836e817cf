-- ===== src/Media/Bundle/Removal.antt =====
-- What the removal of a medium's files removes, and what it leaves alone.
use mathlib.Core.Path.{subst}
use dookie.Base.{
  String, ◌≡◌, refl, sym, ◌∙◌, ◌≢◌, ◌⊎◌, inl, inr, Option, none, some, List, [], ◌∷◌, ◌++◌, All,
  All-imp, arith, eq_iff,
}
use dookie.Base.Result.{Result, ok, err, Result-cases}
use dookie.Disk.{FilePath, IoError, not_found, Node, dir, Disk, symlink_metadata}
use dookie.Disk.Laws.{
  symlink_metadata_frame, symlink_metadata_missing, remove_file_frame, remove_file_gone,
  remove_file_keeps_gone, remove_dir_all_frame, remove_dir_all_gone, remove_dir_all_done,
}
use dookie.Disk.Paths.{strip_prefix, strip_prefix-ne, strip_prefix-eq-some}
use dookie.Media.Bundle.{
  components_from, after_metadata, remove_path, counterpart, counterparts, remove_paths,
  remove_media_files,
}

step_on :
    (p : FilePath) (ps : List FilePath) (d : Disk) {u : Unit {0}}
    → (remove_path p d).0 ≡ ok u
    → remove_paths (p ∷ ps) d ≡ remove_paths ps (remove_path p d).1
unfolding remove_paths
step_on p ps d e = ground arith

module _ (p : FilePath) where
  after_frame :
      (q : FilePath) (r : Result IoError Node) (d : Disk)
      → strip_prefix p q ≡ none
      → (after_metadata p r d).1.fs q ≡ d.fs q
  unfolding after_metadata
  after_frame q (ok dir) d h = remove_dir_all_frame p d q h
  after_frame q (ok (Node.file b)) d h = remove_file_frame p d q (strip_prefix-ne p q h)
  after_frame q (ok (Node.symlink t)) d h = remove_file_frame p d q (strip_prefix-ne p q h)
  after_frame q (err e) d h = ground arith

  after_gone :
      (q : FilePath) (r : Result IoError Node) (d : Disk)
      → d.fs q ≡ none
      → (after_metadata p r d).1.fs q ≡ none
  unfolding after_metadata
  after_gone q (ok dir) d h = remove_dir_all_gone p d q h
  after_gone q (ok (Node.file b)) d h = remove_file_keeps_gone p d q h
  after_gone q (ok (Node.symlink t)) d h = remove_file_keeps_gone p d q h
  after_gone q (err e) d h = ground arith

  after_done :
      (r : Result IoError Node) (d : Disk)
      → (r ≡ err not_found → d.fs p ≡ none)
      → (after_metadata p r d).0 ≡ ok tt
      → (after_metadata p r d).1.fs p ≡ none
  unfolding after_metadata
  after_done (ok dir) d m h = remove_dir_all_done p d h
  after_done (ok (Node.file b)) d m h = remove_file_gone p d h
  after_done (ok (Node.symlink t)) d m h = remove_file_gone p d h
  after_done (err e) d m h = ground arith

  remove_path_frame :
      (q : FilePath) (d : Disk) → strip_prefix p q ≡ none → (remove_path p d).1.fs q ≡ d.fs q
  unfolding remove_path
  remove_path_frame q d h =
      after_frame q (symlink_metadata p d).0 (symlink_metadata p d).1 h
      ∙ ground (arith, symlink_metadata_frame p d)

  remove_path_gone : (q : FilePath) (d : Disk) → d.fs q ≡ none → (remove_path p d).1.fs q ≡ none
  unfolding remove_path
  remove_path_gone q d h =
      after_gone q (symlink_metadata p d).0 (symlink_metadata p d).1
        (ground (arith, symlink_metadata_frame p d))

  remove_path_done : (d : Disk) → (remove_path p d).0 ≡ ok tt → (remove_path p d).1.fs p ≡ none
  unfolding remove_path
  remove_path_done d h =
      after_done (symlink_metadata p d).0 (symlink_metadata p d).1
        (λ e. ground (arith, symlink_metadata_frame p d, symlink_metadata_missing p d)) h

paths_frame :
    (ps : List FilePath) (q : FilePath) (d : Disk)
    → All (λ p. strip_prefix p q ≡ none) ps
    → (remove_paths ps d).1.fs q ≡ d.fs q
unfolding remove_paths
paths_frame [] q d h = refl
paths_frame (p ∷ ps) q d (h, k) =
    let first = remove_path_frame p q d h in
    let rest = paths_frame ps q (remove_path p d).1 k in
    elim (Result-cases (remove_path p d).0) [
      | inl (_, e) ↦ ground (arith, first, rest, e)
      | inr (_, e) ↦ ground (arith, first, e)
    ]

paths_gone :
    (ps : List FilePath) (q : FilePath) (d : Disk)
    → d.fs q ≡ none
    → (remove_paths ps d).1.fs q ≡ none
unfolding remove_paths
paths_gone [] q d h = h
paths_gone (p ∷ ps) q d h =
    let first = remove_path_gone p q d h in
    let rest = paths_gone ps q (remove_path p d).1 first in
    elim (Result-cases (remove_path p d).0) [
      | inl (_, e) ↦ ground (arith, rest, e)
      | inr (_, e) ↦ ground (arith, first, e)
    ]

abbrev pub Gone : Disk → FilePath → Type 0
Gone d p = d.fs p ≡ none

paths_done :
    (ps : List FilePath) (d : Disk)
    → (remove_paths ps d).0 ≡ ok tt
    → All (Gone (remove_paths ps d).1) ps
unfolding remove_paths
paths_done [] d h = tt
paths_done (p ∷ ps) d h = elim (Result-cases (remove_path p d).0) [
  | inl (_, e) ↦
      let k = step_on p ps d e in
      subst (λ (x : Result IoError (Unit {0}) × Disk). All (Gone x.1) (p ∷ ps)) (sym k)
        (
          paths_gone ps p (remove_path p d).1 (remove_path_done p d (ground (arith, e))),
          paths_done ps (remove_path p d).1 (ground (arith, k)),
        )
  | inr (_, e) ↦ absurd (ground (arith, e))
]

-- The place of an indexed path on the other drive: the same path below the other root of a pair of
-- the map, and not a root itself.
abbrev pub IsCounterpart : List (FilePath × FilePath) → FilePath → FilePath → Type 0
IsCounterpart [] path q = ⊥
IsCounterpart ((local_root, das_root) ∷ move_map) path q =
    ((relative : FilePath) × (relative ≢ [])
      × (((path ≡ local_root ++ relative) × (q ≡ das_root ++ relative))
          ⊎ ((path ≡ das_root ++ relative) × (q ≡ local_root ++ relative))))
    ⊎ IsCounterpart move_map path q

counterpart_sound :
    (local_root das_root path : FilePath) (move_map : List (FilePath × FilePath))
    (o : Option FilePath) (rest : List FilePath)
    → ((relative : FilePath) → o ≡ some relative → path ≡ local_root ++ relative)
    → All (IsCounterpart ((local_root, das_root) ∷ move_map) path) rest
    → All
        (IsCounterpart ((local_root, das_root) ∷ move_map) path)
        (counterpart das_root path o rest)
counterpart_sound l r path m none rest e h = h
counterpart_sound l r path m (some []) rest e h = h
counterpart_sound l r path m (some (a ∷ p)) rest e h =
    (inl (a ∷ p, λ c. absurd (ground arith), inl (e (a ∷ p) refl, refl)), h)

swapped_sound :
    (local_root das_root path : FilePath) (move_map : List (FilePath × FilePath))
    (o : Option FilePath) (rest : List FilePath)
    → ((relative : FilePath) → o ≡ some relative → path ≡ das_root ++ relative)
    → All (IsCounterpart ((local_root, das_root) ∷ move_map) path) rest
    → All
        (IsCounterpart ((local_root, das_root) ∷ move_map) path)
        (counterpart local_root path o rest)
swapped_sound l r path m none rest e h = h
swapped_sound l r path m (some []) rest e h = h
swapped_sound l r path m (some (a ∷ p)) rest e h =
    (inl (a ∷ p, λ c. absurd (ground arith), inr (e (a ∷ p) refl, refl)), h)

counterparts_sound :
    (path : FilePath) (move_map : List (FilePath × FilePath))
    → All (IsCounterpart move_map path) (counterparts path move_map)
unfolding counterparts
counterparts_sound path [] = tt
counterparts_sound path ((l, r) ∷ m) =
    let rest =
      All-imp (IsCounterpart m path) (IsCounterpart ((l, r) ∷ m) path) (counterparts path m)
        (λ q h. inr h) (counterparts_sound path m) in
    by_prefix (strip_prefix l path) (strip_prefix-eq-some l path) rest
  where
    by_prefix :
        (o : Option FilePath)
        → ((relative : FilePath) → o ≡ some relative → path ≡ l ++ relative)
        → All (IsCounterpart ((l, r) ∷ m) path) (counterparts path m)
        → All (IsCounterpart ((l, r) ∷ m) path) (elim o [
          | some relative ↦ counterpart r path (some relative) (counterparts path m)
          | none ↦ counterpart l path (strip_prefix r path) (counterparts path m)
        ])
    by_prefix (some p) e h = counterpart_sound l r path m (some p) (counterparts path m) e h
    by_prefix none e h =
        swapped_sound l r path m (strip_prefix r path) (counterparts path m)
          (strip_prefix-eq-some r path) h

removes_paths :
    (move_map : List (FilePath × FilePath)) (indexed : String) (d : Disk)
    → indexed ≢ ""
    → remove_media_files move_map (some indexed) d
      ≡ remove_paths
          (components_from "" indexed ∷ counterparts (components_from "" indexed) move_map)
          d
unfolding remove_media_files
removes_paths move_map indexed d n = ground (arith, eq_iff indexed "")

-- Whatever calls fail, the removal of a medium's files changes nothing outside the indexed path and
-- its counterparts.
pub remove_media_files_confined :
    (move_map : List (FilePath × FilePath)) (indexed : Option String) (q : FilePath) (d : Disk)
    → ((path : String)
        → indexed ≡ some path
        → All
            (λ p. strip_prefix p q ≡ none)
            (components_from "" path ∷ counterparts (components_from "" path) move_map))
    → (remove_media_files move_map indexed d).1.fs q ≡ d.fs q
unfolding remove_media_files
remove_media_files_confined move_map none q d h = refl
remove_media_files_confined move_map (some path) q d h =
    let p = components_from "" path in
    let confined = paths_frame (p ∷ counterparts p move_map) q d (h path refl) in ground arith

-- The removal of a medium's files that returns `Ok`, of a path that is not empty, leaves nothing at
-- the indexed path and at any of its counterparts; and each counterpart is the indexed path with the
-- one root of a pair of the map in place of the other, below that root and never that root itself.
pub remove_media_files_done :
    (move_map : List (FilePath × FilePath)) (indexed : String) (d : Disk)
    → indexed ≢ ""
    → (remove_media_files move_map (some indexed) d).0 ≡ ok tt
    → All
        (Gone (remove_media_files move_map (some indexed) d).1)
        (components_from "" indexed ∷ counterparts (components_from "" indexed) move_map)
      × All
          (IsCounterpart move_map (components_from "" indexed))
          (counterparts (components_from "" indexed) move_map)
remove_media_files_done move_map indexed d n h =
    let p = components_from "" indexed in
    let paths = p ∷ counterparts p move_map in
    let k = removes_paths move_map indexed d n in
    (
      subst (λ (x : Result IoError (Unit {0}) × Disk). All (Gone x.1) paths) (sym k)
          (paths_done paths d (ground (arith, k))),
      counterparts_sound p move_map,
    )
