-- ===== src/MoveJob/MoveDir.antt =====
-- server/src/lib.rs: `move_dir`. The source is a tree, the destination lies on another drive, and the
-- numbering of the calls that may fail runs over both. The answer of `is_file` and `is_dir` does not
-- count as a call; a directory is listed as it stands when `read_dir` opens it.
pub mod Holds
pub mod Keeps
pub mod Saves
pub mod Kept
pub mod Leaving
pub mod Done
use dookie.Base.{
  ℕ, String, Bool, true, false, not, ◌&&◌, ◌||◌, Option, none, some, List, [], ◌∷◌, ◌++◌,
}
use dookie.Base.Result.{Result, ok, err}
use dookie.Disk.{FilePath, IoError, not_empty, Disk, Io, call, touch, write_file, create_dir_all}

-- The entries of a source directory, in the order in which `read_dir` lists them.
pub data Entries : Type 0 where
  end : Entries
  link : String → FilePath → Entries → Entries
  file : String → List ℕ → Entries → Entries
  folder : String → Entries → Entries → Entries

-- What stands at the path that `move_dir` is called for.
pub data Source : Type 0 where
  one_file : List ℕ → Source
  directory : Entries → Source
  linked : FilePath → Source
  absent : Source

-- The result, what is left of the source, the disk.
abbrev pub Moving : Type 0 → Type 0
Moving S = Result IoError (Unit {0}) × S × Disk

-- One call with `?`: where it fails, `left` is what is left of the source.
abbrev pub step : {S : Type 0} → Io (Unit {0}) → S → (Disk → Moving S) → Disk → Moving S
step m left k d = let (r, d') = m d in elim r [ ok _ ↦ k d' | err e ↦ (err e, left, d') ]

abbrev pub onto : {S T : Type 0} → (S → T) → Moving S → Moving T
onto f (r, s, d) = (r, f s, d)

-- A recursive call with `?`, after which `whole` of what it left is left.
abbrev pub and_then :
    {S T : Type 0} → (S → T) → (Disk → Moving S) → (S → Disk → Moving T) → Disk → Moving T
and_then whole m k d =
    let (r, left, d') = m d in elim r [ ok _ ↦ k left d' | err e ↦ (err e, whole left, d') ]

-- `remove_dir` of a directory with these entries
abbrev pub remove_dir : Entries → Io (Unit {0})
remove_dir end = touch
remove_dir _ = call (λ fs. (err not_empty, fs))

-- After an entry is removed: the symbolic link of a mass move, then the entries after it.
abbrev pub replace_by_link :
    Bool → String → FilePath → Entries → (Disk → Moving Entries) → Disk → Moving Entries
replace_by_link true name target rest go = step touch rest (λ d. onto (link name target) (go d))
replace_by_link false name target rest go = go

-- `move_dir` of a directory, up to the end of its loop, which is `inside`.
abbrev pub move_folder : Bool → FilePath → Entries → (Disk → Moving Entries) → Disk → Moving Entries
move_folder true target entries inside =
    step (create_dir_all target) entries (step touch entries inside)
move_folder false target entries inside = step touch entries inside

-- `file_name` is pushed onto the destination.
abbrev pub pushes : Bool → Bool → Bool
pushes is_root is_mass_move = (is_root && not is_mass_move) || not is_root

abbrev pub target_of : Bool → FilePath → String → FilePath
target_of true dst name = dst ++ name ∷ []
target_of false dst name = dst

-- The loop over the entries, with the recursive calls of `move_dir`, which are not at the root.
unfoldable pub move_entries : Bool → Bool → FilePath → Entries → Disk → Moving Entries
move_entries is_root is_mass_move dst end = step touch end (λ d. (ok tt, end, d))
move_entries is_root is_mass_move dst (link name to rest) = step touch (link name to rest) (
    step touch (link name to rest)
      (λ d. onto (link name to) (move_entries is_root is_mass_move dst rest d)))
move_entries is_root is_mass_move dst (file name bytes rest) =
    let target = dst ++ name ∷ [] in
    let left = file name bytes rest in
    step touch left (
      step touch left (
        step (write_file target bytes) left (
          step touch left (
            step touch left (
              replace_by_link (is_root && is_mass_move) name target rest
                (move_entries is_root is_mass_move dst rest))))))
move_entries is_root is_mass_move dst (folder name sub rest) =
    let target = dst ++ name ∷ [] in
    let left = folder name sub rest in
    step touch left (
      step touch left (
        and_then (λ sub'. folder name sub' rest)
          (move_folder true target sub (move_entries false is_mass_move target sub))
          (λ sub'. step touch (folder name sub' rest) (
            step (remove_dir sub') (folder name sub' rest) (
              replace_by_link (is_root && is_mass_move) name target rest
                (move_entries is_root is_mass_move dst rest))))))

-- The end of a targeted move: the emptied directory gives way to a link.
abbrev pub link_root : Bool → FilePath → Entries → Disk → Moving Source
link_root false target entries d = (ok tt, directory entries, d)
link_root true target entries d =
    step (remove_dir entries) (directory entries)
      (step touch absent (λ d. (ok tt, linked target, d))) d

-- `file_name` is none for a path that ends in `..` or is the root.
unfoldable pub move_dir : Bool → Bool → Option String → Source → FilePath → Disk → Moving Source
move_dir is_root is_mass_move none source dst d = (err IoError.other, source, d)
move_dir is_root is_mass_move (some name) (one_file bytes) dst d =
    step (write_file (target_of (pushes is_root is_mass_move) dst name) bytes) (one_file bytes)
      (λ d. (ok tt, one_file bytes, d)) d
move_dir is_root is_mass_move (some name) (directory entries) dst d =
    let target = target_of (pushes is_root is_mass_move) dst name in
    and_then directory
      (move_folder (pushes is_root is_mass_move) target entries
        (move_entries is_root is_mass_move target entries))
      (link_root (is_root && not is_mass_move) target) d
move_dir is_root is_mass_move (some name) source dst d = (err IoError.other, source, d)
