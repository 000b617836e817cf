-- ===== src/Disk/Laws.antt =====
-- What each call changes, on every outcome, and what it leaves alone.
use dookie.Base.{ℕ, take, ◌≡◌, ◌≢◌, Option, none, some, List, [], ◌∷◌, ◌++◌, arith}
use dookie.Base.Result.{ok, err}
use dookie.Disk.Paths.{path_eq_iff, strip_prefix, strip_prefix_self}
use dookie.Disk.{
  Fs, FilePath, Node, file, IoError, not_found, Disk, put, rename, remove_file, symlink_metadata,
  write_file, touch, read_exact, create_dir, make_dir, make_dirs, create_dir_all, remove_dir_all,
}

module _ (fs : Fs) (p : FilePath) (n : Option Node) where
  pub put_self : put fs p n p ≡ n
  put_self = ground (arith, path_eq_iff p p)

  pub put_ne : (q : FilePath) → p ≢ q → put fs p n q ≡ fs q
  put_ne q h = ground (arith, path_eq_iff p q)

module _ (from to : FilePath) (d : Disk) where
  pub rename_frame : (q : FilePath) → from ≢ q → to ≢ q → (rename from to d).1.fs q ≡ d.fs q
  unfolding rename
  rename_frame q h k = ground (arith, path_eq_iff from q, path_eq_iff to q)

  pub rename_err : {e : IoError} → (rename from to d).0 ≡ err e → (rename from to d).1.fs ≡ d.fs
  unfolding rename
  rename_err h = ground arith

  pub rename_target : (rename from to d).0 ≡ ok tt → (rename from to d).1.fs to ≡ d.fs from
  unfolding rename
  rename_target h = ground (arith, path_eq_iff to to)

  pub rename_source : from ≢ to → (rename from to d).0 ≡ ok tt → (rename from to d).1.fs from ≡ none
  unfolding rename
  rename_source k h = ground (arith, path_eq_iff from from, path_eq_iff to from)

module _ (p : FilePath) (d : Disk) where
  pub remove_file_frame : (q : FilePath) → p ≢ q → (remove_file p d).1.fs q ≡ d.fs q
  unfolding remove_file
  remove_file_frame q h = ground (arith, path_eq_iff p q)

  pub remove_file_gone : (remove_file p d).0 ≡ ok tt → (remove_file p d).1.fs p ≡ none
  unfolding remove_file
  remove_file_gone h = ground (arith, path_eq_iff p p)

  pub remove_file_missing : (remove_file p d).0 ≡ err not_found → (remove_file p d).1.fs p ≡ none
  unfolding remove_file
  remove_file_missing h = ground arith

  pub remove_file_err : {e : IoError} → (remove_file p d).0 ≡ err e → (remove_file p d).1.fs ≡ d.fs
  unfolding remove_file
  remove_file_err h = ground arith

  pub symlink_metadata_missing : (symlink_metadata p d).0 ≡ err not_found → d.fs p ≡ none
  unfolding symlink_metadata
  symlink_metadata_missing h = ground arith

  pub symlink_metadata_frame : (symlink_metadata p d).1.fs ≡ d.fs
  unfolding symlink_metadata
  symlink_metadata_frame = ground arith

module _ (p : FilePath) (bytes : List ℕ) (d : Disk) where
  pub write_file_frame : (q : FilePath) → p ≢ q → (write_file p bytes d).1.fs q ≡ d.fs q
  unfolding write_file
  write_file_frame q h = ground (arith, path_eq_iff p q)

  pub write_file_ok :
      (write_file p bytes d).0 ≡ ok tt → (write_file p bytes d).1.fs p ≡ some (file bytes)
  unfolding write_file
  write_file_ok h = ground (arith, path_eq_iff p p)

pub touch_frame : (d : Disk) → (touch d).1.fs ≡ d.fs
unfolding touch
touch_frame d = ground arith

module _ (p : FilePath) (n : ℕ) (d : Disk) where
  pub read_exact_frame : (read_exact p n d).1.fs ≡ d.fs
  unfolding read_exact
  read_exact_frame = ground arith

  pub read_exact_ok :
      (head bytes : List ℕ)
      → d.fs p ≡ some (file bytes)
      → (read_exact p n d).0 ≡ ok head
      → head ≡ take n bytes
  unfolding read_exact
  read_exact_ok head bytes e h = ground arith

pub create_dir_frame : (p q : FilePath) (d : Disk) → p ≢ q → (create_dir p d).1.fs q ≡ d.fs q
unfolding create_dir
create_dir_frame p q d h = ground (arith, path_eq_iff p q)

make_dir_keeps :
    (p q : FilePath) (fs : Fs) (n : Node) → fs q ≡ some n → (make_dir p (fs p) fs).1 q ≡ some n
unfolding make_dir
make_dir_keeps p q fs n h = ground (arith, path_eq_iff p q)

make_dirs_keeps :
    (above below q : FilePath) (fs : Fs) (n : Node)
    → fs q ≡ some n
    → (make_dirs above below fs).1 q ≡ some n
unfolding make_dirs
make_dirs_keeps above [] q fs n h = h
make_dirs_keeps above (name ∷ below) q fs n h =
    let here = above ++ name ∷ [] in
    let kept = make_dir_keeps here q fs n h in
    let below_kept = make_dirs_keeps here below q (make_dir here (fs here) fs).1 n kept in
    ground arith

-- Making directories replaces nothing that stands.
pub create_dir_all_keeps :
    (p q : FilePath) (d : Disk) (n : Node) → d.fs q ≡ some n → (create_dir_all p d).1.fs q ≡ some n
unfolding create_dir_all
create_dir_all_keeps p q d n h = ground (arith, make_dirs_keeps [] p q d.fs n h)

module _ (p : FilePath) (d : Disk) where
  pub remove_dir_all_frame :
      (q : FilePath) → strip_prefix p q ≡ none → (remove_dir_all p d).1.fs q ≡ d.fs q
  unfolding remove_dir_all
  remove_dir_all_frame q h = ground arith

  -- Removing makes nothing.
  pub remove_dir_all_gone : (q : FilePath) → d.fs q ≡ none → (remove_dir_all p d).1.fs q ≡ none
  unfolding remove_dir_all
  remove_dir_all_gone q h = ground arith

  pub remove_dir_all_done : (remove_dir_all p d).0 ≡ ok tt → (remove_dir_all p d).1.fs p ≡ none
  unfolding remove_dir_all
  remove_dir_all_done h = ground (arith, strip_prefix_self p)

  pub remove_file_keeps_gone : (q : FilePath) → d.fs q ≡ none → (remove_file p d).1.fs q ≡ none
  unfolding remove_file
  remove_file_keeps_gone q h = ground (arith, path_eq_iff p q)
