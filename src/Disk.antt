-- ===== src/Disk.antt =====
-- The file system as `std::fs` and `tokio::fs` show it to the program: a map from absolute paths to
-- nodes. Every call may also fail for a reason of the environment (a full disk, a permission): the
-- n-th call on a disk fails so exactly if `fails n`, and then has changed nothing.
pub mod Paths
pub mod Laws
use dookie.Base.{
  ℕ, ◌+◌, ◌≡◌, String, Bool, true, false, Option, none, some, List, [], ◌∷◌, ◌++◌, if◌then◌else◌,
  leb, length, take, is_some,
}
use dookie.Base.Result.{Result, ok, err}
use Paths.{path_eq, parent, strip_prefix}

-- A path from the root, one text for each component.
abbrev pub FilePath : Type 0
FilePath = List String

pub data Node : Type 0 where
  file : List ℕ → Node
  dir : Node
  symlink : FilePath → Node

-- `io::ErrorKind`, as far as the program tells its values apart.
pub data IoError : Type 0 where
  not_found already_exists not_empty not_a_directory other : IoError

abbrev pub Fs : Type 0
Fs = FilePath → Option Node

pub record Disk : Type 0 where
  pub fs : Fs
  pub fails : ℕ → Bool
  pub calls : ℕ

abbrev pub Io : Type 0 → Type 0
Io A = Disk → Result IoError A × Disk

abbrev pub put : Fs → FilePath → Option Node → Fs
put fs p n q = if path_eq p q then n else fs q

-- One call: it fails, or it acts on the file system.
abbrev pub call : {A : Type 0} → (Fs → Result IoError A × Fs) → Io A
call act d =
    if d.fails d.calls
    then (err other, record d { calls = d.calls + 1 })
    else let (r, fs) = act d.fs in (r, record d { fs = fs; calls = d.calls + 1 })

-- `fs::symlink_metadata`: what stands at the path, links not followed.
unfoldable pub symlink_metadata : FilePath → Io Node
symlink_metadata p = call (λ fs. elim (fs p) [ none ↦ (err not_found, fs) | some n ↦ (ok n, fs) ])

-- `fs::rename` of a file or a link, over whatever file or link stands at the target. The program
-- renames no directory.
rename_node : FilePath → FilePath → Option Node → Fs → Result IoError (Unit {0}) × Fs
rename_node from to none fs = (err not_found, fs)
rename_node from to (some dir) fs = (err other, fs)
rename_node from to (some n) fs = (ok tt, put (put fs from none) to (some n))

unfoldable pub rename : FilePath → FilePath → Io (Unit {0})
unfolding rename_node
rename from to = call (λ fs. rename_node from to (fs from) fs)

-- `fs::remove_file`
remove_node : FilePath → Option Node → Fs → Result IoError (Unit {0}) × Fs
remove_node p none fs = (err not_found, fs)
remove_node p (some dir) fs = (err other, fs)
remove_node p (some n) fs = (ok tt, put fs p none)

unfoldable pub remove_file : FilePath → Io (Unit {0})
unfolding remove_node
remove_file p = call (λ fs. remove_node p (fs p) fs)

-- `fs::copy` and `File::create` with a write: a file appears, if its parent is a directory.
write_at : FilePath → List ℕ → Option Node → Option Node → Fs → Result IoError (Unit {0}) × Fs
write_at p bytes (some dir) (some dir) fs = (err other, fs)
write_at p bytes (some dir) old fs = (ok tt, put fs p (some (file bytes)))
write_at p bytes none old fs = (err not_found, fs)
write_at p bytes _ old fs = (err not_a_directory, fs)

unfoldable pub write_file : FilePath → List ℕ → Io (Unit {0})
unfolding write_at
write_file p bytes = call (λ fs. write_at p bytes (fs (parent p)) (fs p) fs)

-- `fs::create_dir_all`: the missing directories from the root down, or an error at the first
-- ancestor that is no directory. Those made before the error stay.
pub make_dir : FilePath → Option Node → Fs → Result IoError (Unit {0}) × Fs
make_dir p none fs = (ok tt, put fs p (some dir))
make_dir p (some dir) fs = (ok tt, fs)
make_dir p (some _) fs = (err already_exists, fs)

pub make_dirs : FilePath → FilePath → Fs → Result IoError (Unit {0}) × Fs
make_dirs above [] fs = (ok tt, fs)
make_dirs above (name ∷ below) fs =
    let here = above ++ name ∷ [] in
    let (r, fs') = make_dir here (fs here) fs in
    elim r [ ok _ ↦ make_dirs here below fs' | err e ↦ (err e, fs') ]

unfoldable pub create_dir_all : FilePath → Io (Unit {0})
unfolding make_dirs make_dir
create_dir_all p = call (make_dirs [] p)

-- `File::set_permissions`, `File::sync_all`: a call that changes nothing that is modelled.
unfoldable pub touch : Io (Unit {0})
touch = call (λ fs. (ok tt, fs))

-- `fs::create_dir`
make_one : FilePath → Option Node → Option Node → Fs → Result IoError (Unit {0}) × Fs
make_one p (some dir) none fs = (ok tt, put fs p (some dir))
make_one p (some dir) (some _) fs = (err already_exists, fs)
make_one p none old fs = (err not_found, fs)
make_one p (some _) old fs = (err not_a_directory, fs)

unfoldable pub create_dir : FilePath → Io (Unit {0})
unfolding make_one
create_dir p = call (λ fs. make_one p (fs (parent p)) (fs p) fs)

-- `File::open` and `read_exact` of `n` bytes.
read_node : ℕ → Option Node → Fs → Result IoError (List ℕ) × Fs
read_node n (some (file bytes)) fs =
    if leb n (length bytes) then (ok (take n bytes), fs) else (err other, fs)
read_node n none fs = (err not_found, fs)
read_node n (some _) fs = (err other, fs)

unfoldable pub read_exact : FilePath → ℕ → Io (List ℕ)
unfolding read_node
read_exact p n = call (λ fs. read_node n (fs p) fs)

-- `fs::remove_dir_all`: the directory with everything below it. Where it fails it has removed nothing;
-- the program's own call may by then have removed a part.
remove_below : FilePath → Option Node → Fs → Result IoError (Unit {0}) × Fs
remove_below p (some dir) fs = (ok tt, λ q. if is_some (strip_prefix p q) then none else fs q)
remove_below p none fs = (err not_found, fs)
remove_below p (some _) fs = (err not_a_directory, fs)

unfoldable pub remove_dir_all : FilePath → Io (Unit {0})
unfolding remove_below
remove_dir_all p = call (λ fs. remove_below p (fs p) fs)
