-- ===== src/Update/Install.antt =====
-- server/src/update.rs: `PreparedUpdate::install`, `InstalledUpdate::rollback`, `exec` and `drop`.
pub mod Calls
pub mod Rollback
pub mod Replace
pub mod Atomic
pub mod Transaction
pub mod Restores
pub mod Process
pub mod Tests
use Prim.Native.Char.{code}
use mathlib.Core.List.{reverse}
use dookie.Base.{
  ℕ, ◌+◌, String, ◌<>◌, Bool, true, false, ◌||◌, Option, none, some, List, [], ◌∷◌, ◌++◌, map, ◌==◌,
  is_some, if◌then◌else◌,
}
use dookie.Base.Result.{Result, ok, err, map_err}
use dookie.Disk.Paths.{strip_prefix}
use dookie.Disk.{
  FilePath, Node, file, dir, symlink, IoError, not_found, other, Fs, Disk, Io, call,
  symlink_metadata, rename, remove_file,
}
use dookie.Update.{
  UpdateError, message, io, rollback_incomplete, PreparedUpdate, Replacement, InstalledUpdate,
}

abbrev pub binaries : List String
binaries = "dookie_server" ∷ "dookiec" ∷ []

abbrev pub join : FilePath → String → FilePath
join p name = p ++ name ∷ []

abbrev pub bak : String → String
bak name = name <> "_bak"

-- Whether `path` may be replaced: a regular file, or nothing.
unfoldable pub check_regular : FilePath → Disk → Result UpdateError (Unit {0}) × Disk
unfolding symlink_metadata
check_regular path d =
    let (r, d') = symlink_metadata path d in
    elim r [
      | ok (file _) ↦ (ok tt, d')
      | ok _ ↦ (err (message "Refusing to replace non-regular file"), d')
      | err not_found ↦ (ok tt, d')
      | err e ↦ (err (io e), d')
    ]

unfoldable pub check_all : List FilePath → Disk → Result UpdateError (Unit {0}) × Disk
check_all [] d = (ok tt, d)
check_all (p ∷ ps) d =
    let (r, d') = check_regular p d in elim r [ ok _ ↦ check_all ps d' | err e ↦ (err e, d') ]

-- The paths that `install` checks, in its order.
abbrev pub checked : FilePath → List String → List FilePath
checked home [] = []
checked home (name ∷ names) = join home name ∷ join home (bak name) ∷ checked home names

-- `Path::exists`, which follows a link.
abbrev pub exists : Fs → FilePath → Bool
exists fs p = elim (fs p) [ none ↦ false | some (symlink q) ↦ is_some (fs q) | some _ ↦ true ]

-- The variables of the closure in `install`.
pub record Txn : Type 0 where
  pub installed : InstalledUpdate
  pub disk : Disk

abbrev pub push : Replacement → Txn → Txn
push r t = record t {
  installed = record (t.installed) { replacements = t.installed.replacements ++ r ∷ [] };
}

abbrev pub on_disk : {A : Type 0} → Io A → Txn → Result UpdateError A × Txn
on_disk m t = let (r, d) = m t.disk in (map_err io r, record t { disk = d })

abbrev pub back_up : FilePath → FilePath → Txn → Result UpdateError (Option FilePath) × Txn
back_up destination backup t =
    if exists t.disk.fs destination
    then (let (r, t') = on_disk (rename destination backup) t in
        elim r [ ok _ ↦ (ok (some backup), t') | err e ↦ (err e, t') ])
    else (ok none, t)

-- One round of the loop over `BINARIES`.
unfoldable pub replace_binary :
    FilePath → FilePath → FilePath → Txn → Result UpdateError (Unit {0}) × Txn
replace_binary staged destination backup t =
    let (r, t') = back_up destination backup t in
    elim r [
      | ok o ↦ on_disk (rename staged destination) (push (destination, o) t')
      | err e ↦ (err e, t')
    ]

unfoldable pub replace_all :
    PreparedUpdate → List String → Txn → Result UpdateError (Unit {0}) × Txn
replace_all u [] t = (ok tt, t)
replace_all u (name ∷ names) t =
    let (r, t') =
      replace_binary (join u.staging name) (join u.install_dir name) (join u.install_dir (bak name))
        t in
    elim r [ ok _ ↦ replace_all u names t' | err e ↦ (err e, t') ]

abbrev pub remove_tree : FilePath → Fs → Fs
remove_tree p fs q = if is_some (strip_prefix p q) then none else fs q

-- `TempDir::close`. Dropping a `TempDir` does the same and ignores the error.
unfoldable pub close : FilePath → Io (Unit {0})
close p = call (λ fs. (ok tt, remove_tree p fs))

-- `File::open(dir)` and `sync_all`
unfoldable pub sync_dir : Io (Unit {0})
sync_dir d =
    let (r, d') = call (λ fs. (ok tt, fs)) d in
    elim r [ ok _ ↦ call (λ fs. (ok tt, fs)) d' | err e ↦ (err e, d') ]

-- The closure in `install`. An error before `close` drops the staging directory.
unfoldable pub transaction : PreparedUpdate → Txn → Result UpdateError (Unit {0}) × Txn
transaction u t =
    let (r, t') = replace_all u binaries t in
    elim r [
      | ok _ ↦
          let (r', t'') = on_disk (close u.staging) t' in
          elim r' [ ok _ ↦ on_disk sync_dir t'' | err e ↦ (err e, t'') ]
      | err e ↦ (err e, record t' { disk = (close u.staging t'.disk).1 })
    ]

-- One replacement undone.
unfoldable pub restore : Replacement → Disk → Result IoError (Unit {0}) × Disk
restore (destination, some backup) d = rename backup destination d
restore (destination, none) d =
    let (r, d') = remove_file destination d in
    elim r [ ok _ ↦ (ok tt, d') | err not_found ↦ (ok tt, d') | err e ↦ (err e, d') ]

-- The loop of `rollback`: the replacements that could not be undone, and why.
unfoldable pub restore_all : List Replacement → Disk → List (Replacement × IoError) × Disk
restore_all [] d = ([], d)
restore_all (x ∷ xs) d =
    let (r, d') = restore x d in
    let (failures, d'') = restore_all xs d' in
    elim r [ ok _ ↦ (failures, d'') | err e ↦ ((x, e) ∷ failures, d'') ]

abbrev pub outcome : List (Replacement × IoError) → Result UpdateError (Unit {0})
outcome [] = ok tt
outcome (f ∷ fs) = err (rollback_incomplete (map (λ ((p, _), e). (p, e)) (f ∷ fs)))

unfoldable pub rollback : Txn → Result UpdateError (Unit {0}) × Txn
rollback t =
    let (failures, d) = restore_all (reverse t.installed.replacements) t.disk in
    (
      outcome failures,
      record t {
        installed = record (t.installed) { replacements = map (λ (x, _). x) failures };
        disk = d;
      },
    )

-- `Drop for InstalledUpdate` tries what is left once more, and only prints an error.
unfoldable pub drop_installed : Txn → Disk
drop_installed t = (rollback t).1.disk

-- `installed.rollback()?; return Err(error)`, with the drop at the end of the scope.
unfoldable pub abandon : UpdateError → Txn → UpdateError × Disk
abandon error t =
    let (r, t') = rollback t in
    elim r [ ok _ ↦ (error, drop_installed t') | err e ↦ (e, drop_installed t') ]

abbrev pub begin : PreparedUpdate → Disk → Txn
begin u d = record {
  installed = record { server = join u.install_dir "dookie_server"; replacements = [] };
  disk = d;
}

unfoldable pub install : PreparedUpdate → Disk → Result UpdateError InstalledUpdate × Disk
install u d =
    let (r, d') = check_all (checked u.install_dir binaries) d in
    elim r [
      | ok _ ↦
          (let (r', t) = transaction u (begin u d') in
            elim r' [
              | ok _ ↦ (ok t.installed, t.disk)
              | err e ↦ let (e', d'') = abandon e t in (err e', d'')
            ])
      | err e ↦ (err e, (close u.staging d').1)
    ]

-- `CString::new` refuses a text with a NUL inside.
abbrev pub has_nul : String → Bool
has_nul String.[] = false
has_nul (String.◌∷◌ c s) = code c == 0 || has_nul s

abbrev pub any_nul : List String → Bool
any_nul [] = false
any_nul (s ∷ ss) = has_nul s || any_nul ss

-- `execv` returns only if it fails.
pub data Exec : Type 0 where
  replaced : FilePath → Exec
  returned : UpdateError → Exec

abbrev pub execv : FilePath → Io (Unit {0})
execv p = call (λ fs. elim (fs p) [ some (file _) ↦ (ok tt, fs) | _ ↦ (err other, fs) ])

unfoldable pub exec : InstalledUpdate → List String → Disk → Exec × Disk
exec i args d =
    if any_nul args
    then (
      returned (message "nul byte found in provided data"),
      drop_installed (record { installed = i; disk = d }),
    )
    else (let (r, d') = execv i.server d in
        elim r [
          | ok _ ↦ (replaced i.server, d')
          | err e ↦
              let (e', d'') = abandon (io e) (record { installed = i; disk = d' }) in
              (returned e', d'')
        ])

-- server/src/main.rs: `prepared.install().and_then(|installed| installed.exec(&args))`
unfoldable pub update_process : PreparedUpdate → List String → Disk → Exec × Disk
update_process u args d =
    let (r, d') = install u d in elim r [ ok i ↦ exec i args d' | err e ↦ (returned e, d') ]
