-- ===== src/MoveJob/Scan.antt =====
-- server/src/lib.rs, module `move_job`: the listing of the watched directories, by which a scan chooses
-- what it moves. What the calls on an entry give is an argument.
pub mod Old
pub mod Laws
mod Tests
use dookie.Base.{ℕ, Bool, true, false, List, [], ◌∷◌, ◌++◌, map, leb, if◌then◌else◌}
use dookie.Base.Result.{Result, ok, err}
use dookie.Disk.{FilePath, IoError}
use dookie.MoveJob.{Move, scan_moves}

-- `metadata`, of which `is_symlink`, and `created()?.elapsed()?` in seconds.
pub record Listed : Type 0 where
  pub path : FilePath
  pub is_symlink : Result IoError Bool
  pub age : Result IoError ℕ

-- A pair of `move_map`, and the listing of its source.
abbrev pub Watched : Type 0
Watched = (FilePath × FilePath) × Result IoError (List (Result IoError Listed))

abbrev pub Chosen : Type 0
Chosen = Result IoError (List (FilePath × FilePath))

abbrev pub push : FilePath × FilePath → Chosen → Chosen
push found (err e) = err e
push found (ok rest) = ok (found ∷ rest)

abbrev pub append : List (FilePath × FilePath) → Chosen → Chosen
append found (err e) = err e
append found (ok rest) = ok (found ++ rest)

unfoldable pub old_in : ℕ → FilePath → List (Result IoError Listed) → Chosen
old_in threshold dst [] = ok []
old_in threshold dst (err e ∷ rest) = err e
old_in threshold dst (ok entry ∷ rest) =
    let next = old_in threshold dst rest in
    elim entry.is_symlink [
      | err e ↦ err e
      | ok true ↦ next
      | ok false ↦ elim entry.age [
        | err e ↦ err e
        | ok age ↦ if leb threshold age then push (entry.path, dst) next else next
      ]
    ]

unfoldable pub old_list : ℕ → List Watched → Chosen
old_list threshold [] = ok []
old_list threshold ((pair, err e) ∷ rest) = err e
old_list threshold ((pair, ok entries) ∷ rest) =
    let next = old_list threshold rest in
    elim (old_in threshold pair.1 entries) [ err e ↦ err e | ok found ↦ append found next ]

-- The calls of `move_dir` of a scan; an error ends the worker.
unfoldable pub scan : ℕ → ℕ → ℕ → List Watched → Result IoError (List Move)
scan available total threshold watched = elim (old_list threshold watched) [
  | err e ↦ err e
  | ok old ↦ ok (scan_moves available total (map (λ w. w.0) watched) old)
]
