-- ===== src/MoveJob/Scan/Tests.antt =====
-- Two watched directories with a link, a young entry and an old one.
use mathlib.Core.List.{Memᴰ}
use dookie.Base.{ℕ, ◌*◌, ◌<◌, ◌≤◌, ◌≡◌, refl, ◌⊎◌, ◌↔◌, true, false, List, [], ◌∷◌, map}
use dookie.Base.Result.{Result, ok}
use dookie.Disk.{FilePath, IoError}
use dookie.MoveJob.{Move, scan_moves}
use dookie.MoveJob.Scan.{Listed, Watched, old_in, old_list, scan}
use dookie.MoveJob.Scan.Old.{IsDue}
use dookie.MoveJob.Scan.Laws.{to_move, scan_exact}

abbrev entry : FilePath → ℕ → Result IoError Listed
entry path age = ok (record { path = path; is_symlink = ok false; age = ok age })

abbrev a_link : Result IoError Listed
a_link =
    ok (record { path = "local" ∷ "movies" ∷ "moved" ∷ []; is_symlink = ok true; age = ok 900 })

abbrev watched : List Watched
watched =
    (
      ("local" ∷ "movies" ∷ [], "das" ∷ "movies" ∷ []),
      ok (
          a_link
          ∷ entry ("local" ∷ "movies" ∷ "new" ∷ []) 5
          ∷ entry ("local" ∷ "movies" ∷ "old" ∷ []) 100
          ∷ []),
    )
    ∷ (("local" ∷ "shows" ∷ [], "das" ∷ "shows" ∷ []), ok [])
    ∷ []

abbrev moves : List Move
moves = to_move false ("local" ∷ "movies" ∷ "old" ∷ [], "das" ∷ "movies" ∷ []) ∷ []

old_moves : scan 50 100 100 watched ≡ ok moves
unfolding scan old_list old_in scan_moves
old_moves = refl

scan_exact_example :
    ((50 * 100 < 5 * 100) × (moves ≡ map (λ (w : Watched). to_move true w.0) watched))
    ⊎ ((5 * 100 ≤ 50 * 100)
        × (found : List (FilePath × FilePath)) × (moves ≡ map (to_move false) found)
        × ((x : FilePath × FilePath) → Memᴰ x found ↔ IsDue 100 watched x))
scan_exact_example = scan_exact 50 100 100 watched moves old_moves
