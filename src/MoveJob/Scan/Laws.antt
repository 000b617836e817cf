-- ===== src/MoveJob/Scan/Laws.antt =====
-- What a scan of the move job moves.
use mathlib.Core.List.{Memᴰ}
use dookie.Base.{
  ℕ, ◌≤◌, ◌*◌, ◌<◌, ◌≡◌, refl, sym, ap, ◌∙◌, ◌⊎◌, inl, inr, ◌↔◌, Bool, true, false, List, [], ◌∷◌,
  map, ltb, if◌then◌else◌, Bool-cases, arith,
}
use dookie.Base.Result.{ok, ok-injective, Result-cases}
use dookie.Disk.{FilePath, IoError}
use dookie.MoveJob.{Move, scan_moves}
use dookie.MoveJob.Scan.{Watched, old_list, scan}
use dookie.MoveJob.Scan.Old.{IsDue, old_list_sound, old_list_complete}

abbrev pub to_move : Bool → FilePath × FilePath → Move
to_move is_mass_move (src, dst) = record { is_mass_move = is_mass_move; src = src; dst = dst }

mass_moves :
    (watched : List Watched)
    → map (to_move true) (map (λ (w : Watched). w.0) watched)
      ≡ map (λ (w : Watched). to_move true w.0) watched
mass_moves [] = refl
mass_moves (w ∷ watched) = ap (λ (l : List Move). to_move true w.0 ∷ l) (mass_moves watched)

scan_moves_if :
    (available total : ℕ) (watched : List Watched) (old : List (FilePath × FilePath)) (b : Bool)
    → ltb (available * 100) (5 * total) ≡ b
    → scan_moves available total (map (λ (w : Watched). w.0) watched) old
      ≡ (if b then map (λ (w : Watched). to_move true w.0) watched else map (to_move false) old)
unfolding scan_moves
scan_moves_if available total watched old true e = rw e (mass_moves watched)
scan_moves_if available total watched old false e = rw e

-- A scan that goes on moves, if less than a twentieth of the disk is free, every watched directory
-- as a mass move; else, as targeted moves into the destination of the directory's pair, entries of
-- the watched directories, which are exactly those that are no links and have the age.
pub scan_exact :
    (available total threshold : ℕ) (watched : List Watched) (moves : List Move)
    → scan available total threshold watched ≡ ok moves
    → ((available * 100 < 5 * total) × (moves ≡ map (λ (w : Watched). to_move true w.0) watched))
      ⊎ ((5 * total ≤ available * 100)
          × (found : List (FilePath × FilePath)) × (moves ≡ map (to_move false) found)
          × ((x : FilePath × FilePath) → Memᴰ x found ↔ IsDue threshold watched x))
unfolding scan
scan_exact available total threshold watched moves h =
    elim (Result-cases (old_list threshold watched)) [
      | inr (e, p) ↦ absurd (ground (arith, p))
      | inl (found, p) ↦ elim (Bool-cases (ltb (available * 100) (5 * total))) [
        | inl b ↦
            inl (
              ground (arith, b),
              chosen found p ∙ scan_moves_if available total watched found true b,
            )
        | inr b ↦ inr (
          ground (arith, b),
          found,
          chosen found p ∙ scan_moves_if available total watched found false b,
          λ x. (
            old_list_sound threshold watched found x p,
            old_list_complete threshold watched found x p,
          ),
        )
      ]
    ]
  where
    chosen :
        (found : List (FilePath × FilePath))
        → old_list threshold watched ≡ ok found
        → moves ≡ scan_moves available total (map (λ (w : Watched). w.0) watched) found
    chosen found p = sym (ok-injective {E = IoError} (ground (arith, p)))
