-- ===== src/MoveJob/Tests.antt =====
-- Concrete moves and runs of the job, and the theorems at them.
use dookie.Base.{
  ℕ, ◌≡◌, refl, ◌≢◌, ◌⊎◌, Bool, true, false, none, some, List, [], ◌∷◌, String, ◌==◌, arith, eq_iff,
}
use dookie.Base.Result.{ok}
use dookie.Disk.{FilePath, Node, dir, Fs, put, Disk, write_file, create_dir_all, touch}
use dookie.MoveJob.MoveDir.{
  Entries, end, link, file, folder, Source, directory, linked, Moving, move_entries, move_dir,
}
use dookie.MoveJob.MoveDir.Holds.{Holds, in_file, in_folder, after_file, IsDistinct}
use dookie.MoveJob.MoveDir.Kept.{SourceHolds, move_dir_loses_nothing}
use dookie.MoveJob.MoveDir.Leaving.{replaced, HasNoLink, IsMovable}
use dookie.MoveJob.MoveDir.Done.{mass_move_done, targeted_move_done}

-- A film in a directory beside an older link and a single file.
abbrev media : Entries
media =
    file "b.mkv" (7 ∷ [])
      (folder "film" (file "a.mkv" (1 ∷ 2 ∷ []) end) (link "old" ("ext" ∷ "old" ∷ []) end))

abbrev film : Entries
film = file "a.mkv" (1 ∷ 2 ∷ []) end

abbrev nothing : Fs
nothing _ = none

abbrev disk_of : (ℕ → Bool) → Disk
disk_of fails = record { fs = put nothing ("ext" ∷ []) (some dir); fails = fails; calls = 0 }

abbrev never : ℕ → Bool
never n = false

-- The twelfth call fails.
abbrev once : ℕ → Bool
once n = n == 11

ne_names : ◌≢◌ {A = String} "b.mkv" "film"
ne_names = ground (arith, eq_iff "b.mkv" "film")

ne_old : ◌≢◌ {A = String} "b.mkv" "old"
ne_old = ground (arith, eq_iff "b.mkv" "old")

ne_film : ◌≢◌ {A = String} "film" "old"
ne_film = ground (arith, eq_iff "film" "old")

media-IsDistinct : IsDistinct media
media-IsDistinct = ((ne_names, (ne_old, tt)), ((ne_film, tt), (tt, tt), (tt, tt)))

-- Their lines name all that a run computes with.
run_mass : Disk → Moving Source
unfolding move_dir move_entries write_file create_dir_all touch
run_mass = move_dir true true (some "media") (directory media) ("ext" ∷ [])

run_film : Disk → Moving Source
unfolding move_dir move_entries write_file create_dir_all touch
run_film = move_dir true false (some "film") (directory film) ("ext" ∷ [])

mass_ok :
    (move_dir true true (some "media") (directory media) ("ext" ∷ []) (disk_of never)).0 ≡ ok tt
unfolding run_mass
mass_ok = refl

film_ok :
    (move_dir true false (some "film") (directory film) ("ext" ∷ []) (disk_of never)).0 ≡ ok tt
unfolding run_film
film_ok = refl

move_dir_loses_nothing_example :
    SourceHolds
      (move_dir true true (some "media") (directory media) ("ext" ∷ []) (disk_of once)).1
      ("film" ∷ "a.mkv" ∷ [])
      (1 ∷ 2 ∷ [])
    ⊎ ((move_dir true true (some "media") (directory media) ("ext" ∷ []) (disk_of once)).2.fs
          ("ext" ∷ "film" ∷ "a.mkv" ∷ [])
        ≡ some (Node.file (1 ∷ 2 ∷ [])))
move_dir_loses_nothing_example =
    move_dir_loses_nothing true true "media" media ("ext" ∷ []) ("film" ∷ "a.mkv" ∷ []) (1 ∷ 2 ∷ [])
      (disk_of once) media-IsDistinct (after_file (in_folder in_file))

mass_move_done_example :
    ((p : FilePath) (b : List ℕ)
      → Holds media p b
      → (move_dir true true (some "media") (directory media) ("ext" ∷ []) (disk_of never)).2.fs
          ("ext" ∷ p)
        ≡ some (Node.file b))
    × ((move_dir true true (some "media") (directory media) ("ext" ∷ []) (disk_of never)).1
        ≡ directory (replaced true ("ext" ∷ []) media))
    × IsMovable media
mass_move_done_example =
    mass_move_done "media" media ("ext" ∷ []) (disk_of never) media-IsDistinct mass_ok

targeted_move_done_example :
    ((p : FilePath) (b : List ℕ)
      → Holds film p b
      → (move_dir true false (some "film") (directory film) ("ext" ∷ []) (disk_of never)).2.fs
          ("ext" ∷ "film" ∷ p)
        ≡ some (Node.file b))
    × ((move_dir true false (some "film") (directory film) ("ext" ∷ []) (disk_of never)).1
        ≡ linked ("ext" ∷ "film" ∷ []))
    × HasNoLink film
targeted_move_done_example =
    targeted_move_done "film" film ("ext" ∷ []) (disk_of never) (tt, tt) film_ok
