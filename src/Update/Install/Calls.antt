-- ===== src/Update/Install/Calls.antt =====
-- The checks before the transaction, the staging directory's removal, and the syncing of the
-- directory: what they find out and what they leave alone.
use dookie.Base.{◌≡◌, refl, Option, none, some, List, [], ◌∷◌, arith}
use dookie.Base.Result.{ok, Result-cases}
use dookie.Base.{inl, inr}
use dookie.Disk.Paths.{strip_prefix}
use dookie.Disk.{FilePath, Node, file, Fs, Disk}
use dookie.Update.Install.{check_regular, check_all, close, sync_dir}

-- The destination is free or has a regular file.
abbrev pub IsReplaceable : Option Node → Type 0
IsReplaceable none = Unit
IsReplaceable (some (file _)) = Unit
IsReplaceable _ = ⊥

abbrev pub AllReplaceable : Fs → List FilePath → Type 0
AllReplaceable fs [] = Unit
AllReplaceable fs (p ∷ ps) = IsReplaceable (fs p) × AllReplaceable fs ps

check_regular_frame : (p : FilePath) (d : Disk) → (check_regular p d).1.fs ≡ d.fs
unfolding check_regular
check_regular_frame p d = ground arith

check_regular_ok :
    (p : FilePath) (d : Disk) → (check_regular p d).0 ≡ ok tt → IsReplaceable (d.fs p)
unfolding check_regular
check_regular_ok p d h = ground arith

pub check_all_frame : (ps : List FilePath) (d : Disk) → (check_all ps d).1.fs ≡ d.fs
unfolding check_all
check_all_frame [] d = refl
check_all_frame (p ∷ ps) d =
    ground (arith, check_regular_frame p d, check_all_frame ps (check_regular p d).1)

pub check_all_ok :
    (ps : List FilePath) (d : Disk) → (check_all ps d).0 ≡ ok tt → AllReplaceable d.fs ps
unfolding check_all
check_all_ok [] d h = tt
check_all_ok (p ∷ ps) d h = elim (Result-cases (check_regular p d).0) [
  | inl (_, e) ↦ (
    check_regular_ok p d e,
    rw (check_regular_frame p d) at (check_all_ok ps (check_regular p d).1 (ground arith)),
  )
  | inr (_, e) ↦ absurd (ground arith)
]

pub close_frame :
    (staging q : FilePath) (d : Disk)
    → strip_prefix staging q ≡ none
    → (close staging d).1.fs q ≡ d.fs q
unfolding close
close_frame staging q d h = ground arith

pub sync_dir_frame : (d : Disk) → (sync_dir d).1.fs ≡ d.fs
unfolding sync_dir
sync_dir_frame d = ground arith
