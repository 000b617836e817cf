-- ===== src/Update/Install/Rollback.antt =====
-- Undoing a list of replacements gives every destination what it had, if no step of it fails.
use dookie.Base.{◌≡◌, refl, ◌∙◌, sym, ◌≢◌, none, some, List, [], ◌∷◌, arith}
use mathlib.Core.Path.{subst}
use dookie.Base.Result.{ok}
use dookie.Disk.{FilePath, Fs, Disk}
use dookie.Disk.Laws.{
  rename_frame, rename_target, remove_file_frame, remove_file_gone, remove_file_missing,
}
use dookie.Update.{Replacement}
use dookie.Update.Install.{restore, restore_all}

-- The old node of the destination is in its backup; there was none if there is no backup.
abbrev pub Kept : Fs → Fs → Replacement → Type 0
Kept old fs (p, some b) = fs b ≡ old p
Kept old fs (p, none) = old p ≡ none

abbrev pub Outside : FilePath → Replacement → Type 0
Outside q (p, some b) = (p ≢ q) × (b ≢ q)
Outside q (p, none) = p ≢ q

abbrev pub OutsideAll : FilePath → List Replacement → Type 0
OutsideAll q [] = Unit
OutsideAll q (x ∷ xs) = Outside q x × OutsideAll q xs

abbrev pub KeptAll : Fs → Fs → List Replacement → Type 0
KeptAll old fs [] = Unit
KeptAll old fs (x ∷ xs) = Kept old fs x × KeptAll old fs xs

-- Neither path of a replacement is one of another.
abbrev pub Apart : Replacement → Replacement → Type 0
Apart x (p, some b) = Outside p x × Outside b x
Apart x (p, none) = Outside p x

abbrev pub ApartAll : Replacement → List Replacement → Type 0
ApartAll x [] = Unit
ApartAll x (y ∷ ys) = Apart x y × ApartAll x ys

abbrev pub Distinct : List Replacement → Type 0
Distinct [] = Unit
Distinct (x ∷ xs) = ApartAll x xs × Distinct xs

abbrev pub RestoredAll : Fs → Fs → List Replacement → Type 0
RestoredAll old fs [] = Unit
RestoredAll old fs (x ∷ xs) = (fs x.0 ≡ old x.0) × RestoredAll old fs xs

restore_frame :
    (q : FilePath) (x : Replacement) (d : Disk) → Outside q x → (restore x d).1.fs q ≡ d.fs q
unfolding restore
restore_frame q (p, some b) d h = rename_frame b p d q h.1 h.0
restore_frame q (p, none) d h = ground (arith, remove_file_frame p d q h)

restore_ok :
    (old : Fs) (x : Replacement) (d : Disk)
    → Kept old d.fs x
    → (restore x d).0 ≡ ok tt
    → (restore x d).1.fs x.0 ≡ old x.0
unfolding restore
restore_ok old (p, some b) d k h = rename_target b p d h ∙ k
restore_ok old (p, none) d k h = ground (arith, remove_file_gone p d, remove_file_missing p d)

pub restore_all_frame :
    (q : FilePath) (xs : List Replacement) (d : Disk)
    → OutsideAll q xs
    → (restore_all xs d).1.fs q ≡ d.fs q
unfolding restore_all
restore_all_frame q [] d h = refl
restore_all_frame q (x ∷ xs) d (h, hs) =
    ground (arith, restore_frame q x d h, restore_all_frame q xs (restore x d).1 hs)

Kept-restore :
    (old : Fs) (x y : Replacement) (d : Disk)
    → Apart x y
    → Kept old d.fs y
    → Kept old (restore x d).1.fs y
Kept-restore old x (p, some b) d a k = restore_frame b x d a.1 ∙ k
Kept-restore old x (p, none) d a k = k

KeptAll-restore :
    (old : Fs) (x : Replacement) (ys : List Replacement) (d : Disk)
    → ApartAll x ys
    → KeptAll old d.fs ys
    → KeptAll old (restore x d).1.fs ys
KeptAll-restore old x [] d a k = tt
KeptAll-restore old x (y ∷ ys) d a k =
    (Kept-restore old x y d a.0 k.0, KeptAll-restore old x ys d a.1 k.1)

OutsideAll-of_ApartAll :
    (x : Replacement) (ys : List Replacement) → ApartAll x ys → OutsideAll x.0 ys
OutsideAll-of_ApartAll x [] a = tt
OutsideAll-of_ApartAll (p, some b) ((q, some c) ∷ ys) a =
    ((λ e. a.0.0.0 (sym e), λ e. a.0.1.0 (sym e)), OutsideAll-of_ApartAll (p, some b) ys a.1)
OutsideAll-of_ApartAll (p, some b) ((q, none) ∷ ys) a =
    ((λ e. a.0.0 (sym e)), OutsideAll-of_ApartAll (p, some b) ys a.1)
OutsideAll-of_ApartAll (p, none) ((q, some c) ∷ ys) a =
    ((λ e. a.0.0 (sym e), λ e. a.0.1 (sym e)), OutsideAll-of_ApartAll (p, none) ys a.1)
OutsideAll-of_ApartAll (p, none) ((q, none) ∷ ys) a =
    ((λ e. a.0 (sym e)), OutsideAll-of_ApartAll (p, none) ys a.1)

failure_free :
    (x : Replacement) (xs : List Replacement) (d : Disk)
    → (restore_all (x ∷ xs) d).0 ≡ []
    → ((restore x d).0 ≡ ok tt) × ((restore_all xs (restore x d).1).0 ≡ [])
unfolding restore_all
failure_free x xs d h = ground arith

restore_all-cons :
    (x : Replacement) (xs : List Replacement) (d : Disk)
    → (restore_all (x ∷ xs) d).1 ≡ (restore_all xs (restore x d).1).1
unfolding restore_all
restore_all-cons x xs d = ground arith

pub restore_all_ok :
    (old : Fs) (xs : List Replacement) (d : Disk)
    → Distinct xs
    → KeptAll old d.fs xs
    → (restore_all xs d).0 ≡ []
    → RestoredAll old (restore_all xs d).1.fs xs
restore_all_ok old [] d a k h = tt
restore_all_ok old (x ∷ xs) d (a, as') k h =
    let f = failure_free x xs d h in
    subst (λ (e : Disk). RestoredAll old e.fs (x ∷ xs)) (sym (restore_all-cons x xs d))
      (
        restore_all_frame x.0 xs _ (OutsideAll-of_ApartAll x xs a) ∙ restore_ok old x d k.0 f.0,
        restore_all_ok old xs (restore x d).1 as' (KeptAll-restore old x xs d a k.1) f.1,
      )
