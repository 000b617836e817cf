-- ===== src/Update/Install/Atomic.antt =====
-- The installation is all or nothing: the lemmas, over the six paths that it touches.
use mathlib.Core.List.{reverse}
use dookie.Base.{◌≡◌, refl, ◌∙◌, sym, ◌≢◌, Option, none, some, List, [], ◌∷◌, map, arith}
use dookie.Disk.Paths.{strip_prefix}
use dookie.Disk.{FilePath, Node, IoError, Fs, Disk}
use dookie.Update.{UpdateError, rollback_incomplete, Replacement}
use dookie.Update.Install.{Txn, close, restore_all, rollback, drop_installed, abandon}
use dookie.Update.Install.Calls.{close_frame}
use dookie.Update.Install.Rollback.{Kept, Apart, Outside, restore_all_frame, restore_all_ok}
use dookie.Update.Install.Replace.{backup_of}

-- The staged file, the destination and the backup of the two binaries, in the staging directory
-- and outside it.
pub record AllApart (staging s1 d1 b1 s2 d2 b2 : FilePath) : Type 0 where
  pub s1d1 : s1 ≢ d1
  pub s1b1 : s1 ≢ b1
  pub s1s2 : s1 ≢ s2
  pub s1d2 : s1 ≢ d2
  pub d1b1 : d1 ≢ b1
  pub d1s2 : d1 ≢ s2
  pub d1d2 : d1 ≢ d2
  pub d1b2 : d1 ≢ b2
  pub b1s2 : b1 ≢ s2
  pub b1d2 : b1 ≢ d2
  pub b1b2 : b1 ≢ b2
  pub s2d2 : s2 ≢ d2
  pub s2b2 : s2 ≢ b2
  pub d2b2 : d2 ≢ b2
  pub d1_outside : strip_prefix staging d1 ≡ none
  pub b1_outside : strip_prefix staging b1 ≡ none
  pub d2_outside : strip_prefix staging d2 ≡ none
  pub b2_outside : strip_prefix staging b2 ≡ none

module _ {staging s1 d1 b1 s2 d2 b2 : FilePath} (apart : AllApart staging s1 d1 b1 s2 d2 b2)
    (old : Fs) where
  abbrev first : Replacement
  first = (d1, backup_of (old d1) b1)

  abbrev second : Replacement
  second = (d2, backup_of (old d2) b2)

  -- The record suffices to undo what has been done.
  pub data Undoable (replacements : List Replacement) (fs : Fs) : Type 0 where
    none_yet : replacements ≡ [] → fs d1 ≡ old d1 → fs d2 ≡ old d2 → Undoable replacements fs
    one : replacements ≡ first ∷ [] → Kept old fs first → fs d2 ≡ old d2 → Undoable replacements fs
    both :
        replacements ≡ first ∷ second ∷ []
        → Kept old fs first
        → Kept old fs second
        → Undoable replacements fs

  -- Both binaries are the staged ones, and what they replace stands in the backups.
  pub record IsInstalled (fs : Fs) : Type 0 where
    pub new_first : fs d1 ≡ old s1
    pub new_second : fs d2 ≡ old s2
    pub old_first : Kept old fs first
    pub old_second : Kept old fs second

  pub Kept-congr :
      (o : Option Node) (fs fs' : Fs) (d b : FilePath)
      → fs' b ≡ fs b
      → Kept old fs (d, backup_of o b)
      → Kept old fs' (d, backup_of o b)
  Kept-congr none fs fs' d b e k = k
  Kept-congr (some n) fs fs' d b e k = e ∙ k

  -- What leaves the four paths alone keeps the record sufficient.
  pub Undoable-congr :
      {reps : List Replacement} (fs fs' : Fs)
      → fs' d1 ≡ fs d1
      → fs' b1 ≡ fs b1
      → fs' d2 ≡ fs d2
      → fs' b2 ≡ fs b2
      → Undoable reps fs
      → Undoable reps fs'
  Undoable-congr fs fs' e f g h (none_yet p q r) = none_yet p (e ∙ q) (g ∙ r)
  Undoable-congr fs fs' e f g h (one p q r) = one p (Kept-congr (old d1) fs fs' d1 b1 f q) (g ∙ r)
  Undoable-congr fs fs' e f g h (both p q r) =
      both p (Kept-congr (old d1) fs fs' d1 b1 f q) (Kept-congr (old d2) fs fs' d2 b2 h r)

  pub Undoable-close :
      {reps : List Replacement} (d : Disk)
      → Undoable reps d.fs
      → Undoable reps (close staging d).1.fs
  Undoable-close d u =
      Undoable-congr d.fs (close staging d).1.fs (close_frame staging d1 d apart.d1_outside)
        (close_frame staging b1 d apart.b1_outside) (close_frame staging d2 d apart.d2_outside)
        (close_frame staging b2 d apart.b2_outside) u

  Outside-first :
      (q : FilePath) (o : Option Node) → d1 ≢ q → b1 ≢ q → Outside q (d1, backup_of o b1)
  Outside-first q none h k = h
  Outside-first q (some n) h k = (h, k)

  Apart-at : (o o' : Option Node) → Apart (d2, backup_of o' b2) (d1, backup_of o b1)
  Apart-at none none = λ e. apart.d1d2 (sym e)
  Apart-at none (some n) = (λ e. apart.d1d2 (sym e), λ e. apart.d1b2 (sym e))
  Apart-at (some m) none = (λ e. apart.d1d2 (sym e), λ e. apart.b1d2 (sym e))
  Apart-at (some m) (some n) = (
    (λ e. apart.d1d2 (sym e), λ e. apart.d1b2 (sym e)),
    (λ e. apart.b1d2 (sym e), λ e. apart.b1b2 (sym e)),
  )

  abbrev pub IsOriginal : Fs → Type 0
  IsOriginal fs = (fs d1 ≡ old d1) × (fs d2 ≡ old d2)

  undone_one :
      (d : Disk)
      → Kept old d.fs first
      → d.fs d2 ≡ old d2
      → (restore_all (first ∷ []) d).0 ≡ []
      → IsOriginal (restore_all (first ∷ []) d).1.fs
  undone_one d q r h = (
    (restore_all_ok old (first ∷ []) d (tt, tt) (q, tt) h).0,
    restore_all_frame d2 (first ∷ []) d (Outside-first d2 (old d1) apart.d1d2 apart.b1d2, tt) ∙ r,
  )

  undone_both :
      (d : Disk)
      → Kept old d.fs first
      → Kept old d.fs second
      → (restore_all (second ∷ first ∷ []) d).0 ≡ []
      → IsOriginal (restore_all (second ∷ first ∷ []) d).1.fs
  undone_both d q r h =
      let res =
        restore_all_ok old (second ∷ first ∷ []) d ((Apart-at (old d1) (old d2), tt), (tt, tt))
          (r, (q, tt)) h in
      (res.1.0, res.0)

  undone :
      (reps : List Replacement) (d : Disk)
      → Undoable reps d.fs
      → (restore_all (reverse reps) d).0 ≡ []
      → IsOriginal (restore_all (reverse reps) d).1.fs
  undone reps d (none_yet p q r) h = unfold restore_all in rw p (q, r)
  undone reps d (one p q r) h = rw p (undone_one d q r (rw p at h))
  undone reps d (both p q r) h = rw p (undone_both d q r (rw p at h))

module _ (error : UpdateError) (t : Txn) where
  abbrev undo : List (Replacement × IoError) × Disk
  undo = restore_all (reverse t.installed.replacements) t.disk

  abandon_clean : undo.0 ≡ [] → (abandon error t).1.fs ≡ undo.1.fs
  unfolding abandon rollback drop_installed restore_all
  abandon_clean e = ground arith

  abandon_failed :
      {f : Replacement × IoError} {fs : List (Replacement × IoError)}
      → undo.0 ≡ f ∷ fs
      → (abandon error t).0 ≡ rollback_incomplete (map (λ ((p, _), x). (p, x)) (f ∷ fs))
  unfolding abandon rollback
  abandon_failed e = ground arith

module _ {staging s1 d1 b1 s2 d2 b2 : FilePath} (apart : AllApart staging s1 d1 b1 s2 d2 b2)
    (old : Fs) (error : UpdateError) (t : Txn) where
  -- Giving up leaves the original binaries, unless the error says that it did not.
  pub abandon_restores :
      Undoable apart old t.installed.replacements t.disk.fs
      → ((left : List (FilePath × IoError)) → (abandon error t).0 ≢ rollback_incomplete left)
      → IsOriginal apart old (abandon error t).1.fs
  abandon_restores u h = go (undo error t).0 refl
    where
      go :
          (failures : List (Replacement × IoError))
          → (undo error t).0 ≡ failures
          → IsOriginal apart old (abandon error t).1.fs
      go [] e = rw (abandon_clean error t e) (undone apart old t.installed.replacements t.disk u e)
      go (f ∷ fs) e = absurd (h _ (abandon_failed error t e))
