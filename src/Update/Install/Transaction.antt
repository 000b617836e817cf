-- ===== src/Update/Install/Transaction.antt =====
-- The two rounds of the loop, the removal of the staging directory and the syncing: what stands
-- recorded at every exit of the closure in `install`.
use mathlib.Core.Path.{subst}
use dookie.Base.{◌≡◌, refl, ◌∙◌, sym, ap, ◌≢◌, ◌⊎◌, inl, inr, Option, none, some, [], ◌∷◌, ◌++◌}
use dookie.Base.Result.{Result, ok}
use dookie.Disk.{FilePath, Node, Fs}
use dookie.Update.{UpdateError}
use dookie.Update.Install.{Txn, replace_binary}
use dookie.Update.Install.Calls.{IsReplaceable}
use dookie.Update.Install.Rollback.{Kept}
use dookie.Update.Install.Replace.{
  backup_of, Untouched, Recorded, replace_binary_frame, replace_binary_cases,
}
use dookie.Update.Install.Atomic.{AllApart, Undoable, none_yet, one, both, IsInstalled, Kept-congr}

Kept-old :
    (o : Option Node) (fs fs' f : Fs) (d b : FilePath)
    → fs d ≡ o
    → fs' d ≡ o
    → Kept fs f (d, backup_of o b)
    → Kept fs' f (d, backup_of o b)
Kept-old none fs fs' f d b e e' k = e'
Kept-old (some n) fs fs' f d b e e' k = k ∙ e ∙ sym e'

module _ {staging s1 d1 b1 s2 d2 b2 : FilePath} (apart : AllApart staging s1 d1 b1 s2 d2 b2)
    (t : Txn) (empty : t.installed.replacements ≡ []) (free1 : IsReplaceable (t.disk.fs d1))
    (free2 : IsReplaceable (t.disk.fs d2)) where
  abbrev pub old : Fs
  old = t.disk.fs

  abbrev pub IsUndoable : Txn → Type 0
  IsUndoable t' = Undoable apart old t'.installed.replacements t'.disk.fs

  abbrev round1 : Result UpdateError (Unit {0}) × Txn
  round1 = replace_binary s1 d1 b1 t

  abbrev round2 : Result UpdateError (Unit {0}) × Txn
  round2 = replace_binary s2 d2 b2 round1.1

  d2_kept : round1.1.disk.fs d2 ≡ old d2
  d2_kept = replace_binary_frame s1 d1 b1 t d2 apart.s1d2 apart.d1d2 apart.b1d2

  s2_kept : round1.1.disk.fs s2 ≡ old s2
  s2_kept = replace_binary_frame s1 d1 b1 t s2 apart.s1s2 apart.d1s2 apart.b1s2

  round2_frame : (q : FilePath) → s2 ≢ q → d2 ≢ q → b2 ≢ q → round2.1.disk.fs q ≡ round1.1.disk.fs q
  round2_frame = replace_binary_frame s2 d2 b2 round1.1

  abbrev cases1 : Untouched s1 d1 b1 t ⊎ Recorded s1 d1 b1 t
  cases1 = replace_binary_cases s1 d1 b1 t free1 apart.s1d1 apart.s1b1 apart.d1b1

  abbrev cases2 : Untouched s2 d2 b2 round1.1 ⊎ Recorded s2 d2 b2 round1.1
  cases2 =
      replace_binary_cases s2 d2 b2 round1.1 (subst IsReplaceable (sym d2_kept) free2) apart.s2d2
        apart.s2b2 apart.d2b2

  pub round1-IsUndoable : IsUndoable round1.1
  round1-IsUndoable = elim cases1 [
    | inl (p, q, _) ↦ none_yet (p ∙ empty) q d2_kept
    | inr (p, q, _) ↦ one (p ∙ ap (λ r. r ++ (d1, backup_of (old d1) b1) ∷ []) empty) q d2_kept
  ]

  round1_recorded : round1.0 ≡ ok tt → Recorded s1 d1 b1 t
  round1_recorded h = elim cases1 [ inl (_, _, (e, r)) ↦ absurd (cc) | inr r ↦ r ]

  module _ (h : round1.0 ≡ ok tt) where
    first_recorded : round1.1.installed.replacements ≡ (d1, backup_of (old d1) b1) ∷ []
    first_recorded = (round1_recorded h).0 ∙ ap (λ r. r ++ (d1, backup_of (old d1) b1) ∷ []) empty

    first-Kept : Kept old round2.1.disk.fs (d1, backup_of (old d1) b1)
    first-Kept =
        Kept-congr apart old (old d1) round1.1.disk.fs round2.1.disk.fs d1 b1
          (round2_frame b1 (λ e. apart.b1s2 (sym e)) (λ e. apart.b1d2 (sym e))
            (λ e. apart.b1b2 (sym e)))
          (round1_recorded h).1

    second-Kept : Recorded s2 d2 b2 round1.1 → Kept old round2.1.disk.fs (d2, backup_of (old d2) b2)
    second-Kept r =
        Kept-old (old d2) round1.1.disk.fs old round2.1.disk.fs d2 b2 d2_kept refl
          (subst (λ n. Kept round1.1.disk.fs round2.1.disk.fs (d2, backup_of n b2)) d2_kept r.1)

    pub round2-IsUndoable : IsUndoable round2.1
    round2-IsUndoable = elim cases2 [
      | inl (p, q, _) ↦ one (p ∙ first_recorded) first-Kept (q ∙ d2_kept)
      | inr r ↦
          both
            (r.0
              ∙ ap (λ l. l ++ (d2, backup_of (round1.1.disk.fs d2) b2) ∷ []) first_recorded
              ∙ ap (λ n. (d1, backup_of (old d1) b1) ∷ (d2, backup_of n b2) ∷ []) d2_kept)
            first-Kept (second-Kept r)
    ]

    pub round2-IsInstalled : round2.0 ≡ ok tt → IsInstalled apart old round2.1.disk.fs
    round2-IsInstalled k = elim cases2 [
      | inl (_, _, (e, r)) ↦ absurd (cc)
      | inr r ↦ record {
        new_first =
            round2_frame d1 (λ e. apart.d1s2 (sym e)) (λ e. apart.d1d2 (sym e))
              (λ e. apart.d1b2 (sym e))
            ∙ (round1_recorded h).2 h;
        new_second = r.2 k ∙ s2_kept;
        old_first = first-Kept;
        old_second = second-Kept r;
      }
    ]
