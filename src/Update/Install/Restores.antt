-- ===== src/Update/Install/Restores.antt =====
-- `install` followed by `exec`: both new binaries run, or the old ones stand where they stood.
use mathlib.Core.Path.{subst}
use dookie.Base.{◌≡◌, refl, ◌∙◌, sym, ap, ◌≢◌, inl, inr, none, List, [], arith}
use dookie.Base.Result.{Result, ok, err, Result-cases}
use dookie.Disk.Paths.{strip_prefix}
use dookie.Disk.{FilePath, IoError, Fs, Disk}
use dookie.Update.{UpdateError, rollback_incomplete, PreparedUpdate, InstalledUpdate}
use dookie.Update.Install.{
  Txn, join, bak, binaries, checked, check_all, begin, replace_binary, replace_all, close,
  transaction, abandon, install,
}
use dookie.Update.Install.Calls.{
  IsReplaceable, check_all_frame, check_all_ok, sync_dir_frame, close_frame,
}
use dookie.Update.Install.Atomic.{
  AllApart, Undoable, IsInstalled, IsOriginal, Undoable-congr, Kept-congr, abandon_restores,
}
use dookie.Update.Install.Transaction.{
  IsUndoable, round1-IsUndoable, round2-IsUndoable, round2-IsInstalled,
}

module _ (u : PreparedUpdate) where
  abbrev pub server : FilePath
  server = join u.install_dir "dookie_server"

  abbrev pub client : FilePath
  client = join u.install_dir "dookiec"

  abbrev pub IsApart : Type 0
  IsApart =
      AllApart u.staging (join u.staging "dookie_server") server
        (join u.install_dir (bak "dookie_server")) (join u.staging "dookiec") client
        (join u.install_dir (bak "dookiec"))

module _ (u : PreparedUpdate) (apart : IsApart u) (t : Txn) (empty : t.installed.replacements ≡ [])
    (free1 : IsReplaceable (t.disk.fs (server u)))
    (free2 : IsReplaceable (t.disk.fs (client u))) where
  abbrev Safe : Txn → Type 0
  Safe = IsUndoable apart t empty free1 free2

  abbrev first_round : Result UpdateError (Unit {0}) × Txn
  first_round =
      replace_binary (join u.staging "dookie_server") (server u)
        (join u.install_dir (bak "dookie_server")) t

  abbrev second_round : Result UpdateError (Unit {0}) × Txn
  second_round =
      replace_binary (join u.staging "dookiec") (client u) (join u.install_dir (bak "dookiec"))
        first_round.1

  stops :
      {e : UpdateError} → first_round.0 ≡ err e → replace_all u binaries t ≡ (err e, first_round.1)
  unfolding replace_all
  stops h = ground arith

  goes_on : first_round.0 ≡ ok tt → replace_all u binaries t ≡ second_round
  unfolding replace_all
  goes_on h = ground arith

  replace_all_undoable : Safe (replace_all u binaries t).1
  replace_all_undoable = elim (Result-cases first_round.0) [
    | inl (_, h) ↦
        subst (λ (x : Result UpdateError (Unit {0}) × Txn). Safe x.1) (sym (goes_on h))
          (round2-IsUndoable apart t empty free1 free2 h)
    | inr (e, h) ↦
        subst (λ (x : Result UpdateError (Unit {0}) × Txn). Safe x.1) (sym (stops h))
          (round1-IsUndoable apart t empty free1 free2)
  ]

  replace_all-IsInstalled :
      (replace_all u binaries t).0 ≡ ok tt
      → IsInstalled apart t.disk.fs (replace_all u binaries t).1.disk.fs
  replace_all-IsInstalled k = elim (Result-cases first_round.0) [
    | inl (_, h) ↦
        subst (λ (x : Result UpdateError (Unit {0}) × Txn). IsInstalled apart t.disk.fs x.1.disk.fs)
          (sym (goes_on h))
          (round2-IsInstalled apart t empty free1 free2 h
            (subst (λ (x : Result UpdateError (Unit {0}) × Txn). x.0 ≡ ok tt) (goes_on h) k))
    | inr (e, h) ↦ absurd (cc (ap (λ (x : Result UpdateError (Unit {0}) × Txn). x.0) (stops h)))
  ]

  -- What removing the staging directory and syncing leave alone.
  finish_frame :
      (q : FilePath)
      → strip_prefix u.staging q ≡ none
      → (transaction u t).1.disk.fs q ≡ (replace_all u binaries t).1.disk.fs q
  unfolding transaction
  finish_frame q h = ground (
    arith,
    close_frame u.staging q (replace_all u binaries t).1.disk h,
    sync_dir_frame (close u.staging (replace_all u binaries t).1.disk).1,
  )

  finish_record :
      (transaction u t).1.installed.replacements
      ≡ (replace_all u binaries t).1.installed.replacements
  unfolding transaction
  finish_record = ground arith

  finish_ok : (transaction u t).0 ≡ ok tt → (replace_all u binaries t).0 ≡ ok tt
  unfolding transaction
  finish_ok h = ground arith

  pub transaction_undoable : Safe (transaction u t).1
  transaction_undoable =
      subst (λ r. Undoable apart t.disk.fs r (transaction u t).1.disk.fs) (sym finish_record)
        (Undoable-congr apart t.disk.fs (replace_all u binaries t).1.disk.fs
          (transaction u t).1.disk.fs (finish_frame (server u) apart.d1_outside)
          (finish_frame _ apart.b1_outside) (finish_frame (client u) apart.d2_outside)
          (finish_frame _ apart.b2_outside) replace_all_undoable)

  pub transaction-IsInstalled :
      (transaction u t).0 ≡ ok tt → IsInstalled apart t.disk.fs (transaction u t).1.disk.fs
  transaction-IsInstalled h =
      let i = replace_all-IsInstalled (finish_ok h) in
      record {
        new_first = finish_frame (server u) apart.d1_outside ∙ i.new_first;
        new_second = finish_frame (client u) apart.d2_outside ∙ i.new_second;
        old_first =
            Kept-congr apart t.disk.fs (t.disk.fs (server u)) (replace_all u binaries t).1.disk.fs
              (transaction u t).1.disk.fs (server u) _ (finish_frame _ apart.b1_outside)
              i.old_first;
        old_second =
            Kept-congr apart t.disk.fs (t.disk.fs (client u)) (replace_all u binaries t).1.disk.fs
              (transaction u t).1.disk.fs (client u) _ (finish_frame _ apart.b2_outside)
              i.old_second;
      }

module _ (u : PreparedUpdate) (apart : IsApart u) (d : Disk) where
  abbrev pub check : Result UpdateError (Unit {0}) × Disk
  check = check_all (checked u.install_dir binaries) d

  abbrev pub closure : Result UpdateError (Unit {0}) × Txn
  closure = transaction u (begin u check.1)

  abbrev pub IsOld : Fs → Type 0
  IsOld = IsOriginal apart d.fs

  abbrev pub NotIncomplete : UpdateError → Type 0
  NotIncomplete e = (left : List (FilePath × IoError)) → e ≢ rollback_incomplete left

  check_kept : check.1.fs ≡ d.fs
  check_kept = check_all_frame (checked u.install_dir binaries) d

  module _ (passed : check.0 ≡ ok tt) where
    free1 : IsReplaceable (check.1.fs (server u))
    free1 = rw check_kept (check_all_ok (checked u.install_dir binaries) d passed).0

    free2 : IsReplaceable (check.1.fs (client u))
    free2 = rw check_kept (check_all_ok (checked u.install_dir binaries) d passed).1.1.0

    pub closure-Undoable : Undoable apart d.fs closure.1.installed.replacements closure.1.disk.fs
    closure-Undoable =
        subst (λ fs. Undoable apart fs closure.1.installed.replacements closure.1.disk.fs)
          check_kept (transaction_undoable u apart (begin u check.1) refl free1 free2)

    pub closure-IsInstalled : closure.0 ≡ ok tt → IsInstalled apart d.fs closure.1.disk.fs
    closure-IsInstalled h =
        subst (λ fs. IsInstalled apart fs closure.1.disk.fs) check_kept
          (transaction-IsInstalled u apart (begin u check.1) refl free1 free2 h)

  -- How `install` ends, in its three cases.
  pub refused :
      {e : UpdateError} → check.0 ≡ err e → install u d ≡ (err e, (close u.staging check.1).1)
  unfolding install
  refused h = ground arith

  pub given_up :
      {e : UpdateError}
      → check.0 ≡ ok tt
      → closure.0 ≡ err e
      → install u d ≡ (err (abandon e closure.1).0, (abandon e closure.1).1)
  unfolding install
  given_up h k = ground arith

  pub done :
      check.0 ≡ ok tt → closure.0 ≡ ok tt → install u d ≡ (ok closure.1.installed, closure.1.disk)
  unfolding install
  done h k = ground arith

  refused-IsOld : IsOld (close u.staging check.1).1.fs
  refused-IsOld = (
    close_frame u.staging (server u) check.1 apart.d1_outside ∙ ap (λ fs. fs (server u)) check_kept,
    close_frame u.staging (client u) check.1 apart.d2_outside ∙ ap (λ fs. fs (client u)) check_kept,
  )

  -- An error of `install`, other than a rollback that stopped short, leaves both binaries.
  pub install_restores :
      (e : UpdateError) → (install u d).0 ≡ err e → NotIncomplete e → IsOld (install u d).1.fs
  install_restores e h n = elim (Result-cases check.0) [
    | inr (x, c) ↦ rw (refused c) refused-IsOld
    | inl (_, c) ↦ elim (Result-cases closure.0) [
      | inl (_, k) ↦
          absurd (cc (ap (λ (x : Result UpdateError InstalledUpdate × Disk). x.0) (done c k)))
      | inr (x, k) ↦
          let same : (abandon x closure.1).0 ≡ e = ground (arith, given_up c k) in
          rw (given_up c k) (
            abandon_restores apart d.fs x closure.1 (closure-Undoable c)
              (λ left p. n left (sym same ∙ p)))
    ]
  ]
