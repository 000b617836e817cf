-- ===== src/Update/Install/Replace.antt =====
-- One round of the loop over the binaries: what it records and what it leaves alone.
use dookie.Base.{
  ℕ, ◌≡◌, refl, sym, ◌≢◌, ◌⊎◌, inl, inr, Option, none, some, List, [], ◌∷◌, ◌++◌, arith,
}
use dookie.Base.Result.{Result, ok, err, Result-cases}
use dookie.Disk.{FilePath, Node, file, dir, symlink, IoError, rename}
use dookie.Disk.Laws.{rename_frame, rename_err, rename_target}
use dookie.Update.{UpdateError, io, Replacement}
use dookie.Update.Install.{Txn, replace_binary}
use dookie.Update.Install.Calls.{IsReplaceable}
use dookie.Update.Install.Rollback.{Kept}

-- The backup that is recorded, where the round gets as far as that.
abbrev pub backup_of : Option Node → FilePath → Option FilePath
backup_of none backup = none
backup_of (some _) backup = some backup

module _ (staged destination backup : FilePath) (t : Txn) where
  abbrev pub after : Result UpdateError (Unit {0}) × Txn
  after = replace_binary staged destination backup t

  abbrev pub record_of : Replacement
  record_of = (destination, backup_of (t.disk.fs destination) backup)

  pub replace_binary_frame :
      (q : FilePath) → staged ≢ q → destination ≢ q → backup ≢ q → after.1.disk.fs q ≡ t.disk.fs q
  unfolding replace_binary
  replace_binary_frame q s d b = ground (
    arith,
    rename_frame destination backup t.disk q d b,
    rename_frame staged destination t.disk q s d,
    rename_frame staged destination (rename destination backup t.disk).1 q s d,
  )

  -- What a round may do to the record and to the destination, in two cases.
  abbrev pub Untouched : Type 0
  Untouched =
      (after.1.installed.replacements ≡ t.installed.replacements)
      × (after.1.disk.fs destination ≡ t.disk.fs destination)
      × ((e : UpdateError) × (after.0 ≡ err e))

  abbrev pub Recorded : Type 0
  Recorded =
      (after.1.installed.replacements ≡ t.installed.replacements ++ record_of ∷ [])
      × Kept t.disk.fs after.1.disk.fs record_of
      × (after.0 ≡ ok tt → after.1.disk.fs destination ≡ t.disk.fs staged)

  fresh_cases : t.disk.fs destination ≡ none → Recorded
  unfolding replace_binary
  fresh_cases e =
      (ground arith, ground arith, ground (arith, rename_target staged destination t.disk))

  module _ (bytes : List ℕ) (e : t.disk.fs destination ≡ some (file bytes)) where
    refused_cases : {x : IoError} → (rename destination backup t.disk).0 ≡ err x → Untouched
    unfolding replace_binary
    refused_cases {x} h =
        (ground arith, ground (arith, rename_err destination backup t.disk h), (io x, ground arith))

    renamed_cases :
        staged ≢ destination
        → staged ≢ backup
        → destination ≢ backup
        → (rename destination backup t.disk).0 ≡ ok tt
        → Recorded
    unfolding replace_binary
    renamed_cases sd sb db h = (
      ground arith,
      ground (
        arith,
        rename_target destination backup t.disk h,
        rename_frame staged destination (rename destination backup t.disk).1 backup sb db,
      ),
      ground (
        arith,
        rename_target staged destination (rename destination backup t.disk).1,
        rename_frame destination backup t.disk staged (λ p. sd (sym p)) (λ p. sb (sym p)),
      ),
    )

  cases_at :
      (n : Option Node)
      → t.disk.fs destination ≡ n
      → IsReplaceable n
      → staged ≢ destination
      → staged ≢ backup
      → destination ≢ backup
      → Untouched ⊎ Recorded
  cases_at none e ok_n sd sb db = inr (fresh_cases e)
  cases_at (some dir) e ok_n sd sb db = absurd ok_n
  cases_at (some (symlink q)) e ok_n sd sb db = absurd ok_n
  cases_at (some (file bytes)) e ok_n sd sb db =
      elim (Result-cases (rename destination backup t.disk).0) [
        | inl (_, h) ↦ inr (renamed_cases bytes e sd sb db h)
        | inr (_, h) ↦ inl (refused_cases bytes e h)
      ]

  pub replace_binary_cases :
      IsReplaceable (t.disk.fs destination)
      → staged ≢ destination
      → staged ≢ backup
      → destination ≢ backup
      → Untouched ⊎ Recorded
  replace_binary_cases = cases_at (t.disk.fs destination) refl
