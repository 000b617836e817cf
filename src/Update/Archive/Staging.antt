-- ===== src/Update/Archive/Staging.antt =====
-- What staging a binary leaves on the disk.
use dookie.Base.{ℕ, ◌≡◌, ap, ◌≢◌, true, some, List, take}
use dookie.Disk.{FilePath, file, Fs, Disk}
use dookie.Disk.Laws.{write_file_frame, write_file_ok, touch_frame, read_exact_frame, read_exact_ok}
use dookie.Update.Steps.{
  Leaves, leaves_rules, Ensures, Ensures-bind, Ensures-guard, Ensures-lift, Ensures-on_disk,
}
use dookie.Update.Archive.{Entry, stage, bytes_eq, mach_o}

-- A file whose first eight bytes are the Mach-O header.
abbrev pub IsExecutable : Fs → FilePath → Type 0
IsExecutable fs p =
    (bytes : List ℕ) × (fs p ≡ some (file bytes)) × (bytes_eq (take 8 bytes) mach_o ≡ true)

module _ (destination : FilePath) (e : Entry) where
  pub stage-Leaves : (q : FilePath) → destination ≢ q → Leaves q (stage destination e)
  unfolding stage
  stage-Leaves q h =
      search
        (
          leaves_rules,
          λ (bytes : List ℕ) (d : Disk). write_file_frame destination bytes d q h,
          λ (d : Disk). ap (λ (fs : Fs). fs q) (touch_frame d),
          λ (d : Disk). ap (λ (fs : Fs). fs q) (read_exact_frame destination 8 d),
        )
        depth 20

  abbrev Holds : List ℕ → Disk → Type 0
  Holds bytes d = d.fs destination ≡ some (file bytes)

  -- A staged binary is a file with the header of an Intel macOS executable.
  pub stage_ensures :
      Ensures (λ _. Unit {0}) (stage destination e) (λ _ d. IsExecutable d.fs destination)
  unfolding stage
  stage_ensures =
      Ensures-bind _ _ (λ _ _. Unit {0}) (Ensures-on_disk _ (λ d a p h. tt))
        λ _.
          Ensures-bind _ _ (λ _ _. Unit {0}) (Ensures-lift _ (λ d a p h. tt))
            λ bytes.
              Ensures-bind _ _ (λ _. Holds bytes)
                (Ensures-on_disk _ (λ d a p h. write_file_ok destination bytes d h))
                λ _.
                  Ensures-bind _ _ (λ _. Holds bytes)
                    (Ensures-on_disk _ (λ d a p h. rw touch_frame p))
                    λ _.
                      Ensures-bind _ _ (λ _. Holds bytes)
                        (Ensures-on_disk _ (λ d a p h. rw touch_frame p))
                        λ _.
                          Ensures-bind _ _ (λ header d. Holds bytes d × (header ≡ take 8 bytes))
                            (Ensures-on_disk _ (λ d a p h.
                              (rw read_exact_frame p, read_exact_ok destination 8 d a bytes p h)))
                            λ header. Ensures-guard _ _ (λ b d p. (bytes, p.0, rw (← p.1) b))
