-- ===== src/MoveJob/MoveDir/Saves.antt =====
-- How the steps of a move save a file: it is left in the source or has come to its place.
use dookie.Base.{
  ℕ, ◌≡◌, refl, ◌⊎◌, inl, inr, String, Bool, true, false, some, List, ◌++◌, arith, Bool-cases,
}
use dookie.Base.Result.{Result, ok, err}
use dookie.Disk.Laws.{write_file_ok}
use dookie.Disk.{
  FilePath, IoError, not_empty, call, Node, Disk, Io, touch, write_file, create_dir_all,
}
use dookie.MoveJob.MoveDir.{
  Entries, end, link, file, folder, Moving, step, onto, and_then, remove_dir, replace_by_link,
  move_folder,
}
use dookie.MoveJob.MoveDir.Holds.{Holds, after_link, Holds-end}
use dookie.MoveJob.MoveDir.Keeps.{Keeps}

fails_anyway :
    (d : Disk) → (e : IoError) × ((call {A = Unit {0}} (λ fs. (err not_empty, fs)) d).0 ≡ err e)
fails_anyway d = elim (Bool-cases (d.fails d.calls)) [
  | inl h ↦ (IoError.other, ground arith)
  | inr h ↦ (not_empty, ground arith)
]

module _ (dst p : FilePath) (b : List ℕ) where
  -- The file is left in the source, or has come to its place.
  abbrev pub Safe : Moving Entries → Type 0
  Safe x = Holds x.1 p b ⊎ (x.2.fs (dst ++ p) ≡ some (Node.file b))

  pub record Saves (m : Disk → Moving Entries) : Type 0 where
    pub at : (d : Disk) → Safe (m d)

  pub Saves-step :
      (m : Io (Unit {0})) (left : Entries) (k : Disk → Moving Entries)
      → Holds left p b
      → Saves k
      → Saves (step m left k)
  Saves-step m left k h c = record { at = λ d. step_cases (m d).0 (m d).1 h (c.at (m d).1) }
    where
      step_cases :
          (r : Result IoError (Unit {0})) (d : Disk)
          → Holds left p b
          → Safe (k d)
          → Safe (elim r [ ok _ ↦ k d | err e ↦ (err e, left, d) ])
      step_cases (ok _) d h s = s
      step_cases (err e) d h s = inl h

  pub Saves-link :
      (n : String) (to : FilePath) (go : Disk → Moving Entries)
      → Saves go
      → Saves (λ d. onto (link n to) (go d))
  Saves-link n to go c = record {
    at = λ d. elim (c.at d) [ inl h ↦ inl (after_link h) | inr e ↦ inr e ];
  }

  pub Saves-replace :
      (links : Bool) (n : String) (to : FilePath) (rest : Entries) (go : Disk → Moving Entries)
      → Holds rest p b
      → Saves go
      → Saves (replace_by_link links n to rest go)
  Saves-replace true n to rest go h c = Saves-step touch rest _ h (Saves-link n to go c)
  Saves-replace false n to rest go h c = c

  pub Saves-after :
      (links : Bool) (n : String) (to : FilePath) (left : Entries) (m : Io (Unit {0}))
      (rest : Entries) (go : Disk → Moving Entries)
      → Holds left p b
      → Holds rest p b
      → Saves go
      → Saves (step touch left (step m left (replace_by_link links n to rest go)))
  Saves-after links n to left m rest go h h' c =
      Saves-step touch left _ h (Saves-step m left _ h (Saves-replace links n to rest go h' c))

  pub Saves-folder :
      (pushed : Bool) (to : FilePath) (es : Entries) (inside : Disk → Moving Entries)
      → Holds es p b
      → Saves inside
      → Saves (move_folder pushed to es inside)
  Saves-folder true to es inside h c =
      Saves-step (create_dir_all to) es _ h (Saves-step touch es inside h c)
  Saves-folder false to es inside h c = Saves-step touch es inside h c

  pub remove_full :
      (es : Entries) {p' : FilePath}
      → Holds es p' b
      → (d : Disk) → (e : IoError) × ((remove_dir es d).0 ≡ err e)
  remove_full end h d = absurd (Holds-end h)
  remove_full (link n to rest) h d = fails_anyway d
  remove_full (file n c rest) h d = fails_anyway d
  remove_full (folder n sub rest) h d = fails_anyway d

  pub saves_error :
      (m : Io (Unit {0})) (left : Entries) (k : Disk → Moving Entries) (d : Disk) (e : IoError)
      → (m d).0 ≡ err e
      → Holds left p b
      → Safe (step m left k d)
  saves_error m left k d e q h = cases (m d).0 (m d).1 q
    where
      cases :
          (r : Result IoError (Unit {0})) (d : Disk)
          → r ≡ err e
          → Safe (step (λ _. (r, d)) left k d)
      cases (ok _) d q = absurd (ground arith)
      cases (err _) d q = inl h

  -- A directory that still holds the file is not removed.
  pub Saves-full :
      (left es : Entries) (k : Disk → Moving Entries) {p' : FilePath}
      → Holds left p b
      → Holds es p' b
      → Saves (step touch left (step (remove_dir es) left k))
  Saves-full left es k h g = Saves-step touch left (step (remove_dir es) left k) h (record {
    at = λ d. let (e, q) = remove_full es g d in saves_error (remove_dir es) left k d e q h;
  })

  -- Once the file is in its place it stays.
  pub saves_kept :
      (k : Disk → Moving Entries) (d : Disk)
      → Keeps (dst ++ p) b k
      → d.fs (dst ++ p) ≡ some (Node.file b)
      → Safe (k d)
  saves_kept k d c h = inr (c.at d h)

  pub Saves-write :
      (target : FilePath) (left : Entries) (k : Disk → Moving Entries)
      → target ≡ dst ++ p
      → Holds left p b
      → Keeps (dst ++ p) b k
      → Saves (step (write_file target b) left k)
  Saves-write target left k t h c = record {
    at = λ d. cases (write_file target b d) (λ e. ground (arith, write_file_ok target b d e));
  }
    where
      cases :
          (x : Result IoError (Unit {0}) × Disk)
          → (x.0 ≡ ok tt → x.1.fs (dst ++ p) ≡ some (Node.file b))
          → Safe (elim x.0 [ ok _ ↦ k x.1 | err e ↦ (err e, left, x.1) ])
      cases (ok tt, d) w = saves_kept k d c (w refl)
      cases (err e, d) w = inl h

  -- A recursive call that has saved the file inside the entry.
  pub Saves-inside :
      (whole : Entries → Entries) (m : Disk → Moving Entries) (k : Entries → Disk → Moving Entries)
      (p' : FilePath)
      → ((s : Entries) → Holds s p' b → Holds (whole s) p b × Saves (k s))
      → ((s : Entries) → Keeps (dst ++ p) b (k s))
      → ((d : Disk) → Holds (m d).1 p' b ⊎ ((m d).2.fs (dst ++ p) ≡ some (Node.file b)))
      → Saves (and_then whole m k)
  Saves-inside whole m k p' c e f = record { at = λ d. cases (m d).0 (m d).1 (m d).2 (f d) }
    where
      cases :
          (r : Result IoError (Unit {0})) (s : Entries) (d : Disk)
          → Holds s p' b ⊎ (d.fs (dst ++ p) ≡ some (Node.file b))
          → Safe (and_then whole (λ _. (r, s, d)) k d)
      cases (ok _) s d (inl h) = (c s h).1.at d
      cases (ok _) s d (inr h) = saves_kept (k s) d (e s) h
      cases (err _) s d (inl h) = inl (c s h).0
      cases (err _) s d (inr h) = inr h

  pub Saves-beside :
      (whole : Entries → Entries) (m : Disk → Moving Entries) (k : Entries → Disk → Moving Entries)
      → ((s : Entries) → Holds (whole s) p b)
      → ((s : Entries) → Saves (k s))
      → Saves (and_then whole m k)
  Saves-beside whole m k h c = record { at = λ d. cases (m d).0 (m d).1 (m d).2 }
    where
      cases :
          (r : Result IoError (Unit {0})) (s : Entries) (d : Disk)
          → Safe (and_then whole (λ _. (r, s, d)) k d)
      cases (ok _) s d = (c s).at d
      cases (err _) s d = inl (h s)
