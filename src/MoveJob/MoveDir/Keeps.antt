-- ===== src/MoveJob/MoveDir/Keeps.antt =====
-- A move leaves alone what stands at a path it does not reach.
use dookie.Base.{ℕ, ◌≡◌, String, Bool, true, false, none, some, List, [], ◌∷◌, ◌++◌, ◌&&◌, arith}
use dookie.Base.Result.{Result, ok, err}
use dookie.Disk.Laws.{touch_frame, write_file_frame, create_dir_all_keeps}
use dookie.Disk.Paths.{strip_prefix, strip_prefix-ne}
use dookie.Disk.{FilePath, IoError, Node, Disk, Io, touch, write_file, create_dir_all}
use dookie.MoveJob.MoveDir.{
  Entries, end, link, file, folder, Moving, step, onto, and_then, remove_dir, replace_by_link,
  move_folder, move_entries,
}
use dookie.MoveJob.MoveDir.Holds.{Outside, Outside-below}

module _ (q : FilePath) (b : List ℕ) where
  abbrev pub Has : Disk → Type 0
  Has d = d.fs q ≡ some (Node.file b)

  -- The file at the path stays, whatever the outcome.
  pub record Keeps {S : Type 0} (m : Disk → Moving S) : Type 0 where
    pub at : (d : Disk) → Has d → Has (m d).2

  pub record KeepsIo (m : Io (Unit {0})) : Type 0 where
    pub at : (d : Disk) → Has d → Has (m d).1

  pub keeps_touch : KeepsIo touch
  keeps_touch = record { at = λ d h. ground (arith, touch_frame d) }

  pub keeps_create : (p : FilePath) → KeepsIo (create_dir_all p)
  keeps_create p = record { at = λ d h. create_dir_all_keeps p q d (Node.file b) h }

  pub keeps_write : (p : FilePath) (c : List ℕ) → strip_prefix p q ≡ none → KeepsIo (write_file p c)
  keeps_write p c o = record {
    at = λ d h. ground (arith, write_file_frame p c d q (strip_prefix-ne p q o));
  }

  pub keeps_remove : (es : Entries) → KeepsIo (remove_dir es)
  keeps_remove end = keeps_touch
  keeps_remove (link n to rest) = record { at = λ d h. ground arith }
  keeps_remove (file n c rest) = record { at = λ d h. ground arith }
  keeps_remove (folder n sub rest) = record { at = λ d h. ground arith }

  pub Keeps-step :
      {S : Type 0} (m : Io (Unit {0})) (left : S) (k : Disk → Moving S)
      → KeepsIo m
      → Keeps k
      → Keeps (step m left k)
  Keeps-step m left k c e = record { at = λ d h. ground (arith, c.at d h, e.at (m d).1) }

  pub Keeps-onto :
      {S T : Type 0} (f : S → T) (k : Disk → Moving S) → Keeps k → Keeps (λ d. onto f (k d))
  Keeps-onto f k c = record { at = λ d h. c.at d h }

  pub Keeps-then :
      {S T : Type 0} (whole : S → T) (m : Disk → Moving S) (k : S → Disk → Moving T)
      → Keeps m
      → ((s : S) → Keeps (k s))
      → Keeps (and_then whole m k)
  Keeps-then {S = S} whole m k c e = record { at = λ d h. cases (m d).0 (m d).1 (m d).2 (c.at d h) }
    where
      cases :
          (r : Result IoError (Unit {0})) (s : S) (d : Disk)
          → Has d
          → Has (and_then whole (λ _. (r, s, d)) k d).2
      cases (ok _) s d h = (e s).at d h
      cases (err _) s d h = h

  pub Keeps-done : {S : Type 0} (s : S) → Keeps (λ d. (ok tt, s, d))
  Keeps-done s = record { at = λ d h. h }

  pub Keeps-replace :
      (links : Bool) (n : String) (to : FilePath) (rest : Entries) (go : Disk → Moving Entries)
      → Keeps go
      → Keeps (replace_by_link links n to rest go)
  Keeps-replace true n to rest go c =
      Keeps-step touch rest _ keeps_touch (Keeps-onto (link n to) go c)
  Keeps-replace false n to rest go c = c

  pub Keeps-folder :
      (pushed : Bool) (to : FilePath) (es : Entries) (inside : Disk → Moving Entries)
      → Keeps inside
      → Keeps (move_folder pushed to es inside)
  Keeps-folder true to es inside c =
      Keeps-step _ es _ (keeps_create to) (Keeps-step touch es inside keeps_touch c)
  Keeps-folder false to es inside c = Keeps-step touch es inside keeps_touch c

  -- The rest of the loop after an entry is copied.
  pub Keeps-after :
      (links : Bool) (n : String) (to : FilePath) (left : Entries) (m : Io (Unit {0}))
      (rest : Entries) (go : Disk → Moving Entries)
      → KeepsIo m
      → Keeps go
      → Keeps (step touch left (step m left (replace_by_link links n to rest go)))
  Keeps-after links n to left m rest go c e =
      Keeps-step touch left _ keeps_touch
        (Keeps-step m left _ c (Keeps-replace links n to rest go e))

  pub Keeps-entries :
      (root mass : Bool) (dst : FilePath) (es : Entries)
      → Outside dst q es
      → Keeps (move_entries root mass dst es)
  unfolding move_entries
  Keeps-entries root mass dst end o = Keeps-step touch end _ keeps_touch (Keeps-done end)
  Keeps-entries root mass dst (link n to rest) o = Keeps-step touch _ _ keeps_touch (
      Keeps-step touch _ _ keeps_touch
        (Keeps-onto (link n to) _ (Keeps-entries root mass dst rest o)))
  Keeps-entries root mass dst (file n c rest) o = Keeps-step touch _ _ keeps_touch (
      Keeps-step touch _ _ keeps_touch (
        Keeps-step _ _ _ (keeps_write (dst ++ n ∷ []) c o.0) (
          Keeps-after (root && mass) n (dst ++ n ∷ []) _ touch rest _ keeps_touch
            (Keeps-entries root mass dst rest o.1))))
  Keeps-entries root mass dst (folder n sub rest) o =
      let to = dst ++ n ∷ [] in
      Keeps-step touch _ _ keeps_touch (
        Keeps-step touch _ _ keeps_touch (
          Keeps-then (λ sub'. folder n sub' rest)
            (move_folder true to sub (move_entries false mass to sub)) _
            (Keeps-folder true to sub _
              (Keeps-entries false mass to sub (Outside-below to q sub o.0)))
            (λ sub'.
              Keeps-after (root && mass) n to (folder n sub' rest) (remove_dir sub') rest _
                (keeps_remove sub') (Keeps-entries root mass dst rest o.1))))
