-- ===== src/MoveJob/MoveDir/Kept.antt =====
-- No outcome of a move loses a file.
use mathlib.Core.Path.{subst}
use dookie.Base.{
  ℕ, ◌≡◌, refl, ◌⊎◌, inl, inr, String, Bool, true, false, some, List, [], ◌∷◌, ◌++◌, ◌&&◌, not,
  arith,
}
use dookie.Base.Result.{Result, ok, err}
use dookie.Disk.{FilePath, IoError, Node, Disk, touch, write_file}
use dookie.MoveJob.MoveDir.{
  Entries, folder, Moving, step, and_then, remove_dir, replace_by_link, move_folder, move_entries,
  Source, directory, linked, absent, link_root, move_dir, pushes, target_of,
}
use dookie.MoveJob.MoveDir.Holds.{
  Holds, in_file, in_folder, after_link, after_file, after_folder, IsDistinct, Outside-beside,
  append_snoc,
}
use dookie.MoveJob.MoveDir.Keeps.{
  Has, keeps_touch, keeps_remove, Keeps-after, Keeps-step, Keeps-done, Keeps-entries,
}
use dookie.MoveJob.MoveDir.Saves.{
  Saves, Saves-step, Saves-link, Saves-after, Saves-folder, Saves-full, Saves-write, Saves-inside,
  Saves-beside, remove_full,
}

module _ (mass : Bool) where
  pub Saves-entries :
      (root : Bool) (dst p : FilePath) (es : Entries) (b : List ℕ)
      → Holds es p b
      → IsDistinct es
      → Saves dst p b (move_entries root mass dst es)
  unfolding move_entries
  Saves-entries root dst _ _ b (in_file {n = n} {rest = rest}) u =
      let q = dst ++ n ∷ [] in
      Saves-step dst (n ∷ []) b touch _ _ in_file (
        Saves-step dst (n ∷ []) b touch _ _ in_file (
          Saves-write dst (n ∷ []) b q _ _ refl in_file (
            Keeps-after q b (root && mass) n q _ touch rest _ (keeps_touch q b)
              (Keeps-entries q b root mass dst rest (Outside-beside dst [] n rest u.0)))))
  Saves-entries root dst p _ b (after_link {n = n} {to = to} {rest = rest} h) u =
      Saves-step dst p b touch _ _ (after_link h) (
        Saves-step dst p b touch _ _ (after_link h)
          (Saves-link dst p b n to _ (Saves-entries root dst p rest b h u.1)))
  Saves-entries root dst p _ b (after_file {n = n} {c = c} {rest = rest} h) u =
      let q = dst ++ n ∷ [] in
      Saves-step dst p b touch _ _ (after_file h) (
        Saves-step dst p b touch _ _ (after_file h) (
          Saves-step dst p b (write_file q c) _ _ (after_file h) (
            Saves-after dst p b (root && mass) n q _ touch rest _ (after_file h) h
              (Saves-entries root dst p rest b h u.1))))
  Saves-entries root dst p _ b (after_folder {n = n} {sub = sub} {rest = rest} h) u =
      let q = dst ++ n ∷ [] in
      Saves-step dst p b touch _ _ (after_folder h) (
        Saves-step dst p b touch _ _ (after_folder h) (
          Saves-beside dst p b (λ sub'. folder n sub' rest)
            (move_folder true q sub (move_entries false mass q sub)) _ (λ sub'. after_folder h)
            (λ sub'.
              Saves-after dst p b (root && mass) n q (folder n sub' rest) (remove_dir sub') rest _
                (after_folder h) h (Saves-entries root dst p rest b h u.2))))
  Saves-entries root dst _ _ b (in_folder {n = n} {sub = sub} {rest = rest} {p = p} h) u =
      let q = dst ++ n ∷ [] in
      Saves-step dst (n ∷ p) b touch _ _ (in_folder h) (
        Saves-step dst (n ∷ p) b touch _ _ (in_folder h) (
          Saves-inside dst (n ∷ p) b (λ sub'. folder n sub' rest)
            (move_folder true q sub (move_entries false mass q sub)) _ p
            (λ sub' g. (
              in_folder g,
              Saves-full dst (n ∷ p) b (folder n sub' rest) sub'
                  (replace_by_link (root && mass) n q rest (move_entries root mass dst rest))
                  (in_folder g) g,
            ))
            (λ sub'.
              Keeps-after (dst ++ n ∷ p) b (root && mass) n q (folder n sub' rest) (remove_dir sub')
                rest _ (keeps_remove (dst ++ n ∷ p) b sub')
                (Keeps-entries (dst ++ n ∷ p) b root mass dst rest
                  (Outside-beside dst p n rest u.0)))
            (λ d.
              let inner = move_folder true q sub (move_entries false mass q sub) d in
              subst (λ x. Holds inner.1 p b ⊎ (inner.2.fs x ≡ some (Node.file b)))
                (append_snoc dst p n)
                ((Saves-folder q p b true q sub _ h (Saves-entries false q p sub b h u.1)).at d))))

abbrev pub SourceHolds : Source → FilePath → List ℕ → Type 0
SourceHolds s p b = (es : Entries) × (s ≡ directory es) × Holds es p b

abbrev Kept : FilePath → FilePath → List ℕ → Moving Source → Type 0
Kept target p b x = SourceHolds x.1 p b ⊎ (x.2.fs (target ++ p) ≡ some (Node.file b))

module _ (target p : FilePath) (b : List ℕ) where
  link_root_saves :
      (links : Bool) (es : Entries) (d : Disk)
      → Holds es p b ⊎ Has (target ++ p) b d
      → Kept target p b (link_root links target es d)
  link_root_saves false es d (inl h) = inl (es, refl, h)
  link_root_saves false es d (inr h) = inr h
  link_root_saves true es d (inl h) =
      let (e, q) = remove_full target p b es h d in full (remove_dir es d) q
    where
      full :
          {e : IoError} (x : Result IoError (Unit {0}) × Disk)
          → x.0 ≡ err e
          → Kept target p b
              (step (λ _. x) (directory es) (step touch absent (λ d. (ok tt, linked target, d))) d)
      full (ok _, d') q = absurd (ground arith)
      full (err _, d') q = inl (es, refl, h)
  link_root_saves true es d (inr h) = inr (
      (Keeps-step (target ++ p) b (remove_dir es) (directory es) _ (keeps_remove (target ++ p) b es)
          (Keeps-step (target ++ p) b touch absent (λ d. (ok tt, linked target, d))
            (keeps_touch (target ++ p) b) (Keeps-done (target ++ p) b (linked target)))).at
        d h)

  then_link-Saves :
      (links : Bool) (m : Disk → Moving Entries) (d : Disk)
      → Saves target p b m
      → Kept target p b (and_then directory m (link_root links target) d)
  then_link-Saves links m d c = cases (m d).0 (m d).1 (m d).2 (c.at d)
    where
      cases :
          (r : Result IoError (Unit {0})) (s : Entries) (d' : Disk)
          → Holds s p b ⊎ Has (target ++ p) b d'
          → Kept target p b (and_then directory (λ _. (r, s, d')) (link_root links target) d)
      cases (ok _) s d' h = link_root_saves links s d' h
      cases (err _) s d' (inl h) = inl (s, refl, h)
      cases (err _) s d' (inr h) = inr h

-- Whatever calls fail and wherever the move stops, a file of a moved directory is still in the
-- source under its path, or stands with its bytes at its place in the destination; the entries of
-- one directory have different names.
pub move_dir_loses_nothing :
    (root mass : Bool) (name : String) (es : Entries) (dst p : FilePath) (b : List ℕ) (d : Disk)
    → IsDistinct es
    → Holds es p b
    → SourceHolds (move_dir root mass (some name) (directory es) dst d).1 p b
      ⊎ ((move_dir root mass (some name) (directory es) dst d).2.fs
            (target_of (pushes root mass) dst name ++ p)
          ≡ some (Node.file b))
unfolding move_dir
move_dir_loses_nothing root mass name es dst p b d u h =
    let target = target_of (pushes root mass) dst name in
    then_link-Saves target p b (root && not mass)
      (move_folder (pushes root mass) target es (move_entries root mass target es)) d
      (Saves-folder target p b (pushes root mass) target es (move_entries root mass target es) h
        (Saves-entries mass root target p es b h u))
