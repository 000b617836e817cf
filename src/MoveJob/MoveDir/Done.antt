-- ===== src/MoveJob/MoveDir/Done.antt =====
-- What a move that returns `Ok` has done.
use mathlib.Core.Path.{subst}
use dookie.Base.{
  ℕ, ◌≡◌, refl, sym, ap, ◌∙◌, ap, inl, inr, String, Bool, true, false, some, List, [], ◌∷◌, ◌++◌,
  arith,
}
use dookie.Base.Result.{ok}
use dookie.Disk.{FilePath, Node, Disk, touch, create_dir_all}
use dookie.MoveJob.MoveDir.{
  Entries, end, link, file, folder, step, move_folder, move_entries, Source, directory, linked,
  absent, link_root, move_dir, pushes, target_of,
}
use dookie.MoveJob.MoveDir.Holds.{Holds, after_link, IsDistinct, Holds-end}
use dookie.MoveJob.MoveDir.Kept.{move_dir_loses_nothing}
use dookie.MoveJob.MoveDir.Leaving.{
  replaced, HasNoLink, IsMovable, Leaving, Leaving-step, Leaving-then, Leaving-remove, no_links,
  Leaving-entries,
}

behind_link :
    {n : String} {to : FilePath} {rest : Entries} {p : FilePath} {b : List ℕ}
    → Holds (link n to rest) p b
    → Holds rest p b
behind_link (after_link h) = h

directory-injective : {es es' : Entries} → directory es ≡ directory es' → es ≡ es'
directory-injective {es} h = ap (λ (s : Source). elim s [ directory x ↦ x | _ ↦ es ]) h

Holds-replaced :
    (links : Bool) (dst : FilePath) (es : Entries) (p : FilePath) (b : List ℕ)
    → Holds (replaced links dst es) p b
    → ⊥
unfolding replaced
Holds-replaced links dst end p b h = Holds-end h
Holds-replaced links dst (link n to rest) p b h = Holds-replaced links dst rest p b (behind_link h)
Holds-replaced true dst (file n c rest) p b h = Holds-replaced true dst rest p b (behind_link h)
Holds-replaced false dst (file n c rest) p b h = Holds-replaced false dst rest p b h
Holds-replaced true dst (folder n sub rest) p b h = Holds-replaced true dst rest p b (behind_link h)
Holds-replaced false dst (folder n sub rest) p b h = Holds-replaced false dst rest p b h

placed :
    (root mass : Bool) (name : String) (es : Entries) (dst p : FilePath) (b : List ℕ) (d : Disk)
    → IsDistinct es
    → Holds es p b
    → ((left : Entries)
        → (move_dir root mass (some name) (directory es) dst d).1 ≡ directory left
        → Holds left p b
        → ⊥)
    → (move_dir root mass (some name) (directory es) dst d).2.fs
        (target_of (pushes root mass) dst name ++ p)
      ≡ some (Node.file b)
placed root mass name es dst p b d u h none_left =
    elim (move_dir_loses_nothing root mass name es dst p b d u h) [
      | inl (left, e, g) ↦ absurd (none_left left e g)
      | inr e ↦ e
    ]

left_by_mass_move :
    (name : String) (es : Entries) (dst : FilePath)
    → Leaving
        (λ x. (x ≡ directory (replaced true dst es)) × IsMovable es)
        (move_dir true true (some name) (directory es) dst)
unfolding move_dir
left_by_mass_move name es dst =
    Leaving-then _ (λ x. (x ≡ replaced true dst es) × IsMovable es) directory
      (step touch es (move_entries true true dst es)) (link_root false dst)
      (Leaving-step _ touch es (move_entries true true dst es) (Leaving-entries true true dst es))
      (λ x q. record { at = λ d h. (ap (λ y. directory y) q.0, q.1) })

left_by_targeted_move :
    (name : String) (es : Entries) (dst : FilePath)
    → Leaving
        (λ x. (x ≡ linked (dst ++ name ∷ [])) × HasNoLink es)
        (move_dir true false (some name) (directory es) dst)
unfolding move_dir
left_by_targeted_move name es dst =
    let to = dst ++ name ∷ [] in
    let entries = move_entries true false to es in
    Leaving-then _ (λ x. (x ≡ replaced false to es) × IsMovable es) directory
      (move_folder true to es entries) (link_root true to)
      (Leaving-step _ (create_dir_all to) es (step touch es entries)
        (Leaving-step _ touch es entries (Leaving-entries true false to es)))
      (λ x q.
        Leaving-remove _ x (directory x) (step touch absent (λ d. (ok tt, linked to, d))) (λ e.
          Leaving-step _ touch absent (λ d. (ok tt, linked to, d))
            (record { at = λ d h. (refl, no_links to es (sym q.0 ∙ e) q.1) })))

-- A mass move that returns `Ok`, of a directory whose entries have different names: each of its
-- files stands with its bytes at its place in the destination; each of its entries that is no
-- symbolic link is now a link to its place there, the symbolic links are as they were; and none of
-- its subdirectories held a symbolic link.
pub mass_move_done :
    (name : String) (es : Entries) (dst : FilePath) (d : Disk)
    → IsDistinct es
    → (move_dir true true (some name) (directory es) dst d).0 ≡ ok tt
    → ((p : FilePath) (b : List ℕ)
        → Holds es p b
        → (move_dir true true (some name) (directory es) dst d).2.fs (dst ++ p)
          ≡ some (Node.file b))
      × ((move_dir true true (some name) (directory es) dst d).1 ≡ directory (replaced true dst es))
      × IsMovable es
mass_move_done name es dst d u h =
    let (l, m) = (left_by_mass_move name es dst).at d h in
    (
      (λ p b g. placed true true name es dst p b d u g (λ left e k.
          Holds-replaced true dst es p b
            (subst (λ x. Holds x p b) (directory-injective (sym e ∙ l)) k))),
      l,
      m,
    )

-- A targeted move that returns `Ok`, of a directory whose entries have different names: each of its
-- files stands with its bytes at its place in the destination, a link to which has taken the place
-- of the directory; and the directory held no symbolic link.
pub targeted_move_done :
    (name : String) (es : Entries) (dst : FilePath) (d : Disk)
    → IsDistinct es
    → (move_dir true false (some name) (directory es) dst d).0 ≡ ok tt
    → ((p : FilePath) (b : List ℕ)
        → Holds es p b
        → (move_dir true false (some name) (directory es) dst d).2.fs ((dst ++ name ∷ []) ++ p)
          ≡ some (Node.file b))
      × ((move_dir true false (some name) (directory es) dst d).1 ≡ linked (dst ++ name ∷ []))
      × HasNoLink es
targeted_move_done name es dst d u h =
    let (l, m) = (left_by_targeted_move name es dst).at d h in
    ((λ p b g. placed true false name es dst p b d u g (λ left e k. absurd (ground arith))), l, m)
