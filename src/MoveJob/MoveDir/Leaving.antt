-- ===== src/MoveJob/MoveDir/Leaving.antt =====
-- The entries that a successful move leaves.
use dookie.Base.{
  ◌≡◌, refl, sym, ap, ◌∙◌, ap, String, Bool, true, false, [], ◌∷◌, ◌++◌, ◌&&◌, arith, if◌then◌else◌,
}
use dookie.Base.Result.{Result, ok, err}
use dookie.Disk.{FilePath, IoError, Disk, Io, touch, write_file, create_dir_all}
use dookie.MoveJob.MoveDir.{
  Entries, end, link, file, folder, Moving, step, onto, and_then, remove_dir, replace_by_link,
  move_folder, move_entries,
}

-- The entries after the loop: those that were moved are gone, or links to their new places.
unfoldable pub replaced : Bool → FilePath → Entries → Entries
replaced links dst end = end
replaced links dst (link n to rest) = link n to (replaced links dst rest)
replaced links dst (file n b rest) =
    let below = replaced links dst rest in if links then link n (dst ++ n ∷ []) below else below
replaced links dst (folder n sub rest) =
    let below = replaced links dst rest in if links then link n (dst ++ n ∷ []) below else below

-- No symbolic link, at any depth.
abbrev pub HasNoLink : Entries → Type 0
HasNoLink end = Unit
HasNoLink (link _ _ _) = ⊥
HasNoLink (file _ _ rest) = HasNoLink rest
HasNoLink (folder _ sub rest) = HasNoLink sub × HasNoLink rest

-- No symbolic link below the first level.
abbrev pub IsMovable : Entries → Type 0
IsMovable end = Unit
IsMovable (link _ _ rest) = IsMovable rest
IsMovable (file _ _ rest) = IsMovable rest
IsMovable (folder _ sub rest) = HasNoLink sub × IsMovable rest

-- What the entries are that a successful move leaves.
pub record Leaving {S : Type 0} (R : S → Type 0) (m : Disk → Moving S) : Type 0 where
  pub at : (d : Disk) → (m d).0 ≡ ok tt → R (m d).1

module _ {S : Type 0} (R : S → Type 0) where
  pub Leaving-step :
      (m : Io (Unit {0})) (left : S) (k : Disk → Moving S) → Leaving R k → Leaving R (step m left k)
  Leaving-step m left k c = record { at = λ d h. cases (m d) h }
    where
      cases :
          (x : Result IoError (Unit {0}) × Disk)
          → (elim x.0 as (λ _. Moving S) [ ok _ ↦ k x.1 | err e ↦ (err e, left, x.1) ]).0 ≡ ok tt
          → R (elim x.0 as (λ _. Moving S) [ ok _ ↦ k x.1 | err e ↦ (err e, left, x.1) ]).1
      cases (ok _, d) h = c.at d h
      cases (err e, d) h = absurd (ground arith)

  pub Leaving-then :
      {T : Type 0} (Q : T → Type 0) (whole : T → S) (m : Disk → Moving T) (k : T → Disk → Moving S)
      → Leaving Q m
      → ((t : T) → Q t → Leaving R (k t))
      → Leaving R (and_then whole m k)
  Leaving-then {T = T} Q whole m k c e = record {
    at = λ d h. cases (m d).0 (m d).1 (m d).2 (c.at d) h;
  }
    where
      cases :
          (r : Result IoError (Unit {0})) (t : T) (d : Disk)
          → (r ≡ ok tt → Q t)
          → (and_then whole (λ _. (r, t, d)) k d).0 ≡ ok tt
          → R (and_then whole (λ _. (r, t, d)) k d).1
      cases (ok tt) t d q h = (e t (q refl)).at d h
      cases (err _) t d q h = absurd (ground arith)

pub Leaving-remove :
    {S : Type 0} (R : S → Type 0) (es : Entries) (left : S) (k : Disk → Moving S)
    → (es ≡ end → Leaving R k)
    → Leaving R (step (remove_dir es) left k)
Leaving-remove R end left k c = Leaving-step R touch left k (c refl)
Leaving-remove R (link n to rest) left k c = record { at = λ d h. absurd (ground arith) }
Leaving-remove R (file n b rest) left k c = record { at = λ d h. absurd (ground arith) }
Leaving-remove R (folder n sub rest) left k c = record { at = λ d h. absurd (ground arith) }

Leaving-after :
    (links : Bool) (name : String) (to dst : FilePath) (rest : Entries) (go : Disk → Moving Entries)
    → Leaving (λ x. (x ≡ replaced links dst rest) × IsMovable rest) go
    → Leaving
        (λ x.
          (x ≡ (if links then link name to (replaced links dst rest) else replaced links dst rest))
          × IsMovable rest)
        (replace_by_link links name to rest go)
Leaving-after true name to dst rest go c =
    Leaving-step _ touch rest (λ d. onto (link name to) (go d))
      (record { at = λ d h. (ap (λ x. link name to x) (c.at d h).0, (c.at d h).1) })
Leaving-after false name to dst rest go c = c

pub no_links :
    (dst : FilePath) (es : Entries) → replaced false dst es ≡ end → IsMovable es → HasNoLink es
unfolding replaced
no_links dst end h m = tt
no_links dst (link n to rest) h m = absurd (ground arith)
no_links dst (file n b rest) h m = no_links dst rest h m
no_links dst (folder n sub rest) h m = (m.0, no_links dst rest h m.1)

pub Leaving-entries :
    (root mass : Bool) (dst : FilePath) (es : Entries)
    → Leaving
        (λ x. (x ≡ replaced (root && mass) dst es) × IsMovable es)
        (move_entries root mass dst es)
unfolding move_entries replaced
Leaving-entries root mass dst end =
    Leaving-step _ touch end (λ d. (ok tt, end, d)) (record { at = λ d h. (refl, tt) })
Leaving-entries root mass dst (link n to rest) =
    let go = λ (d : Disk). onto (link n to) (move_entries root mass dst rest d) in
    let left = link n to rest in
    Leaving-step _ touch left (step touch left go) (
      Leaving-step _ touch left go (record {
        at = λ d h.
            let (e, m) = (Leaving-entries root mass dst rest).at d h in
            (ap (λ x. link n to x) e, m);
      }))
Leaving-entries root mass dst (file n b rest) =
    let to = dst ++ n ∷ [] in
    let left = file n b rest in
    let links = root && mass in
    let after = replace_by_link links n to rest (move_entries root mass dst rest) in
    let written = step touch left (step touch left after) in
    Leaving-step _ touch left (step touch left (step (write_file to b) left written)) (
      Leaving-step _ touch left (step (write_file to b) left written) (
        Leaving-step _ (write_file to b) left written (
          Leaving-step _ touch left (step touch left after) (
            Leaving-step _ touch left after (
              Leaving-after links n to dst rest (move_entries root mass dst rest)
                (Leaving-entries root mass dst rest))))))
Leaving-entries root mass dst (folder n sub rest) =
    let to = dst ++ n ∷ [] in
    let left = folder n sub rest in
    let links = root && mass in
    let after = replace_by_link links n to rest (move_entries root mass dst rest) in
    let emptied = λ (sub' : Entries).
      step touch (folder n sub' rest) (step (remove_dir sub') (folder n sub' rest) after) in
    let inner = move_folder true to sub (move_entries false mass to sub) in
    let go = and_then (λ (sub' : Entries). folder n sub' rest) inner emptied in
    Leaving-step _ touch left (step touch left go) (
      Leaving-step _ touch left go (
        Leaving-then _ (λ x. (x ≡ replaced false to sub) × IsMovable sub)
          (λ (sub' : Entries). folder n sub' rest) inner emptied
          (Leaving-step _ (create_dir_all to) sub (step touch sub (move_entries false mass to sub))
            (Leaving-step _ touch sub (move_entries false mass to sub)
              (Leaving-entries false mass to sub)))
          (λ sub' q.
            Leaving-step _ touch (folder n sub' rest)
              (step (remove_dir sub') (folder n sub' rest) after)
              (Leaving-remove _ sub' (folder n sub' rest) after (λ e. record {
                at = λ d h.
                    let (l, m) =
                      (Leaving-after links n to dst rest (move_entries root mass dst rest)
                          (Leaving-entries root mass dst rest)).at
                        d h in
                    (l, (no_links to sub (sym q.0 ∙ e) q.1, m));
              })))))
