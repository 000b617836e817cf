-- ===== src/MoveJob/Scan/Old.antt =====
-- Which entries a scan of the move job lists.
use mathlib.Core.List.{Memᴰ}
use mathlib.Core.List.Memᴰ
use mathlib.Core.Path.{subst}
use dookie.Base.{
  ℕ, ◌≤◌, ◌≡◌, refl, sym, ap, ◌∙◌, ◌⊎◌, inl, inr, true, false, List, [], ◌∷◌, ◌++◌, leb, Bool-cases,
  arith,
}
use dookie.Base.Result.{Result, ok, err, ok-injective, Result-cases}
use dookie.Disk.{FilePath, IoError}
use dookie.MoveJob.Scan.{Listed, Watched, Chosen, push, append, old_in, old_list}

-- An entry that is no link and has the age.
abbrev pub IsOld : ℕ → Listed → Type 0
IsOld threshold entry =
    (entry.is_symlink ≡ ok false) × (age : ℕ) × (entry.age ≡ ok age) × (threshold ≤ age)

-- The path and the destination are those of an old entry of the listing.
abbrev pub IsOldIn : ℕ → FilePath → List (Result IoError Listed) → FilePath × FilePath → Type 0
IsOldIn threshold dst entries found =
    (entry : Listed) × Memᴰ (ok entry) entries × IsOld threshold entry × (found ≡ (entry.path, dst))

abbrev pub IsDue : ℕ → List Watched → FilePath × FilePath → Type 0
IsDue threshold watched found =
    (pair : FilePath × FilePath) × (entries : List (Result IoError Listed)) × Memᴰ
      (pair, ok entries) watched
    × IsOldIn threshold pair.1 entries found

no_member : {x : FilePath × FilePath} → Memᴰ x [] → ⊥
no_member m = elim m [ ]

pushed :
    (x : FilePath × FilePath) (next : Chosen) (found : List (FilePath × FilePath))
    → push x next ≡ ok found
    → (rest : List (FilePath × FilePath)) × (next ≡ ok rest) × (x ∷ rest ≡ found)
pushed x (err e) found h = absurd (ground arith)
pushed x (ok rest) found h = (rest, refl, ok-injective h)

appended :
    (xs : List (FilePath × FilePath)) (next : Chosen) (found : List (FilePath × FilePath))
    → append xs next ≡ ok found
    → (rest : List (FilePath × FilePath)) × (next ≡ ok rest) × (xs ++ rest ≡ found)
appended xs (err e) found h = absurd (ground arith)
appended xs (ok rest) found h = (rest, refl, ok-injective h)

-- What the first entry of a listing adds.
abbrev First :
    ℕ → FilePath → Listed → List (Result IoError Listed) → List (FilePath × FilePath) → Type 0
First threshold dst entry rest found =
    ((old_in threshold dst rest ≡ ok found) × (IsOld threshold entry → ⊥))
    ⊎ ((found' : List (FilePath × FilePath)) × (old_in threshold dst rest ≡ ok found')
        × ((entry.path, dst) ∷ found' ≡ found)
        × IsOld threshold entry)

first :
    (threshold : ℕ) (dst : FilePath) (entry : Listed) (rest : List (Result IoError Listed))
    (found : List (FilePath × FilePath))
    → old_in threshold dst (ok entry ∷ rest) ≡ ok found
    → First threshold dst entry rest found
unfolding old_in
first threshold dst entry rest found h = elim (Result-cases entry.is_symlink) [
  | inr (e, p) ↦ absurd (ground (arith, p))
  | inl (true, p) ↦ inl (ground (arith, p), λ o. absurd (ground (arith, p, o.0)))
  | inl (false, p) ↦ elim (Result-cases entry.age) [
    | inr (e, q) ↦ absurd (ground (arith, p, q))
    | inl (age, q) ↦ elim (Bool-cases (leb threshold age)) [
      | inl b ↦
          let (found', n, e) =
            pushed (entry.path, dst) (old_in threshold dst rest) found (ground (arith, p, q, b)) in
          inr (found', n, e, (p, age, q, ground (arith, b)))
      | inr b ↦ inl (
        ground (arith, p, q, b),
        λ o. absurd (ground (arith, ok-injective (sym o.2 ∙ q), o.3, b)),
      )
    ]
  ]
]

IsOldIn-later :
    (threshold : ℕ) (dst : FilePath) (entry : Result IoError Listed)
    (rest : List (Result IoError Listed)) (x : FilePath × FilePath)
    → IsOldIn threshold dst rest x
    → IsOldIn threshold dst (entry ∷ rest) x
IsOldIn-later threshold dst entry rest x (found, m, o, e) = (found, Memᴰ.tail m, o, e)

old_in_sound :
    (threshold : ℕ) (dst : FilePath) (entries : List (Result IoError Listed))
    (found : List (FilePath × FilePath)) (x : FilePath × FilePath)
    → old_in threshold dst entries ≡ ok found
    → Memᴰ x found
    → IsOldIn threshold dst entries x
unfolding old_in
old_in_sound threshold dst [] found x h m =
    absurd (no_member (subst (λ l. Memᴰ x l) (sym (ok-injective h)) m))
old_in_sound threshold dst (err e ∷ rest) found x h m = absurd (ground arith)
old_in_sound threshold dst (ok entry ∷ rest) found x h m =
    elim (first threshold dst entry rest found h) [
      | inl (n, no_old) ↦
          IsOldIn-later threshold dst (ok entry) rest x
            (old_in_sound threshold dst rest found x n m)
      | inr (found', n, e, o) ↦ elim (Memᴰ.cases_cons (subst (λ l. Memᴰ x l) (sym e) m)) [
        | inl same ↦ (entry, Memᴰ.head refl, o, same)
        | inr later ↦
            IsOldIn-later threshold dst (ok entry) rest x
              (old_in_sound threshold dst rest found' x n later)
      ]
    ]

old_in_complete :
    (threshold : ℕ) (dst : FilePath) (entries : List (Result IoError Listed))
    (found : List (FilePath × FilePath)) (x : FilePath × FilePath)
    → old_in threshold dst entries ≡ ok found
    → IsOldIn threshold dst entries x
    → Memᴰ x found
unfolding old_in
old_in_complete threshold dst [] found x h (entry, m, o, e) = absurd (Memᴰ.not-nil m)
old_in_complete threshold dst (err e ∷ rest) found x h i = absurd (ground arith)
old_in_complete threshold dst (ok entry ∷ rest) found x h (old, m, o, e) =
    elim (first threshold dst entry rest found h) [
      | inl (n, no_old) ↦ elim (Memᴰ.cases_cons m) [
        | inl same ↦ absurd (no_old (subst (λ l. IsOld threshold l) (ok-injective same) o))
        | inr later ↦ old_in_complete threshold dst rest found x n (old, later, o, e)
      ]
      | inr (found', n, split, o') ↦
          subst (λ l. Memᴰ x l) split
            (elim (Memᴰ.cases_cons m) [
              | inl same ↦ Memᴰ.head (e ∙ ap (λ (l : Listed). (l.path, dst)) (ok-injective same))
              | inr later ↦
                  Memᴰ.tail (old_in_complete threshold dst rest found' x n (old, later, o, e))
            ])
    ]

-- What the first watched directory adds.
abbrev FirstWatched :
    ℕ
    → FilePath × FilePath
    → Result IoError (List (Result IoError Listed))
    → List Watched
    → List (FilePath × FilePath)
    → Type 0
FirstWatched threshold pair listing rest found =
    (entries : List (Result IoError Listed)) × (here later : List (FilePath × FilePath)) × (listing
      ≡ ok entries)
    × (old_in threshold pair.1 entries ≡ ok here)
    × (old_list threshold rest ≡ ok later)
    × (here ++ later ≡ found)

first_watched :
    (threshold : ℕ) (pair : FilePath × FilePath)
    (listing : Result IoError (List (Result IoError Listed))) (rest : List Watched)
    (found : List (FilePath × FilePath))
    → old_list threshold ((pair, listing) ∷ rest) ≡ ok found
    → FirstWatched threshold pair listing rest found
unfolding old_list
first_watched threshold pair (err e) rest found h = absurd (ground arith)
first_watched threshold pair (ok entries) rest found h =
    elim (Result-cases (old_in threshold pair.1 entries)) [
      | inr (e, p) ↦ absurd (ground (arith, p))
      | inl (here, p) ↦
          let (later, n, e) = appended here (old_list threshold rest) found (ground (arith, p)) in
          (entries, here, later, refl, p, n, e)
    ]

IsDue-later :
    (threshold : ℕ) (w : Watched) (rest : List Watched) (x : FilePath × FilePath)
    → IsDue threshold rest x
    → IsDue threshold (w ∷ rest) x
IsDue-later threshold w rest x (pair, entries, m, i) = (pair, entries, Memᴰ.tail m, i)

pub old_list_sound :
    (threshold : ℕ) (watched : List Watched) (found : List (FilePath × FilePath))
    (x : FilePath × FilePath)
    → old_list threshold watched ≡ ok found
    → Memᴰ x found
    → IsDue threshold watched x
unfolding old_list
old_list_sound threshold [] found x h m =
    absurd (no_member (subst (λ l. Memᴰ x l) (sym (ok-injective h)) m))
old_list_sound threshold ((pair, listing) ∷ rest) found x h m =
    let (entries, here, later, l, p, n, e) = first_watched threshold pair listing rest found h in
    elim (Memᴰ.append_cases here (subst (λ l. Memᴰ x l) (sym e) m)) [
      | inl k ↦ (
        pair,
        entries,
        Memᴰ.head (ap (λ r. (pair, r)) (sym l)),
        old_in_sound threshold pair.1 entries here x p k,
      )
      | inr k ↦
          IsDue-later threshold (pair, listing) rest x (old_list_sound threshold rest later x n k)
    ]

pub old_list_complete :
    (threshold : ℕ) (watched : List Watched) (found : List (FilePath × FilePath))
    (x : FilePath × FilePath)
    → old_list threshold watched ≡ ok found
    → IsDue threshold watched x
    → Memᴰ x found
old_list_complete threshold [] found x h (pair, entries, m, i) = absurd (Memᴰ.not-nil m)
old_list_complete threshold ((pair, listing) ∷ rest) found x h (pair', entries', m, i) =
    let (entries, here, later, l, p, n, e) = first_watched threshold pair listing rest found h in
    subst (λ l. Memᴰ x l) e
      (elim (Memᴰ.cases_cons m) [
        | inl same ↦
            let dst = ap (λ (w : Watched). w.0.1) same in
            let listed = ok-injective (ap (λ (w : Watched). w.1) same ∙ l) in
            Memᴰ.append_left later (
              old_in_complete threshold pair.1 entries here x p (
                subst (λ l. IsOldIn threshold pair.1 l x) listed
                  (subst (λ d. IsOldIn threshold d entries' x) dst i)))
        | inr k ↦
            Memᴰ.append_right here
              (old_list_complete threshold rest later x n (pair', entries', k, i))
      ])
