-- ===== src/MoveJob/MoveDir/Holds.antt =====
-- The files of a source directory, and paths that its move does not reach.
use dookie.Base.{ℕ, ◌≡◌, refl, ap, ◌≢◌, String, none, List, [], ◌∷◌, ◌++◌, arith, eq_iff}
use dookie.Disk.Paths.{strip_prefix}
use dookie.Disk.{FilePath}
use dookie.MoveJob.MoveDir.{Entries, end, link, file, folder}

-- A file with its path below the directory.
pub data Holds : Entries → FilePath → List ℕ → Type 0 where
  in_file : {n : String} {b : List ℕ} {rest : Entries} → Holds (file n b rest) (n ∷ []) b
  in_folder :
      {n : String} {sub rest : Entries} {p : FilePath} {b : List ℕ}
      → Holds sub p b
      → Holds (folder n sub rest) (n ∷ p) b
  after_link :
      {n : String} {to : FilePath} {rest : Entries} {p : FilePath} {b : List ℕ}
      → Holds rest p b
      → Holds (link n to rest) p b
  after_file :
      {n : String} {c : List ℕ} {rest : Entries} {p : FilePath} {b : List ℕ}
      → Holds rest p b
      → Holds (file n c rest) p b
  after_folder :
      {n : String} {sub rest : Entries} {p : FilePath} {b : List ℕ}
      → Holds rest p b
      → Holds (folder n sub rest) p b

pub Holds-end : {p : FilePath} {b : List ℕ} → Holds end p b → ⊥
Holds-end h = elim h [ ]

abbrev pub Fresh : String → Entries → Type 0
Fresh n end = Unit
Fresh n (link m _ rest) = (n ≢ m) × Fresh n rest
Fresh n (file m _ rest) = (n ≢ m) × Fresh n rest
Fresh n (folder m _ rest) = (n ≢ m) × Fresh n rest

-- The entries of one directory have different names.
abbrev pub IsDistinct : Entries → Type 0
IsDistinct end = Unit
IsDistinct (link n _ rest) = Fresh n rest × IsDistinct rest
IsDistinct (file n _ rest) = Fresh n rest × IsDistinct rest
IsDistinct (folder n sub rest) = Fresh n rest × IsDistinct sub × IsDistinct rest

-- No entry goes to the path or above it.
abbrev pub Outside : FilePath → FilePath → Entries → Type 0
Outside dst q end = Unit
Outside dst q (link _ _ rest) = Outside dst q rest
Outside dst q (file n _ rest) = (strip_prefix (dst ++ n ∷ []) q ≡ none) × Outside dst q rest
Outside dst q (folder n _ rest) = (strip_prefix (dst ++ n ∷ []) q ≡ none) × Outside dst q rest

pub strip_below :
    (p q : FilePath) (n : String) → strip_prefix p q ≡ none → strip_prefix (p ++ n ∷ []) q ≡ none
strip_below [] q n h = absurd (ground arith)
strip_below (a ∷ p) [] n h = refl
strip_below (a ∷ p) (b ∷ q) n h = ground (arith, eq_iff a b, strip_below p q n)

pub strip_beside :
    (p q : FilePath) (n m : String) → n ≢ m → strip_prefix (p ++ m ∷ []) (p ++ n ∷ q) ≡ none
strip_beside [] q n m h = ground (arith, eq_iff m n)
strip_beside (a ∷ p) q n m h = ground (arith, eq_iff a a, strip_beside p q n m h)

pub Outside-below : (dst q : FilePath) (es : Entries) → strip_prefix dst q ≡ none → Outside dst q es
Outside-below dst q end h = tt
Outside-below dst q (link n to rest) h = Outside-below dst q rest h
Outside-below dst q (file n b rest) h = (strip_below dst q n h, Outside-below dst q rest h)
Outside-below dst q (folder n sub rest) h = (strip_below dst q n h, Outside-below dst q rest h)

pub Outside-beside :
    (dst p : FilePath) (n : String) (es : Entries) → Fresh n es → Outside dst (dst ++ n ∷ p) es
Outside-beside dst p n end f = tt
Outside-beside dst p n (link m to rest) f = Outside-beside dst p n rest f.1
Outside-beside dst p n (file m b rest) f =
    (strip_beside dst p n m f.0, Outside-beside dst p n rest f.1)
Outside-beside dst p n (folder m sub rest) f =
    (strip_beside dst p n m f.0, Outside-beside dst p n rest f.1)

pub append_snoc : (p q : FilePath) (n : String) → (p ++ n ∷ []) ++ q ≡ p ++ n ∷ q
append_snoc [] q n = refl
append_snoc (a ∷ p) q n = ap (λ (r : FilePath). a ∷ r) (append_snoc p q n)
