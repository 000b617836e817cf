-- ===== src/Update/Steps.antt =====
-- Rules for the steps of an update: which paths a `do` block leaves alone, and how a block that
-- succeeded is taken apart.
use dookie.Base.{◌≡◌, refl, ◌∙◌, Bool, true, false, arith}
use dookie.Base.Result.{Result, ok, err}
use dookie.Disk.{FilePath, Disk, Io}
use dookie.Update.{UpdateError, Upd, ◌>>=◌, on_disk, lift, guard}

-- Whatever `m` returns, the node at `q` stays.
pub record Leaves {A : Type 0} (q : FilePath) (m : Upd A) : Type 0 where
  pub at : (d : Disk) → (m d).1.fs q ≡ d.fs q

module _ {A : Type 0} (q : FilePath) where
  pub Leaves-lift : (r : Result UpdateError A) → Leaves q (lift r)
  unfolding ◌>>=◌
  Leaves-lift r = record { at = λ d. refl }

  pub Leaves-on_disk : (m : Io A) → ((d : Disk) → (m d).1.fs q ≡ d.fs q) → Leaves q (on_disk m)
  unfolding ◌>>=◌
  Leaves-on_disk m h = record { at = h }

pub Leaves-guard : (q : FilePath) (b : Bool) (e : UpdateError) → Leaves q (guard b e)
unfolding ◌>>=◌
Leaves-guard q true e = record { at = λ d. refl }
Leaves-guard q false e = record { at = λ d. refl }

module _ {A B : Type 0} (q : FilePath) where
  continue_at :
      (f : A → Upd B) (r : Result UpdateError A) (d : Disk)
      → ((a : A) → Leaves q (f a))
      → (((λ (x : Disk). (r, x)) >>= f) d).1.fs q ≡ d.fs q
  unfolding ◌>>=◌
  continue_at f (ok a) d h = (h a).at d
  continue_at f (err e) d h = refl

  pub Leaves-bind :
      (m : Upd A) (f : A → Upd B) → Leaves q m → ((a : A) → Leaves q (f a)) → Leaves q (m >>= f)
  unfolding ◌>>=◌
  Leaves-bind m f hm hf = record { at = λ d. continue_at f (m d).0 (m d).1 hf ∙ hm.at d }

pub ruleset leaves_rules = (Leaves-lift, Leaves-on_disk, Leaves-guard, Leaves-bind)

-- From a disk with `P`, if `m` succeeds with `a` the disk has `Q a`.
pub record Ensures {A : Type 0} (P : Disk → Type 0) (m : Upd A) (Q : A → Disk → Type 0)
    : Type 0 where
  pub at : (d : Disk) → P d → (a : A) → (m d).0 ≡ ok a → Q a (m d).1

module _ {A B : Type 0} {R : B → Disk → Type 0} where
  ensured_at :
      (f : A → Upd B) (Q : A → Disk → Type 0) (r : Result UpdateError A) (d : Disk)
      → ((a : A) → r ≡ ok a → Q a d)
      → ((a : A) → Ensures (Q a) (f a) R)
      → (b : B) → (((λ (x : Disk). (r, x)) >>= f) d).0 ≡ ok b
      → R b (((λ (x : Disk). (r, x)) >>= f) d).1
  unfolding ◌>>=◌
  ensured_at f Q (ok a) d q h b e = (h a).at d (q a refl) b e
  ensured_at f Q (err x) d q h b e = absurd (ground arith)

module _ {A B : Type 0} {P : Disk → Type 0} {R : B → Disk → Type 0} where
  pub Ensures-bind :
      (m : Upd A) (f : A → Upd B) (Q : A → Disk → Type 0)
      → Ensures P m Q
      → ((a : A) → Ensures (Q a) (f a) R)
      → Ensures P (m >>= f) R
  unfolding ◌>>=◌
  Ensures-bind m f Q hm hf = record {
    at = λ d p b e. ensured_at f Q (m d).0 (m d).1 (λ a k. hm.at d p a k) hf b e;
  }

module _ {A B : Type 0} {P : Disk → Type 0} {R : B → Disk → Type 0} where
  -- The rest of the block may use that `r` was no error.
  pub Ensures-step :
      (r : Result UpdateError A) (f : A → Upd B)
      → ((a : A) → r ≡ ok a → Ensures P (f a) R)
      → Ensures P (lift r >>= f) R
  unfolding ◌>>=◌
  Ensures-step (ok a) f h = h a refl
  Ensures-step (err e) f h = record { at = λ d p b x. absurd (ground arith) }

module _ {A : Type 0} {P : Disk → Type 0} {Q : A → Disk → Type 0} where
  pub Ensures-lift :
      (r : Result UpdateError A)
      → ((d : Disk) (a : A) → P d → r ≡ ok a → Q a d)
      → Ensures P (lift r) Q
  unfolding ◌>>=◌
  Ensures-lift r h = record { at = λ d p a e. h d a p e }

  pub Ensures-on_disk :
      (m : Io A)
      → ((d : Disk) (a : A) → P d → (m d).0 ≡ ok a → Q a (m d).1)
      → Ensures P (on_disk m) Q
  unfolding ◌>>=◌
  Ensures-on_disk m h = record { at = λ d p a e. h d a p (ground arith) }

guard_at :
    (P : Disk → Type 0) (Q : Unit {0} → Disk → Type 0) (b c : Bool) (e : UpdateError) (d : Disk)
    → b ≡ c
    → P d
    → (b ≡ true → (d' : Disk) → P d' → Q tt d')
    → (a : Unit {0}) → (guard c e d).0 ≡ ok a
    → Q a (guard c e d).1
unfolding ◌>>=◌
guard_at P Q b true e d k p h a x = h k d p
guard_at P Q b false e d k p h a x = absurd (ground arith)

module _ {P : Disk → Type 0} {Q : Unit {0} → Disk → Type 0} where
  pub Ensures-guard :
      (b : Bool) (e : UpdateError)
      → (b ≡ true → (d : Disk) → P d → Q tt d)
      → Ensures P (guard b e) Q
  Ensures-guard b e h = record { at = λ d p a x. guard_at P Q b b e d refl p h a x }
