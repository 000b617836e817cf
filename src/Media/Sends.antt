-- ===== src/Media/Sends.antt =====
-- Rules for the requests that a `do` block sends.
use dookie.Base.{◌≡◌, refl, Bool, true, false, List, ◌∷◌, arith, if◌then◌else◌}
use dookie.Base.Result.{Result, ok, err}
use dookie.Media.{BundleError, Request, Response, Server, Net, send, lift, guard, ◌>>=◌}

-- The second list of requests continues the first, with requests that have the property.
pub data Adds (P : Request → Type 0) : List Request → List Request → Type 0 where
  same : {h : List Request} → Adds P h h
  more : {h k : List Request} {r : Request} → P r → Adds P h k → Adds P h (r ∷ k)

pub Adds-trans :
    {P : Request → Type 0} {h k l : List Request} → Adds P h k → Adds P k l → Adds P h l
Adds-trans a same = a
Adds-trans a (more p b) = more p (Adds-trans a b)

pub Adds-map :
    {P Q : Request → Type 0} {h k : List Request}
    → ((r : Request) → P r → Q r)
    → Adds P h k
    → Adds Q h k
Adds-map f same = same
Adds-map f (more {r = r} p a) = more (f r p) (Adds-map f a)

-- Whatever `m` returns, it has sent such requests only.
pub record Sends {A : Type 0} (P : Request → Type 0) (m : Net A) : Type 0 where
  pub at : (h : List Request) → Adds P h (m h).1

module _ (P : Request → Type 0) where
  pub Sends-send : (server : Server) (r : Request) → P r → Sends P (send server r)
  unfolding ◌>>=◌
  Sends-send server r p = record { at = λ h. more p same }

  pub Sends-lift : {A : Type 0} (r : Result BundleError A) → Sends P (lift r)
  unfolding ◌>>=◌
  Sends-lift r = record { at = λ h. same }

  pub Sends-guard : (b : Bool) (e : BundleError) → Sends P (guard b e)
  unfolding ◌>>=◌
  Sends-guard true e = record { at = λ h. same }
  Sends-guard false e = record { at = λ h. same }

  pub Sends-bind :
      {A B : Type 0} (m : Net A) (f : A → Net B)
      → Sends P m
      → ((a : A) → Sends P (f a))
      → Sends P (m >>= f)
  unfolding ◌>>=◌
  Sends-bind {A = A} {B = B} m f c e = record {
    at = λ h. Adds-trans (c.at h) (cases (m h).0 (m h).1);
  }
    where
      cases :
          (r : Result BundleError A) (k : List Request)
          → Adds P k (((λ (x : List Request). (r, k)) >>= f) k).1
      cases (ok a) k = (e a).at k
      cases (err _) k = same

  -- What is computed between the requests is known to those after it.
  pub Sends-step :
      {A B : Type 0} (r : Result BundleError A) (f : A → Net B)
      → ((a : A) → r ≡ ok a → Sends P (f a))
      → Sends P (lift r >>= f)
  unfolding ◌>>=◌
  Sends-step (ok a) f e = e a refl
  Sends-step (err _) f e = record { at = λ h. same }

  pub Sends-if :
      {A : Type 0} (b : Bool) (m n : Net A)
      → (b ≡ true → Sends P m)
      → (b ≡ false → Sends P n)
      → Sends P (if b then m else n)
  Sends-if true m n c e = c refl
  Sends-if false m n c e = e refl

pub ruleset sends_rules = (Sends-send, Sends-lift, Sends-guard, Sends-bind)

module _ (P : Request → Type 0) {A B : Type 0} (Q : A → Type 0) where
  -- What is known of the answer is known after it.
  pub Sends-known :
      (m : Net A) (f : A → Net B)
      → Sends P m
      → ((h : List Request) (a : A) → (m h).0 ≡ ok a → Q a)
      → ((a : A) → Q a → Sends P (f a))
      → Sends P (m >>= f)
  unfolding ◌>>=◌
  Sends-known m f c q e = record { at = λ h. Adds-trans (c.at h) (cases (m h).0 (m h).1 (q h)) }
    where
      cases :
          (r : Result BundleError A) (k : List Request)
          → ((a : A) → r ≡ ok a → Q a)
          → Adds P k (((λ (x : List Request). (r, k)) >>= f) k).1
      cases (ok a) k g = (e a (g a refl)).at k
      cases (err _) k g = same

-- A block that succeeds has succeeded at its first step, and the rest has run after it.
pub succeeded :
    {A B : Type 0} (m : Net A) (f : A → Net B) (h : List Request) (b : B)
    → ((m >>= f) h).0 ≡ ok b
    → (a : A) × ((m h).0 ≡ ok a) × ((m >>= f) h ≡ f a (m h).1)
unfolding ◌>>=◌
succeeded {A = A} {B = B} m f h b e = cases (m h).0 (m h).1 e
  where
    cases :
        (r : Result BundleError A) (k : List Request)
        → (((λ (x : List Request). (r, k)) >>= f) k).0 ≡ ok b
        → (a : A) × (r ≡ ok a) × (((λ (x : List Request). (r, k)) >>= f) k ≡ f a k)
    cases (ok a) k e = (a, refl, refl)
    cases (err _) k e = absurd (ground arith)

pub lifted :
    {A : Type 0} (r : Result BundleError A) (h : List Request) {a : A}
    → (lift r h).0 ≡ ok a
    → r ≡ ok a
unfolding ◌>>=◌
lifted r h e = e

pub lift_keeps : {A : Type 0} (r : Result BundleError A) (h : List Request) → (lift r h).1 ≡ h
unfolding ◌>>=◌
lift_keeps r h = refl

pub guarded : (b : Bool) (e : BundleError) (h : List Request) → (guard b e h).0 ≡ ok tt → b ≡ true
unfolding ◌>>=◌
guarded true e h q = refl
guarded false e h q = absurd (ground arith)

pub answered :
    (server : Server) (r : Request) (h : List Request) {a : Response}
    → (send server r h).0 ≡ ok a
    → server h r ≡ ok a
unfolding ◌>>=◌
answered server r h e = e
