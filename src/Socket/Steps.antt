-- ===== src/Socket/Steps.antt =====
-- Rules for the `do` blocks of `bind_cli_socket`.
use dookie.Base.{◌≡◌, refl, ◌⊎◌, inl, inr, arith}
use dookie.Base.Result.{Result, ok, err}
use dookie.Socket.{SocketError, Os, Sys, and_then, ◌>>=◌, recorded}

-- All but the number of calls, and an empty lock file that may be new.
pub record Keeps (s t : Os) : Type 0 where
  pub path : t.path ≡ s.path
  pub record_kept : recorded t.lock_node ≡ recorded s.lock_node
  pub is_locked : t.is_locked ≡ s.is_locked
  pub probe : t.probe ≡ s.probe
  pub before_look : t.before_look ≡ s.before_look
  pub after_bind : t.after_bind ≡ s.after_bind
  pub fresh : t.fresh ≡ s.fresh
  pub removed : t.removed ≡ s.removed
  pub fails : t.fails ≡ s.fails

pub Keeps-trans : {s t u : Os} → Keeps s t → Keeps t u → Keeps s u
Keeps-trans a b = ground arith

pub Keeps-refl : (s : Os) → Keeps s s
Keeps-refl s = ground arith

module _ {A B : Type 0} (m : Sys A) (f : A → Sys B) (s : Os) where
  -- A block that succeeds has succeeded at its first step, and the rest has run after it.
  pub succeeded :
      {b : B} → ((m >>= f) s).0 ≡ ok b → (a : A) × ((m s).0 ≡ ok a) × ((m >>= f) s ≡ f a (m s).1)
  unfolding ◌>>=◌
  succeeded {b} h = cases (m s).0 h
    where
      cases :
          (r : Result SocketError A)
          → (and_then f r (m s).1).0 ≡ ok b
          → (a : A) × (r ≡ ok a) × (and_then f r (m s).1 ≡ f a (m s).1)
      cases (ok a) h = (a, refl, refl)
      cases (err e) h = absurd (ground arith)

  -- What the first step ends with is kept by the rest, or was its error.
  pub then_or_stop :
      ((a : A) × ((m s).0 ≡ ok a) × ((m >>= f) s ≡ f a (m s).1))
      ⊎ ((e : SocketError) × ((m s).0 ≡ err e) × ((m >>= f) s ≡ (err e, (m s).1)))
  unfolding ◌>>=◌
  then_or_stop = cases (m s).0
    where
      cases :
          (r : Result SocketError A)
          → ((a : A) × (r ≡ ok a) × (and_then f r (m s).1 ≡ f a (m s).1))
            ⊎ ((e : SocketError) × (r ≡ err e) × (and_then f r (m s).1 ≡ (err e, (m s).1)))
      cases (ok a) = inl (a, refl, refl)
      cases (err e) = inr (e, refl, refl)

  pub Keeps-bind :
      Keeps s (m s).1
      → ((a : A) → (m s).0 ≡ ok a → Keeps (m s).1 (f a (m s).1).1)
      → Keeps s ((m >>= f) s).1
  Keeps-bind k l = elim then_or_stop [
    | inl (a, e, q) ↦ rw q (Keeps-trans k (l a e))
    | inr (e, p, q) ↦ rw q k
  ]

module _ {A B : Type 0} (P : Result SocketError B × Os → Type 0) where
  -- What holds after the rest, or after an error of the first step, holds after the block.
  pub by_step :
      (m : Sys A) (f : A → Sys B) (s : Os)
      → ((a : A) → (m s).0 ≡ ok a → P (f a (m s).1))
      → ((e : SocketError) → (m s).0 ≡ err e → P (err e, (m s).1))
      → P ((m >>= f) s)
  unfolding ◌>>=◌
  by_step m f s g h = cases (m s).0 g h
    where
      cases :
          (r : Result SocketError A)
          → ((a : A) → r ≡ ok a → P (f a (m s).1))
          → ((e : SocketError) → r ≡ err e → P (err e, (m s).1))
          → P (and_then f r (m s).1)
      cases (ok a) g h = g a refl
      cases (err e) g h = h e refl
