-- ===== src/Socket/Identity.antt =====
-- server/src/listener.rs: `socket_identity`, the record by which a socket is known again.
use native.Mathlib.Nat.{pow-suc}
use dookie.Base.{
  ℕ, zero, suc, ◌*◌, ◌/◌, ◌%◌, ◌^◌, ◌<◌, ◌≡◌, refl, ap, ◌↔◌, Bool, true, false, ◌&&◌, List, [], ◌∷◌,
  ◌++◌, length, ◌==◌, arith,
}

-- Of the metadata, the numbers that the record holds, the signed ones as their 64 bits.
pub record Metadata : Type 0 where
  pub dev : ℕ
  pub ino : ℕ
  pub ctime : ℕ
  pub ctime_nsec : ℕ

-- `to_le_bytes`, with the number of bytes
abbrev pub le_bytes : ℕ → ℕ → List ℕ
le_bytes zero n = []
le_bytes (suc k) n = n % 256 ∷ le_bytes k (n / 256)

-- "dookie01"
abbrev pub magic : List ℕ
magic = 100 ∷ 111 ∷ 111 ∷ 107 ∷ 105 ∷ 101 ∷ 48 ∷ 49 ∷ []

unfoldable pub socket_identity : Metadata → List ℕ
socket_identity m =
    magic
    ++ (le_bytes 8 m.dev ++ (le_bytes 8 m.ino ++ (le_bytes 8 m.ctime ++ le_bytes 8 m.ctime_nsec)))

abbrev pub same_bytes : List ℕ → List ℕ → Bool
same_bytes [] [] = true
same_bytes (x ∷ xs) (y ∷ ys) = x == y && same_bytes xs ys
same_bytes _ _ = false

pub same_bytes_iff : (xs ys : List ℕ) → (same_bytes xs ys ≡ true) ↔ (xs ≡ ys)
same_bytes_iff [] [] = (λ h. refl, λ h. refl)
same_bytes_iff [] (y ∷ ys) = (λ h. absurd (ground arith), λ h. absurd (ground arith))
same_bytes_iff (x ∷ xs) [] = (λ h. absurd (ground arith), λ h. absurd (ground arith))
same_bytes_iff (x ∷ xs) (y ∷ ys) =
    (λ h. ground (arith, same_bytes_iff xs ys), λ h. ground (arith, same_bytes_iff xs ys))

pub length-socket_identity : (m : Metadata) → length (socket_identity m) ≡ 40
unfolding socket_identity
length-socket_identity m = refl

-- All numbers of the metadata have 64 bits.
pub record IsU64 (m : Metadata) : Type 0 where
  pub dev : m.dev < 2 ^ 64
  pub ino : m.ino < 2 ^ 64
  pub ctime : m.ctime < 2 ^ 64
  pub ctime_nsec : m.ctime_nsec < 2 ^ 64

abbrev head_or : ℕ → List ℕ → ℕ
head_or n [] = n
head_or n (x ∷ _) = x

abbrev tail : List ℕ → List ℕ
tail [] = []
tail (_ ∷ xs) = xs

le_bytes-injective : (k m n : ℕ) → m < 256 ^ k → n < 256 ^ k → le_bytes k m ≡ le_bytes k n → m ≡ n
le_bytes-injective zero m n a b e = omega arith
le_bytes-injective (suc k) m n a b e =
    let heads = ap (λ (l : List ℕ). head_or 0 l) e in
    let tails = ap (λ (l : List ℕ). tail l) e in
    let p : 256 ^ suc k ≡ 256 ^ k * 256 = pow-suc 256 k in
    let quotients =
      le_bytes-injective k (m / 256) (n / 256) (omega (arith, p)) (omega (arith, p)) tails in
    omega (arith, heads, quotients)

append-injective :
    (xs ys us vs : List ℕ) → length xs ≡ length us → xs ++ ys ≡ us ++ vs → (xs ≡ us) × (ys ≡ vs)
append-injective [] ys [] vs l e = (refl, e)
append-injective [] ys (u ∷ us) vs l e = absurd (omega arith)
append-injective (x ∷ xs) ys [] vs l e = absurd (omega arith)
append-injective (x ∷ xs) ys (u ∷ us) vs l e = ground (arith, append-injective xs ys us vs)

length-le_bytes : (k n : ℕ) → length (le_bytes k n) ≡ k
length-le_bytes zero n = refl
length-le_bytes (suc k) n = omega (arith, length-le_bytes k (n / 256))

u64_injective : (m n : ℕ) → m < 2 ^ 64 → n < 2 ^ 64 → le_bytes 8 m ≡ le_bytes 8 n → m ≡ n
u64_injective m n a b = le_bytes-injective 8 m n a b

-- Two sockets whose numbers have 64 bits leave the same record exactly if all their numbers agree.
pub socket_identity_exact :
    (m n : Metadata) → IsU64 m → IsU64 n → (socket_identity m ≡ socket_identity n) ↔ (m ≡ n)
unfolding socket_identity
socket_identity_exact m n a b = (fields, λ e. ap socket_identity e)
  where
    split :
        (p q : ℕ) (ys vs : List ℕ)
        → le_bytes 8 p ++ ys ≡ le_bytes 8 q ++ vs
        → (le_bytes 8 p ≡ le_bytes 8 q) × (ys ≡ vs)
    split p q ys vs e = append-injective (le_bytes 8 p) ys (le_bytes 8 q) vs refl e

    fields : socket_identity m ≡ socket_identity n → m ≡ n
    fields e =
        let (_, e₁) = append-injective magic _ magic _ refl e in
        let (dev, e₂) = split m.dev n.dev _ _ e₁ in
        let (ino, e₃) = split m.ino n.ino _ _ e₂ in
        let (ctime, nsec) = split m.ctime n.ctime _ _ e₃ in
        let d = u64_injective m.dev n.dev a.dev b.dev dev in
        let i = u64_injective m.ino n.ino a.ino b.ino ino in
        let c = u64_injective m.ctime n.ctime a.ctime b.ctime ctime in
        let s = u64_injective m.ctime_nsec n.ctime_nsec a.ctime_nsec b.ctime_nsec nsec in
        ground (arith, d, i, c, s)
