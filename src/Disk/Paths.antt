-- ===== src/Disk/Paths.antt =====
-- Paths as lists of components: equality, `Path::file_name`, `Path::parent`, `Path::strip_prefix`.
use dookie.Base.{
  ◌≡◌, refl, ◌≢◌, ◌↔◌, String, Bool, true, false, ◌&&◌, Option, none, some, List, [], ◌∷◌, ◌++◌,
  arith, str_eq, eq_iff, if◌then◌else◌,
}

abbrev pub path_eq : List String → List String → Bool
path_eq [] [] = true
path_eq (a ∷ p) (b ∷ q) = str_eq a b && path_eq p q
path_eq _ _ = false

pub path_eq_iff : (p q : List String) → (path_eq p q ≡ true) ↔ (p ≡ q)
path_eq_iff [] [] = (λ _. refl, λ _. refl)
path_eq_iff [] (b ∷ q) = (λ h. cc, λ h. cc)
path_eq_iff (a ∷ p) [] = (λ h. cc, λ h. cc)
path_eq_iff (a ∷ p) (b ∷ q) = ground (arith, eq_iff a b, path_eq_iff p q)

-- The parent of the root is the root, which is a directory of every disk that the program meets.
abbrev pub parent : List String → List String
parent [] = []
parent (a ∷ []) = []
parent (a ∷ b ∷ p) = a ∷ parent (b ∷ p)

abbrev pub file_name : List String → Option String
file_name [] = none
file_name (a ∷ []) = some a
file_name (a ∷ b ∷ p) = file_name (b ∷ p)

-- What is left of a path behind a prefix of whole components.
abbrev pub strip_prefix : List String → List String → Option (List String)
strip_prefix [] q = some q
strip_prefix (a ∷ p) [] = none
strip_prefix (a ∷ p) (b ∷ q) = if str_eq a b then strip_prefix p q else none

pub strip_prefix-append : (p q : List String) → strip_prefix p (p ++ q) ≡ some q
strip_prefix-append [] q = refl
strip_prefix-append (a ∷ p) q = ground (arith, eq_iff a a, strip_prefix-append p q)

pub strip_prefix-eq-some : (p q r : List String) → strip_prefix p q ≡ some r → q ≡ p ++ r
strip_prefix-eq-some [] q r h = ground arith
strip_prefix-eq-some (a ∷ p) [] r h = cc
strip_prefix-eq-some (a ∷ p) (b ∷ q) r h = ground (arith, eq_iff a b, strip_prefix-eq-some p q r)

pub append_cancel : (p q r : List String) → p ++ q ≡ p ++ r → q ≡ r
append_cancel [] q r h = h
append_cancel (a ∷ p) q r h = append_cancel p q r (ground arith)

pub ne_by_test : (p q : List String) → path_eq p q ≡ false → p ≢ q
ne_by_test p q h e = cc (h, (path_eq_iff p q).1 e)

pub strip_prefix-ne : (p q : List String) → strip_prefix p q ≡ none → p ≢ q
strip_prefix-ne [] q h e = ground arith
strip_prefix-ne (a ∷ p) [] h e = ground arith
strip_prefix-ne (a ∷ p) (b ∷ q) h e = ground (arith, eq_iff a b, strip_prefix-ne p q)

pub strip_prefix_self : (p : List String) → strip_prefix p p ≡ some []
strip_prefix_self [] = refl
strip_prefix_self (a ∷ p) = ground (arith, eq_iff a a, strip_prefix_self p)
