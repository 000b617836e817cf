-- ===== src/Socket/Laws.antt =====
-- Which socket may be removed, and what a claimed socket is known by.
use dookie.Base.{ℕ, ◌≡◌, sym, ap, ◌∙◌, Bool, true, false, List, length, ◌==◌, arith}
use dookie.Base.Result.{ok}
use dookie.Socket.{
  Os, ◌>>=◌, recorded, owned, read_if, open_lock, check_lock, try_lock, claim_lock,
  recorded_socket_matches, check_recorded, lock_len, read_lock,
}
use dookie.Socket.Steps.{Keeps, Keeps-refl, Keeps-bind, succeeded}
use dookie.Socket.Identity.{same_bytes_iff}

pub claim_lock-Keeps : (s : Os) → Keeps s (claim_lock s).1
unfolding claim_lock open_lock check_lock try_lock ◌>>=◌
claim_lock-Keeps s = ground arith

pub claim_lock_free : (s : Os) → (claim_lock s).0 ≡ ok tt → s.is_locked ≡ false
unfolding claim_lock open_lock check_lock try_lock ◌>>=◌
claim_lock_free s h = ground arith

lock_len-Keeps : (s : Os) → Keeps s (lock_len s).1
unfolding lock_len
lock_len-Keeps s = ground arith

read_lock-Keeps : (identity : List ℕ) (s : Os) → Keeps s (read_lock identity s).1
unfolding read_lock
read_lock-Keeps identity s = ground arith

read_lock_sound :
    (identity : List ℕ) (s : Os)
    → (read_lock identity s).0 ≡ ok true
    → recorded s.lock_node ≡ identity
unfolding read_lock
read_lock_sound identity s h = ground (arith, same_bytes_iff (recorded s.lock_node) identity)

matches-Keeps : (identity : List ℕ) (s : Os) → Keeps s (recorded_socket_matches identity s).1
unfolding recorded_socket_matches
matches-Keeps identity s =
    Keeps-bind lock_len _ s (lock_len-Keeps s) (λ len _. by_length (len == length identity))
  where
    by_length : (b : Bool) → Keeps (lock_len s).1 (read_if b identity (lock_len s).1).1
    by_length true = read_lock-Keeps identity (lock_len s).1
    by_length false = Keeps-refl (lock_len s).1

matches_sound :
    (identity : List ℕ) (s : Os)
    → (recorded_socket_matches identity s).0 ≡ ok true
    → recorded s.lock_node ≡ identity
unfolding recorded_socket_matches
matches_sound identity s h =
    let (len, _, e) = succeeded lock_len _ s h in
    by_length (len == length identity) (ap (λ x. x.0) (sym e) ∙ h)
  where
    by_length :
        (b : Bool)
        → (read_if b identity (lock_len s).1).0 ≡ ok true
        → recorded s.lock_node ≡ identity
    by_length true k =
        sym (lock_len-Keeps s).record_kept ∙ read_lock_sound identity (lock_len s).1 k
    by_length false k = absurd (ground arith)

pub check_recorded-Keeps :
    (is_macos : Bool) (identity : List ℕ) (s : Os) → Keeps s (check_recorded is_macos identity s).1
unfolding check_recorded
check_recorded-Keeps true identity s =
    Keeps-bind (recorded_socket_matches identity) _ s (matches-Keeps identity s)
      (λ matches _. Keeps-refl _)
check_recorded-Keeps false identity s = Keeps-refl s

pub check_recorded_sound :
    (is_macos : Bool) (identity : List ℕ) (s : Os)
    → (check_recorded is_macos identity s).0 ≡ ok tt
    → is_macos ≡ true
    → recorded s.lock_node ≡ identity
unfolding check_recorded
check_recorded_sound true identity s h e =
    let (matches, m, k) = succeeded (recorded_socket_matches identity) _ s h in
    matches_sound identity s (by_match matches m (ap (λ x. x.0) (sym k) ∙ h))
  where
    by_match :
        (b : Bool)
        → (recorded_socket_matches identity s).0 ≡ ok b
        → owned b ≡ ok tt
        → (recorded_socket_matches identity s).0 ≡ ok true
    by_match true m k = m
    by_match false m k = absurd (ground arith)
check_recorded_sound false identity s h e = absurd (ground arith)
