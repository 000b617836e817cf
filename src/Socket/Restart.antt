-- ===== src/Socket/Restart.antt =====
-- A start after a crash of the instance before it.
use mathlib.Core.Path.{subst}
use dookie.Base.{
  ℕ, ◌+◌, ◌≡◌, refl, Bool, true, false, Option, none, some, List, ◌∷◌, length, ==_iff, arith,
}
use dookie.Base.Result.{Result, ok, err}
use dookie.Socket.{
  Node, socket, regular, SocketError, connection_refused, Os, ◌>>=◌, open_lock, check_lock,
  try_lock, claim_lock, symlink_metadata, probe_cli_socket, lock_len, read_lock,
  recorded_socket_matches, check_recorded, remove_file, remove_same, reclaim, clear_path, bind,
  truncate_lock, write_lock, sync_lock, record_socket, bind_and_record, bind_cli_socket,
}
use dookie.Socket.Identity.{Metadata, socket_identity, same_bytes, same_bytes_iff}
use dookie.Socket.Claim.{bind_cli_socket-Claims}

-- The system as the next start finds it: the lock is free, no call fails and no one else acts.
abbrev pub after_crash : (Metadata → Result SocketError (Unit {0})) → Metadata → Os → Os
after_crash probe fresh t = record t {
  is_locked = false;
  probe = probe;
  before_look = λ p. p;
  after_bind = λ p. p;
  fresh = fresh;
  fails = λ n. false;
}

module _ (m fresh : Metadata) (probe : Metadata → Result SocketError (Unit {0})) (torn : ℕ)
    (refused : probe m ≡ err connection_refused) where
  -- The system between the calls.
  abbrev at_rest : Option Node → ℕ → List Metadata → Os
  at_rest path calls removed = record {
    path = path;
    lock_node = regular (socket_identity m);
    is_locked = false;
    probe = probe;
    before_look = λ p. p;
    after_bind = λ p. p;
    fresh = fresh;
    torn = torn;
    fails = λ n. false;
    calls = calls;
    removed = removed;
  }

  same_record : same_bytes (socket_identity m) (socket_identity m) ≡ true
  same_record = (same_bytes_iff (socket_identity m) (socket_identity m)).1 refl

  stale_again :
      (n : ℕ) (l : List Metadata)
      → probe_cli_socket m (at_rest (some (socket m)) n l)
        ≡ (err connection_refused, at_rest (some (socket m)) (n + 1) l)
  unfolding probe_cli_socket
  stale_again n l = rw refused

  matches_again :
      (n : ℕ) (l : List Metadata)
      → recorded_socket_matches (socket_identity m) (at_rest (some (socket m)) n l)
        ≡ (ok true, at_rest (some (socket m)) (n + 1 + 1) l)
  unfolding recorded_socket_matches lock_len read_lock ◌>>=◌
  matches_again n l =
      rw ((==_iff (length (socket_identity m)) (length (socket_identity m))).1 refl)
        (rw same_record)

  recorded_again :
      (is_macos : Bool) (n : ℕ) (l : List Metadata)
      → (k : ℕ) × (check_recorded is_macos (socket_identity m) (at_rest (some (socket m)) n l)
          ≡ (ok tt, at_rest (some (socket m)) k l))
  unfolding check_recorded ◌>>=◌
  recorded_again true n l = (n + 1 + 1, rw (matches_again n l))
  recorded_again false n l = (n, refl)

  removes_again :
      (n : ℕ) (l : List Metadata)
      → remove_same (socket_identity m) (at_rest (some (socket m)) n l)
        ≡ (ok tt, at_rest none (n + 1 + 1) (m ∷ l))
  unfolding remove_same symlink_metadata remove_file ◌>>=◌
  removes_again n l = rw same_record

  binds_again : (n : ℕ) (l : List Metadata) → (bind_and_record (at_rest none n l)).0 ≡ ok fresh
  unfolding bind_and_record bind symlink_metadata record_socket truncate_lock write_lock sync_lock
      ◌>>=◌
  binds_again n l = refl

  clears_again :
      (is_macos : Bool) (n : ℕ) (l : List Metadata)
      → (k : ℕ) × (clear_path is_macos (at_rest (some (socket m)) n l)
          ≡ (ok tt, at_rest none k (m ∷ l)))
  unfolding clear_path symlink_metadata reclaim ◌>>=◌
  clears_again is_macos n l =
      let (k, e) = recorded_again is_macos (n + 1 + 1) l in
      (k + 1 + 1, rw (stale_again (n + 1) l) (rw e (removes_again k l)))

  starts_again :
      (is_macos : Bool) (n : ℕ) (l : List Metadata)
      → (bind_cli_socket is_macos (at_rest (some (socket m)) n l)).0 ≡ ok fresh
  unfolding bind_cli_socket claim_lock open_lock check_lock try_lock ◌>>=◌
  starts_again is_macos n l =
      let (k, e) = clears_again is_macos (n + 1 + 1 + 1) l in rw e (binds_again k (m ∷ l))

-- If a start has returned a socket, and its process is gone, so that the lock is free and the
-- connection to the socket is refused, then a start whose calls do not fail and with whom no one
-- interferes returns a socket again, on macOS too.
pub bind_cli_socket_restarts :
    (is_macos : Bool) (s : Os) (m fresh : Metadata)
    (probe : Metadata → Result SocketError (Unit {0}))
    → (bind_cli_socket is_macos s).0 ≡ ok m
    → probe m ≡ err connection_refused
    → (bind_cli_socket is_macos (after_crash probe fresh (bind_cli_socket is_macos s).1)).0
      ≡ ok fresh
bind_cli_socket_restarts is_macos s m fresh probe h refused =
    let t = (bind_cli_socket is_macos s).1 in
    let (_, _, _, c) = (bind_cli_socket-Claims is_macos s).1 m h in
    let same : at_rest m fresh probe t.torn refused (some (socket m)) t.calls t.removed
        ≡ after_crash probe fresh t =
      ground (arith, c) in
    subst (λ (x : Os). (bind_cli_socket is_macos x).0 ≡ ok fresh) same
      (starts_again m fresh probe t.torn refused is_macos t.calls t.removed)
