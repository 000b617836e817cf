-- ===== src/Socket/Claim.antt =====
-- What a start that returns has claimed.
use dookie.Base.{◌≡◌, sym, ◌∙◌, ◌⊎◌, inl, inr, Bool, false, none, some, arith}
use dookie.Base.Result.{Result, ok, err}
use dookie.Socket.{
  Node, socket, no_socket, regular, SocketError, already_exists, Os, ◌>>=◌, pure, symlink_metadata,
  bind, check_bound, truncate_lock, write_lock, sync_lock, record_socket, bind_and_record,
  claim_lock, clear_path, bind_cli_socket,
}
use dookie.Socket.Steps.{Keeps, by_step}
use dookie.Socket.Laws.{claim_lock-Keeps, claim_lock_free}
use dookie.Socket.Reclaim.{
  IsReclaimed, IsReclaimed-before, IsReclaimed-after, Clears, clear_path-Clears,
}
use dookie.Socket.Removal.{symlink_metadata-Keeps, symlink_metadata_sees}
use dookie.Socket.Identity.{Metadata, socket_identity}

record_socket_lem :
    (m : Metadata) (s : Os)
    → ((record_socket m s).1.path ≡ s.path)
      × ((record_socket m s).1.removed ≡ s.removed)
      × ((n : Metadata)
          → (record_socket m s).0 ≡ ok n
          → (n ≡ m) × ((record_socket m s).1.lock_node ≡ regular (socket_identity m)))
unfolding record_socket truncate_lock write_lock sync_lock ◌>>=◌
record_socket_lem m s = (ground arith, ground arith, λ n h. (ground arith, ground arith))

bind_lem :
    (s : Os)
    → ((bind s).1.removed ≡ s.removed)
      × ((bind s).0 ≡ ok tt → (bind s).1.path ≡ s.after_bind (some (socket s.fresh)))
unfolding bind
bind_lem s = (ground arith, λ h. ground arith)

-- The socket that is returned is the one at the path, and the lock holds its record.
pub record IsClaimed (m : Metadata) (t : Os) : Type 0 where
  pub path : t.path ≡ some (socket m)
  pub owned : t.lock_node ≡ regular (socket_identity m)

abbrev Binds : Os → Result SocketError Metadata × Os → Type 0
Binds s x =
    (x.1.removed ≡ s.removed)
    × ((m : Metadata)
        → x.0 ≡ ok m
        → (s.after_bind (some (socket s.fresh)) ≡ some (socket m)) × IsClaimed m x.1)

fails_to_bind : (s t : Os) (e : SocketError) → t.removed ≡ s.removed → Binds s (err e, t)
fails_to_bind s t e k = (k, λ m h. absurd (ground arith))

bound :
    (s t : Os) (n : Node)
    → t.removed ≡ s.removed
    → s.after_bind (some (socket s.fresh)) ≡ some n
    → t.path ≡ some n
    → Binds s ((pure (check_bound n) >>= record_socket) t)
unfolding ◌>>=◌
bound s t (socket m) k a p =
    let (same, kept, records) = record_socket_lem m t in
    (
      kept ∙ k,
      λ n h.
          let (e, l) = records n h in
          (ground (arith, e), record { path = ground (arith, e); owned = ground (arith, e) }),
    )
bound s t no_socket k a p = fails_to_bind s t already_exists k

bind_and_record-Binds : (s : Os) → Binds s (bind_and_record s)
unfolding bind_and_record
bind_and_record-Binds s =
    let (kept, made) = bind_lem s in
    let t = (bind s).1 in
    let l = symlink_metadata-Keeps t in
    by_step (Binds s) bind _ s
      (λ _ b.
        by_step (Binds s) symlink_metadata _ t
          (λ n p.
            let at = symlink_metadata_sees t n p in
            bound s (symlink_metadata t).1 n (l.removed ∙ kept) (sym (made b) ∙ at) (l.path ∙ at))
          (λ e p. fails_to_bind s (symlink_metadata t).1 e (l.removed ∙ kept)))
      (λ e b. fails_to_bind s t e kept)

-- What a start comes to.
abbrev pub Claims : Bool → Os → Result SocketError Metadata × Os → Type 0
Claims is_macos s x =
    ((x.1.removed ≡ s.removed) ⊎ ((s.is_locked ≡ false) × IsReclaimed is_macos s x.1))
    × ((m : Metadata)
        → x.0 ≡ ok m
        → (s.is_locked ≡ false)
          × ((s.path ≡ none) ⊎ IsReclaimed is_macos s x.1)
          × (s.after_bind (some (socket s.fresh)) ≡ some (socket m))
          × IsClaimed m x.1)

claims :
    (is_macos : Bool) (s t : Os) (x : Result SocketError (Unit {0}) × Os)
    (y : Result SocketError Metadata × Os)
    → Keeps s t
    → s.is_locked ≡ false
    → Clears is_macos t x
    → x.0 ≡ ok tt
    → Binds x.1 y
    → Claims is_macos s y
claims is_macos s t x y k free (inl (r, p, q)) o (kept, made) =
    let r' = IsReclaimed-after is_macos s x.1 y.1 kept (IsReclaimed-before is_macos s t x.1 k r) in
    (
      inr (free, r'),
      λ m h.
          let (a, c) = made m h in
          let before : s.after_bind (some (socket s.fresh)) ≡ some (socket m) = ground (arith, a) in
          (free, inr r', before, c),
    )
claims is_macos s t x y k free (inr (p, q, n)) o (kept, made) = (
  inl (kept ∙ p ∙ k.removed),
  λ m h.
      let (a, c) = made m h in
      let before : s.after_bind (some (socket s.fresh)) ≡ some (socket m) = ground (arith, a) in
      (free, inl (sym k.path ∙ (n o).0), before, c),
)

fails_to_clear :
    (is_macos : Bool) (s t : Os) (r : Result SocketError (Unit {0})) (u : Os) (e : SocketError)
    → Keeps s t
    → s.is_locked ≡ false
    → Clears is_macos t (r, u)
    → Claims is_macos s (err e, u)
fails_to_clear is_macos s t r u e k free (inl (i, p, q)) =
    (inr (free, IsReclaimed-before is_macos s t u k i), λ m h. absurd (ground arith))
fails_to_clear is_macos s t r u e k free (inr (p, q, n)) =
    (inl (p ∙ k.removed), λ m h. absurd (ground arith))

-- A start removes no socket, or it holds the lock and removes one that had refused the connection,
-- that was still at the path by its record at the second look, and on macOS whose record the lock
-- held; and if it returns a socket, it holds the lock, the path was free or so cleared, and the
-- socket is the one at the path, whose record the lock holds.
pub bind_cli_socket-Claims :
    (is_macos : Bool) (s : Os) → Claims is_macos s (bind_cli_socket is_macos s)
unfolding bind_cli_socket
bind_cli_socket-Claims is_macos s =
    let k = claim_lock-Keeps s in
    let t = (claim_lock s).1 in
    let c = clear_path-Clears is_macos t in
    by_step (Claims is_macos s) claim_lock _ s
      (λ _ p.
        let free = claim_lock_free s p in
        by_step (Claims is_macos s) (clear_path is_macos) _ t
          (λ _ q.
            claims is_macos s t (clear_path is_macos t) _ k free c q
              (bind_and_record-Binds (clear_path is_macos t).1))
          (λ e q.
            fails_to_clear is_macos s t (clear_path is_macos t).0 (clear_path is_macos t).1 e k free
              c))
      (λ e p. (inl k.removed, λ m h. absurd (ground arith)))
