-- ===== src/Socket/Reclaim.antt =====
-- Which socket a start removes.
use dookie.Base.{
  ℕ, ◌≡◌, ◌≢◌, refl, sym, ap, ◌∙◌, ◌⊎◌, inl, inr, Bool, true, none, some, List, ◌∷◌, arith,
}
use dookie.Base.Result.{Result, ok, err}
use dookie.Socket.{
  Node, socket, no_socket, SocketError, invalid_input, addr_in_use, already_exists,
  connection_refused, not_found, other, Os, recorded, symlink_metadata, check_stale, check_recorded,
  reclaim, clear_node, clear_path,
}
use dookie.Socket.Steps.{Keeps, Keeps-trans, by_step}
use dookie.Socket.Laws.{check_recorded-Keeps, check_recorded_sound}
use dookie.Socket.Identity.{Metadata, socket_identity}
use dookie.Socket.Removal.{
  KeepsRest, Keeps-rest, KeepsRest-trans, symlink_metadata-Keeps, symlink_metadata_sees,
  check_stale-Keeps, check_stale_refused, not_ok, Removes, remove_same-Removes,
}

-- The socket that was removed had refused the connection; on macOS the lock held its record; and it
-- was still there, by its record, at the second look.
pub record IsReclaimed (is_macos : Bool) (s t : Os) : Type 0 where
  pub stale : Metadata
  pub found : s.path ≡ some (socket stale)
  pub refused : s.probe stale ≡ err connection_refused
  pub owned : is_macos ≡ true → recorded s.lock_node ≡ socket_identity stale
  pub gone : Metadata
  pub seen : s.before_look s.path ≡ some (socket gone)
  pub unchanged : socket_identity gone ≡ socket_identity stale
  pub removed : t.removed ≡ gone ∷ s.removed

-- What a start does with the socket that it finds.
abbrev pub Reclaims : Bool → Os → Result SocketError (Unit {0}) × Os → Type 0
Reclaims is_macos s x =
    (IsReclaimed is_macos s x.1 × (x.1.path ≡ none) × KeepsRest s x.1)
    ⊎ ((x.1.removed ≡ s.removed) × KeepsRest s x.1 × (x.0 ≢ ok tt))

stopped :
    (is_macos : Bool) (s t : Os) (e : SocketError) → Keeps s t → Reclaims is_macos s (err e, t)
stopped is_macos s t e k = inr (k.removed, Keeps-rest k, not_ok e)

removal :
    (is_macos : Bool) (m : Metadata) (s u : Os) (x : Result SocketError (Unit {0}) × Os)
    → s.path ≡ some (socket m)
    → Keeps s u
    → s.probe m ≡ err connection_refused
    → (is_macos ≡ true → recorded s.lock_node ≡ socket_identity m)
    → Removes (socket_identity m) (record u { path = u.before_look u.path }) x
    → Reclaims is_macos s x
removal is_macos m s u x h k refused owned (inl r) = inl (
  record {
    stale = m;
    found = h;
    refused = refused;
    owned = owned;
    gone = r.gone;
    seen =
        ap (λ p. s.before_look p) (sym k.path) ∙ sym (ap (λ f. f u.path) k.before_look) ∙ r.stood;
    unchanged = r.same;
    removed = r.removed ∙ ap (λ (l : List Metadata). r.gone ∷ l) k.removed;
  },
  r.path,
  rests r.rest,
)
  where
    rests : KeepsRest (record u { path = u.before_look u.path }) x.1 → KeepsRest s x.1
    rests q = ground arith
removal is_macos m s u x h k refused owned (inr (l, n)) = inr (l.removed ∙ k.removed, rests l, n)
  where
    rests : Keeps (record u { path = u.before_look u.path }) x.1 → KeepsRest s x.1
    rests q = ground arith

reclaim-Reclaims :
    (is_macos : Bool) (m : Metadata) (s : Os)
    → s.path ≡ some (socket m)
    → Reclaims is_macos s (reclaim is_macos m s)
unfolding reclaim
reclaim-Reclaims is_macos m s h =
    by_step (Reclaims is_macos s) (check_stale m) _ s
      (λ _ p.
        by_step (Reclaims is_macos s) (check_recorded is_macos identity) _ t
          (λ _ p'.
            removal is_macos m s u _ h checked (check_stale_refused m s p)
              (λ b.
                sym (check_stale-Keeps m s).record_kept
                ∙ check_recorded_sound is_macos identity t p' b)
              (remove_same-Removes identity (record u { path = u.before_look u.path })))
          (λ e p'. stopped is_macos s u e checked))
      (λ e p. stopped is_macos s t e (check_stale-Keeps m s))
  where
    identity : List ℕ
    identity = socket_identity m

    t : Os
    t = (check_stale m s).1

    checked : Keeps s (check_recorded is_macos identity t).1
    checked = Keeps-trans (check_stale-Keeps m s) (check_recorded-Keeps is_macos identity t)

    u : Os
    u = (check_recorded is_macos identity t).1

-- What a start does with the path: a socket that it removed, or nothing, and then the path was free
-- if it goes on.
abbrev pub Clears : Bool → Os → Result SocketError (Unit {0}) × Os → Type 0
Clears is_macos s x =
    (IsReclaimed is_macos s x.1 × (x.1.path ≡ none) × KeepsRest s x.1)
    ⊎ ((x.1.removed ≡ s.removed)
        × KeepsRest s x.1
        × (x.0 ≡ ok tt → (s.path ≡ none) × (x.1.path ≡ none)))

pub IsReclaimed-before :
    (is_macos : Bool) (s t u : Os) → Keeps s t → IsReclaimed is_macos t u → IsReclaimed is_macos s u
IsReclaimed-before is_macos s t u k r = record {
  stale = r.stale;
  found = sym k.path ∙ r.found;
  refused = ap (λ f. f r.stale) (sym k.probe) ∙ r.refused;
  owned = λ b. sym k.record_kept ∙ r.owned b;
  gone = r.gone;
  seen = ground (arith, r.seen);
  unchanged = r.unchanged;
  removed = r.removed ∙ ap (λ (l : List Metadata). r.gone ∷ l) k.removed;
}

pub IsReclaimed-after :
    (is_macos : Bool) (s t u : Os)
    → u.removed ≡ t.removed
    → IsReclaimed is_macos s t
    → IsReclaimed is_macos s u
IsReclaimed-after is_macos s t u k r = record {
  stale = r.stale;
  found = r.found;
  refused = r.refused;
  owned = r.owned;
  gone = r.gone;
  seen = r.seen;
  unchanged = r.unchanged;
  removed = k ∙ r.removed;
}

clears :
    (is_macos : Bool) (s t : Os) (x : Result SocketError (Unit {0}) × Os)
    → Keeps s t
    → Reclaims is_macos t x
    → Clears is_macos s x
clears is_macos s t x k (inl (r, p, q)) =
    inl (IsReclaimed-before is_macos s t x.1 k r, p, KeepsRest-trans (Keeps-rest k) q)
clears is_macos s t x k (inr (p, q, n)) =
    inr (p ∙ k.removed, KeepsRest-trans (Keeps-rest k) q, λ e. absurd (n e))

symlink_metadata_free : (s : Os) → (symlink_metadata s).0 ≡ err not_found → s.path ≡ none
unfolding symlink_metadata
symlink_metadata_free s h = ground arith

pub clear_path-Clears : (is_macos : Bool) (s : Os) → Clears is_macos s (clear_path is_macos s)
unfolding clear_path
clear_path-Clears is_macos s = by_node (symlink_metadata s).0 refl
  where
    k : Keeps s (symlink_metadata s).1
    k = symlink_metadata-Keeps s

    refusing : (e : SocketError) → Clears is_macos s (err e, (symlink_metadata s).1)
    refusing e = inr (k.removed, Keeps-rest k, λ h. absurd (not_ok e h))

    by_node :
        (r : Result SocketError Node)
        → (symlink_metadata s).0 ≡ r
        → Clears is_macos s (clear_node is_macos r (symlink_metadata s).1)
    by_node (ok (socket m)) e = clears is_macos s (symlink_metadata s).1 _ k (
        reclaim-Reclaims is_macos m (symlink_metadata s).1
          (k.path ∙ symlink_metadata_sees s (socket m) e))
    by_node (ok no_socket) e = refusing already_exists
    by_node (err not_found) e =
        let free = symlink_metadata_free s e in
        inr (k.removed, Keeps-rest k, λ h. (free, k.path ∙ free))
    by_node (err invalid_input) e = refusing invalid_input
    by_node (err addr_in_use) e = refusing addr_in_use
    by_node (err already_exists) e = refusing already_exists
    by_node (err connection_refused) e = refusing connection_refused
    by_node (err other) e = refusing other
