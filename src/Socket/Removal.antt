-- ===== src/Socket/Removal.antt =====
-- The one call that removes a socket, and what it is known to remove.
use mathlib.Core.Path.{subst}
use dookie.Base.{
  ℕ, ◌≡◌, ◌≢◌, refl, sym, ap, ◌∙◌, ◌⊎◌, inl, inr, none, some, List, ◌∷◌, Bool-cases, arith,
}
use dookie.Base.Result.{Result, ok, err}
use dookie.Socket.{
  Node, socket, no_socket, SocketError, already_exists, connection_refused, Os, ◌>>=◌, ◌>>◌,
  recorded, pure, symlink_metadata, probe_cli_socket, check_stale, check_same, remove_file,
  remove_same,
}
use dookie.Socket.Steps.{Keeps, Keeps-refl, Keeps-trans, by_step}
use dookie.Socket.Identity.{Metadata, socket_identity, same_bytes, same_bytes_iff}

-- What no part of the removal changes.
pub record KeepsRest (s t : Os) : Type 0 where
  pub record_kept : recorded t.lock_node ≡ recorded s.lock_node
  pub is_locked : t.is_locked ≡ s.is_locked
  pub after_bind : t.after_bind ≡ s.after_bind
  pub fresh : t.fresh ≡ s.fresh

pub Keeps-rest : {s t : Os} → Keeps s t → KeepsRest s t
Keeps-rest k = ground arith

pub KeepsRest-trans : {s t u : Os} → KeepsRest s t → KeepsRest t u → KeepsRest s u
KeepsRest-trans a b = ground arith

pub symlink_metadata-Keeps : (s : Os) → Keeps s (symlink_metadata s).1
unfolding symlink_metadata
symlink_metadata-Keeps s = ground arith

pub symlink_metadata_sees : (s : Os) (n : Node) → (symlink_metadata s).0 ≡ ok n → s.path ≡ some n
unfolding symlink_metadata
symlink_metadata_sees s n h = ground arith

pub check_stale-Keeps : (m : Metadata) (s : Os) → Keeps s (check_stale m s).1
unfolding probe_cli_socket
check_stale-Keeps m s = ground arith

pub check_stale_refused :
    (m : Metadata) (s : Os) → (check_stale m s).0 ≡ ok tt → s.probe m ≡ err connection_refused
unfolding probe_cli_socket
check_stale_refused m s h = ground arith

-- The one removal: of a socket that stands there, by the record given.
pub record HasRemoved (identity : List ℕ) (s t : Os) : Type 0 where
  pub gone : Metadata
  pub stood : s.path ≡ some (socket gone)
  pub same : socket_identity gone ≡ identity
  pub removed : t.removed ≡ gone ∷ s.removed
  pub path : t.path ≡ none
  pub rest : KeepsRest s t

remove_file_does :
    (m : Metadata) (s : Os)
    → s.path ≡ some (socket m)
    → HasRemoved (socket_identity m) s (remove_file s).1
      ⊎ (Keeps s (remove_file s).1 × ((remove_file s).0 ≢ ok tt))
unfolding remove_file
remove_file_does m s h = elim (Bool-cases (s.fails s.calls)) [
  | inl f ↦ inr (ground (arith, f), λ e. ground (arith, f))
  | inr f ↦ inl (record {
    gone = m;
    stood = h;
    same = refl;
    removed = ground (arith, f, h);
    path = ground (arith, f, h);
    rest = ground (arith, f, h);
  })
]

pub not_ok : (e : SocketError) → ◌≢◌ {A = Result SocketError (Unit {0})} (err e) (ok tt)
not_ok e h = ground arith

-- Removed, or kept with an error.
abbrev pub Removes : List ℕ → Os → Result SocketError (Unit {0}) × Os → Type 0
Removes identity s x = HasRemoved identity s x.1 ⊎ (Keeps s x.1 × (x.0 ≢ ok tt))

Removes-after :
    (identity : List ℕ) (s t : Os) (x : Result SocketError (Unit {0}) × Os)
    → Keeps s t
    → Removes identity t x
    → Removes identity s x
Removes-after identity s t x k (inl h) = inl (record {
  gone = h.gone;
  stood = sym k.path ∙ h.stood;
  same = h.same;
  removed = h.removed ∙ ap (λ (l : List Metadata). h.gone ∷ l) k.removed;
  path = h.path;
  rest = KeepsRest-trans (Keeps-rest k) h.rest;
})
Removes-after identity s t x k (inr (l, n)) = inr (Keeps-trans k l, n)

checked-Removes :
    (identity : List ℕ) (t : Os) (n : Node)
    → t.path ≡ some n
    → Removes identity t ((pure (check_same identity n) >> remove_file) t)
unfolding ◌>>=◌
checked-Removes identity t (socket m) h =
    elim (Bool-cases (same_bytes (socket_identity m) identity)) [
      | inl b ↦ rw b (
          subst (λ x. Removes x t (remove_file t))
            ((same_bytes_iff (socket_identity m) identity).0 b) (remove_file_does m t h))
      | inr b ↦ rw b (inr (Keeps-refl t, not_ok already_exists))
    ]
checked-Removes identity t no_socket h = inr (Keeps-refl t, not_ok already_exists)

pub remove_same-Removes : (identity : List ℕ) (s : Os) → Removes identity s (remove_same identity s)
unfolding remove_same
remove_same-Removes identity s =
    by_step (Removes identity s) symlink_metadata _ s
      (λ n p. Removes-after identity s (symlink_metadata s).1 _ (symlink_metadata-Keeps s) (
        checked-Removes identity (symlink_metadata s).1 n
          ((symlink_metadata-Keeps s).path ∙ symlink_metadata_sees s n p)))
      (λ e p. inr (symlink_metadata-Keeps s, not_ok e))
