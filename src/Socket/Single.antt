-- ===== src/Socket/Single.antt =====
-- Instances that start and end one after the other: at most one owns the socket.
use mathlib.Core.Option.{some-injective}
use mathlib.Core.Path.{subst}
use dookie.Base.{ℕ, ◌≡◌, ◌≢◌, refl, ◌∙◌, Bool, true, Option, none, some, List, is_some, arith}
use dookie.Base.Result.{Result, ok, err}
use dookie.Socket.{
  Node, regular, SocketError, Os, open_lock, check_lock, try_lock, claim_lock, ◌>>=◌,
  bind_cli_socket,
}
use dookie.Socket.Identity.{Metadata, socket_identity}
use dookie.Socket.Steps.{by_step}
use dookie.Socket.Laws.{claim_lock-Keeps, claim_lock_free}
use dookie.Socket.Claim.{IsClaimed, bind_cli_socket-Claims}

-- What a start meets, besides the path and the lock: `Os` says what the fields are.
pub record Start : Type 0 where
  pub is_macos : Bool
  pub probe : Metadata → Result SocketError (Unit {0})
  pub before_look : Option Node → Option Node
  pub after_bind : Option Node → Option Node
  pub fresh : Metadata
  pub torn : ℕ
  pub fails : ℕ → Bool

-- The instance that runs, by its socket.
pub record System : Type 0 where
  pub os : Os
  pub running : Option Metadata

-- The lock is held exactly while an instance runs, which keeps its file open.
abbrev pub meet : Start → System → Os
meet e s = record s.os {
  is_locked = is_some s.running;
  probe = e.probe;
  before_look = e.before_look;
  after_bind = e.after_bind;
  fresh = e.fresh;
  torn = e.torn;
  fails = e.fails;
  calls = 0;
}

abbrev pub started : Option Metadata → Result SocketError Metadata × Os → System
started running (ok m, os) = record { os = os; running = some m }
started running (err _, os) = record { os = os; running = running }

pub data Step (s : System) : System → Type 0 where
  starts : (e : Start) → Step s (started s.running (bind_cli_socket e.is_macos (meet e s)))
  ends : Step s (record s { running = none })

pub data Reached (os : Os) : System → Type 0 where
  initial : Reached os (record { os = os; running = none })
  after : {s t : System} → Reached os s → Step s t → Reached os t

-- The abstract owner: it is claimed where it is free, kept, or given up.
pub data Owner : Option Metadata → Option Metadata → Type 0 where
  claimed : (m : Metadata) → Owner none (some m)
  kept : (o : Option Metadata) → Owner o o
  released : (o : Option Metadata) → Owner o none

abbrev pub Owns : System → Type 0
Owns s = (m : Metadata) → s.running ≡ some m → IsClaimed m s.os

claim_lock_keeps_record :
    (s : Os) (bytes : List ℕ)
    → s.lock_node ≡ regular bytes
    → (claim_lock s).1.lock_node ≡ regular bytes
unfolding claim_lock open_lock check_lock try_lock ◌>>=◌
claim_lock_keeps_record s bytes h = ground arith

-- A start while the lock is held fails and leaves the socket and its record.
abbrev Refuses : Metadata → Result SocketError Metadata × Os → Type 0
Refuses m x = IsClaimed m x.1 × ((n : Metadata) → x.0 ≢ ok n)

bind_cli_socket-Refuses :
    (is_macos : Bool) (s : Os) (m : Metadata)
    → s.is_locked ≡ true
    → IsClaimed m s
    → Refuses m (bind_cli_socket is_macos s)
unfolding bind_cli_socket
bind_cli_socket-Refuses is_macos s m l c =
    by_step (Refuses m) claim_lock _ s (λ _ p. absurd (ground (arith, claim_lock_free s p)))
      (λ e p. (
        record {
          path = (claim_lock-Keeps s).path ∙ c.path;
          owned = claim_lock_keeps_record s (socket_identity m) c.owned;
        },
        λ n h. absurd (ground arith),
      ))

after_start :
    (running : Option Metadata) (x : Result SocketError Metadata × Os)
    → ((m : Metadata) → running ≡ some m → IsClaimed m x.1 × ((n : Metadata) → x.0 ≢ ok n))
    → ((m : Metadata) → x.0 ≡ ok m → IsClaimed m x.1)
    → Owner running (started running x).running × Owns (started running x)
after_start none (ok m, os) old new =
    (claimed m, λ n h. subst (λ k. IsClaimed k os) (some-injective _ _ h) (new m refl))
after_start (some o) (ok m, os) old new = absurd ((old o refl).1 m refl)
after_start running (err e, os) old new = (kept running, λ n h. (old n h).0)

Step-Owner : {s t : System} → Step s t → Owns s → Owner s.running t.running × Owns t
Step-Owner {s = s} (starts e) o =
    after_start s.running (bind_cli_socket e.is_macos (meet e s))
      (λ m h.
        let held : is_some s.running ≡ true = ground (arith, h) in
        let c = o m h in
        bind_cli_socket-Refuses e.is_macos (meet e s) m held
          (record { path = c.path; owned = c.owned }))
      (λ m h. ((bind_cli_socket-Claims e.is_macos (meet e s)).1 m h).3)
Step-Owner {s = s} ends o = (released s.running, λ n h. absurd (ground arith))

Reached-Owns : {os : Os} {s : System} → Reached os s → Owns s
Reached-Owns initial = λ m h. absurd (ground arith)
Reached-Owns (after r st) = (Step-Owner st (Reached-Owns r)).1

-- Whatever the starts meet: from any state of the path and the lock, each start or end of an
-- instance is a step of the abstract owner, which only a free owner's claim changes to another; and
-- while an instance runs, the path has its socket and the lock has its record.
pub instances_refine-Owner :
    (os : Os) {s t : System} → Reached os s → Step s t → Owner s.running t.running × Owns t
instances_refine-Owner os r st = Step-Owner st (Reached-Owns r)
