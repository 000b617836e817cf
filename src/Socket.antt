-- ===== src/Socket.antt =====
-- server/src/listener.rs: `bind_cli_socket`, by which one instance claims the socket of the CLI.
-- What other programs do at the path meanwhile is an argument at the two places where the code looks
-- again; at all others the path is left alone.
pub mod Identity
pub mod Steps
pub mod Laws
pub mod Removal
pub mod Reclaim
pub mod Claim
pub mod Restart
pub mod Single
pub mod Tests
use dookie.Base.{
  ℕ, suc, ◌+◌, String, Bool, true, false, not, ◌&&◌, ◌||◌, Option, none, some, List, [], ◌∷◌, ◌++◌,
  take, length, ◌==◌, if◌then◌else◌,
}
use dookie.Base.Result.{Result, ok, err}
use Identity.{Metadata, socket_identity, same_bytes}

pub data Node : Type 0 where
  socket : Metadata → Node
  no_socket : Node

-- What stands at the path of the lock: nothing, a regular file, something else that opens, something
-- that does not open or that no link may be followed to.
pub data LockNode : Type 0 where
  absent : LockNode
  regular : List ℕ → LockNode
  irregular unopenable : LockNode

-- `io::ErrorKind`, as far as the code tells its values apart.
pub data SocketError : Type 0 where
  invalid_input addr_in_use already_exists connection_refused not_found other : SocketError

pub record Os : Type 0 where
  pub path : Option Node
  pub lock_node : LockNode
  -- Another process holds the lock.
  pub is_locked : Bool
  -- What connecting to a socket gives.
  pub probe : Metadata → Result SocketError (Unit {0})
  -- What others make of the path between the probe and the second look, and after the bind.
  pub before_look : Option Node → Option Node
  pub after_bind : Option Node → Option Node
  -- The socket that the bind makes.
  pub fresh : Metadata
  -- How much of the record a failing write leaves.
  pub torn : ℕ
  pub fails : ℕ → Bool
  pub calls : ℕ
  -- The sockets that were removed, the last first.
  pub removed : List Metadata

abbrev pub Sys : Type 0 → Type 0
Sys A = Os → Result SocketError A × Os

abbrev pub and_then : {A B : Type 0} → (A → Sys B) → Result SocketError A → Sys B
and_then f (ok a) s = f a s
and_then f (err e) s = (err e, s)

infixl 5 ◌>>=◌ ◌>>◌
unfoldable pub ◌>>=◌ : {A B : Type 0} → Sys A → (A → Sys B) → Sys B
◌>>=◌ m f s = and_then f (m s).0 (m s).1

abbrev pub ◌>>◌ : {A B : Type 0} → Sys A → Sys B → Sys B
m >> k = m >>= λ _. k

abbrev pub pure : {A : Type 0} → Result SocketError A → Sys A
pure r s = (r, s)

-- One call: it fails, which leaves what `torn` says, or it acts.
abbrev pub call_or : {A : Type 0} → (Os → Os) → (Os → Result SocketError A × Os) → Sys A
call_or torn act s =
    let s' = record s { calls = s.calls + 1 } in
    if s.fails s.calls then (err other, torn s') else act s'

abbrev pub call : {A : Type 0} → (Os → Result SocketError A × Os) → Sys A
call act = call_or (λ s. s) act

-- `OpenOptions` with `create` and `O_NOFOLLOW`
unfoldable pub open_lock : Sys (Unit {0})
open_lock = call (λ s. elim s.lock_node [
  | absent ↦ (ok tt, record s { lock_node = regular [] })
  | unopenable ↦ (err other, s)
  | _ ↦ (ok tt, s)
])

unfoldable pub check_lock : Sys (Unit {0})
check_lock = call (λ s. elim s.lock_node [ regular _ ↦ (ok tt, s) | _ ↦ (err invalid_input, s) ])

unfoldable pub try_lock : Sys (Unit {0})
try_lock = call (λ s. (if s.is_locked then err addr_in_use else ok tt, s))

unfoldable pub symlink_metadata : Sys Node
symlink_metadata = call (λ s. elim s.path [ none ↦ (err not_found, s) | some n ↦ (ok n, s) ])

unfoldable pub probe_cli_socket : Metadata → Sys (Unit {0})
probe_cli_socket m = call (λ s. (s.probe m, s))

-- The refused connection, by which a socket is known to be stale, is no error.
abbrev pub check_refused : Result SocketError (Unit {0}) → Result SocketError (Unit {0})
check_refused (ok _) = err addr_in_use
check_refused (err connection_refused) = ok tt
check_refused (err e) = err e

abbrev pub check_stale : Metadata → Sys (Unit {0})
check_stale m s = let (r, s') = probe_cli_socket m s in (check_refused r, s')

abbrev pub recorded : LockNode → List ℕ
recorded (regular bytes) = bytes
recorded _ = []

unfoldable pub lock_len : Sys ℕ
lock_len = call (λ s. (ok (length (recorded s.lock_node)), s))

unfoldable pub read_lock : List ℕ → Sys Bool
read_lock identity = call (λ s. (ok (same_bytes (recorded s.lock_node) identity), s))

abbrev pub read_if : Bool → List ℕ → Sys Bool
read_if true identity = read_lock identity
read_if false identity = pure (ok false)

-- The length of the lock file, then its bytes.
unfoldable pub recorded_socket_matches : List ℕ → Sys Bool
recorded_socket_matches identity = do len ← lock_len; read_if (len == length identity) identity

abbrev pub owned : Bool → Result SocketError (Unit {0})
owned true = ok tt
owned false = err addr_in_use

unfoldable pub check_recorded : Bool → List ℕ → Sys (Unit {0})
check_recorded false identity = pure (ok tt)
check_recorded true identity = do matches ← recorded_socket_matches identity; pure (owned matches)

abbrev pub check_same : List ℕ → Node → Result SocketError (Unit {0})
check_same identity (socket m) =
    if same_bytes (socket_identity m) identity then ok tt else err already_exists
check_same identity no_socket = err already_exists

abbrev pub remove_node : Option Node → Os → Result SocketError (Unit {0}) × Os
remove_node none s = (err not_found, s)
remove_node (some (socket m)) s = (ok tt, record s { path = none; removed = m ∷ s.removed })
remove_node (some no_socket) s = (ok tt, record s { path = none })

unfoldable pub remove_file : Sys (Unit {0})
remove_file = call (λ s. remove_node s.path s)

-- The second look, and the removal.
unfoldable pub remove_same : List ℕ → Sys (Unit {0})
remove_same identity = do
  current ← symlink_metadata
  pure (check_same identity current)
  remove_file

-- What others do before it.
abbrev pub look_again : List ℕ → Sys (Unit {0})
look_again identity s = remove_same identity (record s { path = s.before_look s.path })

-- A socket is there already: it is removed if it is stale.
unfoldable pub reclaim : Bool → Metadata → Sys (Unit {0})
reclaim is_macos m = do
  check_stale m
  check_recorded is_macos (socket_identity m)
  look_again (socket_identity m)

abbrev pub clear_node : Bool → Result SocketError Node → Sys (Unit {0})
clear_node is_macos (ok (socket m)) = reclaim is_macos m
clear_node is_macos (ok no_socket) = pure (err already_exists)
clear_node is_macos (err not_found) = pure (ok tt)
clear_node is_macos (err e) = pure (err e)

unfoldable pub clear_path : Bool → Sys (Unit {0})
clear_path is_macos s = let (r, s') = symlink_metadata s in clear_node is_macos r s'

-- `UnixListener::bind`
unfoldable pub bind : Sys (Unit {0})
bind = call (λ s. elim s.path [
  | none ↦ (ok tt, record s { path = s.after_bind (some (socket s.fresh)) })
  | some _ ↦ (err addr_in_use, s)
])

abbrev pub check_bound : Node → Result SocketError Metadata
check_bound (socket m) = ok m
check_bound no_socket = err already_exists

unfoldable pub truncate_lock : Sys (Unit {0})
truncate_lock = call (λ s. (ok tt, record s { lock_node = regular [] }))

unfoldable pub write_lock : List ℕ → Sys (Unit {0})
write_lock identity =
    call_or (λ s. record s { lock_node = regular (take s.torn identity) })
      (λ s. (ok tt, record s { lock_node = regular identity }))

unfoldable pub sync_lock : Sys (Unit {0})
sync_lock = call (λ s. (ok tt, s))

unfoldable pub record_socket : Metadata → Sys Metadata
record_socket m = do truncate_lock; write_lock (socket_identity m); sync_lock; pure (ok m)

-- The socket is made and its record written to the lock.
unfoldable pub bind_and_record : Sys Metadata
bind_and_record = do bind; node ← symlink_metadata; m ← pure (check_bound node); record_socket m

unfoldable pub claim_lock : Sys (Unit {0})
claim_lock = do open_lock; check_lock; try_lock

-- The metadata that was recorded stands for the listener and the lock that are returned.
unfoldable pub bind_cli_socket : Bool → Sys Metadata
bind_cli_socket is_macos = do claim_lock; clear_path is_macos; bind_and_record
