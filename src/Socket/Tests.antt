-- ===== src/Socket/Tests.antt =====
-- A start on an empty system, one over a stale socket, and one beside a running instance.
use dookie.Base.{◌≡◌, refl, true, false, none, some, [], ◌∷◌}
use dookie.Base.Result.{Result, ok, err}
use dookie.Socket.{
  socket, absent, regular, SocketError, connection_refused, Os, ◌>>=◌, open_lock, check_lock,
  try_lock, claim_lock, symlink_metadata, probe_cli_socket, clear_path, reclaim, check_recorded,
  recorded_socket_matches, lock_len, read_lock, remove_same, remove_file, bind, bind_and_record,
  record_socket, truncate_lock, write_lock, sync_lock, bind_cli_socket,
}
use dookie.Socket.Identity.{Metadata, socket_identity}
use dookie.Socket.Claim.{Claims, bind_cli_socket-Claims}
use dookie.Socket.Restart.{after_crash, bind_cli_socket_restarts}
use dookie.Socket.Single.{
  Start, System, started, meet, starts, initial, Owner, Owns, instances_refine-Owner,
}

abbrev first : Metadata
first = record { dev = 1; ino = 7; ctime = 1700000000; ctime_nsec = 5 }

abbrev second : Metadata
second = record { dev = 1; ino = 7; ctime = 1700000009; ctime_nsec = 6 }

abbrev refuse : Metadata → Result SocketError (Unit {0})
refuse m = err connection_refused

abbrev pub clean : Os
clean = record {
  path = none;
  lock_node = absent;
  is_locked = false;
  probe = refuse;
  before_look = λ p. p;
  after_bind = λ p. p;
  fresh = first;
  torn = 3;
  fails = λ n. false;
  calls = 0;
  removed = [];
}

abbrev stale : Os
stale = record clean {
  path = some (socket first);
  lock_node = regular (socket_identity first);
  fresh = second;
}

first_start : (bind_cli_socket true clean).0 ≡ ok first
unfolding bind_cli_socket claim_lock open_lock check_lock try_lock clear_path symlink_metadata
    bind_and_record bind record_socket truncate_lock write_lock sync_lock ◌>>=◌
first_start = refl

stale_removed : (bind_cli_socket true stale).1.removed ≡ first ∷ []
unfolding bind_cli_socket claim_lock open_lock check_lock try_lock clear_path symlink_metadata
    reclaim probe_cli_socket check_recorded recorded_socket_matches lock_len read_lock remove_same
    remove_file bind_and_record bind record_socket truncate_lock write_lock sync_lock
    socket_identity ◌>>=◌
stale_removed = refl

bind_cli_socket-Claims_example : Claims true stale (bind_cli_socket true stale)
bind_cli_socket-Claims_example = bind_cli_socket-Claims true stale

bind_cli_socket_restarts_example :
    (bind_cli_socket true (after_crash refuse second (bind_cli_socket true clean).1)).0 ≡ ok second
bind_cli_socket_restarts_example =
    bind_cli_socket_restarts true clean first second refuse first_start refl

abbrev plain : Start
plain = record {
  is_macos = true;
  probe = refuse;
  before_look = λ p. p;
  after_bind = λ p. p;
  fresh = first;
  torn = 3;
  fails = λ n. false;
}

abbrev idle : System
idle = record { os = clean; running = none }

instances_refine-Owner_example :
    Owner none (started none (bind_cli_socket true (meet plain idle))).running
    × Owns (started none (bind_cli_socket true (meet plain idle)))
instances_refine-Owner_example = instances_refine-Owner clean initial (starts plain)
