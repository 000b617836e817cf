-- ===== src/Main.antt =====
-- server/src/main.rs: how the program starts, and the branch of its `select!` that installs an update
-- once the move job has stopped.
pub mod Start
pub mod Update
mod Tests
use dookie.Base.{
  ℕ, String, Bool, true, false, not, ◌&&◌, Option, none, some, List, str_eq, if◌then◌else◌,
}
use dookie.Base.Result.{Result, ok, err}
use dookie.Disk.{FilePath, IoError, Disk}
use dookie.MoveJob.{OutgoingMessage}
use dookie.MoveJob
use dookie.Socket.{SocketError, Os, bind_cli_socket}
use dookie.Socket.Identity.{Metadata}
use dookie.Update.{UpdateError, rollback_incomplete, PreparedUpdate}
use dookie.Update.Install.{Exec, replaced, returned, update_process}
use dookie.Update.Schedule.{retry_after_of}

pub record Opt : Type 0 where
  pub config_path : String
  pub foreground : Bool
  pub check_config : Bool
  pub no_auto_update : Bool

-- What the start comes to: an error, the check of the configuration alone, or the jobs, with the
-- variable `DOOKIE_DAEMONIZED` and whether updates are looked for.
pub data Started : Type 0 where
  failed checked : Started
  running : Option String → Bool → Started

abbrev pub is_daemonized : Option String → Bool
is_daemonized none = false
is_daemonized (some value) = str_eq value "1"

abbrev pub daemonize_or : Bool → Opt → Option String → Bool → Started
daemonize_or true opt env daemonizes =
    if daemonizes then running (some "1") (not opt.no_auto_update) else failed
daemonize_or false opt env daemonizes = running env (not opt.no_auto_update)

-- `read` is the configuration's bytes, `parses` the reading of them by serde, `daemonizes` whether
-- `daemon` succeeds.
unfoldable pub start_up : Opt → Option (List ℕ) → (List ℕ → Bool) → Option String → Bool → Started
start_up opt none parses env daemonizes = failed
start_up opt (some bytes) parses env daemonizes =
    if parses bytes
    then (if opt.check_config
        then checked
        else daemonize_or (not opt.foreground && not (is_daemonized env)) opt env daemonizes)
    else failed

-- What the program comes to: as before, or the socket is refused, or the jobs run with the socket.
pub data Ran : Type 0 where
  ended : Started → Ran
  refused : SocketError → Ran
  jobs : Metadata → Option String → Bool → Ran

abbrev pub claimed : Option String → Bool → Result SocketError Metadata × Os → Ran × Os
claimed env updates (ok socket, s) = (jobs socket env updates, s)
claimed env updates (err e, s) = (refused e, s)

-- `run` reads the same bytes again, and claims the socket before it spawns a job.
abbrev pub run : Bool → Started → Os → Ran × Os
run is_macos failed s = (ended failed, s)
run is_macos checked s = (ended checked, s)
run is_macos (running env updates) s = claimed env updates (bind_cli_socket is_macos s)

unfoldable pub main :
    Bool → Opt → Option (List ℕ) → (List ℕ → Bool) → Option String → Bool → Os → Ran × Os
main is_macos opt read parses env daemonizes s =
    run is_macos (start_up opt read parses env daemonizes) s

-- How the branch ends. `restarting` tries the program at its installed path again, with the time
-- after which it may look for updates.
pub data Ended : Type 0 where
  channel_closed did_not_stop : Ended
  executed : FilePath → Ended
  mismatched : List (FilePath × IoError) → Ended
  restarting : ℕ → Ended

-- Never start a potentially mismatched server/client installation.
abbrev pub after_update : ℕ → Exec → Ended
after_update now (replaced path) = executed path
after_update now (returned (rollback_incomplete left)) = mismatched left
after_update now (returned _) = restarting (retry_after_of now)

-- The branch from the answer to its `Stop` on; none is a channel that was closed.
unfoldable pub update_branch :
    PreparedUpdate → List String → Option OutgoingMessage → ℕ → Disk → Ended × Disk
update_branch u args none now d = (channel_closed, d)
update_branch u args (some MoveJob.ok) now d =
    let (r, d') = update_process u args d in (after_update now r, d')
update_branch u args (some _) now d = (did_not_stop, d)
