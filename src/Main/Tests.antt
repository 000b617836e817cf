-- ===== src/Main/Tests.antt =====
-- A move job that is told to stop, and the update after it.
use dookie.Base.{ℕ, ◌≡◌, refl, Bool, true, false, some, none, List, [], ◌∷◌}
use dookie.MoveJob.{stop, ok, awaiting, closed, stopped, sent, State}
use dookie.MoveJob.Reached.{Reached}
use dookie.MoveJob.Runs.{rests}
use dookie.Socket.Tests.{clean}
use dookie.Main.{Opt, running, start_up, main}
use dookie.Main.Start.{Needs, jobs_need_socket}

abbrev stopping : State
stopping = record rests { desk = awaiting stop; inbox = stop ∷ [] }

abbrev returning : State
returning = record stopping { inbox = []; worker = stopped; oneshot = sent ok }

abbrev over : State
over = record returning { desk = closed; log = (stop, some ok) ∷ [] }

abbrev opt : Opt
opt = record {
  config_path = "config.yml";
  foreground = false;
  check_config = false;
  no_auto_update = true;
}

abbrev parses : List ℕ → Bool
parses bytes = true

-- The replacement of a daemon does not daemonize again.
stays_daemon : start_up opt (some []) parses (some "1") false ≡ running (some "1") false
unfolding start_up
stays_daemon = refl

jobs_need_socket_example :
    Needs opt (some []) parses clean (main true opt (some []) parses none true clean)
jobs_need_socket_example = jobs_need_socket opt (some []) parses true none true clean
