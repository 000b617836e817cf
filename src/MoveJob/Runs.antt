-- ===== src/MoveJob/Runs.antt =====
-- A run of the two tasks in which the second message is a start, and the theorems at it.
use dookie.Base.{◌≡◌, refl, true, false, some, [], ◌∷◌, arith}
use dookie.MoveJob.{
  start, status_request, ok, in_progress, time_until_next_scan, listening, awaiting, scanning,
  waiting, stopped, empty, sent, State, spawn, receive, loop, scanned, take_message, tick, answer,
  desk_receive, step,
}
use dookie.MoveJob.Reached.{Reached, initial, after, is_busy, Matched, ToldStopped}
use dookie.MoveJob.Laws.{
  tasks_agree, busy_answers_in_progress, waiting_message_is_taken, status_tells_time,
}

abbrev scans : State
scans = record {
  desk = listening;
  worker = scanning;
  inbox = [];
  oneshot = empty;
  is_moving = true;
  timer = 0;
  clock = 0;
  log = [];
}

abbrev pub rests : State
rests = record scans { worker = waiting; is_moving = false; clock = 1 }

abbrev asks : State
asks = record rests { desk = awaiting start; inbox = start ∷ [] }

scans_reached : Reached 60 scans
unfolding step spawn
scans_reached = after loop initial refl

pub rests_reached : Reached 60 rests
unfolding step
rests_reached = after tick (after scanned scans_reached refl) refl

asks_reached : Reached 60 asks
unfolding step desk_receive
asks_reached = after (receive start) rests_reached refl

tasks_agree_example :
    (true ≡ is_busy scanning)
    × Matched listening empty scanning []
    × (ToldStopped [] → scanning ≡ stopped)
tasks_agree_example = tasks_agree 60 scans scans_reached

busy_answers_in_progress_example :
    step 60 (receive start) scans ≡ some (answer start (some in_progress) scans)
busy_answers_in_progress_example =
    busy_answers_in_progress 60 scans scans_reached start (λ e. absurd (ground arith)) refl refl

waiting_message_is_taken_example :
    (t : State) × (step 60 take_message asks ≡ some t) × (t.oneshot ≡ sent ok)
waiting_message_is_taken_example = waiting_message_is_taken 60 asks asks_reached start [] refl refl

status_tells_time_example :
    step 60 (receive status_request) rests
    ≡ some (answer status_request (some (time_until_next_scan 59)) rests)
status_tells_time_example =
    status_tells_time 60 rests rests_reached refl refl (ground arith) (ground arith)
