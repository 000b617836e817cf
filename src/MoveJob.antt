-- ===== src/MoveJob.antt =====
-- server/src/lib.rs, module `move_job`: the moving of directories to the cold storage. Its two
-- tasks, the front desk and the worker, run step by step; a client's message, the timer, the end of
-- a scan and of a batch are events. Time is counted in whole seconds.
pub mod MoveDir
pub mod Reached
pub mod Answers
pub mod Steps
pub mod Laws
mod Tests
pub mod Runs
pub mod Scan
use dookie.Base.{
  ℕ, ◌+◌, ◌-◌, ◌*◌, ◌%◌, ◌^◌, Bool, true, false, Option, none, some, List, [], ◌∷◌, ◌++◌, map, ltb,
  leb, if◌then◌else◌,
}
use dookie.Disk.{FilePath}

pub data IncomingMessage : Type 0 where
  start status_request stop : IncomingMessage

pub data OutgoingMessage : Type 0 where
  time_until_next_scan : ℕ → OutgoingMessage
  in_progress ok failed : OutgoingMessage

-- The generated messages, with the numbers of their enumerations as they are sent.
pub data MoveJobStatus : Type 0 where
  idle running success error : MoveJobStatus

abbrev pub status_number : MoveJobStatus → ℕ
status_number idle = 0
status_number running = 1
status_number success = 2
status_number error = 3

pub record MoveJobResponse : Type 0 where
  pub status : Option ℕ
  pub time_to_next_run : Option ℕ

pub data Data : Type 0 where
  move_job_request : ℕ → Data
  move_job_response : MoveJobResponse → Data
  other_data : Data

pub record Envelope : Type 0 where
  pub data_type : ℕ
  pub data_of : Option Data

abbrev pub respond : MoveJobStatus → Option ℕ → Envelope
respond status time = record {
  data_type = 1;
  data_of = some (
      move_job_response (record { status = some (status_number status); time_to_next_run = time }));
}

-- `impl Into<Envelope> for OutgoingMessage`
unfoldable pub into_envelope : OutgoingMessage → Envelope
into_envelope (time_until_next_scan time) = respond idle (some time)
into_envelope in_progress = respond running none
into_envelope ok = respond success none
into_envelope failed = respond error none

pub data Desk : Type 0 where
  listening : Desk
  awaiting : IncomingMessage → Desk
  closed : Desk

-- The worker: before `is_moving` is set, in the first part of the loop, in `select!`, in the batch
-- of an explicit start, returned, returned with an error.
pub data Worker : Type 0 where
  looping scanning waiting moving stopped crashed : Worker

-- The channel on which the worker answers the desk; `gone` when its sender is dropped.
pub data Oneshot : Type 0 where
  empty : Oneshot
  sent : OutgoingMessage → Oneshot
  gone : Oneshot

pub record State : Type 0 where
  pub desk : Desk
  pub worker : Worker
  pub inbox : List IncomingMessage
  pub oneshot : Oneshot
  pub is_moving : Bool
  pub timer : ℕ
  pub clock : ℕ
  -- What the clients were answered, the last first; none where their sender was dropped.
  pub log : List (IncomingMessage × Option OutgoingMessage)

unfoldable pub spawn : State
spawn = record {
  desk = listening;
  worker = looping;
  inbox = [];
  oneshot = empty;
  is_moving = false;
  timer = 0;
  clock = 0;
  log = [];
}

pub data Event : Type 0 where
  receive : IncomingMessage → Event
  hang_up resume loop scanned scan_failed sleep_over take_message moved tick : Event

-- The worker's end of the channel is open.
abbrev pub is_alive : Worker → Bool
is_alive stopped = false
is_alive crashed = false
is_alive _ = true

abbrev pub answer : IncomingMessage → Option OutgoingMessage → State → State
answer message reply s = record s { log = (message, reply) ∷ s.log }

-- `move_sender.send`, then waiting on the oneshot; without a receiver nothing is answered.
abbrev pub forward : IncomingMessage → State → State
forward message s =
    if is_alive s.worker
    then record s { desk = awaiting message; inbox = s.inbox ++ message ∷ []; oneshot = empty }
    else answer message none s

-- `move_job_period - elapsed`, a difference of `u64`s as a release build computes it
unfoldable pub until_next : ℕ → ℕ → ℕ
until_next period elapsed = (period + 2 ^ 64 - elapsed) % 2 ^ 64

unfoldable pub desk_receive : ℕ → IncomingMessage → State → State
desk_receive period start s =
    if s.is_moving then answer start (some in_progress) s else forward start s
desk_receive period status_request s =
    if s.is_moving
    then answer status_request (some in_progress) s
    else answer status_request (some (time_until_next_scan (until_next period (s.clock - s.timer))))
        s
desk_receive period stop s = forward stop s

-- The desk after its `await` on the oneshot.
unfoldable pub desk_resume : IncomingMessage → Oneshot → State → Option State
desk_resume message empty s = none
desk_resume stop (sent ok) s = some (answer stop (some ok) (record s { desk = closed }))
desk_resume stop _ s = some (answer stop (some failed) (record s { desk = listening }))
desk_resume message (sent reply) s =
    some (answer message (some reply) (record s { desk = listening }))
desk_resume message gone s = some (answer message none (record s { desk = closed }))

-- The worker ends: what waits in its channel is dropped, with the senders in it.
abbrev pub drop_inbox : State → State
drop_inbox s = elim s.inbox [ [] ↦ s | _ ∷ _ ↦ record s { inbox = []; oneshot = gone } ]

-- The arms of `select!` on a received message; none is the `unreachable!`.
unfoldable pub worker_take : IncomingMessage → List IncomingMessage → State → Option State
worker_take start rest s =
    some (record s { worker = moving; inbox = rest; is_moving = true; oneshot = sent ok })
worker_take stop rest s =
    some (drop_inbox (record s { worker = stopped; inbox = rest; oneshot = sent ok }))
worker_take status_request rest s = none

-- `move_receiver.recv()`, which returns none when the channel is empty and the desk has left.
unfoldable pub worker_receive : List IncomingMessage → State → Option State
worker_receive (message ∷ rest) s = worker_take message rest s
worker_receive [] s = elim s.desk [ closed ↦ some (record s { worker = looping }) | _ ↦ none ]

abbrev pub is_phase : Worker → Worker → Bool
is_phase looping looping = true
is_phase scanning scanning = true
is_phase waiting waiting = true
is_phase moving moving = true
is_phase _ _ = false

-- What the worker does next in one phase of its loop.
abbrev pub in_phase : Worker → State → Option State → Option State
in_phase phase s next = if is_phase phase s.worker then next else none

-- What an event does where it can happen.
unfoldable pub step : ℕ → Event → State → Option State
step period (receive message) s = elim s.desk [
  | listening ↦ some (desk_receive period message s)
  | _ ↦ none
]
step period hang_up s = elim s.desk [ listening ↦ some (record s { desk = closed }) | _ ↦ none ]
step period resume s = elim s.desk [ awaiting message ↦ desk_resume message s.oneshot s | _ ↦ none ]
step period loop s = in_phase looping s (some (record s { worker = scanning; is_moving = true }))
step period scanned s =
    in_phase scanning s (some (record s { worker = waiting; is_moving = false; timer = s.clock }))
step period scan_failed s = in_phase scanning s (some (drop_inbox (record s { worker = crashed })))
step period sleep_over s = in_phase waiting s (some (record s { worker = looping }))
step period take_message s = in_phase waiting s (worker_receive s.inbox s)
step period moved s = in_phase moving s (some (record s { worker = looping; is_moving = false }))
step period tick s = some (record s { clock = s.clock + 1 })

-- The calls of `move_dir` that one scan makes: everything where less than 5 % of the disk is free
-- (a ratio of reals; the program's is of `f64`s), else each entry that is old enough.
pub record Move : Type 0 where
  pub is_mass_move : Bool
  pub src : FilePath
  pub dst : FilePath

unfoldable pub scan_moves :
    ℕ → ℕ → List (FilePath × FilePath) → List (FilePath × FilePath) → List Move
scan_moves available total move_map old_list =
    if ltb (available * 100) (5 * total)
    then map (λ m. record { is_mass_move = true; src = m.0; dst = m.1 }) move_map
    else map (λ m. record { is_mass_move = false; src = m.0; dst = m.1 }) old_list
