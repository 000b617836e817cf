-- ===== src/MoveJob/Reached.antt =====
-- What holds in every state that the two tasks reach.
use dookie.Base.{ℕ, ◌≡◌, ◌≢◌, Bool, true, false, Option, some, List, [], ◌∷◌}
use dookie.MoveJob.{
  IncomingMessage, status_request, stop, OutgoingMessage, ok, Desk, listening, awaiting, closed,
  Worker, scanning, moving, stopped, crashed, Oneshot, empty, sent, gone, State, spawn, Event,
  is_alive, step,
}

pub data Reached (period : ℕ) : State → Type 0 where
  initial : Reached period spawn
  after : {s t : State} (e : Event) → Reached period s → step period e s ≡ some t → Reached period t

abbrev pub is_busy : Worker → Bool
is_busy scanning = true
is_busy moving = true
is_busy crashed = true
is_busy _ = false

-- How the desk, the channels and the worker fit together.
abbrev pub Matched : Desk → Oneshot → Worker → List IncomingMessage → Type 0
Matched listening o w q = q ≡ []
Matched closed o w q = q ≡ []
Matched (awaiting m) empty w q = (q ≡ m ∷ []) × (is_alive w ≡ true) × (m ≢ status_request)
Matched (awaiting m) (sent r) w q = (q ≡ []) × (r ≡ ok) × (m ≡ stop → w ≡ stopped)
Matched (awaiting m) gone w q = (q ≡ []) × (is_alive w ≡ false)

-- A client that was told that the job has stopped.
abbrev pub ToldStopped : List (IncomingMessage × Option OutgoingMessage) → Type 0
ToldStopped [] = ⊥
ToldStopped ((stop, some ok) ∷ _) = Unit
ToldStopped (_ ∷ log) = ToldStopped log

pub record IsValid (s : State) : Type 0 where
  pub busy : s.is_moving ≡ is_busy s.worker
  pub matched : Matched s.desk s.oneshot s.worker s.inbox
  pub told : ToldStopped s.log → s.worker ≡ stopped
