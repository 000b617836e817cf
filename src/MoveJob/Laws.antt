-- ===== src/MoveJob/Laws.antt =====
-- What a client of the move job may rely on.
use dookie.Base.{
  ℕ, ◌<◌, ◌≤◌, ◌-◌, ◌^◌, ◌≡◌, refl, sym, ◌∙◌, ◌≢◌, true, false, none, some, List, [], ◌∷◌, arith,
}
use mathlib.Core.Path.{subst}
use dookie.MoveJob.{
  IncomingMessage, start, status_request, stop, ok, in_progress, time_until_next_scan, Desk,
  listening, awaiting, closed, Worker, waiting, moving, stopped, Oneshot, empty, sent, gone, State,
  receive, take_message, answer, desk_receive, worker_take, worker_receive, step,
}
use dookie.MoveJob.Reached.{Reached, initial, after, is_busy, Matched, ToldStopped, IsValid}
use dookie.MoveJob.{until_next}
use dookie.MoveJob.Answers.{sole, cons_on}
use dookie.MoveJob.Steps.{IsValid-step, IsValid-spawn}

reached-IsValid : (period : ℕ) (s : State) → Reached period s → IsValid s
reached-IsValid period _ initial = IsValid-spawn
reached-IsValid period t (after {s = s} e r h) =
    IsValid-step s (reached-IsValid period s r) period e t h

until_next_lem :
    (period elapsed : ℕ)
    → elapsed ≤ period
    → period < 2 ^ 64
    → until_next period elapsed ≡ period - elapsed
unfolding until_next
until_next_lem period elapsed l p = omega arith

taken :
    (s : State) (m : IncomingMessage) (rest : List IncomingMessage)
    → m ≢ status_request
    → rest ≡ []
    → (t : State) × (worker_take m rest s ≡ some t) × (t.oneshot ≡ sent ok)
unfolding worker_take
taken s start rest n e =
    (record s { worker = moving; inbox = rest; is_moving = true; oneshot = sent ok }, refl, refl)
taken s stop [] n e = (record s { worker = stopped; inbox = []; oneshot = sent ok }, refl, refl)
taken s stop (_ ∷ _) n e = absurd (ground arith)
taken s status_request rest n e = absurd (n refl)

asked :
    (d : Desk) (o : Oneshot) (w : Worker) (m : IncomingMessage) (rest : List IncomingMessage)
    → Matched d o w (m ∷ rest)
    → m ≢ status_request
asked listening o w m rest h = absurd (cons_on (sym h))
asked closed o w m rest h = absurd (cons_on (sym h))
asked (awaiting m') empty w m rest h = λ e. h.2 (ground (arith, h.0))
asked (awaiting m') (sent r) w m rest h = absurd (cons_on (sym h.0))
asked (awaiting m') gone w m rest h = absurd (cons_on (sym h.0))

module _ (period : ℕ) (s : State) (r : Reached period s) where
  -- In every reached state the flag `is_moving` is set exactly while the worker scans, moves, or has
  -- ended with an error; a message waits for the worker only while the desk waits for its answer;
  -- and a client was told `Ok` to a `Stop` only if the worker has returned.
  pub tasks_agree :
      (s.is_moving ≡ is_busy s.worker)
      × Matched s.desk s.oneshot s.worker s.inbox
      × (ToldStopped s.log → s.worker ≡ stopped)
  tasks_agree = let i = reached-IsValid period s r in (i.busy, i.matched, i.told)

  -- In every reached state in which the desk listens while the worker is busy or has ended with an
  -- error, a `Start` and a `StatusRequest` are answered `InProgress`, and nothing else changes.
  pub busy_answers_in_progress :
      (m : IncomingMessage)
      → m ≢ stop
      → s.desk ≡ listening
      → is_busy s.worker ≡ true
      → step period (receive m) s ≡ some (answer m (some in_progress) s)
  unfolding step desk_receive
  busy_answers_in_progress m n d b =
      let moving_on = (reached-IsValid period s r).busy ∙ b in by_message m n moving_on
    where
      by_message :
          (m : IncomingMessage)
          → m ≢ stop
          → s.is_moving ≡ true
          → elim s.desk [ listening ↦ some (desk_receive period m s) | _ ↦ none ]
            ≡ some (answer m (some in_progress) s)
      by_message start n f = ground arith
      by_message status_request n f = ground arith
      by_message stop n f = absurd (n refl)

  -- In every reached state in which the worker is at its `select!` with a message waiting, the
  -- message is taken: it is never the one that the code holds to be unreachable, and the sender is
  -- answered `Ok`.
  pub waiting_message_is_taken :
      (m : IncomingMessage) (rest : List IncomingMessage)
      → s.worker ≡ waiting
      → s.inbox ≡ m ∷ rest
      → (t : State) × (step period take_message s ≡ some t) × (t.oneshot ≡ sent ok)
  unfolding step worker_receive
  waiting_message_is_taken m rest w q =
      let k =
        subst (λ x. Matched s.desk s.oneshot s.worker x) q (reached-IsValid period s r).matched in
      let (e, f) = sole s.desk s.oneshot s.worker m rest k in
      let (t, g, o) = taken s m rest (asked s.desk s.oneshot s.worker m rest k) f in
      (t, ground arith, o)

  -- In every reached state in which the desk listens and the worker is not busy, a `StatusRequest`
  -- is answered with the seconds that the period leaves, if they have not run out and the period
  -- fits 64 bits.
  pub status_tells_time :
      s.desk ≡ listening
      → is_busy s.worker ≡ false
      → period < 2 ^ 64
      → s.clock - s.timer ≤ period
      → step period (receive status_request) s
        ≡ some
            (answer status_request (some (time_until_next_scan (period - (s.clock - s.timer)))) s)
  unfolding step desk_receive
  status_tells_time d b p l =
      let f = (reached-IsValid period s r).busy ∙ b in
      let u = until_next_lem period (s.clock - s.timer) l p in ground arith
