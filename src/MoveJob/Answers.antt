-- ===== src/MoveJob/Answers.antt =====
-- The desk's answers keep the two tasks matched.
use dookie.Base.{
  ℕ, ◌≡◌, refl, sym, ◌∙◌, ap, ◌≢◌, Bool, true, false, Option, none, some, List, [], ◌∷◌, ◌++◌,
  arith, if◌then◌else◌,
}
use mathlib.Core.Path.{subst}
use mathlib.Core.Option.{some-injective}
use dookie.MoveJob.{
  IncomingMessage, start, status_request, stop, OutgoingMessage, ok, failed, in_progress,
  time_until_next_scan, Desk, listening, awaiting, closed, Worker, looping, scanning, waiting,
  moving, stopped, Oneshot, empty, sent, gone, State, is_alive, answer, forward, desk_receive,
  is_phase,
}
use dookie.MoveJob.Reached.{Matched, ToldStopped, IsValid}

pub rematch :
    (d : Desk) (o : Oneshot) (w v : Worker) (q : List IncomingMessage)
    → is_alive v ≡ is_alive w
    → (w ≡ stopped → v ≡ stopped)
    → Matched d o w q
    → Matched d o v q
rematch listening o w v q a c m = m
rematch closed o w v q a c m = m
rematch (awaiting m) empty w v q a c (e, l, n) = (e, a ∙ l, n)
rematch (awaiting m) (sent r) w v q a c (e, l, n) = (e, l, λ h. c (n h))
rematch (awaiting m) gone w v q a c (e, l) = (e, a ∙ l)

pub told_on :
    (m : IncomingMessage) (r : Option OutgoingMessage)
    (log : List (IncomingMessage × Option OutgoingMessage))
    → ((m ≡ stop) × (r ≡ some ok) → ⊥)
    → ToldStopped ((m, r) ∷ log)
    → ToldStopped log
told_on start r log n h = h
told_on status_request r log n h = h
told_on stop none log n h = h
told_on stop (some ok) log n h = absurd (n (refl, refl))
told_on stop (some failed) log n h = h
told_on stop (some in_progress) log n h = h
told_on stop (some (time_until_next_scan _)) log n h = h

-- An answer other than the end of the job, to a desk that listens on.
pub IsValid-answer :
    (m : IncomingMessage) (r : Option OutgoingMessage) (s : State)
    → ((m ≡ stop) × (r ≡ some ok) → ⊥)
    → IsValid s
    → IsValid (answer m r s)
IsValid-answer m r s n i = record {
  busy = i.busy;
  matched = i.matched;
  told = λ h. i.told (told_on m r s.log n h);
}

pub IsValid-forward :
    (m : IncomingMessage) (s : State)
    → m ≢ status_request
    → s.desk ≡ listening
    → IsValid s
    → IsValid (forward m s)
IsValid-forward m s n d i = by_life (is_alive s.worker) refl
  where
    by_life :
        (b : Bool)
        → is_alive s.worker ≡ b
        → IsValid (
            if b
            then record s { desk = awaiting m; inbox = s.inbox ++ m ∷ []; oneshot = empty }
            else answer m none s)
    by_life true e =
        let q = subst (λ x. Matched x s.oneshot s.worker s.inbox) d i.matched in
        record {
          busy = i.busy;
          matched = (ap (λ (x : List IncomingMessage). x ++ m ∷ []) q, e, n);
          told = i.told;
        }
    by_life false e = IsValid-answer m none s (λ h. absurd (ground arith)) i

pub IsValid-receive :
    (period : ℕ) (m : IncomingMessage) (s : State)
    → s.desk ≡ listening
    → IsValid s
    → IsValid (desk_receive period m s)
unfolding desk_receive
IsValid-receive period start s d i = by_test s.is_moving
  where
    by_test :
        (b : Bool) → IsValid (if b then answer start (some in_progress) s else forward start s)
    by_test true = IsValid-answer start _ s (λ h. absurd (ground arith)) i
    by_test false = IsValid-forward start s (λ h. absurd (ground arith)) d i
IsValid-receive period status_request s d i = by_test _ s.is_moving
  where
    by_test :
        (r : OutgoingMessage) (b : Bool)
        → IsValid (
            if b
            then answer status_request (some in_progress) s
            else answer status_request (some r) s)
    by_test r true = IsValid-answer status_request _ s (λ h. absurd (ground arith)) i
    by_test r false = IsValid-answer status_request _ s (λ h. absurd (ground arith)) i
IsValid-receive period stop s d i = IsValid-forward stop s (λ h. absurd (ground arith)) d i

pub next : {s t : State} → IsValid s → some s ≡ some t → IsValid t
next i h = subst IsValid (some-injective _ _ h) i

pub waiting_on : waiting ≡ stopped → ⊥
waiting_on h = absurd (ground arith)

pub scanning_on : scanning ≡ stopped → ⊥
scanning_on h = absurd (ground arith)

pub cons_on : {m : IncomingMessage} {q : List IncomingMessage} → [] ≡ m ∷ q → ⊥
cons_on h = absurd (ground arith)

-- A message waits only while the desk waits for its answer.
pub sole :
    (d : Desk) (o : Oneshot) (w : Worker) (m : IncomingMessage) (rest : List IncomingMessage)
    → Matched d o w (m ∷ rest)
    → (d ≡ awaiting m) × (rest ≡ [])
sole listening o w m rest h = absurd (ground arith)
sole closed o w m rest h = absurd (ground arith)
sole (awaiting m') empty w m rest h = (ground (arith, h.0), ground (arith, h.0))
sole (awaiting m') (sent r) w m rest h = absurd (cons_on (sym h.0))
sole (awaiting m') gone w m rest h = absurd (cons_on (sym h.0))

pub in_phase_eq :
    (phase w : Worker) (x : Option State) (t : State)
    → (if is_phase phase w then x else none) ≡ some t
    → (w ≡ phase) × (x ≡ some t)
in_phase_eq looping looping x t h = (refl, h)
in_phase_eq scanning scanning x t h = (refl, h)
in_phase_eq waiting waiting x t h = (refl, h)
in_phase_eq moving moving x t h = (refl, h)
in_phase_eq _ _ x t h = absurd (ground arith)
