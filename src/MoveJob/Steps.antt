-- ===== src/MoveJob/Steps.antt =====
-- Every step of the two tasks keeps them matched.
use dookie.Base.{ℕ, ◌≡◌, refl, sym, ◌∙◌, ap, ◌≢◌, true, false, none, some, List, [], ◌∷◌, arith}
use mathlib.Core.Path.{subst}
use dookie.MoveJob.{
  IncomingMessage, start, status_request, stop, ok, failed, in_progress, time_until_next_scan, Desk,
  listening, awaiting, closed, Worker, looping, scanning, waiting, moving, stopped, crashed,
  Oneshot, empty, sent, gone, State, spawn, Event, receive, hang_up, resume, loop, scanned,
  scan_failed, sleep_over, take_message, moved, tick, is_alive, desk_receive, desk_resume,
  drop_inbox, worker_take, worker_receive, step,
}
use dookie.MoveJob.Reached.{is_busy, Matched, IsValid}
use dookie.MoveJob.Answers.{
  rematch, IsValid-receive, next, waiting_on, scanning_on, cons_on, sole, in_phase_eq,
}

module _ (s : State) (i : IsValid s) where
  -- The worker goes on, with no change to the desk and the channels.
  IsValid-worker :
      (w v : Worker) (time : ℕ)
      → s.worker ≡ w
      → is_alive v ≡ is_alive w
      → w ≢ stopped
      → IsValid (record s { worker = v; is_moving = is_busy v; timer = time })
  IsValid-worker w v time e a n = record {
    busy = refl;
    matched =
        rematch s.desk s.oneshot w v s.inbox a (λ h. absurd (n h))
          (subst (λ x. Matched s.desk s.oneshot x s.inbox) e i.matched);
    told = λ h. absurd (n (sym e ∙ i.told h));
  }

  IsValid-drop :
      (w v : Worker)
      → s.worker ≡ w
      → is_alive v ≡ false
      → w ≢ stopped
      → IsValid (record s { worker = v; is_moving = is_busy v; inbox = []; oneshot = gone })
  IsValid-drop w v e a n = record {
    busy = refl;
    matched = by_desk s.desk;
    told = λ h. absurd (n (sym e ∙ i.told h));
  }
    where
      by_desk : (d : Desk) → Matched d gone v []
      by_desk listening = refl
      by_desk closed = refl
      by_desk (awaiting m) = (refl, a)

  IsValid-resume :
      (m : IncomingMessage) (o : Oneshot) (t : State)
      → Matched (awaiting m) o s.worker s.inbox
      → desk_resume m o s ≡ some t
      → IsValid t
  unfolding desk_resume
  IsValid-resume m empty t k h = absurd (ground arith)
  IsValid-resume stop (sent ok) t (q, e, w) h =
      next (record { busy = i.busy; matched = q; told = λ x. w refl }) h
  IsValid-resume stop (sent in_progress) t (q, e, w) h = absurd (ground arith)
  IsValid-resume stop (sent failed) t (q, e, w) h = absurd (ground arith)
  IsValid-resume stop (sent (time_until_next_scan n)) t (q, e, w) h = absurd (ground arith)
  IsValid-resume stop gone t (q, a) h =
      next (record { busy = i.busy; matched = q; told = λ x. i.told x }) h
  IsValid-resume start (sent r) t (q, e, w) h =
      next (record { busy = i.busy; matched = q; told = λ x. i.told x }) h
  IsValid-resume start gone t (q, a) h =
      next (record { busy = i.busy; matched = q; told = λ x. i.told x }) h
  IsValid-resume status_request (sent r) t (q, e, w) h =
      next (record { busy = i.busy; matched = q; told = λ x. i.told x }) h
  IsValid-resume status_request gone t (q, a) h =
      next (record { busy = i.busy; matched = q; told = λ x. i.told x }) h

  IsValid-awake : s.worker ≡ waiting → IsValid (record s { worker = looping })
  IsValid-awake e = record {
    busy = i.busy ∙ ap is_busy e;
    matched =
        rematch s.desk s.oneshot waiting looping s.inbox refl (λ h. absurd (ground arith))
          (subst (λ x. Matched s.desk s.oneshot x s.inbox) e i.matched);
    told = λ h. absurd (waiting_on (sym e ∙ i.told h));
  }

  IsValid-crash : s.worker ≡ scanning → IsValid (drop_inbox (record s { worker = crashed }))
  IsValid-crash e = by_inbox s.inbox refl
    where
      moving_on : s.is_moving ≡ true
      moving_on = i.busy ∙ ap is_busy e

      by_inbox :
          (q : List IncomingMessage)
          → s.inbox ≡ q
          → IsValid (elim q [
            | [] ↦ record s { worker = crashed }
            | _ ∷ _ ↦ record s { worker = crashed; inbox = []; oneshot = gone }
          ])
      by_inbox (m ∷ q) f =
          let v = IsValid-drop scanning crashed e refl (λ x. absurd (ground arith)) in
          record { busy = moving_on; matched = v.matched; told = v.told }
      by_inbox [] f = record {
        busy = moving_on;
        matched =
            by_desk s.desk s.oneshot (subst (λ x. Matched s.desk s.oneshot x s.inbox) e i.matched);
        told = λ h. absurd (scanning_on (sym e ∙ i.told h));
      }
        where
          by_desk :
              (d : Desk) (o : Oneshot) → Matched d o scanning s.inbox → Matched d o crashed s.inbox
          by_desk listening o k = k
          by_desk closed o k = k
          by_desk (awaiting m) empty (q, a, n) = absurd (cons_on (sym f ∙ q))
          by_desk (awaiting m) (sent r) (q, a, n) = (q, a, λ h. absurd (scanning_on (n h)))
          by_desk (awaiting m) gone (q, a) = (q, refl)

  IsValid-take :
      (q : List IncomingMessage) (t : State)
      → s.worker ≡ waiting
      → s.inbox ≡ q
      → worker_receive q s ≡ some t
      → IsValid t
  unfolding worker_receive worker_take
  IsValid-take (m ∷ rest) t e f h = taken m rest t e f h (
      sole s.desk s.oneshot waiting m rest (
        subst (λ x. Matched s.desk s.oneshot x (m ∷ rest)) e
          (subst (λ x. Matched s.desk s.oneshot s.worker x) f i.matched)))
    where
      taken :
          (m : IncomingMessage) (rest : List IncomingMessage) (t : State)
          → s.worker ≡ waiting
          → s.inbox ≡ m ∷ rest
          → worker_take m rest s ≡ some t
          → (s.desk ≡ awaiting m) × (rest ≡ [])
          → IsValid t
      taken start rest t e f h (d, r) =
          next
            (record {
              busy = refl;
              matched =
                  subst (λ x. Matched x (sent ok) moving rest) (sym d)
                    (r, refl, λ x. absurd (ground arith));
              told = λ x. absurd (waiting_on (sym e ∙ i.told x));
            })
            h
      taken stop [] t e f h (d, r) =
          next
            (record {
              busy = i.busy ∙ ap is_busy e;
              matched = subst (λ x. Matched x (sent ok) stopped []) (sym d) (refl, refl, λ x. refl);
              told = λ x. refl;
            })
            h
      taken stop (_ ∷ _) t e f h (d, r) = absurd (cons_on (sym r))
      taken status_request rest t e f h (d, r) = absurd (ground arith)
  IsValid-take [] t e f h = by_desk s.desk h
    where
      by_desk :
          (d : Desk)
          → elim d [ closed ↦ some (record s { worker = looping }) | _ ↦ none ] ≡ some t
          → IsValid t
      by_desk closed h = next (IsValid-awake e) h
      by_desk listening h = absurd (ground arith)
      by_desk (awaiting _) h = absurd (ground arith)

  pub IsValid-step : (period : ℕ) (e : Event) (t : State) → step period e s ≡ some t → IsValid t
  unfolding step
  IsValid-step period (receive m) t h = by_desk s.desk refl h
    where
      by_desk :
          (d : Desk)
          → s.desk ≡ d
          → elim d [ listening ↦ some (desk_receive period m s) | _ ↦ none ] ≡ some t
          → IsValid t
      by_desk listening e h = next (IsValid-receive period m s e i) h
      by_desk closed e h = absurd (ground arith)
      by_desk (awaiting _) e h = absurd (ground arith)
  IsValid-step period hang_up t h = by_desk s.desk refl h
    where
      by_desk :
          (d : Desk)
          → s.desk ≡ d
          → elim d [ listening ↦ some (record s { desk = closed }) | _ ↦ none ] ≡ some t
          → IsValid t
      by_desk listening e h =
          let q = subst (λ x. Matched x s.oneshot s.worker s.inbox) e i.matched in
          next (record { busy = i.busy; matched = q; told = i.told }) h
      by_desk closed e h = absurd (ground arith)
      by_desk (awaiting _) e h = absurd (ground arith)
  IsValid-step period resume t h = by_desk s.desk refl h
    where
      by_desk :
          (d : Desk)
          → s.desk ≡ d
          → elim d [ awaiting m ↦ desk_resume m s.oneshot s | _ ↦ none ] ≡ some t
          → IsValid t
      by_desk (awaiting m) e h =
          IsValid-resume m s.oneshot t
            (subst (λ x. Matched x s.oneshot s.worker s.inbox) e i.matched) h
      by_desk closed e h = absurd (ground arith)
      by_desk listening e h = absurd (ground arith)
  IsValid-step period tick t h =
      next (record { busy = i.busy; matched = i.matched; told = i.told }) h
  IsValid-step period loop t h =
      let (e, k) = in_phase_eq looping s.worker _ t h in
      next (IsValid-worker looping scanning _ e refl (λ x. absurd (ground arith))) k
  IsValid-step period scanned t h =
      let (e, k) = in_phase_eq scanning s.worker _ t h in
      next (IsValid-worker scanning waiting _ e refl (λ x. absurd (ground arith))) k
  IsValid-step period scan_failed t h =
      let (e, k) = in_phase_eq scanning s.worker _ t h in next (IsValid-crash e) k
  IsValid-step period sleep_over t h =
      let (e, k) = in_phase_eq waiting s.worker _ t h in next (IsValid-awake e) k
  IsValid-step period moved t h =
      let (e, k) = in_phase_eq moving s.worker _ t h in
      next (IsValid-worker moving looping _ e refl (λ x. absurd (ground arith))) k
  IsValid-step period take_message t h =
      let (e, k) = in_phase_eq waiting s.worker _ t h in IsValid-take s.inbox t e refl k

pub IsValid-spawn : IsValid spawn
unfolding spawn
IsValid-spawn = record { busy = refl; matched = refl; told = λ h. absurd h }
