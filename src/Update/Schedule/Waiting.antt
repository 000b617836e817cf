-- ===== src/Update/Schedule/Waiting.antt =====
-- What the rounds of the wait for an update come to.
use mathlib.Core.Path.{subst}
use mathlib.Core.Option.{some-injective}
use dookie.Base.{
  ℕ, zero, suc, ◌+◌, ◌*◌, ◌≤◌, ◌≡◌, refl, sym, ap, ◌∙◌, ◌≢◌, inl, inr, String, Bool, true, false,
  Option, none, some, List, Option-cases, arith,
}
use dookie.Disk.{FilePath, Disk}
use dookie.Update.{Version, PreparedUpdate, Semver}
use dookie.Update.Archive.{Codec}
use dookie.Update.Schedule.{
  day, World, retry_after_of, retry_delay, attempt, attempts, wait_for_update,
}
use dookie.Update.Schedule.Laws.{IsTaken, attempt_taken}

module _ (sv : Semver) (codec : Codec) (install_dir : FilePath) (current : Version)
    (args : List String) (world : ℕ → World) where
  round_took :
      (n time : ℕ) (d : Disk) (u : PreparedUpdate)
      → (attempt sv codec install_dir current args (world time) d).0 ≡ some u
      → attempts sv codec install_dir current args world (suc n) time d
        ≡ (some (time, u), (attempt sv codec install_dir current args (world time) d).1)
  unfolding attempts
  round_took n time d u e = ground (arith, e)

  round_left :
      (n time : ℕ) (d : Disk)
      → (attempt sv codec install_dir current args (world time) d).0 ≡ none
      → attempts sv codec install_dir current args world (suc n) time d
        ≡ attempts sv codec install_dir current args world n
            (time + day)
            (attempt sv codec install_dir current args (world time) d).1
  unfolding attempts
  round_left n time d e = ground (arith, e)

  no_rounds :
      (time : ℕ) (d : Disk) (t : ℕ) (u : PreparedUpdate)
      → (attempts sv codec install_dir current args world zero time d).0 ≢ some (t, u)
  unfolding attempts
  no_rounds time d t u h = ground arith

  attempts_taken :
      (n time : ℕ) (d : Disk) (t : ℕ) (u : PreparedUpdate)
      → (attempts sv codec install_dir current args world n time d).0 ≡ some (t, u)
      → (time ≤ t)
        × IsTaken sv args codec install_dir current
            (world t)
            u
            (attempts sv codec install_dir current args world n time d).1
  attempts_taken zero time d t u h = absurd (no_rounds time d t u h)
  attempts_taken (suc n) time d t u h =
      elim (Option-cases (attempt sv codec install_dir current args (world time) d).0) [
        | inl e ↦
            let left = round_left n time d e in
            let (later, taken) =
              attempts_taken n (time + day)
                (attempt sv codec install_dir current args (world time) d).1 t u
                (ap (λ x. x.0) (sym left) ∙ h) in
            (
              omega (arith, later),
              subst (λ x. IsTaken sv args codec install_dir current (world t) u x.1) (sym left)
                  taken,
            )
        | inr (v, e) ↦
            let took = round_took n time d v e in
            let same = some-injective _ _ (ap (λ x. x.0) (sym took) ∙ h) in
            (
              omega (arith, ap (λ x. x.0) same),
              subst (λ x. IsTaken sv args codec install_dir current (world t) u x.1) (sym took)
                  (subst
                    (λ x.
                      IsTaken sv args codec install_dir current (world x.0) x.1
                        (attempt sv codec install_dir current args (world time) d).1)
                    same (attempt_taken sv args codec install_dir current (world time) v d e)),
            )
      ]

  -- The disk that so many rounds leave which take no update.
  abbrev pub left_after : ℕ → ℕ → Disk → Disk
  left_after zero time d = d
  left_after (suc k) time d =
      left_after k (time + day) (attempt sv codec install_dir current args (world time) d).1

  abbrev pub TakesAt : ℕ → Disk → Type 0
  TakesAt time d = (attempt sv codec install_dir current args (world time) d).0 ≢ none

  attempts_returns :
      (k time : ℕ) (d : Disk)
      → TakesAt (time + k * day) (left_after k time d)
      → (t : ℕ) × (u : PreparedUpdate) × (t ≤ time + k * day)
        × ((attempts sv codec install_dir current args world (suc k) time d).0 ≡ some (t, u))
  attempts_returns zero time d h =
      elim (Option-cases (attempt sv codec install_dir current args (world time) d).0) [
        | inl e ↦
            let now : time + zero * day ≡ time = omega arith in
            absurd (subst (λ x. TakesAt x d) now h e)
        | inr (v, e) ↦ (time, v, omega arith, ap (λ x. x.0) (round_took zero time d v e))
      ]
  attempts_returns (suc k) time d h =
      elim (Option-cases (attempt sv codec install_dir current args (world time) d).0) [
        | inl e ↦
            let next : time + suc k * day ≡ (time + day) + k * day = omega arith in
            let (t, u, l, r) =
              attempts_returns k (time + day)
                (attempt sv codec install_dir current args (world time) d).1
                (subst
                  (λ x. TakesAt x (
                    left_after k (time + day)
                      (attempt sv codec install_dir current args (world time) d).1))
                  next h) in
            (t, u, omega (arith, l), ap (λ x. x.0) (round_left (suc k) time d e) ∙ r)
        | inr (v, e) ↦ (time, v, omega arith, ap (λ x. x.0) (round_took (suc k) time d v e))
      ]

  -- An update is taken only by a supported program, not before its delay has passed, and only one
  -- that the web server offered in that round and that passed its preflight then.
  pub wait_for_update_takes :
      (supported : Bool) (retry_after : Option ℕ) (now n : ℕ) (d : Disk) (t : ℕ)
      (u : PreparedUpdate)
      → (wait_for_update sv codec install_dir current args world supported retry_after now n d).0
        ≡ some (t, u)
      → (supported ≡ true)
        × (now + retry_delay retry_after now ≤ t)
        × IsTaken sv args codec install_dir current
            (world t)
            u
            (wait_for_update sv codec install_dir current args world supported retry_after now n
              d).1
  unfolding wait_for_update
  wait_for_update_takes true retry_after now n d t u h =
      let (later, taken) = attempts_taken n (now + retry_delay retry_after now) d t u h in
      (refl, later, taken)
  wait_for_update_takes false retry_after now n d t u h = absurd (ground arith)

  -- If a round takes an update on the disk that the rounds before it leave when they take none, a
  -- supported program with fuel for the rounds up to it takes an update in it or in an earlier one.
  pub wait_for_update_returns :
      (retry_after : Option ℕ) (now k : ℕ) (d : Disk)
      → TakesAt
          (now + retry_delay retry_after now + k * day)
          (left_after k (now + retry_delay retry_after now) d)
      → (t : ℕ) × (u : PreparedUpdate) × (t ≤ now + retry_delay retry_after now + k * day)
        × ((wait_for_update sv codec install_dir current args world true retry_after now
              (suc k)
              d).0
            ≡ some (t, u))
  unfolding wait_for_update
  wait_for_update_returns retry_after now k d h =
      attempts_returns k (now + retry_delay retry_after now) d h

  a_day_later :
      (failed now : ℕ)
      → failed ≤ now
      → failed + day ≤ now + retry_delay (some (retry_after_of failed)) now
  unfolding retry_delay retry_after_of
  a_day_later failed now h = ground (arith, h)

  retry_delay_bound : (retry_after : Option ℕ) (now : ℕ) → retry_delay retry_after now ≤ day
  unfolding retry_delay
  retry_delay_bound none now = omega arith
  retry_delay_bound (some t) now = ground arith

  -- After an installation that failed, the program that is restarted with the time of its retry, at
  -- no earlier clock, takes no update until a day after the failure; and whatever the variable of the
  -- environment says, the delay is a day at most.
  pub failed_install_backs_off :
      (supported : Bool) (retry_after : Option ℕ) (failed now n : ℕ) (d : Disk) (t : ℕ)
      (u : PreparedUpdate)
      → failed ≤ now
      → (wait_for_update sv codec install_dir current args world supported
          (some (retry_after_of failed))
          now
          n
          d).0
        ≡ some (t, u)
      → (failed + day ≤ t) × (retry_delay retry_after now ≤ day)
  failed_install_backs_off supported retry_after failed now n d t u h e =
      let (_, later, _) =
        wait_for_update_takes supported (some (retry_after_of failed)) now n d t u e in
      (omega (arith, later, a_day_later failed now h), retry_delay_bound retry_after now)
