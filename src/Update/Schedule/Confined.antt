-- ===== src/Update/Schedule/Confined.antt =====
-- What the wait for an update may change.
use dookie.Base.{
  ℕ, zero, suc, ◌+◌, ◌≡◌, refl, ap, ◌∙◌, inl, inr, String, Bool, true, false, Option, none, some,
  List, Option-cases, arith,
}
use dookie.Base.Result.{Result, ok, err}
use dookie.Disk.{FilePath, Disk}
use dookie.Disk.Paths.{strip_prefix}
use dookie.Update.{Version, UpdateError, PreparedUpdate, Semver}
use dookie.Update.Install.{join}
use dookie.Update.Install.Calls.{close_frame}
use dookie.Update.Archive.{Codec}
use dookie.Update.Check.{check_for_update}
use dookie.Update.Check.Sound.{check_for_update_sound, check_for_update_confined}
use dookie.Update.Schedule.{
  day, World, retry_delay, preflight, keep_or_drop, after_check, attempt, attempts, wait_for_update,
}

module _ (sv : Semver) (codec : Codec) (install_dir : FilePath) (current : Version)
    (args : List String) (world : ℕ → World) (q : FilePath)
    (outside : (t : ℕ) → strip_prefix (join install_dir (world t).temp) q ≡ none) where
  dropped :
      (u : PreparedUpdate) (r : Result UpdateError (Unit {0})) (d : Disk)
      → strip_prefix u.staging q ≡ none
      → (keep_or_drop sv u r d).1.fs q ≡ d.fs q
  dropped u (ok _) d h = refl
  dropped u (err _) d h = close_frame u.staging q d h

  checked :
      (t : ℕ) (r : Result UpdateError (Option PreparedUpdate)) (d : Disk)
      → ((u : PreparedUpdate) → r ≡ ok (some u) → u.staging ≡ join install_dir (world t).temp)
      → (after_check sv codec install_dir current args (world t).run r d).1.fs q ≡ d.fs q
  checked t (ok (some u)) d h =
      dropped u (preflight sv (world t).run u args) d
        (ap (λ p. strip_prefix p q) (h u refl) ∙ outside t)
  checked t (ok none) d h = refl
  checked t (err _) d h = refl

  attempt_confined :
      (t : ℕ) (d : Disk) → (attempt sv codec install_dir current args (world t) d).1.fs q ≡ d.fs q
  unfolding attempt
  attempt_confined t d =
      let w = world t in
      let found = check_for_update sv codec w.net w.temp install_dir current d in
      checked t found.0 found.1 (λ u h.
        (check_for_update_sound sv codec w.net w.temp install_dir current d u h).verified.staging)
      ∙ check_for_update_confined sv codec w.net w.temp install_dir current q (outside t) d

  attempts_confined :
      (n time : ℕ) (d : Disk)
      → (attempts sv codec install_dir current args world n time d).1.fs q ≡ d.fs q
  unfolding attempts
  attempts_confined zero time d = refl
  attempts_confined (suc n) time d =
      elim (Option-cases (attempt sv codec install_dir current args (world time) d).0) [
        | inl e ↦ ground (
          arith,
          e,
          attempts_confined n (time + day)
              (attempt sv codec install_dir current args (world time) d).1,
          attempt_confined time d,
        )
        | inr (u, e) ↦ ground (arith, e, attempt_confined time d)
      ]

  -- The wait for an update changes nothing outside the staging directories of its rounds, whatever
  -- the web server answers, the candidates print and calls fail.
  pub wait_for_update_confined :
      (supported : Bool) (retry_after : Option ℕ) (now n : ℕ) (d : Disk)
      → (wait_for_update sv codec install_dir current args world supported retry_after now n d).1.fs
          q
        ≡ d.fs q
  unfolding wait_for_update
  wait_for_update_confined true retry_after now n d =
      attempts_confined n (now + retry_delay retry_after now) d
  wait_for_update_confined false retry_after now n d = refl
