-- ===== src/Main/Start.antt =====
-- What the program needs before its jobs run.
use mathlib.Core.Path.{subst}
use dookie.Base.{
  ℕ, String, ◌≡◌, refl, sym, ◌⊎◌, inl, inr, Bool, true, false, not, ◌&&◌, Option, some, List,
  Option-cases, arith, if◌then◌else◌,
}
use dookie.Base.Result.{Result, ok, err}
use dookie.Main.{
  Opt, Started, failed, checked, running, is_daemonized, daemonize_or, start_up, Ran, ended,
  refused, jobs, claimed, run, main,
}
use dookie.Socket.{SocketError, Os, bind_cli_socket}
use dookie.Socket.Claim.{IsClaimed, Claims, bind_cli_socket-Claims}
use dookie.Socket.Identity.{Metadata}

module _ (opt : Opt) (read : Option (List ℕ)) (parses : List ℕ → Bool) where
  -- The configuration was read, and its check alone was not asked for.
  abbrev pub IsConfigured : Type 0
  IsConfigured =
      (bytes : List ℕ) × (read ≡ some bytes) × (parses bytes ≡ true) × (opt.check_config ≡ false)

  -- The process stays at its terminal, or its environment says that it is the daemon.
  abbrev pub IsSettled : Option String → Type 0
  IsSettled env = (opt.foreground ≡ true) ⊎ (is_daemonized env ≡ true)

  abbrev pub Starts : Started → Type 0
  Starts failed = Unit
  Starts checked = opt.check_config ≡ true
  Starts (running env updates) = IsConfigured × IsSettled env × (updates ≡ not opt.no_auto_update)

  -- What the end of the program says of what it was given and of the socket.
  abbrev pub Needs : Os → Ran × Os → Type 0
  Needs s (ended started, t) = (t ≡ s) × Starts started
  Needs s (refused e, t) = IsConfigured
  Needs s (jobs socket env updates, t) =
      IsConfigured
      × IsSettled env
      × (updates ≡ not opt.no_auto_update)
      × (s.is_locked ≡ false)
      × IsClaimed socket t

  IsSettled-by :
      (env : Option String) (f d : Bool)
      → opt.foreground ≡ f
      → is_daemonized env ≡ d
      → (not f && not d) ≡ false
      → IsSettled env
  IsSettled-by env true d p q h = inl p
  IsSettled-by env false true p q h = inr q
  IsSettled-by env false false p q h = absurd (ground arith)

  daemonized :
      (env : Option String) (daemonizes b : Bool)
      → (b ≡ false → IsSettled env)
      → IsConfigured
      → Starts (daemonize_or b opt env daemonizes)
  daemonized env true true h c = (c, inr refl, refl)
  daemonized env false true h c = tt
  daemonized env daemonizes false h c = (c, h refl, refl)

  checked_or :
      (env : Option String) (daemonizes : Bool) (bytes : List ℕ) (c : Bool)
      → read ≡ some bytes
      → parses bytes ≡ true
      → opt.check_config ≡ c
      → Starts (
          if c
          then checked
          else daemonize_or (not opt.foreground && not (is_daemonized env)) opt env daemonizes)
  checked_or env daemonizes bytes true r p c = c
  checked_or env daemonizes bytes false r p c =
      daemonized env daemonizes (not opt.foreground && not (is_daemonized env))
        (IsSettled-by env opt.foreground (is_daemonized env) refl refl) (bytes, r, p, c)

  start_up-Starts :
      (env : Option String) (daemonizes : Bool) → Starts (start_up opt read parses env daemonizes)
  unfolding start_up
  start_up-Starts env daemonizes = elim (Option-cases read) [
    | inl n ↦ subst (λ o. Starts (start_up opt o parses env daemonizes)) (sym n) tt
    | inr (bytes, n) ↦
        subst (λ o. Starts (start_up opt o parses env daemonizes)) (sym n)
          (by_parse bytes n (parses bytes) refl)
  ]
    where
      by_parse :
          (bytes : List ℕ)
          → read ≡ some bytes
          → (b : Bool) → parses bytes ≡ b
          → Starts (
              if b
              then (if opt.check_config
                  then checked
                  else daemonize_or
                      (not opt.foreground && not (is_daemonized env))
                      opt
                      env
                      daemonizes)
              else failed)
      by_parse bytes r true p = checked_or env daemonizes bytes opt.check_config r p refl
      by_parse bytes r false p = tt

  run-Needs :
      (is_macos : Bool) (started : Started) (s : Os)
      → Starts started
      → Needs s (run is_macos started s)
  run-Needs is_macos failed s h = (refl, tt)
  run-Needs is_macos checked s h = (refl, h)
  run-Needs is_macos (running env updates) s (c, e, u) =
      by_claim (bind_cli_socket is_macos s) (bind_cli_socket-Claims is_macos s)
    where
      by_claim :
          (x : Result SocketError Metadata × Os)
          → Claims is_macos s x
          → Needs s (claimed env updates x)
      by_claim (ok socket, t) h = let (free, _, _, owns) = h.1 socket refl in (c, e, u, free, owns)
      by_claim (err why, t) h = c

  -- Where the jobs run, the configuration was read and more than its check was asked for, the process
  -- stays at its terminal or its environment says that it is the daemon, updates are looked for
  -- unless they are switched off, the lock of the socket was free, and the socket and its record are
  -- this process's. A refused socket is met only by a configured program; a program that ends before
  -- has not touched the socket or its lock, and so has one that is asked for the check alone.
  pub jobs_need_socket :
      (is_macos : Bool) (env : Option String) (daemonizes : Bool) (s : Os)
      → Needs s (main is_macos opt read parses env daemonizes s)
  unfolding main
  jobs_need_socket is_macos env daemonizes s =
      run-Needs is_macos (start_up opt read parses env daemonizes) s
        (start_up-Starts env daemonizes)
