-- ===== src/Update/Schedule/Laws.antt =====
-- When the program takes an update, and which.
use mathlib.Core.Path.{subst}
use mathlib.Core.Option.{some-injective}
use dookie.Base.{
  ◌≡◌, refl, sym, ◌↔◌, inl, inr, String, ◌<>◌, true, Option, none, some, List, [], ◌∷◌, ◌++◌,
  eq_iff, arith,
}
use dookie.Base.Result.{Result, ok, err, Result-cases}
use dookie.Base.Trim.{trim}
use dookie.Disk.{FilePath, Disk}
use dookie.Update.{Version, UpdateError, PreparedUpdate, Semver}
use dookie.Update.Install.{join}
use dookie.Update.Archive.{Codec}
use dookie.Update.Check.{check_for_update}
use dookie.Update.Check.Sound.{IsOffered, check_for_update_sound}
use dookie.Update.Schedule.{Output, Run, World, preflight, keep_or_drop, after_check, attempt}

module _ (sv : Semver) (args : List String) where
  -- The staged server prints its version, and reads the configuration of the running program.
  abbrev pub Passes : Run → PreparedUpdate → Type 0
  Passes run u =
      (version_output config_output : Output) × (run (join u.staging "dookie_server")
          ("--version" ∷ [])
        ≡ ok version_output)
      × (version_output.success ≡ true)
      × (trim version_output.stdout ≡ "dookie_server " <> sv.show u.version)
      × (run (join u.staging "dookie_server") (args ++ "--check-config" ∷ []) ≡ ok config_output)
      × (config_output.success ≡ true)

  preflight_ok : (run : Run) (u : PreparedUpdate) → preflight sv run u args ≡ ok tt → Passes run u
  unfolding preflight
  preflight_ok run u h =
      elim (Result-cases (run (join u.staging "dookie_server") ("--version" ∷ []))) [
        | inr (e, p) ↦ absurd (ground (arith, p))
        | inl (o, p) ↦
            elim (Result-cases
              (run (join u.staging "dookie_server") (args ++ "--check-config" ∷ []))) [
                | inr (e, q) ↦ absurd (ground (arith, p, q))
                | inl (c, q) ↦ (
                  o,
                  c,
                  p,
                  ground (arith, p),
                  ground (arith, p, eq_iff (trim o.stdout) ("dookie_server " <> sv.show u.version)),
                  q,
                  ground (arith, p, q),
                )
              ]
      ]

  ok_preflight : (run : Run) (u : PreparedUpdate) → Passes run u → preflight sv run u args ≡ ok tt
  unfolding preflight
  ok_preflight run u (o, c, p, s, v, q, t) =
      ground (arith, p, s, v, q, t, eq_iff (trim o.stdout) ("dookie_server " <> sv.show u.version))

  -- The preflight of a candidate is in order exactly if its staged server runs, ends with a success
  -- and prints its own version, and runs with the program's arguments and the check of the
  -- configuration and ends with a success.
  pub preflight_exact :
      (run : Run) (u : PreparedUpdate) → (preflight sv run u args ≡ ok tt) ↔ Passes run u
  preflight_exact run u = (preflight_ok run u, ok_preflight run u)

  module _ (codec : Codec) (install_dir : FilePath) (current : Version) where
    -- The update was offered by the web server at that time and has passed its preflight then.
    abbrev pub IsTaken : World → PreparedUpdate → Disk → Type 0
    IsTaken w u d = IsOffered sv codec w.net w.temp install_dir current u d.fs × Passes w.run u

    kept :
        (run : Run) (v u : PreparedUpdate) (r : Result UpdateError (Unit {0})) (d : Disk)
        → preflight sv run v args ≡ r
        → (keep_or_drop sv v r d).0 ≡ some u
        → (v ≡ u) × ((keep_or_drop sv v r d).1 ≡ d) × Passes run v
    kept run v u (ok _) d p h = (some-injective _ _ h, refl, preflight_ok run v p)
    kept run v u (err _) d p h = absurd (ground arith)

    checked :
        (w : World) (u : PreparedUpdate) (r : Result UpdateError (Option PreparedUpdate)) (d : Disk)
        → ((v : PreparedUpdate)
            → r ≡ ok (some v)
            → IsOffered sv codec w.net w.temp install_dir current v d.fs)
        → (after_check sv codec install_dir current args w.run r d).0 ≡ some u
        → IsTaken w u (after_check sv codec install_dir current args w.run r d).1
    checked w u (ok (some v)) d o h =
        let (e, k, p) = kept w.run v u (preflight sv w.run v args) d refl h in
        subst (λ x. IsTaken w u x) (sym k) (subst (λ x. IsTaken w x d) e (o v refl, p))
    checked w u (ok none) d o h = absurd (ground arith)
    checked w u (err _) d o h = absurd (ground arith)

    pub attempt_taken :
        (w : World) (u : PreparedUpdate) (d : Disk)
        → (attempt sv codec install_dir current args w d).0 ≡ some u
        → IsTaken w u (attempt sv codec install_dir current args w d).1
    unfolding attempt
    attempt_taken w u d h =
        checked w u (check_for_update sv codec w.net w.temp install_dir current d).0
          (check_for_update sv codec w.net w.temp install_dir current d).1
          (check_for_update_sound sv codec w.net w.temp install_dir current d) h
