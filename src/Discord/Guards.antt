-- ===== src/Discord/Guards.antt =====
-- What the bot checks before it acts: the container's name, the torrent's hash.
use dookie.Base.{
  String, ◌≡◌, refl, ◌⊎◌, inl, inr, true, Bool-cases, Option, none, some, List, [], ◌∷◌, arith,
}
use dookie.Base.Result.{Result, ok, err}
use dookie.Media.{BundleError, Server}
use dookie.Media.Bundle.{MediaBundle, Codecs, delete_qbit_torrent}
use dookie.Discord.{Output, ResolvedOption, World, ◌>>=◌, request, text_option}
use dookie.Discord.System.{
  Host, is_ok, valid_container, restart_named, restart_container, checked_output, execute,
}
use dookie.Discord.Torrents.{valid_hash, delete}

restart_named_runs :
    (host : Host) (container : String) (w : World)
    → (restart_named host container w).1.run
      ≡ ("docker", "container" ∷ "restart" ∷ container ∷ []) ∷ w.run
unfolding restart_named ◌>>=◌ execute checked_output
restart_named_runs host container w =
    by_answer (host.shell w.run ("docker", "container" ∷ "restart" ∷ container ∷ [])) refl
  where
    by_answer :
        (r : Result String Output)
        → host.shell w.run ("docker", "container" ∷ "restart" ∷ container ∷ []) ≡ r
        → (restart_named host container w).1.run
          ≡ ("docker", "container" ∷ "restart" ∷ container ∷ []) ∷ w.run
    by_answer (err e) h = ground (arith, h)
    by_answer (ok output) h = elim (Bool-cases (is_ok output)) [
      | inl k ↦ ground (arith, h, k)
      | inr k ↦ ground (arith, h, k)
    ]

-- Restarting a container runs nothing, or the one command line that restarts the named container, whose
-- name has letters, digits and `_`, `.` or `-` only and no dash at its head.
restart_container_runs :
    (host : Host) (options : List ResolvedOption) (w : World)
    → ((restart_container host options w).1.run ≡ w.run)
      ⊎ ((container : String) × (text_option "container_id" options ≡ some container)
          × (valid_container container ≡ true)
          × ((restart_container host options w).1.run
              ≡ ("docker", "container" ∷ "restart" ∷ container ∷ []) ∷ w.run))
unfolding restart_container ◌>>=◌
restart_container_runs host options w = by_option (text_option "container_id" options) refl
  where
    by_option :
        (o : Option String)
        → text_option "container_id" options ≡ o
        → ((restart_container host options w).1.run ≡ w.run)
          ⊎ ((container : String) × (text_option "container_id" options ≡ some container)
              × (valid_container container ≡ true)
              × ((restart_container host options w).1.run
                  ≡ ("docker", "container" ∷ "restart" ∷ container ∷ []) ∷ w.run))
    by_option none e = inl (ground (arith, e))
    by_option (some container) e = elim (Bool-cases (valid_container container)) [
      | inl v ↦ inr (container, e, v, ground (arith, e, v, restart_named_runs host container w))
      | inr v ↦ inl (ground (arith, e, v))
    ]

module _ {F64 : Type 0} (percent : F64 → String) (display : BundleError → String) (server : Server)
    (codecs : Codecs F64) (bundle : MediaBundle) where
  -- Deleting a torrent changes nothing, or does exactly what the bundle's call does with a hash of
  -- forty hexadecimal digits that was given.
  delete_checks_hash :
      (options : List ResolvedOption) (w : World)
      → ((delete percent display server codecs bundle options w).1 ≡ w)
        ⊎ ((hash : String) × (text_option "hash" options ≡ some hash)
            × (valid_hash hash ≡ true)
            × ((delete percent display server codecs bundle options w).1
                ≡ (request display (delete_qbit_torrent server codecs bundle hash) w).1))
  unfolding delete ◌>>=◌
  delete_checks_hash options w = by_option (text_option "hash" options) refl
    where
      by_option :
          (o : Option String)
          → text_option "hash" options ≡ o
          → ((delete percent display server codecs bundle options w).1 ≡ w)
            ⊎ ((hash : String) × (text_option "hash" options ≡ some hash)
                × (valid_hash hash ≡ true)
                × ((delete percent display server codecs bundle options w).1
                    ≡ (request display (delete_qbit_torrent server codecs bundle hash) w).1))
      by_option none e = inl (ground (arith, e))
      by_option (some hash) e = elim (Bool-cases (valid_hash hash)) [
        | inl v ↦ inr (hash, e, v, ground (arith, e, v))
        | inr v ↦ inl (ground (arith, e, v))
      ]

  -- Restarting a container runs nothing, or the one command line that restarts the named container,
  -- whose name has letters, digits and `_`, `.` or `-` only and no dash at its head; deleting a torrent
  -- changes nothing, or does exactly what the bundle's call does with a hash of forty hexadecimal
  -- digits that was given.
  pub arguments_checked :
      (host : Host) (options : List ResolvedOption) (w : World)
      → (((restart_container host options w).1.run ≡ w.run)
          ⊎ ((container : String) × (text_option "container_id" options ≡ some container)
              × (valid_container container ≡ true)
              × ((restart_container host options w).1.run
                  ≡ ("docker", "container" ∷ "restart" ∷ container ∷ []) ∷ w.run)))
        × (((delete percent display server codecs bundle options w).1 ≡ w)
            ⊎ ((hash : String) × (text_option "hash" options ≡ some hash)
                × (valid_hash hash ≡ true)
                × ((delete percent display server codecs bundle options w).1
                    ≡ (request display (delete_qbit_torrent server codecs bundle hash) w).1)))
  arguments_checked host options w =
      (restart_container_runs host options w, delete_checks_hash options w)
