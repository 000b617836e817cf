-- ===== src/ScanJob/Watch/Tests.antt =====
-- The watchers of the movies and of the shows, and a change of the shows' cold storage.
use mathlib.Core.List.{Memᴰ}
use dookie.Base.{
  ℕ, String, ◌≡◌, refl, ◌⊎◌, Bool, true, false, Option, none, some, List, [], ◌∷◌, ◌++◌, map, arith,
}
use dookie.Base.Result.{ok, err}
use dookie.Media.Bundle.{components_from}
use dookie.ScanJob.{event, quiet, next_round, run}
use dookie.ScanJob.Watch.{
  bad_path_naming, lib_id_of, Watcher, watch_all, watchers_of, EventKind, create, remove, ignored,
  events_of,
}
use dookie.ScanJob.Watch.Laws.{IsNamedFor, change_refreshes_library}

abbrev all_watched : String → Bool
all_watched dir = true

abbrev move_map : List (String × String)
move_map = ("/local/movies", "/das/films") ∷ ("/local/shows", "/das/series") ∷ []

abbrev watcher : String → ℕ → String → Watcher
watcher dir lib_id src_path = record { dir = dir; lib_id = lib_id; src_path = src_path }

abbrev watchers : List Watcher
watchers =
    watcher "/local/movies" 1 "/local/movies"
    ∷ watcher "/das/films" 1 "/local/movies"
    ∷ watcher "/local/shows" 2 "/local/shows"
    ∷ watcher "/das/series" 2 "/local/shows"
    ∷ []

all_are_watched : watchers_of all_watched move_map ≡ ok watchers
unfolding watchers_of watch_all lib_id_of
all_are_watched = refl

bad_name :
    watchers_of all_watched (("/local/films", "/das/films") ∷ ("/a", "/b") ∷ [])
    ≡ err bad_path_naming
unfolding watchers_of watch_all lib_id_of
bad_name = refl

abbrev burst : List (Watcher × Option EventKind)
burst =
    (watcher "/local/shows" 2 "/local/shows", some create)
    ∷ (watcher "/local/shows" 2 "/local/shows", some ignored)
    ∷ []

change_refreshes_library_example :
    (pair : String × String) × (lib_id : ℕ) × Memᴰ pair move_map
    × (("/das/series" ≡ pair.0) ⊎ ("/das/series" ≡ pair.1))
    × IsNamedFor pair.0 lib_id
    × (run
          (map event
              (events_of (burst ++ (watcher "/das/series" 2 "/local/shows", some remove) ∷ []))
            ++ quiet ∷ [])
          (next_round false none)
        ≡ (lib_id, components_from "" pair.0)
          ∷ run [] (next_round false (some (lib_id, components_from "" pair.0))))
change_refreshes_library_example =
    change_refreshes_library all_watched move_map watchers burst
      (watcher "/das/series" 2 "/local/shows") remove none [] all_are_watched
      (Memᴰ.tail (Memᴰ.tail (Memᴰ.tail (Memᴰ.head refl)))) (λ e. absurd (ground arith))
