-- ===== src/ScanJob/Watch/Laws.antt =====
-- Which library a change of a watched directory refreshes.
use mathlib.Core.List.{Memᴰ}
use mathlib.Core.List.Memᴰ
use mathlib.Core.Option.{some-injective}
use mathlib.Core.Path.{subst}
use dookie.Base.{
  ℕ, String, ◌≡◌, ◌≢◌, refl, sym, ap, ◌∙◌, ◌⊎◌, inl, inr, Bool, false, ◌&&◌, Option, some, List, [],
  ◌∷◌, ◌++◌, map, length, ◌==◌, Bool-cases, Option-cases, arith, if◌then◌else◌, true, none,
}
use dookie.Base.Result.{Result, ok, err, ok-injective}
use dookie.Media.Bundle.{components_from}
use dookie.ScanJob.{Event, event, quiet, Input, next_round, run}
use dookie.ScanJob.Laws.{burst_handled_once}
use dookie.ScanJob.Watch.{
  WatchError, contains, lib_id_of, Watcher, add_watchers, watch_all, watchers_of, EventKind, create,
  modify, remove, ignored, notified, events_of,
}

-- The watcher is on a directory of the pair and sends the library that the source's name tells.
abbrev pub IsOn : Watcher → String × String → Type 0
IsOn watcher pair =
    ((watcher.dir ≡ pair.0) ⊎ (watcher.dir ≡ pair.1))
    × (lib_id_of pair.0 ≡ some watcher.lib_id)
    × (watcher.src_path ≡ pair.0)

added :
    (lib_id : ℕ) (pair : String × String) (rest : Result WatchError (List Watcher))
    (ws : List Watcher)
    → add_watchers lib_id pair rest ≡ ok ws
    → (more : List Watcher) × (rest ≡ ok more)
      × (record { dir = pair.0; lib_id = lib_id; src_path = pair.0 }
            ∷ record { dir = pair.1; lib_id = lib_id; src_path = pair.0 }
            ∷ more
          ≡ ws)
added lib_id pair (err e) ws h = absurd (ground arith)
added lib_id (src_path, dst_path) (ok more) ws h = (more, refl, ok-injective h)

first_pair :
    (watches : String → Bool) (pair : String × String) (paths : List (String × String))
    (ws : List Watcher)
    → watch_all watches (pair ∷ paths) ≡ ok ws
    → (lib_id : ℕ) × (lib_id_of pair.0 ≡ some lib_id)
      × (add_watchers lib_id pair (watch_all watches paths) ≡ ok ws)
unfolding watch_all
first_pair watches (src_path, dst_path) paths ws h = elim (Option-cases (lib_id_of src_path)) [
  | inl n ↦ absurd (ground (arith, n))
  | inr (lib_id, n) ↦ elim (Bool-cases (watches src_path && watches dst_path)) [
    | inl b ↦ (lib_id, n, ground (arith, n, b))
    | inr b ↦ absurd (ground (arith, n, b))
  ]
]

watched_pair :
    (watches : String → Bool) (paths : List (String × String)) (ws : List Watcher) (w : Watcher)
    → watch_all watches paths ≡ ok ws
    → Memᴰ w ws
    → (pair : String × String) × Memᴰ pair paths × IsOn w pair
unfolding watch_all
watched_pair watches [] ws w h m =
    absurd (Memᴰ.not-nil (subst (λ l. Memᴰ w l) (sym (ok-injective h)) m))
watched_pair watches (pair ∷ paths) ws w h m =
    let (lib_id, n, a) = first_pair watches pair paths ws h in
    let (more, k, e) = added lib_id pair (watch_all watches paths) ws a in
    elim (Memᴰ.cases_cons (subst (λ l. Memᴰ w l) (sym e) m)) [
      | inl same ↦ (
        pair,
        Memᴰ.head refl,
        (
          inl (ap (λ (x : Watcher). x.dir) same),
          n ∙ ap (λ (x : Watcher). some x.lib_id) (sym same),
          ap (λ (x : Watcher). x.src_path) same,
        ),
      )
      | inr tail₁ ↦ elim (Memᴰ.cases_cons tail₁) [
        | inl same ↦ (
          pair,
          Memᴰ.head refl,
          (
            inr (ap (λ (x : Watcher). x.dir) same),
            n ∙ ap (λ (x : Watcher). some x.lib_id) (sym same),
            ap (λ (x : Watcher). x.src_path) same,
          ),
        )
        | inr tail₂ ↦
            let (pair', m', on) = watched_pair watches paths more w k tail₂ in
            (pair', Memᴰ.tail m', on)
      ]
    ]

events_of-append :
    (burst : List (Watcher × Option EventKind)) (w : Watcher) (kind : EventKind)
    → kind ≢ ignored
    → events_of (burst ++ (w, some kind) ∷ [])
      ≡ events_of burst ++ (w.lib_id, components_from "" w.src_path) ∷ []
unfolding events_of notified
events_of-append [] w create n = refl
events_of-append [] w modify n = refl
events_of-append [] w remove n = refl
events_of-append [] w ignored n = absurd (n refl)
events_of-append ((w', kind') ∷ burst) w kind n = ground (arith, events_of-append burst w kind n)

map-append :
    (xs : List Event) (x : Event) (rest : List Input)
    → map event (xs ++ x ∷ []) ++ quiet ∷ rest ≡ map event xs ++ event x ∷ quiet ∷ rest
map-append [] x rest = refl
map-append (y ∷ xs) x rest = ap (λ (l : List Input). event y ∷ l) (map-append xs x rest)

-- Library 1 is that of the movies, library 2 that of the shows.
abbrev pub IsNamedFor : String → ℕ → Type 0
IsNamedFor src_path lib_id =
    ((contains "movies" src_path ≡ true) × (lib_id ≡ 1))
    ⊎ ((contains "movies" src_path ≡ false) × (contains "shows" src_path ≡ true) × (lib_id ≡ 2))

lib_id_sound :
    (src_path : String) (lib_id : ℕ) → lib_id_of src_path ≡ some lib_id → IsNamedFor src_path lib_id
unfolding lib_id_of
lib_id_sound src_path lib_id h = by_tests (contains "movies" src_path) (contains "shows" src_path) h
  where
    by_tests :
        (a b : Bool)
        → (if a then some 1 else if b then some 2 else none) ≡ some lib_id
        → ((a ≡ true) × (lib_id ≡ 1)) ⊎ ((a ≡ false) × (b ≡ true) × (lib_id ≡ 2))
    by_tests true b h = inl (refl, sym (some-injective _ _ h))
    by_tests false true h = inr (refl, refl, sym (some-injective _ _ h))
    by_tests false false h = absurd (ground arith)

-- When the directories are watched, and a burst of what their watchers tell, the last of it a change,
-- is followed by half a second of quiet while the job waits, the job handles one event of the burst,
-- with the source of the pair that the changed directory belongs to and, by the name of that source,
-- the library of the movies or of the shows, and waits again.
pub change_refreshes_library :
    (watches : String → Bool) (move_map : List (String × String)) (ws : List Watcher)
    (burst : List (Watcher × Option EventKind)) (w : Watcher) (kind : EventKind)
    (before : Option Event) (rest : List Input)
    → watchers_of watches move_map ≡ ok ws
    → Memᴰ w ws
    → kind ≢ ignored
    → (pair : String × String) × (lib_id : ℕ) × Memᴰ pair move_map
      × ((w.dir ≡ pair.0) ⊎ (w.dir ≡ pair.1))
      × IsNamedFor pair.0 lib_id
      × (run
            (map event (events_of (burst ++ (w, some kind) ∷ [])) ++ quiet ∷ rest)
            (next_round false before)
          ≡ (lib_id, components_from "" pair.0)
            ∷ run rest (next_round false (some (lib_id, components_from "" pair.0))))
unfolding watchers_of
change_refreshes_library watches move_map ws burst w kind before rest h m n =
    elim (Bool-cases (length move_map == 2)) [
      | inr b ↦ absurd (ground (arith, b))
      | inl b ↦
          let (pair, p, (on, lib, src)) =
            watched_pair watches move_map ws w (ground (arith, b)) m in
          let last : Event = (w.lib_id, components_from "" w.src_path) in
          let inputs =
            ap (λ (l : List Event). map event l ++ quiet ∷ rest) (events_of-append burst w kind n)
            ∙ map-append (events_of burst) last rest in
          let handled =
            ap (λ (l : List Input). run l (next_round false before)) inputs
            ∙ burst_handled_once before (events_of burst) last rest in
          (
            pair,
            w.lib_id,
            p,
            on,
            lib_id_sound pair.0 w.lib_id lib,
            subst
                (λ s.
                  run (map event (events_of (burst ++ (w, some kind) ∷ [])) ++ quiet ∷ rest)
                    (next_round false before)
                  ≡ (w.lib_id, components_from "" s)
                    ∷ run rest (next_round false (some (w.lib_id, components_from "" s))))
                src handled,
          )
    ]
