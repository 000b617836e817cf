-- ===== src/ScanJob/Watch.antt =====
-- server/src/lib.rs, module `scan_library_job`: the watchers of the directories, which send the loop its
-- events. Which directories the system watches is an argument.
pub mod Laws
mod Tests
use dookie.Base.{
  ℕ, String, Bool, true, false, ◌||◌, ◌&&◌, Option, none, some, List, [], ◌∷◌, map, length, ◌==◌,
  if◌then◌else◌,
}
use dookie.Base.Result.{Result, ok, err}
use Prim.Native.Char.{Char, code}
use dookie.Disk.{FilePath}
use dookie.Media.Bundle.{components_from}
use dookie.ScanJob.{Event}

abbrev pub starts_with : String → String → Bool
starts_with String.[] s = true
starts_with (String.◌∷◌ c word) String.[] = false
starts_with (String.◌∷◌ c word) (String.◌∷◌ d s) = code c == code d && starts_with word s

-- `str::contains`
abbrev pub contains : String → String → Bool
contains word String.[] = starts_with word String.[]
contains word (String.◌∷◌ c s) = starts_with word (String.◌∷◌ c s) || contains word s

-- A name that holds neither word is `unreachable!`, and a directory that cannot be watched an error;
-- both end the job, as does a number of pairs other than two, which `spawn_` refuses.
pub data WatchError : Type 0 where
  wrong_pairs bad_path_naming not_watched : WatchError

unfoldable pub lib_id_of : String → Option ℕ
lib_id_of src_path =
    if contains "movies" src_path
    then some 1
    else if contains "shows" src_path
    then some 2
    else none

-- A watched directory, and what is sent when it changes.
pub record Watcher : Type 0 where
  pub dir : String
  pub lib_id : ℕ
  pub src_path : String

abbrev pub add_watchers :
    ℕ → String × String → Result WatchError (List Watcher) → Result WatchError (List Watcher)
add_watchers lib_id pair (err e) = err e
add_watchers lib_id (src_path, dst_path) (ok rest) = ok (
    record { dir = src_path; lib_id = lib_id; src_path = src_path }
    ∷ record { dir = dst_path; lib_id = lib_id; src_path = src_path }
    ∷ rest)

unfoldable pub watch_all :
    (String → Bool) → List (String × String) → Result WatchError (List Watcher)
watch_all watches [] = ok []
watch_all watches ((src_path, dst_path) ∷ paths) =
    let rest = watch_all watches paths in
    elim (lib_id_of src_path) [
      | none ↦ err bad_path_naming
      | some lib_id ↦
          if watches src_path && watches dst_path
          then add_watchers lib_id (src_path, dst_path) rest
          else err not_watched
    ]

-- `spawn_`, then the first poll.
unfoldable pub watchers_of :
    (String → Bool) → List (String × String) → Result WatchError (List Watcher)
watchers_of watches move_map =
    if length move_map == 2 then watch_all watches move_map else err wrong_pairs

-- `notify::EventKind`, as far as it matters.
pub data EventKind : Type 0 where
  create modify remove ignored : EventKind

-- What a watcher sends of an event, or of the error in its place.
unfoldable pub notified : Watcher → Option EventKind → Option Event
notified watcher none = none
notified watcher (some ignored) = none
notified watcher (some _) = some (watcher.lib_id, components_from "" watcher.src_path)

abbrev pub add_event : Option Event → List Event → List Event
add_event none events = events
add_event (some e) events = e ∷ events

-- The events that come out of the channel.
unfoldable pub events_of : List (Watcher × Option EventKind) → List Event
events_of [] = []
events_of ((watcher, kind) ∷ rest) = add_event (notified watcher kind) (events_of rest)
