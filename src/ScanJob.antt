-- ===== src/ScanJob.antt =====
-- server/src/lib.rs: `scan_library_job`. Events of the watched directories and the passing of half a
-- second are the inputs of the loop; the listing of a directory and the status of the move job are
-- arguments.
pub mod Laws
pub mod Watch
mod Tests
use dookie.Base.{
  ℕ, suc, Bool, true, false, ◌||◌, Option, none, some, List, [], ◌∷◌, leb, if◌then◌else◌,
}
use dookie.Base.Result.{Result, ok, err}
use dookie.Disk.{FilePath, IoError}
use dookie.MoveJob.{OutgoingMessage, in_progress}
use dookie.Media.{Request, Server}
use dookie.Media.Bundle.{MediaBundle, Codecs, refresh_libraries}

-- What the calls on an entry of the directory give: `file_type`, `read_link`, `canonicalize` of the
-- link's text, `metadata` of that.
pub record Entry : Type 0 where
  pub is_symlink : Result IoError Bool
  pub link : Result IoError FilePath
  pub canonical : Result IoError FilePath
  pub followed : Result IoError (Unit {0})

pub data Seen : Type 0 where
  passed sound broken : Seen

abbrev pub look_behind : Entry → Result IoError Seen
look_behind entry = elim entry.canonical [
  | err e ↦ err e
  | ok _ ↦ elim entry.followed [ ok _ ↦ ok sound | err _ ↦ ok broken ]
]

abbrev pub look : Result IoError Entry → Result IoError Seen
look (err e) = err e
look (ok entry) = elim entry.is_symlink [
  | err e ↦ err e
  | ok false ↦ ok passed
  | ok true ↦ elim entry.link [ err _ ↦ ok passed | ok _ ↦ look_behind entry ]
]

-- The loop, with the number of sound links so far.
unfoldable pub find_from : ℕ → List (Result IoError Entry) → Result IoError Bool
find_from count [] = ok false
find_from count (entry ∷ rest) = elim (leb 10 count) [
  | true ↦ ok false
  | false ↦ elim (look entry) [
    | err e ↦ err e
    | ok passed ↦ find_from count rest
    | ok sound ↦ find_from (suc count) rest
    | ok broken ↦ ok true
  ]
]

abbrev pub find_broken_symlinks : Result IoError (List (Result IoError Entry)) → Result IoError Bool
find_broken_symlinks (err e) = err e
find_broken_symlinks (ok entries) = find_from 0 entries

-- The answer of the move job, if the job has a sender to it; none if a channel is closed.
abbrev pub is_moving : Option (Option OutgoingMessage) → Option Bool
is_moving none = some false
is_moving (some none) = none
is_moving (some (some in_progress)) = some true
is_moving (some (some _)) = some false

module _ {F64 : Type 0} (server : Server) (codecs : Codecs F64) (bundle : MediaBundle) where
  -- The requests sent after an event is handled; none where the job ends.
  unfoldable pub scan :
      Result IoError (List (Result IoError Entry))
      → Option (Option OutgoingMessage)
      → ℕ
      → List Request
      → Option (List Request)
  scan listing status lib_id sent = elim (find_broken_symlinks listing) [
    | err _ ↦ some sent
    | ok found ↦ elim (is_moving status) [
      | none ↦ none
      | some moving ↦
          some (
            if found || moving
            then sent
            else (refresh_libraries server codecs bundle lib_id sent).1)
    ]
  ]

-- The library and the watched path.
abbrev pub Event : Type 0
Event = ℕ × FilePath

pub data Input : Type 0 where
  event : Event → Input
  quiet : Input

-- At the first `recv`, or in the `select`.
pub data Phase : Type 0 where
  receiving settling : Phase

pub record State : Type 0 where
  pub phase : Phase
  pub is_in_debounce : Bool
  pub res : Option Event

abbrev pub next_round : Bool → Option Event → State
next_round is_in_debounce res = record {
  phase = if is_in_debounce then settling else receiving;
  is_in_debounce = is_in_debounce;
  res = res;
}

-- One input, with the event that is handled after it. Half a second of quiet means nothing to `recv`.
unfoldable pub step : Input → State → Option Event × State
step input s = elim s.phase [
  | receiving ↦ elim input [
    | event e ↦ (none, record { phase = settling; is_in_debounce = s.is_in_debounce; res = some e })
    | quiet ↦ (none, s)
  ]
  | settling ↦ elim input [
    | event e ↦ (none, next_round true (some e))
    | quiet ↦ (s.res, next_round false s.res)
  ]
]

abbrev pub add_handled : Option Event → List Event → List Event
add_handled none handled = handled
add_handled (some e) handled = e ∷ handled

-- The events that are handled, in their order.
unfoldable pub run : List Input → State → List Event
run [] s = []
run (input ∷ inputs) s = let (handled, s') = step input s in add_handled handled (run inputs s')
