-- ===== src/ScanJob/Laws.antt =====
-- Which events of the scan job are handled, and when the libraries are refreshed.
use dookie.Base.{
  ℕ, ◌+◌, ◌≤◌, ◌≡◌, refl, ◌⊎◌, Bool, true, false, Option, some, List, [], ◌∷◌, ◌++◌, map, All,
}
use dookie.Base.Result.{Result, ok}
use dookie.Disk.{IoError}
use dookie.ScanJob.{
  Entry, Seen, passed, sound, look, Event, Input, event, quiet, settling, next_round, step, run,
}

burst_settles :
    (b : Bool) (first : Event) (more : List Event) (last : Event) (rest : List Input)
    → run
        (map event more ++ event last ∷ quiet ∷ rest)
        (record { phase = settling; is_in_debounce = b; res = some first })
      ≡ last ∷ run rest (next_round false (some last))
unfolding run step
burst_settles b first [] last rest = refl
burst_settles b first (e ∷ more) last rest = burst_settles true e more last rest

-- Of a burst of events that the job meets while it waits, with less than half a second between them
-- and half a second of quiet at its end, the last event alone is handled, and the job waits again.
pub burst_handled_once :
    (before : Option Event) (burst : List Event) (last : Event) (rest : List Input)
    → run (map event burst ++ event last ∷ quiet ∷ rest) (next_round false before)
      ≡ last ∷ run rest (next_round false (some last))
unfolding run step
burst_handled_once before [] last rest = refl
burst_handled_once before (e ∷ more) last rest = burst_settles false e more last rest

-- An entry that is no link that can be read, or a link to something that is there.
abbrev pub IsFine : Result IoError Entry → Type 0
IsFine entry = (look entry ≡ ok passed) ⊎ (look entry ≡ ok sound)

abbrev pub count_one : Result IoError Seen → ℕ
count_one (ok sound) = 1
count_one _ = 0

abbrev pub sound_links : List (Result IoError Entry) → ℕ
sound_links [] = 0
sound_links (entry ∷ rest) = count_one (look entry) + sound_links rest

-- The entries that were looked at are fine, and they are all entries or have ten sound links.
abbrev pub IsChecked : ℕ → List (Result IoError Entry) → Type 0
IsChecked count entries =
    (checked rest : List (Result IoError Entry)) × (entries ≡ checked ++ rest)
    × All IsFine checked
    × ((rest ≡ []) ⊎ (10 ≤ count + sound_links checked))
