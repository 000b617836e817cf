-- ===== src/ScanJob/Tests.antt =====
-- A directory with a sound link, and a burst of two events.
use dookie.Base.{◌≡◌, refl, true, false, none, List, [], ◌∷◌}
use dookie.Base.Result.{Result, ok}
use dookie.Disk.{IoError}
use dookie.Media.{Request}
use dookie.Media.Bundle.{refresh_libraries}
use dookie.Media.Tests.{server, codecs, bundle}
use dookie.ScanJob.{Entry, Event, event, quiet, next_round, step, run}

abbrev sound_link : Entry
sound_link = record {
  is_symlink = ok true;
  link = ok ("das" ∷ []);
  canonical = ok ("das" ∷ []);
  followed = ok tt;
}

abbrev listing : List (Result IoError Entry)
listing = ok sound_link ∷ []

abbrev movies : Event
movies = (1, "movies" ∷ [])

abbrev shows : Event
shows = (2, "shows" ∷ [])

-- The burst touches both libraries; the event of the movies is lost.
movies_are_lost : run (event movies ∷ event shows ∷ quiet ∷ []) (next_round false none) ≡ shows ∷ []
unfolding run step
movies_are_lost = refl

abbrev refreshed : List Request
refreshed = (refresh_libraries server codecs bundle 1 []).1
