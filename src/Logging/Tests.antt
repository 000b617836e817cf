-- ===== src/Logging/Tests.antt =====
-- A directory of logs with an old file, a young one and, in the second case, an old directory.
use dookie.Base.{ℕ, ◌*◌, ◌≡◌, ◌⊎◌, refl, false, none, some, [], ◌∷◌}
use dookie.Base.Result.{Result, ok, err}
use dookie.Disk.{FilePath, IoError, other, file, dir, Fs, put, Disk, remove_file}
use dookie.Logging.{LogFile, Round, remove_old, retain}
use dookie.Logging.Retention.{SparesAll, ClearsAll, retain_removes}

abbrev days : ℕ → ℕ
days n = n * 86400 * 1000000000

abbrev entry : FilePath → ℕ → Result IoError LogFile
entry path modified = ok (record { path = path; modified = ok modified })

abbrev logs : Fs
logs p =
    put
      (put (put (λ q. none) ("logs" ∷ "a" ∷ []) (some (file []))) ("logs" ∷ "b" ∷ [])
        (some (file [])))
      ("logs" ∷ "c" ∷ []) (some dir) p

abbrev disk : Disk
disk = record { fs = logs; fails = λ n. false; calls = 0 }

abbrev tidy : Round
tidy = record {
  files = ok (entry ("logs" ∷ "a" ∷ []) (days 1) ∷ entry ("logs" ∷ "b" ∷ []) (days 3) ∷ []);
  now = ok (days 10);
}

-- The directory stops the task.
abbrev blocked : Round
blocked = record {
  files = ok (entry ("logs" ∷ "c" ∷ []) (days 1) ∷ entry ("logs" ∷ "a" ∷ []) (days 1) ∷ []);
  now = ok (days 10);
}

old_is_removed : (retain (tidy ∷ []) disk).1.fs ("logs" ∷ "a" ∷ []) ≡ none
unfolding retain remove_old remove_file
old_is_removed = refl

directory_stops : (retain (blocked ∷ tidy ∷ []) disk).0 ≡ err other
unfolding retain remove_old remove_file
directory_stops = refl

retain_removes_example :
    SparesAll (tidy ∷ blocked ∷ []) disk (retain (tidy ∷ blocked ∷ []) disk).1
    × (((e : IoError) × ((retain (tidy ∷ blocked ∷ []) disk).0 ≡ err e))
        ⊎ ClearsAll (tidy ∷ blocked ∷ []) disk (retain (tidy ∷ blocked ∷ []) disk).1)
retain_removes_example = retain_removes (tidy ∷ blocked ∷ []) disk
