-- ===== src/Update/Install/Tests.antt =====
-- Installations at concrete disks, with and without failing calls, and the theorems at them.
use dookie.Base.{ℕ, refl, Bool, false, none, some, [], ◌∷◌, ◌==◌}
use dookie.Disk.Paths.{ne_by_test}
use dookie.Disk.{FilePath, file, Fs, put, Disk, rename, remove_file}
use dookie.Update.{PreparedUpdate}
use dookie.Update.Install.{
  install, exec, update_process, Exec, join, check_all, check_regular, transaction, replace_all,
  replace_binary, close, sync_dir, abandon, rollback, restore_all, restore, drop_installed,
}
use dookie.Update.Install.Restores.{IsApart}

abbrev home : FilePath
home = "usr" ∷ "bin" ∷ []

abbrev pub prepared : PreparedUpdate
prepared = record {
  staging = "usr" ∷ "bin" ∷ ".dookie-update-x" ∷ [];
  install_dir = home;
  version = record { major = 1; minor = 2; patch = 3; pre = ""; build = "" };
}

abbrev nothing : Fs
nothing _ = none

-- An old server and no client, with the new pair staged.
abbrev files : Fs
files =
    put
      (put (put nothing (join home "dookie_server") (some (file (1 ∷ []))))
        ("usr" ∷ "bin" ∷ ".dookie-update-x" ∷ "dookie_server" ∷ []) (some (file (2 ∷ []))))
      ("usr" ∷ "bin" ∷ ".dookie-update-x" ∷ "dookiec" ∷ []) (some (file (3 ∷ [])))

abbrev pub never : ℕ → Bool
never n = false

-- The seventh call, the renaming of the staged client, fails.
abbrev once : ℕ → Bool
once n = n == 6

abbrev pub disk_of : (ℕ → Bool) → Disk
disk_of fails = record { fs = files; fails = fails; calls = 0 }

pub apart : IsApart prepared
apart = record {
  s1d1 = ne_by_test _ _ refl;
  s1b1 = ne_by_test _ _ refl;
  s1s2 = ne_by_test _ _ refl;
  s1d2 = ne_by_test _ _ refl;
  d1b1 = ne_by_test _ _ refl;
  d1s2 = ne_by_test _ _ refl;
  d1d2 = ne_by_test _ _ refl;
  d1b2 = ne_by_test _ _ refl;
  b1s2 = ne_by_test _ _ refl;
  b1d2 = ne_by_test _ _ refl;
  b1b2 = ne_by_test _ _ refl;
  s2d2 = ne_by_test _ _ refl;
  s2b2 = ne_by_test _ _ refl;
  d2b2 = ne_by_test _ _ refl;
  d1_outside = refl;
  b1_outside = refl;
  d2_outside = refl;
  b2_outside = refl;
}

-- Its line names all that a run computes with.
run : Disk → Exec × Disk
unfolding update_process install exec check_all check_regular transaction replace_all replace_binary
    rename close sync_dir abandon rollback restore_all restore remove_file drop_installed
run = update_process prepared []
