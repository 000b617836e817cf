-- ===== src/Update/Schedule/Tests.antt =====
-- A wait whose first round finds the web server down and whose second takes an update.
use dookie.Base.{
  ℕ, ◌+◌, ◌*◌, ◌≤◌, ◌≡◌, ◌↔◌, refl, true, none, some, [], ◌∷◌, leb, if◌then◌else◌, arith,
}
use dookie.Base.Result.{ok, err}
use dookie.Disk.{dir, create_dir, write_file, touch, read_exact}
use dookie.Update.{PreparedUpdate, message, ◌>>=◌}
use dookie.Update.Archive.{split_from, role_of, stage, take_entry, take_entries, fill, from_archive}
use dookie.Update.Check.{Net, fetch, check_for_update}
use dookie.Update.Download.{read_response}
use dookie.Update.Release.{newer_version, asset_url}
use dookie.Update.Schedule.{
  day, World, Run, retry_after_of, retry_delay, preflight, attempt, attempts, wait_for_update,
}
use dookie.Update.Schedule.Laws.{Passes, IsTaken, preflight_exact}
use dookie.Update.Schedule.Waiting.{
  TakesAt, left_after, wait_for_update_takes, wait_for_update_returns, failed_install_backs_off,
}
use dookie.Update.Schedule.Confined.{wait_for_update_confined}
use dookie.Update.Tests.{old_version, sv, codec, home, disk, net, update}

abbrev down : Net
down = record {
  get = λ url. err (message "offline");
  parse_release = net.parse_release;
  from_utf8 = net.from_utf8;
}

abbrev run : Run
run path args = ok (record { success = true; stdout = "dookie_server 1.1.0 " })

abbrev world : ℕ → World
world t = record { net = if leb 86400 t then net else down; temp = "tmp"; run = run }

preflight_exact_example :
    (preflight sv run update ("-c" ∷ []) ≡ ok tt) ↔ Passes sv ("-c" ∷ []) run update
preflight_exact_example = preflight_exact sv ("-c" ∷ []) run update

taken :
    (wait_for_update sv codec home old_version [] world true none 5 2 disk).0 ≡ some (86405, update)
unfolding wait_for_update retry_delay attempts attempt preflight check_for_update fetch
    newer_version asset_url read_response from_archive fill take_entries take_entry role_of stage
    split_from create_dir write_file touch read_exact ◌>>=◌
taken = refl

wait_for_update_takes_example :
    (true ≡ true)
    × (5 + retry_delay none 5 ≤ 86405)
    × IsTaken sv [] codec home old_version
        (world 86405)
        update
        (wait_for_update sv codec home old_version [] world true none 5 2 disk).1
wait_for_update_takes_example =
    wait_for_update_takes sv codec home old_version [] world true none 5 2 disk 86405 update taken

takes :
    TakesAt sv codec home old_version [] world
      (5 + retry_delay none 5 + 1 * day)
      (left_after sv codec home old_version [] world 1 (5 + retry_delay none 5) disk)
unfolding wait_for_update retry_delay attempts attempt preflight check_for_update fetch
    newer_version asset_url read_response from_archive fill take_entries take_entry role_of stage
    split_from create_dir write_file touch read_exact ◌>>=◌
takes h = ground arith

wait_for_update_returns_example :
    (t : ℕ) × (u : PreparedUpdate) × (t ≤ 5 + retry_delay none 5 + 1 * day)
    × ((wait_for_update sv codec home old_version [] world true none 5 2 disk).0 ≡ some (t, u))
wait_for_update_returns_example =
    wait_for_update_returns sv codec home old_version [] world none 5 1 disk takes

taken_later :
    (wait_for_update sv codec home old_version [] world true (some (retry_after_of 5)) 6 1 disk).0
    ≡ some (86405, update)
unfolding wait_for_update retry_after_of retry_delay attempts attempt preflight check_for_update
    fetch newer_version asset_url read_response from_archive fill take_entries take_entry role_of
    stage split_from create_dir write_file touch read_exact ◌>>=◌
taken_later = refl

failed_install_backs_off_example : (5 + day ≤ 86405) × (retry_delay (some 1000000) 6 ≤ day)
failed_install_backs_off_example =
    failed_install_backs_off sv codec home old_version [] world true (some 1000000) 5 6 1 disk 86405
      update (omega arith) taken_later

wait_for_update_confined_example :
    (wait_for_update sv codec home old_version [] world true none 5 2 disk).1.fs home ≡ some dir
wait_for_update_confined_example =
    wait_for_update_confined sv codec home old_version [] world home (λ t. refl) true none 5 2 disk
