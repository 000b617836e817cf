-- ===== src/Main/Update.antt =====
-- What an update relies on and leaves.
use dookie.Base.{ℕ, ◌≡◌, String, false, List}
use dookie.Disk.{Disk}
use dookie.MoveJob.{Worker}
use dookie.MoveJob
use dookie.MoveJob.Reached.{Reached}
use dookie.Update.{rollback_incomplete, PreparedUpdate}
use dookie.Update.Install.{any_nul, returned, update_process}
use dookie.Update.Install.Atomic.{IsInstalled}
use dookie.Update.Install.Restores.{server, IsApart, IsOld}
use dookie.Update.Schedule.{retry_after_of}
use dookie.Main.{Ended, channel_closed, did_not_stop, executed, mismatched, restarting}

module _ (u : PreparedUpdate) (apart : IsApart u) (d : Disk) (args : List String)
    (plain : any_nul args ≡ false) (now : ℕ) where
  -- What the end of the branch says of the disk.
  abbrev pub Leaves : Ended × Disk → Type 0
  Leaves (channel_closed, d') = d' ≡ d
  Leaves (did_not_stop, d') = d' ≡ d
  Leaves (executed path, d') = (path ≡ server u) × IsInstalled apart d.fs d'.fs
  Leaves (mismatched left, d') = (update_process u args d).0 ≡ returned (rollback_incomplete left)
  Leaves (restarting time, d') = (time ≡ retry_after_of now) × IsOld u apart d d'.fs
