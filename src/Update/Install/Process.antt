-- ===== src/Update/Install/Process.antt =====
-- server/src/main.rs: the update is installed and the process replaced, or the old binaries stand.
use dookie.Base.{◌≡◌, ◌≢◌, true, List, String, arith}
use dookie.Base.Result.{Result, ok}
use dookie.Disk.{FilePath, IoError, Disk}
use dookie.Update.{UpdateError, PreparedUpdate}
use dookie.Update.Install.{Txn, any_nul, execv, Exec, replaced, exec, update_process}
use dookie.Update.Install.Restores.{server, IsApart, check, closure, done}

module _ (u : PreparedUpdate) (apart : IsApart u) (d : Disk) (args : List String) where
  abbrev process : Exec × Disk
  process = update_process u args d

  abbrev checked_first : Result UpdateError (Unit {0}) × Disk
  checked_first = check u apart d

  abbrev closed : Result UpdateError (Unit {0}) × Txn
  closed = closure u apart d

  module _ (c : checked_first.0 ≡ ok tt) (k : closed.0 ≡ ok tt) where
    abbrev tried : Result IoError (Unit {0}) × Disk
    tried = execv closed.1.installed.server closed.1.disk

    abbrev left : Txn
    left = record { installed = closed.1.installed; disk = tried.1 }

    exec_refused : {p : FilePath} → any_nul args ≡ true → process.0 ≢ replaced p
    unfolding update_process exec
    exec_refused a = ground (arith, done u apart d c k)
