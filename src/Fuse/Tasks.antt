-- ===== src/Fuse/Tasks.antt =====
-- What the handlers of crates/stratosync-daemon/src/fuse/write_ops.rs spawn. The remote is a type `R`
-- with the calls of the `Backend` trait.
use stratosync.Common.{String, Bool, true, false, Option, none, some, if◌then◌else◌, ℕ}
use stratosync.Types.SyncError.{not_found}
use stratosync.State.Poll.{remove_tombstone}
use stratosync.Sync.World.{Outcome, done, fault, backend, logged, on_db}
use stratosync.Conflict.Site.{Doing, trying, finished, locally, ◌>>◌}
use stratosync.Fuse.Handler.{Task, make_dir, delete_file, delete_dir, move_file}

pub record Remote (R : Type 0) : Type 0 where
  pub mkdir : String → R → Outcome (Unit {0}) × R
  pub delete : String → R → Outcome (Unit {0}) × R
  pub rmdir : String → R → Outcome (Unit {0}) × R
  pub rename : String → String → R → Outcome (Unit {0}) × R

-- A call of the remote; its outcome is matched on.
abbrev pub calling : {R : Type 0} → (R → Outcome (Unit {0}) × R) → Doing R Unit
calling f s = let (o, r) = f s.remote in (o, record s { remote = r })

-- `Ok(()) | Err(SyncError::NotFound(_))`
abbrev pub is_gone : Outcome (Unit {0}) → Bool
is_gone (done u) = true
is_gone (fault (backend (not_found m))) = true
is_gone (fault e) = false

module _ {R : Type 0} (b : Remote R) (mount_id : ℕ) where
  abbrev pub forget : String → Doing R Unit
  forget path = locally (logged (on_db (remove_tombstone mount_id path)))

  abbrev pub forget_if_gone : String → Outcome (Unit {0}) → Doing R Unit
  forget_if_gone path o = if is_gone o then forget path else finished tt

  abbrev pub delete_dest : Option String → Doing R Unit
  delete_dest none = finished tt
  delete_dest (some path) = trying (calling (b.delete path)) (λ o. finished tt)

  -- Errors are logged.
  unfoldable pub run_task : Task → Doing R Unit
  run_task (make_dir path) = trying (calling (b.mkdir path)) (λ o. finished tt)
  run_task (delete_file path) = trying (calling (b.delete path)) (forget_if_gone path)
  run_task (delete_dir path) = trying (calling (b.rmdir path)) (forget_if_gone path)
  run_task (move_file dest true old new) = do
    delete_dest dest
    trying (calling (b.rename old new)) (λ o. forget old)
  run_task (move_file dest false old new) = delete_dest dest
