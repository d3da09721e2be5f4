-- ===== src/Upload/Examples.antt =====
-- Witnesses for the upload loop: file 7 is written, uploaded, and its first upload fails.
use stratosync.Common.{
  arith, ◌<◌, ℕ, ◌+◌, ◌≤◌, ◌≡◌, refl, String, true, false, Option, some, none, List, [], ◌∷◌, leb,
  ◌==◌, get, length,
}
use stratosync.Config.Window.{TransferWindow}
use stratosync.Types.SyncError.{SyncError, network}
use stratosync.State.Tables.{Db, empty}
use stratosync.Types.SyncStatus.{cached, dirty}
use stratosync.Types.FileKind
use stratosync.State.Files.{
  FileEntry, NewFileEntry, new_row, row_to_entry, insert_root, insert_file, get_by_inode,
}
use stratosync.State.Health.{upsert_mount}
use stratosync.State.Statement.{insert_row, clash, cascade}
use stratosync.Upload.Loop.{
  PendingUpload, secs_until_window_opens, is_ready, is_fsync, write, fsync, window_of, on_trigger,
  Loop, Event, triggered, fired, completed, turn, start,
}
use stratosync.Config.Schedule.{IsWindow}
use stratosync.Upload.Deadline.{deadline, may_run, effective_due_at-is_ready, on_trigger_lem}
use stratosync.Sync.World.{World, done}
use stratosync.Upload.Run.{Job, run_upload}
use stratosync.Upload.Sent.{Delivered, run_upload-Delivered}
use stratosync.Upload.Bounds.{run, in_flight_bound, is_tracked, turn-is_tracked}

abbrev show : SyncError → String
show e = "error"

abbrev resolve : FileEntry → Db → Db
resolve e db = db

-- 22:00 to 06:00
abbrev night : Option TransferWindow
night = some (record { start_min = 1320; end_min = 360 })

abbrev waiting : PendingUpload
waiting = record { due_at = 100; immediate = false }

night_IsWindow : (v : TransferWindow) → night ≡ some v → IsWindow v
night_IsWindow v e = record { start_lt = ground arith; end_lt = ground arith }

effective_due_at-is_ready_example :
    (leb (deadline waiting night 200 720 0) 200
      ≡ is_ready 200 (secs_until_window_opens night 720 0 == 0) waiting)
    × ((t : ℕ)
        → 200 + t < deadline waiting night 200 720 0
        → may_run waiting night 200 720 0 t ≡ false)
effective_due_at-is_ready_example =
    effective_due_at-is_ready waiting night 200 720 0 night_IsWindow (omega arith) (omega arith)

abbrev idle : Loop
idle = start empty

on_trigger_lem_example :
    (p : PendingUpload) × (get 7 (on_trigger 30 2 100 (fsync 7) idle).pending ≡ some p)
    × (p.due_at ≤ 100 + window_of 30 2 (fsync 7))
    × (is_fsync (fsync 7) ≡ true → p.immediate ≡ true)
    × ((q : PendingUpload) → get 7 idle.pending ≡ some q → q.immediate ≡ true → p.immediate ≡ true)
    × ((j : ℕ)
        → (j == 7) ≡ false
        → get j (on_trigger 30 2 100 (fsync 7) idle).pending ≡ get j idle.pending)
on_trigger_lem_example = on_trigger_lem 30 2 100 (fsync 7) idle

abbrev history : List Event
history =
    triggered 0 (write 7)
    ∷ triggered 1 (write 8)
    ∷ fired 40 true
    ∷ completed 50 7 (some (network "down"))
    ∷ []

in_flight_bound_example : length (run show resolve 1 30 2 1 history idle).in_flight ≤ 1
in_flight_bound_example = in_flight_bound show resolve 1 30 2 1 history empty

abbrev written : Loop
written = on_trigger 30 2 0 (write 7) idle

turn-is_tracked_example :
    is_tracked 7 (turn show resolve 1 30 2 1 (completed 50 7 (some (network "down"))) written)
    ≡ true
unfolding on_trigger
turn-is_tracked_example =
    turn-is_tracked show resolve 1 30 2 1 7 (completed 50 7 (some (network "down"))) written refl
      refl

-- The upload of file 3 of mount 1, whose cache file is "/c/f"; the backend takes it.
abbrev job : Job
job = record {
  mount_id = 1;
  version_retention = 2;
  base_max_size = 100;
  text_extensions = "md" ∷ [];
  sha256 = λ s. s;
  lower = λ s. s;
  extension = λ p. some "md";
  file_name = λ p. p;
  is_symlink = λ p. false;
  show = λ e. "error";
  upload = λ p r e w. done (record {
    path = r;
    name = r;
    size = 3;
    mtime = 7;
    is_dir = false;
    etag = some "e2";
    checksum = none;
    mime_type = none;
    item_id = none;
  });
  meanwhile = λ w. w;
}

abbrev root : NewFileEntry
root = record {
  mount_id = 1;
  parent = 1;
  name = "/";
  remote_path = "/";
  kind = FileKind.directory;
  size = 0;
  mtime = 0;
  etag = none;
  status = cached;
  cache_path = none;
  cache_size = none;
}

abbrev local : NewFileEntry
local = record {
  mount_id = 1;
  parent = 1;
  name = "f.md";
  remote_path = "f.md";
  kind = FileKind.file;
  size = 3;
  mtime = 0;
  etag = none;
  status = dirty;
  cache_path = some "/c/f";
  cache_size = some 3;
}

abbrev rooted : Db
rooted = (insert_root root (upsert_mount "m" "drive:" "/m" "/c" 10 60 empty).1).1

abbrev before : World
before = record {
  db = (insert_file local rooted).1;
  files = ("/c/f", "new") ∷ [];
  objects = [];
  headers = [];
  denied = [];
  sealed = [];
  stuck = [];
}

run_upload-Delivered_example :
    Delivered job 2 (row_to_entry (new_row 2 (some 1) local)) "/c/f" (run_upload job 9 2 before)
unfolding empty upsert_mount insert_root insert_file insert_row clash cascade get_by_inode
    row_to_entry
run_upload-Delivered_example =
    run_upload-Delivered job 9 2 (row_to_entry (new_row 2 (some 1) local)) "/c/f" before refl refl
      refl refl refl
