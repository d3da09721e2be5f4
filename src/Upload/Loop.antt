-- ===== src/Upload/Loop.antt =====
-- `upload_loop`: its maps, and one function for each arm of its `select!`. An `Instant` is a number
-- of seconds. `get_by_inode` and the conflict resolver are called where the loop calls them; desktop
-- notifications and log lines are left out, and so is the reply to a dashboard snapshot, which
-- changes nothing.
use stratosync.Common.{
  ℕ, ◌+◌, ◌==◌, String, Bool, true, false, ◌&&◌, ◌||◌, Option, none, some, List, [], ◌∷◌, leb, min,
  max, is_none, unwrap_or, if◌then◌else◌, length, Map, get, put, remove, map, select,
}
use stratosync.Config.Window.{TransferWindow, seconds_until_open}
use stratosync.Types.SyncError.{SyncError, is_retryable}
use stratosync.Types.SyncStatus.{dirty}
use stratosync.State.Tables.{Db, Result, ok}
use stratosync.State.Files.{FileEntry, get_by_inode, set_status}
use stratosync.State.Queue.{fail_queue_job_by_inode}
use stratosync.State.Health.{record_upload_success, record_upload_failure}

pub record PendingUpload : Type 0 where
  pub due_at : ℕ
  pub immediate : Bool

unfoldable pub effective_due_at : PendingUpload → Option TransferWindow → ℕ → ℕ → ℕ
effective_due_at p window now_tokio secs_until_open =
    if p.immediate || is_none window || secs_until_open == 0
    then p.due_at
    else max p.due_at (now_tokio + secs_until_open)

-- At second `now_sec` of minute `now_min` of the day.
unfoldable pub secs_until_window_opens : Option TransferWindow → ℕ → ℕ → ℕ
secs_until_window_opens none now_min now_sec = 0
secs_until_window_opens (some w) now_min now_sec = seconds_until_open w now_min now_sec

-- The variables of the loop. `in_flight` holds the inodes of the running tasks.
pub record Loop : Type 0 where
  pub pending : Map PendingUpload
  pub in_flight : List ℕ
  pub in_flight_started : Map ℕ
  pub in_flight_first_started : Map ℕ
  pub attempts : Map ℕ
  pub in_flight_progress : Map ℕ
  pub db : Db

pub data UploadTrigger : Type 0 where
  write close fsync : ℕ → UploadTrigger

abbrev pub inode_of : UploadTrigger → ℕ
inode_of (write i) = i
inode_of (close i) = i
inode_of (fsync i) = i

abbrev pub is_fsync : UploadTrigger → Bool
is_fsync (fsync i) = true
is_fsync _ = false

module _ (debounce close_debounce : ℕ) where
  abbrev pub window_of : UploadTrigger → ℕ
  window_of (write i) = debounce
  window_of (close i) = close_debounce
  window_of (fsync i) = 0

  -- A pending entry that a trigger finds: a window as long as a write's sets the deadline anew.
  abbrev retriggered : ℕ → UploadTrigger → PendingUpload → PendingUpload
  retriggered now t p = record {
    due_at =
        if window_of t == debounce then now + window_of t else min p.due_at (now + window_of t);
    immediate = p.immediate || is_fsync t;
  }

  abbrev pub merged : ℕ → UploadTrigger → Option PendingUpload → PendingUpload
  merged now t none = record { due_at = now + window_of t; immediate = is_fsync t }
  merged now t (some p) = retriggered now t p

  -- An inbound trigger.
  unfoldable pub on_trigger : ℕ → UploadTrigger → Loop → Loop
  on_trigger now t s = record s {
    pending = put (inode_of t) (merged now t (get (inode_of t) s.pending)) s.pending;
  }

abbrev pub is_ready : ℕ → Bool → PendingUpload → Bool
is_ready now window_open p = leb p.due_at now && (p.immediate || window_open)

unfoldable ready : ℕ → Bool → Map PendingUpload → List ℕ
ready now window_open pending = map (λ e. e.0) (select (λ e. is_ready now window_open e.1) pending)

abbrev pub launch : ℕ → ℕ → Loop → Loop
launch now i s = record s {
  pending = remove i s.pending;
  in_flight_progress = put i 0 s.in_flight_progress;
  in_flight = i ∷ s.in_flight;
  in_flight_started = put i now s.in_flight_started;
  in_flight_first_started =
      put i (unwrap_or (get i s.in_flight_first_started) now) s.in_flight_first_started;
  attempts = put i (unwrap_or (get i s.attempts) 0 + 1) s.attempts;
}

-- The `for` loop over the ready inodes.
unfoldable pub launch_all : ℕ → ℕ → List ℕ → Loop → Loop
launch_all max_concurrent now [] s = s
launch_all max_concurrent now (i ∷ is) s =
    if leb max_concurrent (length s.in_flight)
    then s
    else launch_all max_concurrent now is (launch now i s)

-- A deadline expired. At capacity this arm never fires.
unfoldable pub dispatch : ℕ → ℕ → Bool → Loop → Loop
unfolding ready launch_all
dispatch max_concurrent now window_open s =
    if leb max_concurrent (length s.in_flight)
    then s
    else launch_all max_concurrent now (ready now window_open s.pending) s

-- One task of the inode leaves the `JoinSet`.
abbrev pub remove_one : ℕ → List ℕ → List ℕ
remove_one i [] = []
remove_one i (j ∷ js) = let rest = remove_one i js in if j == i then js else j ∷ rest

abbrev clear_all : ℕ → Loop → Loop
clear_all i s = record s {
  in_flight_started = remove i s.in_flight_started;
  in_flight_first_started = remove i s.in_flight_first_started;
  attempts = remove i s.attempts;
  in_flight_progress = remove i s.in_flight_progress;
}

abbrev pub on_db : (Db → Db) → Loop → Loop
on_db f s = record s { db = f s.db }

-- The text of an error (for a conflict the one that the loop formats), and the resolver of conflicts
-- as it acts on the database.
module _ (show : SyncError → String) (resolve : FileEntry → Db → Db) (mount_id debounce : ℕ) where
  abbrev resolved : Result (Option FileEntry) → Db → Db
  resolved (ok (some entry)) db = resolve entry db
  resolved _ db = db

  abbrev pub failed : ℕ → SyncError → Db → Db
  failed now e db = (record_upload_failure now mount_id (show e) db).1

  abbrev on_retryable : ℕ → ℕ → SyncError → Loop → Loop
  on_retryable now i e s = record s {
    in_flight_started = remove i s.in_flight_started;
    in_flight_progress = remove i s.in_flight_progress;
    db = failed now e (fail_queue_job_by_inode now i (show e) 30 s.db).1;
    pending = put i (record { due_at = now + debounce; immediate = false }) s.pending;
  }

  abbrev on_fatal : ℕ → ℕ → SyncError → Loop → Loop
  on_fatal now i e s = on_db (λ db. (set_status i dirty (failed now e db)).1) (clear_all i s)

  abbrev on_conflict : ℕ → ℕ → SyncError → Loop → Loop
  on_conflict now i e s =
      on_db (λ db. let db' = failed now e db in resolved (get_by_inode i db').0 db') (clear_all i s)

  abbrev pub settled : ℕ → ℕ → Option SyncError → Loop → Loop
  settled now i none s = on_db (λ db. (record_upload_success mount_id db).1) (clear_all i s)
  settled now i (some (SyncError.conflict local remote)) s =
      on_conflict now i (SyncError.conflict local remote) s
  settled now i (some e) s = if is_retryable e then on_retryable now i e s else on_fatal now i e s

  -- A completed upload, `none` for `Ok(())`.
  unfoldable pub on_completed : ℕ → ℕ → Option SyncError → Loop → Loop
  on_completed now i outcome s =
      settled now i outcome (record s { in_flight = remove_one i s.in_flight })

-- A task that panicked: only its place in the `JoinSet` is freed.
unfoldable pub on_panicked : ℕ → Loop → Loop
on_panicked i s = record s { in_flight = remove_one i s.in_flight }

-- What the loop waits for.
pub data Event : Type 0 where
  triggered : ℕ → UploadTrigger → Event
  fired : ℕ → Bool → Event
  completed : ℕ → ℕ → Option SyncError → Event
  panicked : ℕ → Event

module _ (show : SyncError → String) (resolve : FileEntry → Db → Db)
    (mount_id debounce close_debounce max_concurrent : ℕ) where
  -- One turn of the loop.
  unfoldable pub turn : Event → Loop → Loop
  unfolding on_trigger dispatch on_completed on_panicked
  turn (triggered now t) s = on_trigger debounce close_debounce now t s
  turn (fired now window_open) s = dispatch max_concurrent now window_open s
  turn (completed now i outcome) s = on_completed show resolve mount_id debounce now i outcome s
  turn (panicked i) s = on_panicked i s

abbrev pub start : Db → Loop
start db = record {
  pending = [];
  in_flight = [];
  in_flight_started = [];
  in_flight_first_started = [];
  attempts = [];
  in_flight_progress = [];
  db = db;
}
