-- ===== src/Poller/Examples.antt =====
-- Witnesses for the poller: mount 1 with its root, a listing of a document and of a file that was
-- deleted here, and a change since the token "t1".
use stratosync.Common.{
  ℕ, ◌≤◌, ◌≡◌, refl, String, false, none, some, List, [], ◌∷◌, min, max, some_of, str_eq, contains,
}
use stratosync.Types.SyncStatus.{cached}
use stratosync.Types.FileKind.{directory}
use stratosync.Types.SyncError.{network}
use stratosync.Types.Metadata.{RemoteMetadata}
use stratosync.State.Tables.{Db, empty}
use stratosync.State.Files.{NewFileEntry, insert_root}
use stratosync.State.Health.{upsert_mount}
use stratosync.State.Poll.{get_change_token, set_change_token, insert_tombstone}
use stratosync.State.Statement.{at_path, cascade}
use stratosync.Sync.World.{World, Outcome, done, fault, backend}
use stratosync.Poller.Diff.{is_conflict, is_tombstoned, is_unsafe}
use stratosync.Poller.Run.{start, run}
use stratosync.Poller.Full.{Settings, poll_once}
use stratosync.Poller.Delta.{Answers, added, deleted, poll_once_delta}
use stratosync.Poller.Steps.{PollSteps}
use stratosync.Poller.Intervals.{run_lem, wait, streak}
use stratosync.Poller.Refines.{IsAccepted, entries, value, poll_once-PollSteps}
use stratosync.Poller.DeltaSteps.{reported, poll_once_delta-PollSteps}
use stratosync.Poller.Excluded.{poll-excluded}
use stratosync.Poller.Progress.{MovedOn, poll_once_delta-MovedOn}

abbrev pub settings : Settings
settings = record {
  mount_id = 1;
  is_ignored = λ p. str_eq p "build";
  version_max_size = 100;
  version_retention = 3;
  sha256 = λ s. s;
  show = λ n. "1";
  parse = λ s. some 1;
}

abbrev pub entry_at : String → RemoteMetadata
entry_at p = record {
  path = p;
  name = p;
  size = 4;
  mtime = 10;
  is_dir = false;
  etag = some "e1";
  checksum = none;
  mime_type = none;
  item_id = none;
}

abbrev pub root : NewFileEntry
root = record {
  mount_id = 1;
  parent = 1;
  name = "/";
  remote_path = "/";
  kind = directory;
  size = 0;
  mtime = 0;
  etag = none;
  status = cached;
  cache_path = none;
  cache_size = none;
}

abbrev pub mounted : Db
mounted = (upsert_mount "m" "drive:" "/m" "/c" 10 60 empty).1

abbrev pub rooted : Db
rooted = (insert_root root mounted).1

abbrev tokened : Db
tokened = (set_change_token 5 1 "t1" (insert_tombstone 5 1 "gone" 60 rooted).1).1

abbrev world : World
world = record {
  db = tokened;
  files = [];
  objects = [];
  headers = [];
  denied = [];
  sealed = [];
  stuck = [];
}

abbrev pub listing : Outcome (List RemoteMetadata)
listing = done (entry_at "notes.md" ∷ entry_at "gone" ∷ [])

abbrev pub answers : Answers
answers = record {
  list_recursive = listing;
  get_start_token = done "t0";
  changes_since = λ t. done (added (entry_at "notes.md") ∷ deleted "old" none ∷ [], "t2");
}

poll_once-PollSteps_example :
    PollSteps 1
      (IsAccepted settings 9 tokened (entries listing))
      Unit
      tokened
      (poll_once settings 9 listing world).1.db
poll_once-PollSteps_example = poll_once-PollSteps settings 9 listing world

poll_once_delta-PollSteps_example :
    PollSteps 1
      (IsAccepted settings 9 tokened (reported answers (value none (get_change_token 1 tokened).0)))
      Unit
      tokened
      (poll_once_delta settings 9 answers world).1.db
poll_once_delta-PollSteps_example = poll_once_delta-PollSteps settings 9 answers world

poll-excluded_example :
    (some_of (at_path 1 "gone") (poll_once settings 9 listing world).1.db.files ≡ false)
    × (some_of (at_path 1 "gone") (poll_once_delta settings 9 answers world).1.db.files ≡ false)
unfolding empty upsert_mount insert_root set_change_token insert_tombstone get_change_token cascade
    is_conflict is_tombstoned is_unsafe contains
poll-excluded_example =
    poll-excluded settings 9 "gone" listing answers world refl ((λ h. cc), ((λ h. refl), tt))
      ((λ h. cc), ((λ h. refl), ((λ h. cc), tt)))

poll_once_delta-MovedOn_example : MovedOn 1 "t1" "t2" (poll_once_delta settings 9 answers world)
unfolding empty upsert_mount insert_root set_change_token insert_tombstone get_change_token cascade
poll_once_delta-MovedOn_example =
    poll_once_delta-MovedOn settings 9 answers world "t1" "t2"
      (added (entry_at "notes.md") ∷ deleted "old" none ∷ []) refl refl

abbrev polls : List (ℕ × Outcome (Unit {0}))
polls =
    (1, done tt)
    ∷ (70, fault (backend (network "down")))
    ∷ (140, fault (backend (network "down")))
    ∷ (210, fault (backend (network "down")))
    ∷ []

run_lem_example :
    let r = run (λ e. "down") 900 polls (start false 900) in
    (r.current_interval ≡ wait 900 (streak 0 polls))
    × (r.state.current_interval_secs ≡ r.current_interval)
    × (r.state.consecutive_failures ≡ streak 0 polls)
    × (min 900 600 ≤ r.current_interval)
    × (r.current_interval ≤ max 900 600)
run_lem_example = run_lem (λ e. "down") 900 false polls
