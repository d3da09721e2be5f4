-- ===== src/Fuse/Hydrate.antt =====
-- `do_hydrate` of crates/stratosync-daemon/src/fuse/mod.rs: the download of a file into the cache. The
-- temporary file is a file of its own, which no other path names; it is not part of the state.
-- The snapshot of the base version, which the code hands to another thread, is taken at once. A
-- file that was just renamed has metadata.
use Prim.Native.String
use stratosync.Common.{
  ℕ, ◌+◌, ◌%◌, ◌^◌, String, Bool, true, false, not, Option, none, some, List, [], ◌++◌, map, len,
  lookup, store, unwrap_or, if◌then◌else◌, Map, get, put, remove,
}
use stratosync.Types.SyncStatus.{remote}
use stratosync.Types.SyncError.{SyncError, not_found, fatal, io, other, is_retryable}
use stratosync.Types.Metadata.{RemoteMetadata}
use stratosync.State.Tables.{SqlError}
use stratosync.State.Files.{FileEntry, set_cached, set_status, delete_entry}
use stratosync.State.Remote.{set_item_id_if_absent}
use stratosync.State.Versions.{set_base_hash}
use stratosync.State.Health.{record_hydration_success, record_hydration_failure}
use stratosync.Sync.World.{
  World, Act, Outcome, Fault, done, fault, backend, return, logged, attempt, on_db, has_text, ◌>>=◌,
  ◌>>◌,
}
use stratosync.Sync.BaseStore.{store_base, is_text_mergeable}
use stratosync.Upload.Run.{as_fatal}
use stratosync.Fuse.Handler.{Reply, okay, refused}
use stratosync.Fuse.Names.{Os, safe_cache_path}

-- `ActiveHydration`
pub record ActiveHydration : Type 0 where
  pub path : String
  pub size_bytes : ℕ
  pub started_at_unix : ℕ
  pub first_started_unix : ℕ
  pub attempt : ℕ

-- `HydrationTracker`, the channels that wait for an inode, and the channels that were told how the
-- hydration ended.
pub record Hydrations : Type 0 where
  pub world : World
  pub in_flight : Map ActiveHydration
  pub first_started : Map ℕ
  pub attempts : Map ℕ
  pub waiters : Map (List ℕ)
  pub next_channel : ℕ
  pub told : List (ℕ × Bool)

-- The configuration, the answers of the backend, and what the code takes from its libraries.
-- `meanwhile` is what other tasks do to the world while the backend downloads, and `others` what they do to the
-- tracker and the channels from the start of the hydration until it tells its channels: a task that
-- finds the row hydrating adds its channel there.
pub record Hydrator : Type 0 where
  pub os : Os
  pub cache_dir : String
  pub base_max_size : Option ℕ
  pub text_extensions : List String
  pub sha256 : String → String
  pub lower : String → String
  pub extension : String → Option String
  pub file_name : String → String
  pub show : SqlError → String
  pub show_error : SyncError → String
  pub download : String → World → Outcome String
  pub stat : String → Outcome RemoteMetadata
  pub meanwhile : World → World
  pub others : Hydrations → Hydrations

pub record Ending : Type 0 where
  pub result : Outcome (Unit {0})
  pub stale_path_pruned : Bool

abbrev pub is_done : {A : Type 0} → Outcome A → Bool
is_done (done a) = true
is_done (fault e) = false

abbrev pub error_of : Fault → SyncError
error_of (backend e) = e
error_of _ = other ""

module _ (h : Hydrator) (now : ℕ) (e : FileEntry) where
  abbrev pub downloaded : Act String
  downloaded w = (h.download e.remote_path w, h.meanwhile w)

  -- The directories above the path, and the rename of the temporary file.
  abbrev pub place : String → String → Act Unit
  place path content w =
      if has_text path w.denied
      then (fault (backend (io path)), w)
      else (done tt, record w { files = store path content w.files })

  abbrev pub keep_base : String → ℕ → Option String → Act Unit
  keep_base path size content =
      if is_text_mergeable h.lower (h.extension path) (h.file_name path) content size
        (unwrap_or h.base_max_size 10485760) h.text_extensions
      then logged
          (do hash ← store_base h.sha256 path; on_db (set_base_hash now e.inode e.mount_id hash 0))
      else return tt

  abbrev pub arrived : String → String → Act Unit
  arrived path content = do
    place path content
    as_fatal h.show (set_cached now e.inode path (len content) e.etag e.mtime e.size)
    λ w. keep_base path (len content) (lookup path w.files) w

  abbrev pub fetched : String → Act Unit
  fetched path = do content ← downloaded; arrived path content

  abbrev pub missing : String → Bool → Ending
  missing message pruned = record {
    result = fault (
        backend (
          not_found
            (String.◌++◌ message (String.◌++◌ " (path: " (String.◌++◌ e.remote_path ")")))));
    stale_path_pruned = pruned;
  }

  abbrev pub backfill : Option String → Act Unit
  backfill none = return tt
  backfill (some id) = logged (on_db (set_item_id_if_absent e.inode id))

  -- The one-shot stat after a download that did not find the file.
  abbrev pub verified : String → Outcome RemoteMetadata → Act Ending
  verified message (fault (backend (not_found m))) =
      attempt (on_db (delete_entry e.inode)) (λ o. return (missing message (is_done o)))
  verified message (done meta) = do backfill meta.item_id; return (missing message false)
  verified message (fault x) = return (missing message false)

  abbrev pub heal : Outcome (Unit {0}) → Act Ending
  heal (fault (backend (not_found message))) = verified message (h.stat e.remote_path)
  heal r = return (record { result = r; stale_path_pruned = false })

  abbrev pub roll_back : Bool → Act Unit
  roll_back true = return tt
  roll_back false = logged (on_db (set_status e.inode remote))

  abbrev pub recorded : Bool → Outcome (Unit {0}) → Act Unit
  recorded pruned (done u) = logged (on_db (record_hydration_success e.mount_id))
  recorded pruned (fault x) = do
    roll_back pruned
    logged (on_db (record_hydration_failure now e.mount_id (h.show_error (error_of x))))

  -- Everything but the tracker and the waiters.
  unfoldable pub hydrate_row : String → Act Ending
  hydrate_row path =
      attempt (fetched path)
        λ r. (do end ← heal r; recorded end.stale_path_pruned end.result; return end)

  -- The attempt is registered; the first start is kept over attempts.
  abbrev pub started : Hydrations → Hydrations
  started s =
      let first = unwrap_or (get e.inode s.first_started) now in
      let attempt = (unwrap_or (get e.inode s.attempts) 0 + 1) % 2 ^ 32 in
      record s {
        first_started = put e.inode first s.first_started;
        attempts = put e.inode attempt s.attempts;
        in_flight =
            put e.inode
              (record {
                path = e.remote_path;
                size_bytes = e.size;
                started_at_unix = now;
                first_started_unix = first;
                attempt = attempt;
              })
              s.in_flight;
      }

  abbrev pub is_terminal : Bool → Outcome (Unit {0}) → Bool
  is_terminal pruned (done u) = true
  is_terminal pruned (fault (backend (not_found m))) = pruned
  is_terminal pruned (fault x) = not (is_retryable (error_of x))

  abbrev pub untracked : Bool → Hydrations → Hydrations
  untracked terminal s =
      if terminal
      then record s {
        in_flight = remove e.inode s.in_flight;
        first_started = remove e.inode s.first_started;
        attempts = remove e.inode s.attempts;
      }
      else record s { in_flight = remove e.inode s.in_flight }

  -- Each channel that waits is told whether the hydration went well.
  abbrev pub tell : Bool → Hydrations → Hydrations
  tell good s = record s {
    waiters = remove e.inode s.waiters;
    told = s.told ++ map (λ c. (c, good)) (unwrap_or (get e.inode s.waiters) []);
  }

  abbrev pub ended : Outcome Ending → Hydrations → Outcome (Unit {0}) × Hydrations
  ended (fault x) s = (fault x, s)
  ended (done end) s = (
    end.result,
    tell (is_done end.result) (untracked (is_terminal end.stale_path_pruned end.result) s),
  )

  abbrev pub at_path : String → Hydrations → Outcome (Unit {0}) × Hydrations
  at_path path s =
      let (r, w) = hydrate_row path s.world in ended r (record (h.others (started s)) { world = w })

  abbrev pub checked : Reply String → Hydrations → Outcome (Unit {0}) × Hydrations
  checked (refused c) s = (fault (backend (fatal "unsafe cache path")), s)
  checked (okay path) s = at_path path s

  -- An unsafe path ends it before anything is registered.
  unfoldable pub do_hydrate : Hydrations → Outcome (Unit {0}) × Hydrations
  do_hydrate s = checked (safe_cache_path h.os h.cache_dir e.remote_path) s
