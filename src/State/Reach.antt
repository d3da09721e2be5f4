-- ===== src/State/Reach.antt =====
-- The states of the database: those that calls of the methods, in any order and with any outcome,
-- make of a freshly migrated one.
use stratosync.Common.{ℕ, String, Bool, Option, List}
use stratosync.Types.SyncStatus.{SyncStatus}
use stratosync.State.Tables.{Db, VersionSource, empty}
use stratosync.State.Files
use stratosync.State.Files.{NewFileEntry}
use stratosync.State.Remote
use stratosync.State.Remote.{RemoteEntry}
use stratosync.State.Cache
use stratosync.State.Poll
use stratosync.State.Health
use stratosync.State.Queue
use stratosync.State.Versions

-- One call of a method that writes.
pub data Call (db : Db) : Db → Type 0 where
  insert_root : (e : NewFileEntry) → Call db (Files.insert_root e db).1
  insert_file : (e : NewFileEntry) → Call db (Files.insert_file e db).1
  set_status : (i : ℕ) (s : SyncStatus) → Call db (Files.set_status i s db).1
  set_dirty_size : (i size : ℕ) → Call db (Files.set_dirty_size i size db).1
  set_dirty_with_cache_path :
      (i : ℕ) (path : String) (size : ℕ)
      → Call db (Files.set_dirty_with_cache_path i path size db).1
  set_cached :
      (now i : ℕ) (path : String) (cache_size : ℕ) (etag : Option String) (mtime size : ℕ)
      → Call db (Files.set_cached now i path cache_size etag mtime size db).1
  set_uploaded :
      (now i cache_size : ℕ) (etag : Option String) (mtime size : ℕ)
      → Call db (Files.set_uploaded now i cache_size etag mtime size db).1
  set_evicted : (i : ℕ) → Call db (Files.set_evicted i db).1
  revert_dirty_with_missing_cache :
      (i : ℕ) (path : String) → Call db (Files.revert_dirty_with_missing_cache i path db).1
  touch_lru : (now i : ℕ) → Call db (Files.touch_lru now i db).1
  mark_dir_listed : (now i : ℕ) → Call db (Files.mark_dir_listed now i db).1
  batch_mark_dirs_listed : (now m : ℕ) → Call db (Files.batch_mark_dirs_listed now m db).1
  invalidate_dir : (i : ℕ) → Call db (Files.invalidate_dir i db).1
  delete_entry : (i : ℕ) → Call db (Files.delete_entry i db).1
  rename_entry :
      (i parent : ℕ) (name path : String) (cache : Option String)
      → Call db (Files.rename_entry i parent name path cache db).1
  batch_upsert_remote_files_gen :
      (m : ℕ) (es : List RemoteEntry) (gen : ℕ)
      → Call db (Remote.batch_upsert_remote_files_gen m es gen db).1
  upsert_remote_file_by_id_or_path :
      (m : ℕ) (e : RemoteEntry) (id : Option String) (gen : ℕ)
      → Call db (Remote.upsert_remote_file_by_id_or_path m e id gen db).1
  set_item_id_if_absent : (i : ℕ) (id : String) → Call db (Remote.set_item_id_if_absent i id db).1
  delete_remote_entry_by_path :
      (m : ℕ) (path : String) → Call db (Remote.delete_remote_entry_by_path m path db).1
  delete_remote_entry_by_item_id :
      (m : ℕ) (id : String) → Call db (Remote.delete_remote_entry_by_item_id m id db).1
  clear_cache_for_mount :
      (m : ℕ) (pinned : Bool) → Call db (Cache.clear_cache_for_mount m pinned db).1
  set_pinned : (now i : ℕ) (pinned : Bool) → Call db (Cache.set_pinned now i pinned db).1
  reset_hydrating : Call db (Cache.reset_hydrating db).1
  reset_uploading : Call db (Cache.reset_uploading db).1
  reset_stuck_dirty_directories : Call db (Cache.reset_stuck_dirty_directories db).1
  reset_stuck_dirty_files_without_cache_path :
      Call db (Cache.reset_stuck_dirty_files_without_cache_path db).1
  batch_mark_generation : (is : List ℕ) (gen : ℕ) → Call db (Poll.batch_mark_generation is gen db).1
  delete_stale_entries : (m gen : ℕ) → Call db (Poll.delete_stale_entries m gen db).1
  set_change_token : (now m : ℕ) (token : String) → Call db (Poll.set_change_token now m token db).1
  clear_change_token : (m : ℕ) → Call db (Poll.clear_change_token m db).1
  insert_tombstone :
      (now m : ℕ) (path : String) (ttl : ℕ) → Call db (Poll.insert_tombstone now m path ttl db).1
  remove_tombstone : (m : ℕ) (path : String) → Call db (Poll.remove_tombstone m path db).1
  cleanup_expired_tombstones : (now : ℕ) → Call db (Poll.cleanup_expired_tombstones now db).1
  record_hydration_failure :
      (now m : ℕ) (error : String) → Call db (Health.record_hydration_failure now m error db).1
  record_hydration_success : (m : ℕ) → Call db (Health.record_hydration_success m db).1
  record_upload_failure :
      (now m : ℕ) (error : String) → Call db (Health.record_upload_failure now m error db).1
  record_upload_success : (m : ℕ) → Call db (Health.record_upload_success m db).1
  upsert_mount :
      (name remote path dir : String) (quota secs : ℕ)
      → Call db (Health.upsert_mount name remote path dir quota secs db).1
  delete_mount_entries : (m : ℕ) → Call db (Health.delete_mount_entries m db).1
  enqueue_upload :
      (now i m : ℕ) (path : String) (etag : Option String) (priority : ℕ)
      → Call db (Queue.enqueue_upload now i m path etag priority db).1
  complete_queue_job : (id : ℕ) → Call db (Queue.complete_queue_job id db).1
  fail_queue_job :
      (now id : ℕ) (error : String) (backoff : ℕ)
      → Call db (Queue.fail_queue_job now id error backoff db).1
  fail_queue_job_by_inode :
      (now i : ℕ) (error : String) (backoff : ℕ)
      → Call db (Queue.fail_queue_job_by_inode now i error backoff db).1
  set_base_hash :
      (now i m : ℕ) (hash : String) (size : ℕ)
      → Call db (Versions.set_base_hash now i m hash size db).1
  remove_base_hash : (i m : ℕ) → Call db (Versions.remove_base_hash i m db).1
  insert_version_history :
      (now i m : ℕ) (hash : String) (size : ℕ) (etag : Option String) (source : VersionSource)
      → Call db (Versions.insert_version_history now i m hash size etag source db).1
  prune_version_history : (i keep : ℕ) → Call db (Versions.prune_version_history i keep db).1

pub data Reachable : Db → Type 0 where
  migrated : Reachable empty
  after : {a b : Db} → Reachable a → Call a b → Reachable b
