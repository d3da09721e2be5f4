-- ===== src/State/Invariant.antt =====
-- Every call keeps the promises of the schema, and so every reachable state satisfies them.
use stratosync.Common.{ℕ, String, Option, refl, arith}
use stratosync.State.Tables.{Db, VersionSource, empty}
use stratosync.State.Valid.{IsValid}
use stratosync.State.Preserve.{Keeps, insert_root-IsValid}
use stratosync.State.Keeps.{Keeps-elsewhere, touch_lru-IsValid}
use stratosync.State.Methods.{
  batch_mark_dirs_listed-IsValid, clear_cache_for_mount-IsValid, delete_entry-IsValid,
  delete_mount_entries-IsValid, fail_queue_job_by_inode-IsValid, insert_file-IsValid,
  invalidate_dir-IsValid, mark_dir_listed-IsValid, rename_entry-IsValid, reset_hydrating-IsValid,
  reset_stuck_dirty_directories-IsValid, reset_stuck_dirty_files_without_cache_path-IsValid,
  reset_uploading-IsValid, revert_dirty_with_missing_cache-IsValid, set_cached-IsValid,
  set_dirty_size-IsValid, set_dirty_with_cache_path-IsValid, set_evicted-IsValid,
  set_pinned-IsValid, set_status-IsValid, set_uploaded-IsValid,
}
use stratosync.State.RemoteKeeps.{
  batch_mark_generation-IsValid, batch_upsert_remote_files_gen-IsValid,
  delete_remote_entry_by_item_id-IsValid, delete_remote_entry_by_path-IsValid,
  delete_stale_entries-IsValid, set_item_id_if_absent-IsValid,
  upsert_remote_file_by_id_or_path-IsValid,
}
use stratosync.State.Poll
use stratosync.State.Health
use stratosync.State.Queue
use stratosync.State.Versions
use stratosync.State.Reach.{Call, Reachable, migrated, after}

set_change_token-IsValid :
    (now m : ℕ) (token : String) → Keeps IsValid (Poll.set_change_token now m token)
unfolding Poll.set_change_token
set_change_token-IsValid now m token =
    Keeps-elsewhere _ (λ db. ground arith) (λ db. ground arith) (λ db. ground arith)

clear_change_token-IsValid : (m : ℕ) → Keeps IsValid (Poll.clear_change_token m)
unfolding Poll.clear_change_token
clear_change_token-IsValid m =
    Keeps-elsewhere _ (λ db. ground arith) (λ db. ground arith) (λ db. ground arith)

insert_tombstone-IsValid :
    (now m : ℕ) (path : String) (ttl : ℕ) → Keeps IsValid (Poll.insert_tombstone now m path ttl)
unfolding Poll.insert_tombstone
insert_tombstone-IsValid now m path ttl =
    Keeps-elsewhere _ (λ db. ground arith) (λ db. ground arith) (λ db. ground arith)

remove_tombstone-IsValid : (m : ℕ) (path : String) → Keeps IsValid (Poll.remove_tombstone m path)
unfolding Poll.remove_tombstone
remove_tombstone-IsValid m path =
    Keeps-elsewhere _ (λ db. ground arith) (λ db. ground arith) (λ db. ground arith)

cleanup_expired_tombstones-IsValid : (now : ℕ) → Keeps IsValid (Poll.cleanup_expired_tombstones now)
unfolding Poll.cleanup_expired_tombstones
cleanup_expired_tombstones-IsValid now =
    Keeps-elsewhere _ (λ db. ground arith) (λ db. ground arith) (λ db. ground arith)

record_hydration_failure-IsValid :
    (now m : ℕ) (error : String) → Keeps IsValid (Health.record_hydration_failure now m error)
unfolding Health.record_hydration_failure Health.upsert_health
record_hydration_failure-IsValid now m error =
    Keeps-elsewhere _ (λ db. ground arith) (λ db. ground arith) (λ db. ground arith)

record_hydration_success-IsValid : (m : ℕ) → Keeps IsValid (Health.record_hydration_success m)
unfolding Health.record_hydration_success Health.upsert_health
record_hydration_success-IsValid m =
    Keeps-elsewhere _ (λ db. ground arith) (λ db. ground arith) (λ db. ground arith)

record_upload_failure-IsValid :
    (now m : ℕ) (error : String) → Keeps IsValid (Health.record_upload_failure now m error)
unfolding Health.record_upload_failure Health.upsert_health
record_upload_failure-IsValid now m error =
    Keeps-elsewhere _ (λ db. ground arith) (λ db. ground arith) (λ db. ground arith)

record_upload_success-IsValid : (m : ℕ) → Keeps IsValid (Health.record_upload_success m)
unfolding Health.record_upload_success Health.upsert_health
record_upload_success-IsValid m =
    Keeps-elsewhere _ (λ db. ground arith) (λ db. ground arith) (λ db. ground arith)

upsert_mount-IsValid :
    (name remote path dir : String) (quota secs : ℕ)
    → Keeps IsValid (Health.upsert_mount name remote path dir quota secs)
unfolding Health.upsert_mount
upsert_mount-IsValid name remote path dir quota secs =
    Keeps-elsewhere _ (λ db. ground arith) (λ db. ground arith) (λ db. ground arith)

enqueue_upload-IsValid :
    (now i m : ℕ) (path : String) (etag : Option String) (priority : ℕ)
    → Keeps IsValid (Queue.enqueue_upload now i m path etag priority)
unfolding Queue.enqueue_upload
enqueue_upload-IsValid now i m path etag priority =
    Keeps-elsewhere _ (λ db. ground arith) (λ db. ground arith) (λ db. ground arith)

complete_queue_job-IsValid : (id : ℕ) → Keeps IsValid (Queue.complete_queue_job id)
unfolding Queue.complete_queue_job
complete_queue_job-IsValid id =
    Keeps-elsewhere _ (λ db. ground arith) (λ db. ground arith) (λ db. ground arith)

fail_queue_job-IsValid :
    (now id : ℕ) (error : String) (backoff : ℕ)
    → Keeps IsValid (Queue.fail_queue_job now id error backoff)
unfolding Queue.fail_queue_job
fail_queue_job-IsValid now id error backoff =
    Keeps-elsewhere _ (λ db. ground arith) (λ db. ground arith) (λ db. ground arith)

set_base_hash-IsValid :
    (now i m : ℕ) (hash : String) (size : ℕ)
    → Keeps IsValid (Versions.set_base_hash now i m hash size)
unfolding Versions.set_base_hash
set_base_hash-IsValid now i m hash size =
    Keeps-elsewhere _ (λ db. ground arith) (λ db. ground arith) (λ db. ground arith)

remove_base_hash-IsValid : (i m : ℕ) → Keeps IsValid (Versions.remove_base_hash i m)
unfolding Versions.remove_base_hash
remove_base_hash-IsValid i m =
    Keeps-elsewhere _ (λ db. ground arith) (λ db. ground arith) (λ db. ground arith)

insert_version_history-IsValid :
    (now i m : ℕ) (hash : String) (size : ℕ) (etag : Option String) (source : VersionSource)
    → Keeps IsValid (Versions.insert_version_history now i m hash size etag source)
unfolding Versions.insert_version_history
insert_version_history-IsValid now i m hash size etag source =
    Keeps-elsewhere _ (λ db. ground arith) (λ db. ground arith) (λ db. ground arith)

prune_version_history-IsValid : (i keep : ℕ) → Keeps IsValid (Versions.prune_version_history i keep)
unfolding Versions.prune_version_history
prune_version_history-IsValid i keep =
    Keeps-elsewhere _ (λ db. ground arith) (λ db. ground arith) (λ db. ground arith)

Call-IsValid : {a b : Db} → Call a b → IsValid a → IsValid b
Call-IsValid (Call.insert_root e) v = (insert_root-IsValid e).at _ v
Call-IsValid (Call.insert_file e) v = (insert_file-IsValid e).at _ v
Call-IsValid (Call.set_status i s) v = (set_status-IsValid i s).at _ v
Call-IsValid (Call.set_dirty_size i size) v = (set_dirty_size-IsValid i size).at _ v
Call-IsValid (Call.set_dirty_with_cache_path i path size) v =
    (set_dirty_with_cache_path-IsValid i path size).at _ v
Call-IsValid (Call.set_cached now i path cache_size etag mtime size) v =
    (set_cached-IsValid now i path cache_size etag mtime size).at _ v
Call-IsValid (Call.set_uploaded now i cache_size etag mtime size) v =
    (set_uploaded-IsValid now i cache_size etag mtime size).at _ v
Call-IsValid (Call.set_evicted i) v = (set_evicted-IsValid i).at _ v
Call-IsValid (Call.revert_dirty_with_missing_cache i path) v =
    (revert_dirty_with_missing_cache-IsValid i path).at _ v
Call-IsValid (Call.touch_lru now i) v = (touch_lru-IsValid now i).at _ v
Call-IsValid (Call.mark_dir_listed now i) v = (mark_dir_listed-IsValid now i).at _ v
Call-IsValid (Call.batch_mark_dirs_listed now m) v = (batch_mark_dirs_listed-IsValid now m).at _ v
Call-IsValid (Call.invalidate_dir i) v = (invalidate_dir-IsValid i).at _ v
Call-IsValid (Call.delete_entry i) v = (delete_entry-IsValid i).at _ v
Call-IsValid (Call.rename_entry i parent name path cache) v =
    (rename_entry-IsValid i parent name path cache).at _ v
Call-IsValid (Call.batch_upsert_remote_files_gen m es gen) v =
    (batch_upsert_remote_files_gen-IsValid m es gen).at _ v
Call-IsValid (Call.upsert_remote_file_by_id_or_path m e id gen) v =
    (upsert_remote_file_by_id_or_path-IsValid m e id gen).at _ v
Call-IsValid (Call.set_item_id_if_absent i id) v = (set_item_id_if_absent-IsValid i id).at _ v
Call-IsValid (Call.delete_remote_entry_by_path m path) v =
    (delete_remote_entry_by_path-IsValid m path).at _ v
Call-IsValid (Call.delete_remote_entry_by_item_id m id) v =
    (delete_remote_entry_by_item_id-IsValid m id).at _ v
Call-IsValid (Call.clear_cache_for_mount m pinned) v =
    (clear_cache_for_mount-IsValid m pinned).at _ v
Call-IsValid (Call.set_pinned now i pinned) v = (set_pinned-IsValid now i pinned).at _ v
Call-IsValid Call.reset_hydrating v = reset_hydrating-IsValid.at _ v
Call-IsValid Call.reset_uploading v = reset_uploading-IsValid.at _ v
Call-IsValid Call.reset_stuck_dirty_directories v = reset_stuck_dirty_directories-IsValid.at _ v
Call-IsValid Call.reset_stuck_dirty_files_without_cache_path v =
    reset_stuck_dirty_files_without_cache_path-IsValid.at _ v
Call-IsValid (Call.batch_mark_generation is gen) v = (batch_mark_generation-IsValid is gen).at _ v
Call-IsValid (Call.delete_stale_entries m gen) v = (delete_stale_entries-IsValid m gen).at _ v
Call-IsValid (Call.set_change_token now m token) v = (set_change_token-IsValid now m token).at _ v
Call-IsValid (Call.clear_change_token m) v = (clear_change_token-IsValid m).at _ v
Call-IsValid (Call.insert_tombstone now m path ttl) v =
    (insert_tombstone-IsValid now m path ttl).at _ v
Call-IsValid (Call.remove_tombstone m path) v = (remove_tombstone-IsValid m path).at _ v
Call-IsValid (Call.cleanup_expired_tombstones now) v =
    (cleanup_expired_tombstones-IsValid now).at _ v
Call-IsValid (Call.record_hydration_failure now m error) v =
    (record_hydration_failure-IsValid now m error).at _ v
Call-IsValid (Call.record_hydration_success m) v = (record_hydration_success-IsValid m).at _ v
Call-IsValid (Call.record_upload_failure now m error) v =
    (record_upload_failure-IsValid now m error).at _ v
Call-IsValid (Call.record_upload_success m) v = (record_upload_success-IsValid m).at _ v
Call-IsValid (Call.upsert_mount name remote path dir quota secs) v =
    (upsert_mount-IsValid name remote path dir quota secs).at _ v
Call-IsValid (Call.delete_mount_entries m) v = (delete_mount_entries-IsValid m).at _ v
Call-IsValid (Call.enqueue_upload now i m path etag priority) v =
    (enqueue_upload-IsValid now i m path etag priority).at _ v
Call-IsValid (Call.complete_queue_job id) v = (complete_queue_job-IsValid id).at _ v
Call-IsValid (Call.fail_queue_job now id error backoff) v =
    (fail_queue_job-IsValid now id error backoff).at _ v
Call-IsValid (Call.fail_queue_job_by_inode now i error backoff) v =
    (fail_queue_job_by_inode-IsValid now i error backoff).at _ v
Call-IsValid (Call.set_base_hash now i m hash size) v =
    (set_base_hash-IsValid now i m hash size).at _ v
Call-IsValid (Call.remove_base_hash i m) v = (remove_base_hash-IsValid i m).at _ v
Call-IsValid (Call.insert_version_history now i m hash size etag source) v =
    (insert_version_history-IsValid now i m hash size etag source).at _ v
Call-IsValid (Call.prune_version_history i keep) v = (prune_version_history-IsValid i keep).at _ v

empty-IsValid : IsValid empty
unfolding empty
empty-IsValid = record {
  guarded = refl;
  rooted = refl;
  separate = refl;
  numbered = tt;
  listed = tt;
}

-- After any calls of the methods on a freshly migrated database, refused ones included, no file row
-- of status cached, dirty or uploading lacks a cache path, every parent exists, no two rows share an
-- inode, a path, a name in one directory or an item id, no inode is above the counter that gives
-- the next one, and every row of `cache_lru` names a row of `file_index`.
pub Reachable-IsValid : {db : Db} → Reachable db → IsValid db
Reachable-IsValid migrated = empty-IsValid
Reachable-IsValid (after r c) = Call-IsValid c (Reachable-IsValid r)
