-- ===== src/State/Methods.antt =====
-- Every method on single rows, on the cache, on the queue and on mounts keeps `IsValid`.
use stratosync.Common.{ℕ, String, Bool, ◌≡◌, refl, Option, some, List, [], ◌∷◌, All, ◌≤◌, subst}
use stratosync.Types.SyncStatus.{SyncStatus}
use stratosync.State.Tables.{FileRow, HealthRow, QueueRow, Db}
use stratosync.State.Statement.{next_inode}
use stratosync.State.Valid.{IsValid}
use stratosync.State.Preserve.{
  Keeps, update_files-IsValid, update_keys-IsValid, insert_row-IsValid, delete_files-IsValid,
  upsert_lru-IsValid, delete_lru-IsValid,
}
use stratosync.State.Files
use stratosync.State.Files.{touch_lru, detached, NewFileEntry, new_row}
use stratosync.State.Cache
use stratosync.State.Health
use stratosync.State.Queue
use stratosync.State.Keeps.{cells, Keeps-pure, Keeps-gets, Keeps-bind, Keeps-if, touch_lru-IsValid}

ruleset keeps_rules = (
  Keeps-pure, Keeps-gets, Keeps-bind, Keeps-if, update_files-IsValid, update_keys-IsValid,
  insert_row-IsValid, delete_files-IsValid, upsert_lru-IsValid, delete_lru-IsValid,
  touch_lru-IsValid, cells,
)

pub set_status-IsValid : (i : ℕ) (s : SyncStatus) → Keeps IsValid (Files.set_status i s)
unfolding Files.set_status
set_status-IsValid i s = search keeps_rules

pub set_dirty_size-IsValid : (i size : ℕ) → Keeps IsValid (Files.set_dirty_size i size)
unfolding Files.set_dirty_size
set_dirty_size-IsValid i size = search keeps_rules

pub set_dirty_with_cache_path-IsValid :
    (i : ℕ) (path : String) (size : ℕ) → Keeps IsValid (Files.set_dirty_with_cache_path i path size)
unfolding Files.set_dirty_with_cache_path
set_dirty_with_cache_path-IsValid i path size = search keeps_rules

pub set_cached-IsValid :
    (now i : ℕ) (path : String) (cache_size : ℕ) (etag : Option String) (mtime size : ℕ)
    → Keeps IsValid (Files.set_cached now i path cache_size etag mtime size)
unfolding Files.set_cached
set_cached-IsValid now i path cache_size etag mtime size = search keeps_rules

pub set_uploaded-IsValid :
    (now i cache_size : ℕ) (etag : Option String) (mtime size : ℕ)
    → Keeps IsValid (Files.set_uploaded now i cache_size etag mtime size)
unfolding Files.set_uploaded
set_uploaded-IsValid now i cache_size etag mtime size = search keeps_rules

pub set_evicted-IsValid : (i : ℕ) → Keeps IsValid (Files.set_evicted i)
unfolding Files.set_evicted
set_evicted-IsValid i = search keeps_rules

pub revert_dirty_with_missing_cache-IsValid :
    (i : ℕ) (path : String) → Keeps IsValid (Files.revert_dirty_with_missing_cache i path)
unfolding Files.revert_dirty_with_missing_cache
revert_dirty_with_missing_cache-IsValid i path = search keeps_rules

pub mark_dir_listed-IsValid : (now i : ℕ) → Keeps IsValid (Files.mark_dir_listed now i)
unfolding Files.mark_dir_listed
mark_dir_listed-IsValid now i = search keeps_rules

pub batch_mark_dirs_listed-IsValid :
    (now m : ℕ) → Keeps IsValid (Files.batch_mark_dirs_listed now m)
unfolding Files.batch_mark_dirs_listed
batch_mark_dirs_listed-IsValid now m = search keeps_rules

pub invalidate_dir-IsValid : (i : ℕ) → Keeps IsValid (Files.invalidate_dir i)
unfolding Files.invalidate_dir
invalidate_dir-IsValid i = search keeps_rules

pub delete_entry-IsValid : (i : ℕ) → Keeps IsValid (Files.delete_entry i)
unfolding Files.delete_entry
delete_entry-IsValid i = search keeps_rules

pub reset_hydrating-IsValid : Keeps IsValid (Cache.reset_hydrating)
unfolding Cache.reset_hydrating
reset_hydrating-IsValid = search keeps_rules

pub reset_uploading-IsValid : Keeps IsValid (Cache.reset_uploading)
unfolding Cache.reset_uploading
reset_uploading-IsValid = search keeps_rules

pub reset_stuck_dirty_directories-IsValid : Keeps IsValid (Cache.reset_stuck_dirty_directories)
unfolding Cache.reset_stuck_dirty_directories
reset_stuck_dirty_directories-IsValid = search keeps_rules

pub set_pinned-IsValid : (now i : ℕ) (pinned : Bool) → Keeps IsValid (Cache.set_pinned now i pinned)
unfolding Cache.set_pinned
set_pinned-IsValid now i pinned = search keeps_rules

pub insert_file-IsValid : (e : NewFileEntry) → Keeps IsValid (Files.insert_file e)
unfolding Files.insert_file
insert_file-IsValid e = record {
  at = λ db v. (insert_row-IsValid (new_row (next_inode db) (some e.parent) e)).at db v;
}

pub rename_entry-IsValid :
    (i parent : ℕ) (name path : String) (cache : Option String)
    → Keeps IsValid (Files.rename_entry i parent name path cache)
unfolding Files.rename_entry
rename_entry-IsValid i parent name path cache =
    Keeps-bind _ _ (update_keys-IsValid _ _ (λ r. refl)) (λ n. Keeps-pure tt)

delete_lru_all-IsValid : (rs : List FileRow) → Keeps IsValid (Cache.delete_lru_all rs)
delete_lru_all-IsValid [] = Keeps-pure tt
delete_lru_all-IsValid (r ∷ rs) =
    Keeps-bind _ _ (delete_lru-IsValid r.inode) (λ u. delete_lru_all-IsValid rs)

pub clear_cache_for_mount-IsValid :
    (m : ℕ) (pinned : Bool) → Keeps IsValid (Cache.clear_cache_for_mount m pinned)
unfolding Cache.clear_cache_for_mount
clear_cache_for_mount-IsValid m pinned = record {
  at = λ db v.
      (Keeps-bind _ _ (update_files-IsValid _ _ (λ r. cells r))
          λ n. Keeps-bind _ _ (delete_lru_all-IsValid _) (λ u. Keeps-pure _)).at
        db v;
}

health-IsValid : (db : Db) (h : List HealthRow) → IsValid db → IsValid (record db { health = h })
health-IsValid db h v = record {
  guarded = v.guarded;
  rooted = v.rooted;
  separate = v.separate;
  numbered = v.numbered;
  listed = v.listed;
}

pub reset_stuck_dirty_files_without_cache_path-IsValid :
    Keeps IsValid Cache.reset_stuck_dirty_files_without_cache_path
unfolding Cache.reset_stuck_dirty_files_without_cache_path
reset_stuck_dirty_files_without_cache_path-IsValid = record {
  at = λ db v. (update_files-IsValid _ _ (λ r. cells r)).at _ (health-IsValid db _ v);
}

queue-IsValid : (db : Db) (q : List QueueRow) → IsValid db → IsValid (record db { queue = q })
queue-IsValid db q v = record {
  guarded = v.guarded;
  rooted = v.rooted;
  separate = v.separate;
  numbered = v.numbered;
  listed = v.listed;
}

pub fail_queue_job_by_inode-IsValid :
    (now i : ℕ) (error : String) (backoff : ℕ)
    → Keeps IsValid (Queue.fail_queue_job_by_inode now i error backoff)
unfolding Queue.fail_queue_job_by_inode
fail_queue_job_by_inode-IsValid now i error backoff = record {
  at = λ db v.
      (Keeps-bind _ _ (update_files-IsValid _ _ (λ r. cells r)) (λ n. Keeps-pure tt)).at _
        (queue-IsValid db _ v);
}

restart_at :
    (files : List FileRow) (db : Db)
    → files ≡ db.files
    → IsValid db
    → IsValid (Health.restart files db).1
restart_at [] db e v = record {
  guarded = v.guarded;
  rooted = v.rooted;
  separate = v.separate;
  numbered = subst (λ fs. All (λ r. r.inode ≤ 0) fs) e tt;
  listed = v.listed;
}
restart_at (r ∷ rs) db e v = v

reset_seq-IsValid : Keeps IsValid Health.reset_seq
reset_seq-IsValid = record { at = λ db v. restart_at db.files db refl v }

pub delete_mount_entries-IsValid : (m : ℕ) → Keeps IsValid (Health.delete_mount_entries m)
unfolding Health.delete_mount_entries
delete_mount_entries-IsValid m = Keeps-bind _ _ (delete_files-IsValid _) (λ n. reset_seq-IsValid)
