-- ===== src/State/Files.antt =====
-- The methods of `StateDb` on single rows of `file_index`: reads, inserts, the status transitions
-- and renames. `now` is SQLite's `unixepoch()`.
use stratosync.Common.{
  ℕ, String, Bool, true, false, not, ◌&&◌, ◌||◌, Option, none, some, List, ◌∷◌, ◌==◌, ltb, has_num,
  has_str, str_eq, unwrap_or, is_none, if◌then◌else◌, select, reject, first, max, map,
}
use mathlib.Core.Option
use stratosync.Types.{fuse_root_inode}
use stratosync.Types.SyncStatus.{SyncStatus, remote, cached, dirty, is_unsynced}
use stratosync.Types.FileKind.{FileKind, is_file, is_directory}
use stratosync.State.Tables.{FileRow, Exec, ok, err, trigger, foreign_key, pure, gets, ◌>>=◌, ◌>>◌}
use stratosync.State.Statement.{
  update_files, update_keys, insert_row, delete_files, delete_lru, upsert_lru, cascade, clash,
  violates, has_orphan, has_mount, at_inode, at_path, next_inode,
}

-- `FileEntry`
pub record FileEntry : Type 0 where
  pub inode : ℕ
  pub mount_id : ℕ
  pub parent : ℕ
  pub name : String
  pub remote_path : String
  pub kind : FileKind
  pub size : ℕ
  pub mtime : ℕ
  pub etag : Option String
  pub status : SyncStatus
  pub cache_path : Option String
  pub cache_size : Option ℕ
  pub dir_listed : Option ℕ

unfoldable pub row_to_entry : FileRow → FileEntry
row_to_entry r = record {
  inode = r.inode;
  mount_id = r.mount_id;
  parent = unwrap_or r.parent_inode 0;
  name = r.name;
  remote_path = r.remote_path;
  kind = r.kind;
  size = r.size;
  mtime = r.mtime;
  etag = r.etag;
  status = r.status;
  cache_path = r.cache_path;
  cache_size = r.cache_size;
  dir_listed = r.dir_listed;
}

-- `NewFileEntry`
pub record NewFileEntry : Type 0 where
  pub mount_id : ℕ
  pub parent : ℕ
  pub name : String
  pub remote_path : String
  pub kind : FileKind
  pub size : ℕ
  pub mtime : ℕ
  pub etag : Option String
  pub status : SyncStatus
  pub cache_path : Option String
  pub cache_size : Option ℕ

-- The row that an INSERT of an entry writes; the other columns have their defaults.
abbrev pub new_row : ℕ → Option ℕ → NewFileEntry → FileRow
new_row i parent e = record {
  inode = i;
  mount_id = e.mount_id;
  parent_inode = parent;
  name = e.name;
  remote_path = e.remote_path;
  kind = e.kind;
  size = e.size;
  mtime = e.mtime;
  etag = e.etag;
  status = e.status;
  cache_path = e.cache_path;
  cache_size = e.cache_size;
  cache_mtime = none;
  dir_listed = none;
  poll_generation = 0;
  remote_item_id = none;
}

-- INSERT OR REPLACE: the rows that clash with the new one go first. The root has the least row id.
unfoldable pub insert_root : NewFileEntry → Exec ℕ
insert_root e db =
    let r = new_row fuse_root_inode none e in
    let files = r ∷ reject (clash r) db.files in
    if violates r
    then (err trigger, db)
    else if not (has_mount r.mount_id db) || has_orphan files
    then (err foreign_key, db)
    else (
      ok fuse_root_inode,
      record (cascade (clash r) db) { files = files; file_seq = max fuse_root_inode db.file_seq },
    )

unfoldable pub insert_file : NewFileEntry → Exec ℕ
insert_file e db = insert_row (new_row (next_inode db) (some e.parent) e) db

unfoldable pub get_by_inode : ℕ → Exec (Option FileEntry)
unfolding row_to_entry
get_by_inode i = gets λ db. Option.map row_to_entry (first (at_inode i) db.files)

unfoldable pub get_by_parent_name : ℕ → ℕ → String → Exec (Option FileEntry)
unfolding row_to_entry
get_by_parent_name m p name = gets λ db.
    Option.map row_to_entry
      (first (λ r. r.mount_id == m && has_num r.parent_inode p && str_eq r.name name) db.files)

unfoldable pub list_children : ℕ → ℕ → Exec (List FileEntry)
unfolding row_to_entry
list_children m p =
    gets λ db. map row_to_entry (select (λ r. r.mount_id == m && has_num r.parent_inode p) db.files)

unfoldable get_by_cache_path : ℕ → String → Exec (Option FileEntry)
unfolding row_to_entry
get_by_cache_path m path = gets λ db.
    Option.map row_to_entry (first (λ r. r.mount_id == m && has_str r.cache_path path) db.files)

unfoldable get_by_remote_path : ℕ → String → Exec (Option FileEntry)
unfolding row_to_entry
get_by_remote_path m path = gets λ db. Option.map row_to_entry (first (at_path m path) db.files)

unfoldable pub set_status : ℕ → SyncStatus → Exec Unit
set_status i status = do update_files (at_inode i) (λ r. record r { status = status }); pure tt

unfoldable pub set_dirty_size : ℕ → ℕ → Exec Unit
set_dirty_size i size = do
  update_files (at_inode i) (λ r. record r { status = dirty; size = size; cache_size = some size })
  pure tt

unfoldable pub set_dirty_with_cache_path : ℕ → String → ℕ → Exec Unit
set_dirty_with_cache_path i path size = do
  update_files (at_inode i) (λ r. record r {
    status = dirty;
    size = size;
    cache_size = some size;
    cache_path = some path;
  })
  pure tt

-- A new row of `cache_lru` has `pinned` 0.
unfoldable pub touch_lru : ℕ → ℕ → Exec Unit
touch_lru now i =
    upsert_lru (record { inode = i; last_access = now; pinned = false })
      (λ l. record l { last_access = now })

unfoldable pub set_cached : ℕ → ℕ → String → ℕ → Option String → ℕ → ℕ → Exec Unit
set_cached now i cache_path cache_size etag mtime size = do
  update_files (at_inode i) (λ r. record r {
    status = cached;
    cache_path = some cache_path;
    cache_size = some cache_size;
    etag = etag;
    mtime = mtime;
    size = size;
    cache_mtime = some now;
  })
  touch_lru now i

abbrev pub uploaded_row : ℕ → ℕ → Option String → ℕ → ℕ → FileRow → FileRow
uploaded_row now cache_size etag mtime size r = record r {
  status = cached;
  cache_size = some cache_size;
  etag = etag;
  mtime = mtime;
  size = size;
  cache_mtime = some now;
}

unfoldable pub set_uploaded : ℕ → ℕ → ℕ → Option String → ℕ → ℕ → Exec Unit
set_uploaded now i cache_size etag mtime size = do
  update_files (at_inode i) (uploaded_row now cache_size etag mtime size)
  touch_lru now i

-- SET status='remote', cache_path=NULL, cache_size=NULL, cache_mtime=NULL
abbrev pub detached : FileRow → FileRow
detached r = record r { status = remote; cache_path = none; cache_size = none; cache_mtime = none }

unfoldable pub set_evicted : ℕ → Exec Unit
set_evicted i = do update_files (at_inode i) detached; delete_lru i

unfoldable pub revert_dirty_with_missing_cache : ℕ → String → Exec Bool
revert_dirty_with_missing_cache i path = do
  n ←
      update_files
        (λ r. r.inode == i && is_file r.kind && is_unsynced r.status && has_str r.cache_path path)
        detached
  if ltb 0 n then (do delete_lru i; pure true) else pure false

unfoldable pub mark_dir_listed : ℕ → ℕ → Exec Unit
mark_dir_listed now i = do
  update_files (at_inode i) (λ r. record r { dir_listed = some now })
  pure tt

unfoldable pub batch_mark_dirs_listed : ℕ → ℕ → Exec ℕ
batch_mark_dirs_listed now m =
    update_files (λ r. r.mount_id == m && is_directory r.kind && is_none r.dir_listed)
      (λ r. record r { dir_listed = some now })

unfoldable pub invalidate_dir : ℕ → Exec Unit
invalidate_dir i = do update_files (at_inode i) (λ r. record r { dir_listed = none }); pure tt

unfoldable pub delete_entry : ℕ → Exec Unit
delete_entry i = do delete_files (at_inode i); pure tt

unfoldable pub rename_entry : ℕ → ℕ → String → String → Option String → Exec Unit
rename_entry i new_parent new_name new_remote new_cache_path = do
  update_keys i (λ r. record r {
    parent_inode = some new_parent;
    name = new_name;
    remote_path = new_remote;
    cache_path = new_cache_path;
  })
  pure tt
