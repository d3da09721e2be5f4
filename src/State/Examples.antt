-- ===== src/State/Examples.antt =====
-- Witnesses and tests for the database: a mount with a directory and a file in it.
use stratosync.Common.{
  ◌≤◌, length, ◌==◌, count, ℕ, ◌+◌, String, ◌≡◌, refl, false, Option, none, some, List, [], ◌∷◌,
  arith, map, select, length, All,
}
use stratosync.Types.SyncStatus.{SyncStatus, remote, cached, dirty, is_unsynced}
use stratosync.Types.FileKind.{FileKind}
use stratosync.State.Tables.{VersionRow, manual, MountRow, FileRow, Db, ok, upload, empty}
use stratosync.State.Statement.{clash, same_num, same_str}
use stratosync.State.Files.{
  NewFileEntry, row_to_entry, insert_root, insert_file, set_dirty_with_cache_path,
}
use stratosync.State.Cache.{
  CacheClearReport, clear_cache_for_mount, cached_bytes, get_pending_uploads,
}
use stratosync.State.Poll.{delete_stale_entries}
use stratosync.State.Queue.{SyncQueueJob}
use stratosync.State.Health.{upsert_mount}
use stratosync.State.Valid.{IsValid}
use stratosync.State.Reach
use stratosync.State.Reach.{migrated, after}
use stratosync.State.Invariant.{Reachable-IsValid}
use stratosync.State.Clear.{clear_cache_for_mount_lem}
use stratosync.State.Pending.{is_pending, get_pending_uploads_complete}
use stratosync.State.Stale.{unsynced, delete_stale_entries-unsynced}
use stratosync.State.Remote.{RemoteEntry}
use stratosync.State.Versions.{prune_version_history}
use stratosync.State.Prune.{is_named, IsAccounted, prune_version_history_lem}

abbrev mount : MountRow
mount = record {
  id = 1;
  name = "drive";
  remote = "drive:";
  mount_path = "/drive";
  cache_dir = "/cache";
  cache_quota = 1000;
  poll_secs = 60;
}

abbrev row : ℕ → Option ℕ → String → FileKind → SyncStatus → Option String → Option ℕ → FileRow
row i parent path kind status cache_path cache_size = record {
  inode = i;
  mount_id = 1;
  parent_inode = parent;
  name = path;
  remote_path = path;
  kind = kind;
  size = 10;
  mtime = 0;
  etag = none;
  status = status;
  cache_path = cache_path;
  cache_size = cache_size;
  cache_mtime = none;
  dir_listed = none;
  poll_generation = 0;
  remote_item_id = none;
}

abbrev docs : FileRow
docs = row 2 (some 1) "docs" FileKind.directory remote none none

abbrev note : SyncStatus → FileRow
note s = row 3 (some 2) "docs/note" FileKind.file s (some "/cache/3") (some 10)

abbrev tree : SyncStatus → Db
unfolding empty
tree s =
    let base = empty in
    record base {
      mounts = mount ∷ [];
      mount_seq = 1;
      files = row 1 none "/" FileKind.directory remote none none ∷ docs ∷ note s ∷ [];
      file_seq = 3;
      lru = record { inode = 3; last_access = 5; pinned = false } ∷ [];
      queue =
          record {
            id = 1;
            inode = 3;
            mount_id = 1;
            op = upload;
            remote_path = "docs/note";
            known_etag = none;
            priority = 1;
            attempt = 0;
            next_attempt = 0;
            created_at = 7;
            error_msg = none;
          }
          ∷ [];
      queue_seq = 1;
    }

abbrev tree-IsValid : IsValid (tree dirty)
unfolding clash same_num same_str empty
tree-IsValid = record {
  guarded = refl;
  rooted = refl;
  separate = refl;
  numbered = (omega arith, (omega arith, (omega arith, tt)));
  listed = (refl, tt);
}

get_pending_uploads_complete_example :
    (get_pending_uploads 1 (tree dirty)).0
    ≡ ok (map row_to_entry (select (is_pending 1) (tree dirty).files))
get_pending_uploads_complete_example = get_pending_uploads_complete 1 (tree dirty) tree-IsValid

delete_stale_entries-unsynced_example :
    unsynced (delete_stale_entries 1 1 (tree dirty)).1.files ≡ unsynced (tree dirty).files
delete_stale_entries-unsynced_example = delete_stale_entries-unsynced 1 1 (tree dirty) tree-IsValid

-- The remote reports the note with another size, and a file that is new.
abbrev listing : List RemoteEntry
listing =
    record {
      parent = 2;
      name = "docs/note";
      remote_path = "docs/note";
      kind = FileKind.file;
      size = 11;
      mtime = 3;
      etag = some "e";
    }
    ∷ record {
      parent = 2;
      name = "docs/new";
      remote_path = "docs/new";
      kind = FileKind.file;
      size = 1;
      mtime = 3;
      etag = none;
    }
    ∷ []

abbrev job : SyncQueueJob
job = record {
  id = 1;
  inode = 3;
  remote_path = "docs/note";
  known_etag = none;
  priority = 1;
  attempt = 6;
  cache_path = none;
}

abbrev next_job : SyncQueueJob
next_job = record job { attempt = 7 }

clear_cache_for_mount_lem_example :
    let (r, db) = clear_cache_for_mount 1 false (tree cached) in
    (c : CacheClearReport) × (r ≡ ok c)
    × (cached_bytes 1 db.files + c.bytes_freed ≡ cached_bytes 1 (tree cached).files)
    × (c.files_cleared ≡ length c.cache_paths)
    × (select (λ r. is_unsynced r.status) db.files
        ≡ select (λ r. is_unsynced r.status) (tree cached).files)
clear_cache_for_mount_lem_example = clear_cache_for_mount_lem 1 false (tree cached)

abbrev version : ℕ → String → VersionRow
version n hash = record {
  id = n;
  inode = 3;
  mount_id = 1;
  object_hash = hash;
  recorded_at = n;
  file_size = 10;
  etag = none;
  source = manual;
}

abbrev versioned : Db
versioned =
    let base = tree cached in
    record base { versions = version 1 "aa" ∷ version 2 "bb" ∷ []; version_seq = 2 }

-- The older of two versions goes, and its blob with it.
prune_version_history_lem_example :
    let (r, db) = prune_version_history 3 1 versioned in
    (hs : List String) × (r ≡ ok hs)
    × (db.bases ≡ versioned.bases)
    × (count (λ v. v.inode == 3) db.versions ≤ 1)
    × (length (select (λ v. v.inode == 3) versioned.versions) ≤ 1
        → db.versions ≡ versioned.versions)
    × All (λ h. is_named h db ≡ false) hs
    × All (IsAccounted hs db) versioned.versions
prune_version_history_lem_example =
    prune_version_history_lem 3 1 versioned
      (((λ e. refl), ((λ e. cc), tt)), (((λ e. cc), ((λ e. refl), tt)), tt))

abbrev root_entry : NewFileEntry
root_entry = record {
  mount_id = 1;
  parent = 0;
  name = "/";
  remote_path = "/";
  kind = FileKind.directory;
  size = 0;
  mtime = 0;
  etag = none;
  status = remote;
  cache_path = none;
  cache_size = none;
}

abbrev new_entry : NewFileEntry
new_entry = record {
  mount_id = 1;
  parent = 1;
  name = "a";
  remote_path = "a";
  kind = FileKind.file;
  size = 4;
  mtime = 1;
  etag = none;
  status = remote;
  cache_path = none;
  cache_size = none;
}

abbrev mounted_db : Db
mounted_db = (upsert_mount "drive" "drive:" "/drive" "/cache" 1000 60 empty).1

abbrev rooted_db : Db
rooted_db = (insert_root root_entry mounted_db).1

abbrev filled_db : Db
filled_db = (insert_file new_entry rooted_db).1

abbrev written_db : Db
written_db = (set_dirty_with_cache_path 2 "/cache/2" 6 filled_db).1

-- A mount, its root, a file, and a write to it.
Reachable-IsValid_example : IsValid written_db
Reachable-IsValid_example = Reachable-IsValid (
    after
      (after
        (after (after migrated (Reach.upsert_mount "drive" "drive:" "/drive" "/cache" 1000 60))
          (Reach.insert_root root_entry))
        (Reach.insert_file new_entry))
      (Reach.set_dirty_with_cache_path 2 "/cache/2" 6))
