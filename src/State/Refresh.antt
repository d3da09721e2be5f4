-- ===== src/State/Refresh.antt =====
-- The upserts by path, by which a full listing refreshes the index, keep the marks of local work.
use stratosync.Common.{ℕ, ◌≡◌, Option, List, String, map, select}
use stratosync.Types.SyncStatus.{SyncStatus, is_unsynced}
use stratosync.State.Tables.{FileRow, Db}
use stratosync.State.Preserve.{Keeps}

-- What a row has of local work, with where it belongs.
pub record LocalWork : Type 0 where
  pub inode : ℕ
  pub mount_id : ℕ
  pub remote_path : String
  pub status : SyncStatus
  pub cache_path : Option String
  pub cache_size : Option ℕ
  pub cache_mtime : Option ℕ

abbrev pub local_work : FileRow → LocalWork
local_work r = record {
  inode = r.inode;
  mount_id = r.mount_id;
  remote_path = r.remote_path;
  status = r.status;
  cache_path = r.cache_path;
  cache_size = r.cache_size;
  cache_mtime = r.cache_mtime;
}

-- That of the rows with changes that are not uploaded.
abbrev pub unsynced_work : List FileRow → List LocalWork
unsynced_work files = map local_work (select (λ r. is_unsynced r.status) files)

-- It is the listed one.
record IsMarked (ws : List LocalWork) (db : Db) : Type 0 where
  same : unsynced_work db.files ≡ ws
