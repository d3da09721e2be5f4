-- ===== src/State/Remote.antt =====
-- The methods of `StateDb` by which the poller writes what the remote reports: the upserts, by
-- item id and by path, and the guarded deletes.
use stratosync.Common.{
  ℕ, String, Bool, false, ◌&&◌, not, Option, none, some, List, [], ◌∷◌, ◌==◌, str_eq, is_none, ltb,
  if◌then◌else◌, first, chunks,
}
use stratosync.Types.SyncStatus.{SyncStatus, remote, stale, is_unsynced}
use stratosync.Types.FileKind.{FileKind}
use stratosync.State.Tables.{FileRow, ok, err, Exec, no_rows, pure, gets, ◌>>=◌, ◌>>◌}
use stratosync.State.Statement.{
  update_keys, insert_row, delete_files, at_inode, at_path, at_item, next_inode,
}

-- What the remote reports of one entry, as the arguments of an upsert.
pub record RemoteEntry : Type 0 where
  pub parent : ℕ
  pub name : String
  pub remote_path : String
  pub kind : FileKind
  pub size : ℕ
  pub mtime : ℕ
  pub etag : Option String

-- CASE WHEN status IN ('dirty','uploading') THEN status ELSE 'stale' END
abbrev pub stale_unless_unsynced : SyncStatus → SyncStatus
stale_unless_unsynced s = if is_unsynced s then s else stale

-- The SET clause that the upserts share.
abbrev pub refreshed : RemoteEntry → ℕ → FileRow → FileRow
refreshed e gen r = record r {
  parent_inode = some e.parent;
  name = e.name;
  kind = e.kind;
  size = e.size;
  mtime = e.mtime;
  etag = e.etag;
  poll_generation = gen;
  status = stale_unless_unsynced r.status;
}

abbrev pub remote_row : ℕ → ℕ → RemoteEntry → Option String → ℕ → FileRow
remote_row i m e item_id gen = record {
  inode = i;
  mount_id = m;
  parent_inode = some e.parent;
  name = e.name;
  remote_path = e.remote_path;
  kind = e.kind;
  size = e.size;
  mtime = e.mtime;
  etag = e.etag;
  status = remote;
  cache_path = none;
  cache_size = none;
  cache_mtime = none;
  dir_listed = none;
  poll_generation = gen;
  remote_item_id = item_id;
}

-- INSERT … ON CONFLICT(mount_id, remote_path) DO UPDATE SET …
unfoldable pub upsert_path : ℕ → RemoteEntry → Option String → ℕ → (FileRow → FileRow) → Exec ℕ
upsert_path m e item_id gen change db = elim (first (at_path m e.remote_path) db.files) [
  | some r ↦ update_keys r.inode change db
  | none ↦ insert_row (remote_row (next_inode db) m e item_id gen) db
]

-- One row of a batch: the item id is not a column of this statement.
unfoldable pub upsert_one : ℕ → ℕ → RemoteEntry → Exec ℕ
upsert_one m gen e = upsert_path m e none gen (refreshed e gen)

abbrev pub upsert_all : ℕ → ℕ → List RemoteEntry → Exec Unit
upsert_all m gen [] = pure tt
upsert_all m gen (e ∷ es) = do upsert_one m gen e; upsert_all m gen es

-- BEGIN … COMMIT, and ROLLBACK on an error.
abbrev pub transaction : Exec Unit → Exec Unit
transaction m db = let (r, db') = m db in elim r [ ok _ ↦ (ok tt, db') | err x ↦ (err x, db) ]

abbrev pub upsert_chunks : ℕ → ℕ → List (List RemoteEntry) → Exec Unit
upsert_chunks m gen [] = pure tt
upsert_chunks m gen (chunk ∷ rest) = do
  transaction (upsert_all m gen chunk)
  upsert_chunks m gen rest

-- Each chunk of 1000 entries is a transaction of its own.
unfoldable pub batch_upsert_remote_files_gen : ℕ → List RemoteEntry → ℕ → Exec Unit
batch_upsert_remote_files_gen m entries gen = upsert_chunks m gen (chunks 1000 entries)

-- The row that holds the item id: its inode and its path.
unfoldable pub existing_inode_by_id : ℕ → Option String → Exec (Option FileRow)
existing_inode_by_id m none = pure none
existing_inode_by_id m (some id) = gets (λ db. first (at_item m id) db.files)

-- The rename of the row that has the item id; a row in its way is deleted.
unfoldable pub upsert_by_id : ℕ → RemoteEntry → ℕ → FileRow → Exec ℕ
upsert_by_id m e gen found = do
  if str_eq found.remote_path e.remote_path
      then pure 0
      else delete_files (λ r. at_path m e.remote_path r && not (r.inode == found.inode))
  update_keys found.inode (λ r. record (refreshed e gen r) { remote_path = e.remote_path })
  pure found.inode

abbrev pub inode_at : ℕ → String → Exec ℕ
inode_at m path db = elim (first (at_path m path) db.files) [
  | none ↦ (err no_rows, db)
  | some r ↦ (ok r.inode, db)
]

unfoldable pub upsert_by_path : ℕ → RemoteEntry → Option String → ℕ → Exec ℕ
upsert_by_path m e item_id gen = do
  upsert_path m e item_id gen (λ r. record (refreshed e gen r) {
    remote_item_id = elim r.remote_item_id [ none ↦ item_id | some id ↦ some id ];
  })
  inode_at m e.remote_path

abbrev pub upsert_found : ℕ → RemoteEntry → Option String → ℕ → Option FileRow → Exec ℕ
upsert_found m e item_id gen (some found) = upsert_by_id m e gen found
upsert_found m e item_id gen none = upsert_by_path m e item_id gen

unfoldable pub upsert_remote_file_by_id_or_path : ℕ → RemoteEntry → Option String → ℕ → Exec ℕ
upsert_remote_file_by_id_or_path m e item_id gen = do
  found ← existing_inode_by_id m item_id
  upsert_found m e item_id gen found

unfoldable upsert_remote_file_gen : ℕ → RemoteEntry → ℕ → Exec ℕ
upsert_remote_file_gen m e gen = upsert_remote_file_by_id_or_path m e none gen

unfoldable upsert_remote_file : ℕ → RemoteEntry → Exec ℕ
upsert_remote_file m e = upsert_remote_file_by_id_or_path m e none 0

unfoldable get_item_id : ℕ → Exec (Option String)
get_item_id i =
    gets λ db. elim (first (at_inode i) db.files) [ none ↦ none | some r ↦ r.remote_item_id ]

unfoldable pub set_item_id_if_absent : ℕ → String → Exec Bool
set_item_id_if_absent i id db =
    elim (first (λ r. at_inode i r && is_none r.remote_item_id) db.files) [
      | none ↦ (ok false, db)
      | some _ ↦
          (update_keys i (λ r. record r { remote_item_id = some id }) >>= λ n. pure (ltb 0 n)) db
    ]

-- SELECT a row that is not 'dirty' or 'uploading', then DELETE it by inode.
unfoldable pub delete_selected : (FileRow → Bool) → Exec (Option (ℕ × Option String))
delete_selected p db = elim (first (λ r. p r && not (is_unsynced r.status)) db.files) [
  | none ↦ (ok none, db)
  | some r ↦ (do delete_files (at_inode r.inode); pure (some (r.inode, r.cache_path))) db
]

unfoldable pub delete_remote_entry_by_path : ℕ → String → Exec (Option (ℕ × Option String))
delete_remote_entry_by_path m path = delete_selected (at_path m path)

unfoldable pub delete_remote_entry_by_item_id : ℕ → String → Exec (Option (ℕ × Option String))
delete_remote_entry_by_item_id m id = delete_selected (at_item m id)
