-- ===== src/Fuse/Directory.antt =====
-- How directories are filled and listed, in crates/stratosync-daemon/src/fuse/mod.rs:
-- `populate_directory`, `lookup`, `readdir`, the prefetch of child directories, and `ensure_root`.
-- What `list` of the backend answers is a parameter.
use stratosync.Common.{
  ℕ, String, Bool, true, false, not, ◌&&◌, ◌||◌, Option, none, some, List, [], ◌∷◌, str_eq,
  contains, nul_text, some_of, is_none, is_some, map, select, if◌then◌else◌, ◌==◌,
}
use Prim.Native.String
use text.Mathlib.Text.{starts_with}
use stratosync.Types.{fuse_root_inode}
use stratosync.Types.SyncStatus.{needs_hydration, remote}
use stratosync.Types.FileKind.{file, directory, is_directory}
use stratosync.Types.Metadata.{RemoteMetadata}
use stratosync.State.Files.{
  FileEntry, get_by_inode, get_by_parent_name, list_children, mark_dir_listed, insert_root,
}
use stratosync.State.Remote.{RemoteEntry, batch_upsert_remote_files_gen}
use stratosync.State.Poll.{active_tombstones}
use stratosync.State.Health.{delete_mount_entries}
use stratosync.Sync.World.{
  Act, Outcome, done, fault, disk, return, throw, attempt, logged, on_db, ◌>>=◌, ◌>>◌,
}
use stratosync.Poller.Full.{or_empty}
use stratosync.Fuse.Names.{join_remote}
use stratosync.Fuse.Hydrate.{is_done}

unfoldable pub is_unsafe_name : String → Bool
is_unsafe_name name = contains name ".." || contains name nul_text || contains name "/"

-- The path of a tombstone or one below it.
abbrev pub is_below : List String → String → Bool
is_below tombstones path =
    some_of (λ t. str_eq path t || starts_with path (String.◌++◌ t "/")) tombstones

unfoldable pub is_kept : List String → String → RemoteMetadata → Bool
is_kept tombstones dir_path c =
    if is_unsafe_name c.name then false else not (is_below tombstones (join_remote dir_path c.name))

abbrev pub child_entry : ℕ → String → RemoteMetadata → RemoteEntry
child_entry parent dir_path c = record {
  parent = parent;
  name = c.name;
  remote_path = join_remote dir_path c.name;
  kind = if c.is_dir then directory else file;
  size = c.size;
  mtime = c.mtime;
  etag = c.etag;
}

module _ (now mount_id : ℕ) (list : String → Outcome (List RemoteMetadata)) where
  abbrev pub entries_of : List String → FileEntry → List RemoteMetadata → List RemoteEntry
  entries_of tombstones dir children =
      map (child_entry dir.inode dir.remote_path)
        (select (is_kept tombstones dir.remote_path) children)

  abbrev pub fill : FileEntry → List RemoteMetadata → Act Unit
  fill dir children = do
    tombstones ← or_empty (on_db (active_tombstones now mount_id))
    on_db (batch_upsert_remote_files_gen mount_id (entries_of tombstones dir children) 0)
    on_db (mark_dir_listed now dir.inode)

  abbrev pub filled : FileEntry → Outcome (List RemoteMetadata) → Act Unit
  filled dir (done children) = fill dir children
  filled dir (fault e) =
      if not (needs_hydration dir.status) then on_db (mark_dir_listed now dir.inode) else throw e

  -- A directory that was made here and is not on the remote yet is empty.
  unfoldable pub populate_directory : FileEntry → Act Unit
  unfolding is_kept
  populate_directory dir = filled dir (list dir.remote_path)

  abbrev pub look_in : ℕ → String → Option FileEntry → Act (Option FileEntry)
  look_in parent name none = return none
  look_in parent name (some dir) =
      if is_directory dir.kind && is_none dir.dir_listed
      then (do populate_directory dir; on_db (get_by_parent_name mount_id parent name))
      else return none

  abbrev pub known_or : ℕ → String → Option FileEntry → Act (Option FileEntry)
  known_or parent name (some e) = return (some e)
  known_or parent name none = do dir ← on_db (get_by_inode parent); look_in parent name dir

  unfoldable pub lookup : ℕ → String → Act (Option FileEntry)
  lookup parent name = do
    e ← on_db (get_by_parent_name mount_id parent name)
    known_or parent name e

  -- Rows with the name of an earlier one are hidden; `seen` has the names before.
  abbrev pub unique : List String → List FileEntry → List FileEntry
  unique seen [] = []
  unique seen (e ∷ es) = elim (some_of (str_eq e.name) seen) [
    | true ↦ unique seen es
    | false ↦ e ∷ unique (e.name ∷ seen) es
  ]

  abbrev pub fill_once : Option FileEntry → Act Unit
  fill_once none = throw disk
  fill_once (some dir) = if is_none dir.dir_listed then populate_directory dir else return tt

  -- The children that are listed, without the prefetches that it starts.
  unfoldable pub readdir : ℕ → Act (List FileEntry)
  readdir i = do
    dir ← on_db (get_by_inode i)
    fill_once dir
    children ← on_db (list_children mount_id i)
    return (unique [] children)

  abbrev pub prefetched : FileEntry → Outcome (List RemoteMetadata) → Act Unit
  prefetched dir (fault e) = return tt
  prefetched dir (done children) =
      attempt (on_db (batch_upsert_remote_files_gen mount_id (entries_of [] dir children) 0))
        (λ o. if is_done o then logged (on_db (mark_dir_listed now dir.inode)) else return tt)

  -- One directory of `spawn_prefetch_child_dirs`, which does not ask for tombstones.
  unfoldable pub prefetch_child : FileEntry → Act Unit
  unfolding is_kept
  prefetch_child dir =
      if not (is_directory dir.kind) || is_some dir.dir_listed
      then return tt
      else prefetched dir (list dir.remote_path)

abbrev pub new_root : ℕ → ℕ → Act Unit
new_root now mount_id = do
  on_db (
      insert_root (record {
        mount_id = mount_id;
        parent = 0;
        name = "/";
        remote_path = "/";
        kind = directory;
        size = 0;
        mtime = now;
        etag = none;
        status = remote;
        cache_path = none;
        cache_size = none;
      }))
  return tt

abbrev pub root_or_new : ℕ → ℕ → Option FileEntry → Act Unit
root_or_new now mount_id none = new_root now mount_id
root_or_new now mount_id (some e) =
    if not (is_directory e.kind) || not (str_eq e.remote_path "/") || not (e.mount_id == mount_id)
    then (do on_db (delete_mount_entries mount_id); new_root now mount_id)
    else return tt

-- The root directory is there, and is what the mount has as its root.
unfoldable pub ensure_root : ℕ → ℕ → Act Unit
ensure_root now mount_id = do e ← on_db (get_by_inode fuse_root_inode); root_or_new now mount_id e
