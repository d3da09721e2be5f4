-- ===== src/Fuse/Remove.antt =====
-- `handle_unlink` and `handle_rmdir`: the row goes at once, and a tombstone keeps the poller from
-- adding it again until the remote has been asked to delete it.
use stratosync.Common.{ℕ, String, not, Option, none, some, List, [], ◌∷◌, Bool, true, false}
use stratosync.Types.FileKind.{is_directory}
use stratosync.State.Files.{FileEntry, get_by_parent_name, list_children, delete_entry}
use stratosync.State.Poll.{insert_tombstone}
use stratosync.Sync.World.{on_db, remove_cache_file}
use stratosync.Sync.Headers.{invalidate_header}
use stratosync.Fuse.Errno.{enoent, enotdir, enotempty}
use stratosync.Fuse.Handler.{
  Handler, delete_file, delete_dir, okay, answer, refuse_if, in_db, besides, or_refuse, spawn,
  ◌>>=◌, ◌>>◌,
}

abbrev pub child_of : ℕ → ℕ → String → Handler FileEntry
child_of mount_id parent name = do
  e ← in_db (get_by_parent_name mount_id parent name)
  or_refuse e enoent

abbrev pub remove_if_cached : Option String → Handler Unit
remove_if_cached none = answer (okay tt)
remove_if_cached (some p) = besides (remove_cache_file p)

abbrev pub is_empty : List FileEntry → Bool
is_empty [] = true
is_empty (e ∷ es) = false

-- Both tombstones live for 300 seconds.
module _ (mount_id now : ℕ) where
  unfoldable pub handle_unlink : ℕ → String → Handler Unit
  handle_unlink parent name = do
    e ← child_of mount_id parent name
    remove_if_cached e.cache_path
    besides (invalidate_header e.inode)
    in_db (delete_entry e.inode)
    besides (on_db (insert_tombstone now mount_id e.remote_path 300))
    spawn (delete_file e.remote_path)

  unfoldable pub handle_rmdir : ℕ → String → Handler Unit
  handle_rmdir parent name = do
    e ← child_of mount_id parent name
    refuse_if (not (is_directory e.kind)) enotdir
    children ← in_db (list_children mount_id e.inode)
    refuse_if (not (is_empty children)) enotempty
    in_db (delete_entry e.inode)
    besides (on_db (insert_tombstone now mount_id e.remote_path 300))
    spawn (delete_dir e.remote_path)
