-- ===== src/Fuse/Created.antt =====
-- What the creation of a file leaves behind.
use stratosync.Common.{ℕ, ◌≡◌, String, false, some, [], ◌∷◌, ◌++◌, get, lookup, none}
use stratosync.Types.FileKind
use stratosync.Types.SyncStatus.{dirty}
use stratosync.State.Tables.{FileRow}
use stratosync.State.Files.{FileEntry, NewFileEntry, insert_file}
use stratosync.Fuse.Errno.{eio}
use stratosync.Fuse.Handler.{
  Fs, OpenFile, Handler, Reply, okay, refused, on_world, open_handle, answer, in_db, ◌>>=◌,
}
use stratosync.Fuse.Names.{Os, validate_filename, join_remote, safe_cache_path}
use stratosync.Fuse.Write.{Mount, new_file, new_handle, new_file, create_file}

module _ (os : Os) (m : Mount) (now parent : ℕ) (name : String) (s : Fs) where
  -- An empty file that was never uploaded, and a handle to write to it.
  abbrev pub dirty_file : ℕ → String → String → FileRow
  dirty_file i remote_path path = record {
    inode = i;
    mount_id = m.mount_id;
    parent_inode = some parent;
    name = name;
    remote_path = remote_path;
    kind = FileKind.file;
    size = 0;
    mtime = now;
    etag = none;
    status = dirty;
    cache_path = some path;
    cache_size = some 0;
    cache_mtime = none;
    dir_listed = none;
    poll_generation = 0;
    remote_item_id = none;
  }

  abbrev pub write_handle : ℕ → String → String → OpenFile
  write_handle i remote_path path = record {
    inode = i;
    cache_path = path;
    remote_path = remote_path;
    flags = 1;
    hydrating = false;
  }

  pub data Created : Reply (ℕ × ℕ) × Fs → Type 0 where
    rejected :
        {e : ℕ} {t : Fs}
        → t.world.db ≡ s.world.db
        → t.open_files ≡ s.open_files
        → Created (refused e, t)
    created :
        {i : ℕ} {t : Fs} (dir : FileEntry) (path : String)
        → validate_filename name ≡ okay tt
        → m.is_ignored (join_remote dir.remote_path name) ≡ false
        → safe_cache_path os m.cache_dir (join_remote dir.remote_path name) ≡ okay path
        → t.world.db.files
          ≡ s.world.db.files ++ dirty_file i (join_remote dir.remote_path name) path ∷ []
        → lookup path t.world.files ≡ some ""
        → get s.next_fh t.open_files ≡ some (write_handle i (join_remote dir.remote_path name) path)
        → Created (okay (i, s.next_fh), t)

  module _ (dir : FileEntry) (valid : validate_filename name ≡ okay tt) where
    abbrev target : String
    target = join_remote dir.remote_path name

    module _ (allowed : m.is_ignored target ≡ false) (path : String)
        (safe : safe_cache_path os m.cache_dir target ≡ okay path) where
      abbrev file_entry : NewFileEntry
      file_entry = new_file os m now parent name target path

      abbrev opened : ℕ → Handler (ℕ × ℕ)
      opened i = do fh ← open_handle (new_handle os m now i target path); answer (okay (i, fh))

      abbrev insert : Handler (ℕ × ℕ)
      insert = do i ← in_db (insert_file file_entry); opened i

    abbrev placed : Handler (ℕ × ℕ)
    placed = do
      path ← answer (safe_cache_path os m.cache_dir target)
      on_world eio (create_file path) >>= λ u. (do
        i ← in_db (insert_file (new_file os m now parent name target path))
        fh ← open_handle (new_handle os m now i target path)
        answer (okay (i, fh)))
