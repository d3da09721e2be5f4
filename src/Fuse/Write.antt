-- ===== src/Fuse/Write.antt =====
-- The handlers of crates/stratosync-daemon/src/fuse/write_ops.rs that write, create and close.
-- `now` is the time of the call.
use stratosync.Common.{
  ℕ, String, Bool, true, false, Option, none, some, len, lookup, store, get, remove, if◌then◌else◌,
}
use stratosync.Types.SyncStatus.{SyncStatus, dirty, cached}
use stratosync.Types.FileKind.{file, directory}
use stratosync.State.Tables.{Result, ok}
use stratosync.State.Files.{FileEntry, NewFileEntry, set_dirty_size, get_by_inode, insert_file}
use stratosync.Sync.World.{Act, done, fault, disk, on_db, has_text}
use stratosync.Upload.Loop.{write, close, fsync}
use stratosync.Fuse.Errno.{ebadf, enoent, eio, eperm}
use stratosync.Fuse.Handler.{
  OpenFile, make_dir, Handler, okay, refused, answer, refuse_if, on_world, in_db, besides,
  or_refuse, trigger, spawn, open_handle, ◌>>=◌, ◌>>◌,
}
use stratosync.Fuse.Names.{Written, Os, io_errno, validate_filename, join_remote, safe_cache_path}

-- What a handler is given of its mount.
pub record Mount : Type 0 where
  pub mount_id : ℕ
  pub cache_dir : String
  pub is_ignored : String → Bool

-- `File::create`, with the directories above the path.
unfoldable pub create_file : String → Act Unit
create_file path w =
    if has_text path w.denied
    then (fault disk, w)
    else (done tt, record w { files = store path "" w.files })

-- `open_files.get(&fh).ok_or(EBADF)`
abbrev pub handle_of : ℕ → Handler OpenFile
handle_of fh s = or_refuse (get fh s.open_files) ebadf s

module _ (os : Os) where
  abbrev pub put_content : String → Written → Handler ℕ
  put_content path (r) s =
      let s' = record s { world = record s.world { files = store path r.content s.world.files } } in
      elim r.error [ none ↦ (okay (len r.content), s') | some c ↦ (refused (io_errno c), s') ]

  -- `open`, `seek`, `write_all`, `flush` and the size of the file after them. Only a file that is
  -- there is opened; an error in the middle leaves what was written.
  unfoldable pub write_at : String → ℕ → String → Handler ℕ
  write_at path offset bytes s = elim (lookup path s.world.files) [
    | none ↦ (refused (io_errno (some enoent)), s)
    | some content ↦
        if has_text path s.world.denied
        then (refused (io_errno (os.raw_error path)), s)
        else put_content path (os.write content offset bytes) s
  ]

  -- An error of the database is logged: the bytes are in the cache file.
  unfoldable pub handle_write : ℕ → ℕ → String → Handler ℕ
  handle_write fh offset bytes = do
    f ← handle_of fh
    size ← write_at f.cache_path offset bytes
    besides (on_db (set_dirty_size f.inode size))
    trigger (write f.inode)
    answer (okay (len bytes))

unfoldable pub handle_fsync : ℕ → Handler Unit
handle_fsync fh = do f ← handle_of fh; trigger (fsync f.inode)

abbrev pub is_dirty : SyncStatus → Bool
is_dirty dirty = true
is_dirty _ = false

abbrev pub close_if_dirty : ℕ → Result (Option FileEntry) → Handler Unit
close_if_dirty i (ok (some e)) = if is_dirty e.status then trigger (close i) else answer (okay tt)
close_if_dirty i _ = answer (okay tt)

unfoldable pub handle_release : ℕ → Handler Unit
handle_release fh s = elim (get fh s.open_files) [
  | none ↦ (okay tt, s)
  | some f ↦
      close_if_dirty f.inode (get_by_inode f.inode s.world.db).0
        (record s { open_files = remove fh s.open_files })
]

-- `get_by_inode(…).map_err(|_| EIO)?.ok_or(ENOENT)?`
abbrev pub entry_of : ℕ → Handler FileEntry
entry_of i = do e ← in_db (get_by_inode i); or_refuse e enoent

module _ (os : Os) (m : Mount) (now : ℕ) where
  abbrev pub new_file : ℕ → String → String → String → NewFileEntry
  new_file parent name remote_path cache_path = record {
    mount_id = m.mount_id;
    parent = parent;
    name = name;
    remote_path = remote_path;
    kind = file;
    size = 0;
    mtime = now;
    etag = none;
    status = dirty;
    cache_path = some cache_path;
    cache_size = some 0;
  }

  -- Its flags are O_WRONLY.
  abbrev pub new_handle : ℕ → String → String → OpenFile
  new_handle i remote_path cache_path = record {
    inode = i;
    cache_path = cache_path;
    remote_path = remote_path;
    flags = 1;
    hydrating = false;
  }

  unfoldable pub handle_create : ℕ → String → Handler (ℕ × ℕ)
  handle_create parent name = do
    answer (validate_filename name)
    parent_entry ← entry_of parent
    let remote_path = join_remote parent_entry.remote_path name in
        (do
          refuse_if (m.is_ignored remote_path) eperm
          cache_path ← answer (safe_cache_path os m.cache_dir remote_path)
          on_world eio (create_file cache_path)
          i ← in_db (insert_file (new_file parent name remote_path cache_path))
          fh ← open_handle (new_handle i remote_path cache_path)
          answer (okay (i, fh)))

  unfoldable pub handle_mkdir : ℕ → String → Handler ℕ
  handle_mkdir parent name = do
    answer (validate_filename name)
    parent_entry ← entry_of parent
    let remote_path = join_remote parent_entry.remote_path name in
        (do
          refuse_if (m.is_ignored remote_path) eperm
          i ← in_db (
              insert_file (record {
                mount_id = m.mount_id;
                parent = parent;
                name = name;
                remote_path = remote_path;
                kind = directory;
                size = 0;
                mtime = now;
                etag = none;
                status = cached;
                cache_path = none;
                cache_size = none;
              }))
          spawn (make_dir remote_path)
          answer (okay i))
