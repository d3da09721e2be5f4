-- ===== src/Fuse/Open.antt =====
-- `open`, `setattr`, `getattr` and `getxattr` of crates/stratosync-daemon/src/fuse/mod.rs. The answer of
-- the reads is the row; its attributes are a view of it.
use stratosync.Common.{
  ℕ, String, Bool, true, not, ◌&&◌, ◌||◌, Option, none, some, [], ◌∷◌, ◌++◌, len, leb, lookup,
  store, str_eq, ◌==◌, unwrap_or, if◌then◌else◌,
}
use stratosync.Types.SyncStatus.{hydrating, needs_hydration, is_hydrating, as_str}
use stratosync.State.Files.{
  FileEntry, get_by_inode, set_status, set_dirty_size, set_dirty_with_cache_path, touch_lru,
}
use stratosync.Sync.World.{Act, done, fault, disk, on_db, has_text}
use stratosync.Upload.Loop.{write}
use stratosync.Fuse.Errno.{eio, enodata, erange}
use stratosync.Fuse.Handler.{
  Handler, okay, refused, answer, on_world, in_db, besides, or_refuse, trigger, open_handle, ◌>>=◌,
  ◌>>◌,
}
use stratosync.Fuse.Names.{Os, trim_start_slashes}
use stratosync.Fuse.Write.{Mount, entry_of}

-- `set_len` on a file that is there, and on one that is made for it.
module _ (os : Os) where
  unfoldable pub resize : String → ℕ → Act Unit
  resize path n w = elim (lookup path w.files) [
    | none ↦ (fault disk, w)
    | some content ↦
        if has_text path w.denied
        then (fault disk, w)
        else (done tt, record w { files = store path (os.set_len content n) w.files })
  ]

  unfoldable pub create_sized : String → ℕ → Act Unit
  create_sized path n w =
      if has_text path w.denied
      then (fault disk, w)
      else (done tt, record w { files = store path (os.set_len "" n) w.files })

-- The inode's hydration is spawned.
abbrev pub download : ℕ → Handler Unit
download i s = (okay tt, record s { downloads = s.downloads ++ i ∷ [] })

abbrev pub is_wanted : Option ℕ → ℕ → Bool
is_wanted none size = true
is_wanted (some cap) size = leb size cap

module _ (os : Os) (m : Mount) (now : ℕ) where
  abbrev pub default_path : String → String
  default_path remote_path = os.join m.cache_dir (trim_start_slashes remote_path)

  -- A file that is being hydrated is opened as it is.
  abbrev pub prepare : Option ℕ → ℕ → FileEntry → Handler Unit
  prepare cap i e =
      if needs_hydration e.status && is_wanted cap e.size
      then (do in_db (set_status i hydrating); download i)
      else if not (is_hydrating e.status)
      then besides (on_db (touch_lru now i))
      else answer (okay tt)

  -- `cap` is `auto_hydrate_max_size_bytes()`.
  unfoldable pub open_file : Option ℕ → ℕ → ℕ → Handler ℕ
  open_file cap i flags = do
    e ← entry_of i
    prepare cap i e
    open_handle (record {
      inode = i;
      cache_path = unwrap_or e.cache_path (default_path e.remote_path);
      remote_path = e.remote_path;
      flags = flags;
      hydrating = needs_hydration e.status || is_hydrating e.status;
    })

  abbrev pub truncate_at : ℕ → ℕ → FileEntry → Option String → Handler Unit
  truncate_at i size e (some path) = do
    on_world eio (resize os path size)
    in_db (set_dirty_size i size)
    trigger (write i)
  truncate_at i size e none = do
    on_world eio (create_sized os (default_path e.remote_path) size)
    in_db (set_dirty_with_cache_path i (default_path e.remote_path) size)
    trigger (write i)

  abbrev pub truncate : ℕ → Option ℕ → FileEntry → Handler Unit
  truncate i none e = answer (okay tt)
  truncate i (some size) e = truncate_at i size e e.cache_path

  -- Every error is EIO, a missing row too.
  unfoldable pub setattr : ℕ → Option ℕ → Handler FileEntry
  setattr i size = do
    found ← in_db (get_by_inode i)
    e ← or_refuse found eio
    truncate i size e
    after ← in_db (get_by_inode i)
    or_refuse after eio

unfoldable pub getattr : ℕ → Handler FileEntry
getattr i = entry_of i

pub data Xattr : Type 0 where
  needed : ℕ → Xattr
  value : String → Xattr

abbrev pub sized : String → ℕ → Handler Xattr
sized v n =
    if n == 0
    then answer (okay (needed (len v)))
    else if leb (len v) n
    then answer (okay (value v))
    else answer (refused erange)

abbrev pub xattr_of : String → FileEntry → Option String
xattr_of name e =
    if str_eq name "user.stratosync.status"
    then some (as_str e.status)
    else if str_eq name "user.stratosync.etag"
    then some (unwrap_or e.etag "")
    else if str_eq name "user.stratosync.remote_path"
    then some e.remote_path
    else none

unfoldable pub getxattr : ℕ → String → ℕ → Handler Xattr
unfolding as_str
getxattr i name n = do e ← entry_of i; v ← or_refuse (xattr_of name e) enodata; sized v n
