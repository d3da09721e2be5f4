-- ===== src/Upload/Run.antt =====
-- `run_upload`: one upload of a file. A write of the database that fails ends it with a fatal error.
-- The backend's answer to `upload_with_progress` is the parameter `upload`, with `meanwhile` for what
-- the other tasks do while it runs; a symbolic link in the cache is found by `is_symlink`. The
-- snapshot of the base version, which the code hands to another thread, is taken at the end.
use stratosync.Common.{
  ℕ, String, Bool, true, false, not, Option, none, some, List, if◌then◌else◌, lookup,
}
use stratosync.Types.SyncStatus.{SyncStatus, cached, remote, uploading, conflict}
use stratosync.Types.FileKind.{is_file}
use stratosync.Types.SyncError.{fatal, not_found, transient, io}
use stratosync.Types.Metadata.{RemoteMetadata}
use stratosync.State.Tables.{Exec, Result, ok, err, SqlError, after_upload}
use stratosync.State.Files.{
  FileEntry, get_by_inode, set_status, set_uploaded, revert_dirty_with_missing_cache,
}
use stratosync.State.Versions.{set_base_hash}
use stratosync.Sync.World.{
  World, Act, Outcome, done, fault, backend, return, throw, logged, on_db, exists, has_text, ◌>>=◌,
  ◌>>◌,
}
use stratosync.Sync.BaseStore.{store_base, is_text_mergeable}
use stratosync.Sync.Versioning.{capture}

-- What an upload is given beside the inode: the mount, the limits of versions and bases, and what
-- the code takes from its libraries.
pub record Job : Type 0 where
  pub mount_id : ℕ
  pub version_retention : ℕ
  pub base_max_size : ℕ
  pub text_extensions : List String
  pub sha256 : String → String
  pub lower : String → String
  pub extension : String → Option String
  pub file_name : String → String
  pub is_symlink : String → Bool
  pub show : SqlError → String
  pub upload : String → String → Option String → World → Outcome RemoteMetadata
  pub meanwhile : World → World

-- `map_err(|e| SyncError::Fatal(…))`
abbrev pub as_fatal : {A : Type 0} → (SqlError → String) → Exec A → Act A
as_fatal show m w = let (r, db) = m w.db in (worded show r, record w { db = db })
  where
    worded : {B : Type 0} → (SqlError → String) → Result B → Outcome B
    worded show (ok a) = done a
    worded show (err e) = fault (backend (fatal (show e)))

module _ (j : Job) (now i : ℕ) where
  -- The base version for a merge, which records no size.
  abbrev pub keep_base : String → ℕ → Option String → Act Unit
  keep_base path size content =
      if is_text_mergeable j.lower (j.extension path) (j.file_name path) content size
        j.base_max_size j.text_extensions
      then logged
          (do hash ← store_base j.sha256 path; on_db (set_base_hash now i j.mount_id hash 0))
      else return tt

  abbrev pub take_base : String → ℕ → Act Unit
  take_base path size w = keep_base path size (lookup path w.files) w

  -- The version and the base version of the content that was sent.
  abbrev pub snapshots : String → RemoteMetadata → Act Unit
  snapshots path meta = do
    logged (
        capture j.sha256 now j.base_max_size j.version_retention (record {
          inode = i;
          mount_id = j.mount_id;
          cache_path = path;
          size = meta.size;
          etag = meta.etag;
          source = after_upload;
        }))
    take_base path meta.size

  abbrev pub uploaded : String → RemoteMetadata → Act Unit
  uploaded path meta = do
    as_fatal j.show (set_uploaded now i meta.size meta.etag meta.mtime meta.size)
    snapshots path meta

  -- `upload_with_progress`.
  abbrev pub sent : String → String → Option String → Act RemoteMetadata
  sent path remote_path etag w = (j.upload path remote_path etag w, j.meanwhile w)

  abbrev pub send : FileEntry → String → Act Unit
  send e path w =
      if has_text path w.denied
      then (fault (backend (io path)), w)
      else if j.is_symlink path
      then (fault (backend (fatal path)), w)
      else (do
        as_fatal j.show (set_status i uploading)
        meta ← sent path e.remote_path e.etag
        uploaded path meta)
          w

  -- The cache file of the row is gone.
  abbrev pub revert : String → Act Unit
  revert path = do
    reverted ← as_fatal j.show (revert_dirty_with_missing_cache i path)
    if reverted then return tt else throw (backend (transient path))

  abbrev pub is_conflicted : SyncStatus → Bool
  is_conflicted conflict = true
  is_conflicted _ = false

  abbrev pub with_path : FileEntry → Option String → Act Unit
  with_path e none = logged (on_db (set_status i remote))
  with_path e (some path) = λ w. if exists path w.files then send e path w else revert path w

  abbrev pub with_entry : Option FileEntry → Act Unit
  with_entry none = throw (backend (not_found "inode"))
  with_entry (some e) =
      if is_conflicted e.status
      then return tt
      else if not (is_file e.kind)
      then logged (on_db (set_status i cached))
      else with_path e e.cache_path

  unfoldable pub run_upload : Act Unit
  run_upload = do entry ← as_fatal j.show (get_by_inode i); with_entry entry
