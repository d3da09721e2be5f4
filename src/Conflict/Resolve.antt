-- ===== src/Conflict/Resolve.antt =====
-- `resolve`: equal contents, a merge, or both versions kept. `try_three_way_merge` (git) is the
-- parameter `merge`; `conflict_name` stands for `make_conflict_name`, whose name holds the time and
-- a hash of the content.
use stratosync.Common.{
  ℕ, String, Bool, true, false, ◌&&◌, Option, none, some, List, len, slice, lookup, store, rfind,
  unwrap_or, str_eq, if◌then◌else◌,
}
use Prim.Native.String
use stratosync.Types.SyncStatus.{conflict}
use stratosync.Types.FileKind.{file}
use stratosync.Types.Metadata.{RemoteMetadata}
use stratosync.State.Files.{FileEntry, NewFileEntry, set_cached, insert_file}
use stratosync.State.Versions.{get_base_hash, set_base_hash}
use stratosync.Sync.World.{
  World, Act, Outcome, done, fault, disk, on_db, exists, has_text, logged, remove_cache_file,
}
use stratosync.Sync.World
use stratosync.Sync.BaseStore.{store_base, is_text_mergeable}
use stratosync.Poller.Diff.{conflict_prefix}
use stratosync.Conflict.Site.{Backend, Doing, finished, locally, trying, asking, ◌>>=◌, ◌>>◌}

-- `MergeOutcome`
pub data MergeOutcome : Type 0 where
  clean conflict_markers : String → MergeOutcome
  failed : MergeOutcome

-- `ConflictStrategy`
pub data ConflictStrategy : Type 0 where
  keep_both merge : ConflictStrategy

abbrev dir_of : String → Option ℕ → String
dir_of path none = ""
dir_of path (some i) = slice path 0 i

unfoldable pub conflict_remote_path : String → String → String
conflict_remote_path remote_path name =
    let parent = dir_of remote_path (rfind remote_path "/") in
    if str_eq parent ""
    then String.◌++◌ conflict_prefix name
    else String.◌++◌ conflict_prefix (String.◌++◌ parent (String.◌++◌ "/" name))

-- The configuration and what the code takes from its libraries.
pub record Resolver (R : Type 0) : Type 0 where
  pub backend : Backend R
  pub has_git : Bool
  pub strategy : ConflictStrategy
  pub base_max_size : ℕ
  pub text_extensions : List String
  pub sha256 : String → String
  pub lower : String → String
  pub extension : String → Option String
  pub file_name : String → String
  pub merge_files : String → String → String → MergeOutcome
  pub conflict_name : String → String → String
  pub tmp_of : String → String
  pub clock : ℕ

-- `tokio::fs::write`, which makes the file where it is not there.
unfoldable pub write_file : String → String → Act Unit
write_file path content w =
    if has_text path w.denied
    then (fault disk, w)
    else (done tt, record w { files = store path content w.files })

-- `metadata` of a cache file, of which the code takes the length.
unfoldable pub file_len : String → Act ℕ
file_len path w = elim (lookup path w.files) [ none ↦ (fault disk, w) | some c ↦ (done (len c), w) ]

unfoldable pub read_file : String → Act String
read_file path w = elim (lookup path w.files) [
  | none ↦ (fault disk, w)
  | some c ↦ if has_text path w.denied then (fault disk, w) else (done c, w)
]

-- The row of a conflict copy: it has no cache file.
abbrev copy_row : ℕ → FileEntry → String → String → ℕ → Option String → NewFileEntry
copy_row now e name remote_path size etag = record {
  mount_id = e.mount_id;
  parent = e.parent;
  name = name;
  remote_path = remote_path;
  kind = file;
  size = size;
  mtime = now;
  etag = etag;
  status = conflict;
  cache_path = none;
  cache_size = none;
}

module _ {R : Type 0} (c : Resolver R) where
  -- `Backend::upload` of a cache file.
  unfoldable pub upload_file : String → String → Doing R RemoteMetadata
  upload_file path remote_path = do
    content ← locally (read_file path)
    λ s.
        let (r, remote) = c.backend.upload content remote_path s.remote in
        (r, record s { remote = remote })

  -- `Backend::download` into a cache file.
  unfoldable pub download_file : String → String → Doing R Unit
  download_file remote_path path = do
    content ← asking (c.backend.download remote_path)
    locally (write_file path content)

  abbrev mtime_now : FileEntry → ℕ → RemoteMetadata
  mtime_now e size = record {
    path = e.remote_path;
    name = e.name;
    size = size;
    mtime = c.clock;
    is_dir = false;
    etag = none;
    checksum = none;
    mime_type = none;
    item_id = none;
  }

  -- The metadata of the remote, or those of the file just downloaded.
  abbrev pub stat_or : FileEntry → ℕ → Outcome RemoteMetadata → Doing R RemoteMetadata
  stat_or e size (done meta) = finished meta
  stat_or e size (fault x) = finished (mtime_now e size)

  abbrev pub insert_copy : FileEntry → String → String → ℕ → Outcome RemoteMetadata → Doing R ℕ
  insert_copy e name remote_path size (done meta) =
      locally (on_db (insert_file (copy_row c.clock e name remote_path meta.size meta.etag)))
  insert_copy e name remote_path size (fault x) =
      locally (on_db (insert_file (copy_row c.clock e name remote_path size none)))

  -- The rows of both versions.
  abbrev pub record_both : FileEntry → String → String → String → Doing R Unit
  record_both e path name copy = do
    size ← locally (file_len path)
    meta ← trying (asking (c.backend.stat e.remote_path)) (stat_or e size)
    locally (on_db (set_cached c.clock e.inode path size meta.etag meta.mtime meta.size))
    trying (asking (c.backend.stat copy)) (insert_copy e name copy size)
    finished tt

  unfoldable pub keep_both_versions : FileEntry → String → Doing R Unit
  keep_both_versions e path s =
      let name = c.conflict_name e.name (unwrap_or (lookup path s.world.files) "") in
      let copy = conflict_remote_path e.remote_path name in
      (do upload_file path copy; download_file e.remote_path path; record_both e path name copy) s

  -- The merged content becomes that of the file, here and at the remote.
  abbrev take_merge : FileEntry → String → String → Doing R Unit
  take_merge e path merged = do
    locally (write_file path merged)
    meta ← upload_file path e.remote_path
    locally (on_db (set_cached c.clock e.inode path (len merged) meta.etag meta.mtime meta.size))
    locally (
        logged (
          World.◌>>=◌ (store_base c.sha256 path)
            λ hash. on_db (set_base_hash c.clock e.inode e.mount_id hash 0)))
    locally (remove_cache_file (c.tmp_of path))

  abbrev pub after_merge : FileEntry → String → MergeOutcome → Doing R Unit
  after_merge e path (clean merged) = take_merge e path merged
  after_merge e path (conflict_markers merged) = do
    locally (write_file path merged)
    locally (remove_cache_file (c.tmp_of path))
    keep_both_versions e path
  after_merge e path failed = do
    locally (remove_cache_file (c.tmp_of path))
    keep_both_versions e path

  abbrev merged_with : FileEntry → String → String → Outcome (Unit {0}) → Doing R Unit
  merged_with e path base (fault x) s = keep_both_versions e path s
  merged_with e path base (done u) s =
      after_merge e path
        (c.merge_files base (unwrap_or (lookup path s.world.files) "")
          (unwrap_or (lookup (c.tmp_of path) s.world.files) ""))
        s

  -- The merge needs git, the strategy, a base version with its blob, and a text.
  abbrev try_merge : FileEntry → String → Option String → Doing R Unit
  try_merge e path none s = keep_both_versions e path s
  try_merge e path (some hash) s = elim (lookup hash s.world.objects) [
    | none ↦ keep_both_versions e path s
    | some base ↦
        if is_text_mergeable c.lower (c.extension path) (c.file_name path)
          (lookup path s.world.files) e.size c.base_max_size c.text_extensions
        then trying (download_file e.remote_path (c.tmp_of path)) (merged_with e path base) s
        else keep_both_versions e path s
  ]

  abbrev pub wants_merge : ConflictStrategy → Bool
  wants_merge keep_both = false
  wants_merge merge = true

  abbrev pub differing : FileEntry → String → Doing R Unit
  differing e path =
      if c.has_git && wants_merge c.strategy
      then (do hash ← locally (on_db (get_base_hash e.inode e.mount_id)); try_merge e path hash)
      else keep_both_versions e path

  -- The answer of the comparison; an error of it counts as a difference.
  abbrev pub compared : FileEntry → String → Outcome (Bool × RemoteMetadata) → Doing R Unit
  compared e path (done (true, meta)) = do
    size ← locally (file_len path)
    locally (on_db (set_cached c.clock e.inode path size meta.etag meta.mtime meta.size))
  compared e path (done (false, meta)) = differing e path
  compared e path (fault x) = differing e path

  abbrev pub resolve_at : FileEntry → Option String → Doing R Unit
  resolve_at e none s = (finished tt) s
  resolve_at e (some path) s =
      trying (asking (c.backend.local_eq_remote (lookup path s.world.files) e.remote_path))
        (compared e path) s

  unfoldable pub resolve : FileEntry → Doing R Unit
  resolve e = resolve_at e e.cache_path
