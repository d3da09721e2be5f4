-- ===== src/Poller/Full.antt =====
-- `poll_once`: a full listing of the remote.
use stratosync.Common.{
  ℕ, ◌+◌, String, Bool, Option, none, some, List, [], ◌∷◌, map, length, ltb, leb, len, slice,
  unwrap_or, Texts, lookup, store, rfind, if◌then◌else◌,
}
use stratosync.Types.{fuse_root_inode}
use stratosync.Types.SyncStatus.{is_cached}
use stratosync.Types.FileKind.{FileKind, file, directory}
use stratosync.Types.Metadata.{RemoteMetadata}
use stratosync.State.Tables.{before_poll}
use stratosync.State.Files.{FileEntry, get_by_inode, batch_mark_dirs_listed}
use stratosync.State.Remote.{upsert_remote_file_by_id_or_path}
use stratosync.State.Cache.{sort_by}
use stratosync.State.Poll.{
  RemoteSnapshot, snapshot_remote_index, active_tombstones, batch_mark_generation,
  delete_stale_entries, get_poll_generation, set_poll_generation, cleanup_expired_tombstones,
}
use stratosync.Sync.World.{
  Act, Outcome, done, fault, too_many, return, throw, attempt, logged, on_db, remove_cache_file,
  ◌>>=◌, ◌>>◌,
}
use stratosync.Sync.Headers.{invalidate_header}
use stratosync.Sync.Versioning.{capture}
use stratosync.Poller.Diff.{Diff, nothing, diff, snapshot_of}

-- The fields of `RemotePoller` that the polls read. `show` and `parse` are `to_string` and `parse`
-- of u64.
pub record Settings : Type 0 where
  pub mount_id : ℕ
  pub is_ignored : String → Bool
  pub version_max_size : ℕ
  pub version_retention : ℕ
  pub sha256 : String → String
  pub show : ℕ → String
  pub parse : String → Option ℕ

-- `unwrap_or_default` behind a call.
abbrev pub or_empty : {A : Type 0} → Act (List A) → Act (List A)
or_empty m w = let (r, w') = m w in elim r [ done a ↦ (done a, w') | fault e ↦ (done [], w') ]

abbrev pub max_poll_entries : ℕ
max_poll_entries = 500000

abbrev kind_of : RemoteMetadata → FileKind
kind_of e = if e.is_dir then directory else file

-- The inode of the directory of a path, the root where it is not known.
unfoldable pub parent_of : Texts ℕ → String → ℕ
parent_of inodes path = elim (rfind path "/") [
  | none ↦ fuse_root_inode
  | some i ↦ unwrap_or (lookup (slice path 0 i) inodes) fuse_root_inode
]

-- `path_to_inode` before the first upsert.
abbrev pub known_inodes : List RemoteSnapshot → Texts ℕ
known_inodes snaps = map (λ s. (s.path, s.inode)) snaps

abbrev pub shorter : RemoteMetadata → RemoteMetadata → Bool
shorter a b = leb (len a.path) (len b.path)

-- The files and the headers of deleted entries go, where they can.
abbrev pub clean_up : List (ℕ × String × Option String) → Act Unit
clean_up [] = return tt
clean_up ((i, path, cache_path) ∷ ds) = do
  elim cache_path [ none ↦ return tt | some p ↦ remove_cache_file p ]
  invalidate_header i
  clean_up ds

module _ (c : Settings) (now : ℕ) where
  -- An error of the snapshot is logged, and a row that cannot be read is passed over.
  abbrev pub keep_content : ℕ → Outcome (Option FileEntry) → Act Unit
  keep_content i (fault e) = return tt
  keep_content i (done none) = return tt
  keep_content i (done (some e)) = elim e.cache_path [
    | none ↦ return tt
    | some p ↦ logged (
        capture c.sha256 now c.version_max_size c.version_retention (record {
          inode = i;
          mount_id = c.mount_id;
          cache_path = p;
          size = e.size;
          etag = e.etag;
          source = before_poll;
        }))
  ]

  abbrev pub keep_known : Option RemoteSnapshot → Act Unit
  keep_known none = return tt
  keep_known (some s) =
      if is_cached s.status
      then attempt (on_db (get_by_inode s.inode)) (keep_content s.inode)
      else return tt

  -- The snapshot before an entry is replaced.
  unfoldable pub keep_version : List RemoteSnapshot → RemoteMetadata → Act Unit
  keep_version snaps e =
      if ltb 0 c.version_retention then keep_known (snapshot_of e.path snaps) else return tt

  abbrev pub keep_versions : List RemoteSnapshot → List RemoteMetadata → Act Unit
  keep_versions snaps [] = return tt
  keep_versions snaps (e ∷ es) = do keep_version snaps e; keep_versions snaps es

  -- One entry of phase 3; the answer is `path_to_inode` with its inode.
  unfoldable pub apply_one : ℕ → RemoteMetadata → Texts ℕ → Act (Texts ℕ)
  apply_one generation e inodes = do
    i ← on_db (
        upsert_remote_file_by_id_or_path c.mount_id
          (record {
            parent = parent_of inodes e.path;
            name = e.name;
            remote_path = e.path;
            kind = kind_of e;
            size = e.size;
            mtime = e.mtime;
            etag = e.etag;
          })
          e.item_id generation)
    invalidate_header i
    return (store e.path i inodes)

  abbrev pub apply_all : ℕ → List RemoteMetadata → Texts ℕ → Act (Texts ℕ)
  apply_all generation [] inodes = return inodes
  apply_all generation (e ∷ es) inodes = do
    inodes' ← apply_one generation e inodes
    apply_all generation es inodes'

  -- Phase 3.
  unfoldable pub apply_diff : List RemoteSnapshot → ℕ → Diff → Act Unit
  apply_diff snaps generation d = do
    apply_all generation (sort_by shorter d.to_upsert) (known_inodes snaps)
    on_db (batch_mark_generation d.unchanged_inodes generation)
    deleted ← on_db (delete_stale_entries c.mount_id generation)
    clean_up deleted
    on_db (set_poll_generation c.show c.parse now c.mount_id generation)
    logged (on_db (cleanup_expired_tombstones now))
    logged (on_db (batch_mark_dirs_listed now c.mount_id))

  -- The listing is what `list_recursive` of the backend answers.
  unfoldable pub poll_once : Outcome (List RemoteMetadata) → Act Unit
  poll_once (fault e) = throw e
  poll_once (done listing) =
      if ltb max_poll_entries (length listing) then throw (too_many (length listing)) else (do
        snaps ← on_db (snapshot_remote_index c.mount_id)
        g ← on_db (get_poll_generation c.show c.parse c.mount_id)
        tombstones ← or_empty (on_db (active_tombstones now c.mount_id))
        let d = diff c.is_ignored tombstones snaps listing nothing in
            (do keep_versions snaps d.to_upsert; apply_diff snaps (g + 1) d))
