-- ===== src/Sync/Versioning.antt =====
-- `capture`: a snapshot of a cache file in the base store, with its row of `version_history`.
use stratosync.Common.{ℕ, String, Option, List, [], ◌∷◌, ◌==◌, ◌||◌, not, ltb, if◌then◌else◌}
use stratosync.State.Tables.{VersionSource}
use stratosync.State.Versions.{insert_version_history, prune_version_history}
use stratosync.Sync.World.{Act, return, logged, on_db, exists, ◌>>=◌, ◌>>◌}
use stratosync.Sync.BaseStore.{store_base, remove_object}

-- What `capture` is given of a file.
pub record Snapshot : Type 0 where
  pub inode : ℕ
  pub mount_id : ℕ
  pub cache_path : String
  pub size : ℕ
  pub etag : Option String
  pub source : VersionSource

-- The loop over the orphans; a blob that cannot be removed is logged.
abbrev pub remove_all : List String → Act Unit
remove_all [] = return tt
remove_all (h ∷ hs) = do logged (remove_object h); remove_all hs

module _ (sha256 : String → String) (now max_size retention : ℕ) where
  abbrev pub record_version : Snapshot → String → Act Unit
  record_version s hash = do
    on_db (insert_version_history now s.inode s.mount_id hash s.size s.etag s.source)
    orphans ← on_db (prune_version_history s.inode retention)
    remove_all orphans

  unfoldable pub capture : Snapshot → Act Unit
  capture s w =
      if retention == 0 || ltb max_size s.size
      then (return tt) w
      else if not (exists s.cache_path w.files)
      then (return tt) w
      else (do hash ← store_base sha256 s.cache_path; record_version s hash) w
