-- ===== src/Sync/Examples.antt =====
-- Witnesses for snapshots and headers: file 3 has a cache file, a version and a base version.
use Prim.Native.String
use stratosync.Common.{some, none, [], ◌∷◌, refl, arith, ◌≡◌}
use stratosync.Types.SyncStatus.{cached}
use stratosync.Types.FileKind
use stratosync.State.Tables.{empty, manual}
use stratosync.Sync.World.{World, done}
use stratosync.Sync.Headers.{read_header, write_header, invalidate_header, read_header-write_header}
use stratosync.Sync.Versioning.{Snapshot, capture}
use stratosync.Sync.Backed.{IsStored, capture-IsStored}

abbrev world : World
unfolding empty
world =
    let base = empty in
    record {
      db = record base {
        mounts =
            record {
              id = 1;
              name = "m";
              remote = "drive:";
              mount_path = "/m";
              cache_dir = "/c";
              cache_quota = 10;
              poll_secs = 60;
            }
            ∷ [];
        files =
            record {
              inode = 3;
              mount_id = 1;
              parent_inode = none;
              name = "f";
              remote_path = "f";
              kind = FileKind.file;
              size = 3;
              mtime = 0;
              etag = none;
              status = cached;
              cache_path = some "/c/f";
              cache_size = some 3;
              cache_mtime = none;
              dir_listed = none;
              poll_generation = 0;
              remote_item_id = none;
            }
            ∷ [];
        file_seq = 3;
        bases =
            record { inode = 3; mount_id = 1; object_hash = "#old"; file_size = 3; updated_at = 1 }
            ∷ [];
        versions =
            record {
              id = 1;
              inode = 3;
              mount_id = 1;
              object_hash = "#old";
              recorded_at = 1;
              file_size = 3;
              etag = none;
              source = manual;
            }
            ∷ [];
        version_seq = 1;
      };
      files = ("/c/f", "new") ∷ [];
      objects = ("#old", "old") ∷ [];
      headers = [];
      denied = [];
      sealed = [];
      stuck = [];
    }

abbrev snapshot : Snapshot
snapshot = record {
  inode = 3;
  mount_id = 1;
  cache_path = "/c/f";
  size = 3;
  etag = none;
  source = manual;
}

capture-IsStored_example :
    IsStored (String.◌++◌ "#") (capture (String.◌++◌ "#") 9 100 1 snapshot world).1
unfolding empty
capture-IsStored_example =
    capture-IsStored (String.◌++◌ "#") 9 100 1 snapshot world
      (record { versions = (refl, tt); bases = (refl, tt); addressed = (refl, tt) })

-- The header of file 3 has three bytes, and the read asks for two of them.
read_header-write_header_example :
    ((read_header 3 1 2 (write_header 3 (7 ∷ 8 ∷ 9 ∷ []) world).1).0 ≡ done (some (8 ∷ 9 ∷ [])))
    × ((read_header 3 1 2 (invalidate_header 3 world).1).0 ≡ done none)
    × ((read_header 4 1 2 (write_header 3 (7 ∷ 8 ∷ 9 ∷ []) world).1).0
        ≡ (read_header 4 1 2 world).0)
    × ((read_header 4 1 2 (invalidate_header 3 world).1).0 ≡ (read_header 4 1 2 world).0)
unfolding world empty
read_header-write_header_example =
    read_header-write_header 3 4 1 2 (7 ∷ 8 ∷ 9 ∷ []) world refl refl (omega arith)
