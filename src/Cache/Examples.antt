-- ===== src/Cache/Examples.antt =====
-- Witnesses for the evictions: one cached file, over the high mark, whose cache file is on disk, with a
-- base version that is stale and a version of the same content.
use stratosync.Common.{◌-◌, ◌≡◌, refl, false, some, none, [], ◌∷◌, arith}
use stratosync.Types.SyncStatus.{cached}
use stratosync.Types.FileKind
use stratosync.State.Tables.{FileRow, empty}
use stratosync.State.Cache.{cached_bytes}
use stratosync.State.Tables.{BaseRow, manual}
use stratosync.State.Versions.{stale_base_entries}
use stratosync.State.Cache.{sort_by, insert_by}
use stratosync.Sync.World.{World as SyncWorld, exists}
use stratosync.Cache.Bases.{evict_stale_bases}
use stratosync.Cache.Shared.{
  HasBlobs, IsKeyed, evict_stale_bases-HasBlobs, evict_stale_bases-versions,
}
use stratosync.Cache.Disk.{World}
use stratosync.Cache.Evict.{maybe_evict}
use stratosync.Cache.Terminates.{Returned, maybe_evict_returns}

abbrev file : FileRow
file = record {
  inode = 3;
  mount_id = 1;
  parent_inode = none;
  name = "f";
  remote_path = "f";
  kind = FileKind.file;
  size = 10;
  mtime = 0;
  etag = none;
  status = cached;
  cache_path = some "/cache/3";
  cache_size = some 10;
  cache_mtime = none;
  dir_listed = none;
  poll_generation = 0;
  remote_item_id = none;
}

abbrev world : World
unfolding empty
world =
    let base = empty in
    record {
      db = record base {
        files = file ∷ [];
        file_seq = 3;
        lru = record { inode = 3; last_access = 5; pinned = false } ∷ [];
      };
      disk = record { present = "/cache/3" ∷ []; locked = [] };
    }

maybe_evict_returns_example :
    Returned
      (cached_bytes 1 world.db.files - 4)
      (maybe_evict 1 (λ c db. db) (λ c db. db) 8 4 world).0
maybe_evict_returns_example = maybe_evict_returns 1 (λ c db. db) (λ c db. db) 8 4 world

abbrev base_row : BaseRow
base_row = record { inode = 3; mount_id = 1; object_hash = "aa"; file_size = 10; updated_at = 5 }

abbrev based : SyncWorld
based = record {
  db = record (world.db) {
    bases = base_row ∷ [];
    versions =
        record {
          id = 1;
          inode = 3;
          mount_id = 1;
          object_hash = "aa";
          recorded_at = 5;
          file_size = 10;
          etag = none;
          source = manual;
        }
        ∷ [];
    version_seq = 1;
  };
  files = [];
  objects = ("aa", "content") ∷ [];
  headers = [];
  denied = [];
  sealed = [];
  stuck = [];
}

based-IsKeyed : IsKeyed based.db.bases
based-IsKeyed i m = ground arith

evict_stale_bases-HasBlobs_example : HasBlobs (evict_stale_bases 900000 1 7 based).1
evict_stale_bases-HasBlobs_example =
    evict_stale_bases-HasBlobs 900000 1 7 based based-IsKeyed (refl, tt)

evict_stale_bases-versions_example :
    let w = (evict_stale_bases 900000 1 7 based).1 in
    (w.db.versions ≡ based.db.versions) × (exists "aa" w.objects ≡ false)
unfolding stale_base_entries sort_by insert_by world
evict_stale_bases-versions_example =
    evict_stale_bases-versions 900000 1 7 3 10 "aa" based refl refl refl
