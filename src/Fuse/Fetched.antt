-- ===== src/Fuse/Fetched.antt =====
-- A download and what it writes.
use stratosync.Common.{
  ℕ, ◌≡◌, refl, ap, String, true, ◌&&◌, Option, some, arith, All, len, store, some_of, lookup,
  lookup-store, Bool-cases, inl, inr,
}
use stratosync.Types.SyncStatus.{cached}
use stratosync.State.Tables.{FileRow, Db, Exec, ok}
use stratosync.State.Statement.{at_inode, violates, update_files}
use stratosync.State.Files.{FileEntry, set_cached}
use stratosync.State.Versions.{set_base_hash}
use stratosync.State.Keeps.{Result-cases}
use stratosync.Sync.World.{World, Act, Outcome, Fault, done, fault, bind_outcome, has_text}
use stratosync.Sync.BaseStore.{store_base}
use stratosync.Sync.Rules.{
  Maintains, Maintains-return, Maintains-bind, Maintains-if, Maintains-logged,
}
use stratosync.Upload.Sent.{updated_rows, touch_lru-files}
use stratosync.Fuse.Hydrate.{Hydrator, fetched, arrived, keep_base}
use stratosync.Fuse.Settled.{IsHere}

module _ (h : Hydrator) (now : ℕ) (e : FileEntry) (path : String) where
  abbrev pub Here : String → World → Type 0
  Here content = IsHere e.inode path content

  aside-Here :
      {A : Type 0} (content : String) (m : Act A)
      → ((w : World) → (m w).1.db.files ≡ w.db.files)
      → ((w : World) → (m w).1.files ≡ w.files)
      → Maintains (Here content) m
  aside-Here content m rows files = record {
    at = λ w k. record { rows = rw (rows w) k.rows; file = rw (files w) k.file };
  }

  store_base-same :
      (w : World)
      → ((store_base h.sha256 path w).1.db ≡ w.db)
        × ((store_base h.sha256 path w).1.files ≡ w.files)
  unfolding store_base
  store_base-same w = ground arith

  keep_base-Here :
      (content : String) (size : ℕ) (read : Option String)
      → Maintains (Here content) (keep_base h now e path size read)
  unfolding set_base_hash
  keep_base-Here content size read =
      Maintains-if _ _ _
        (Maintains-logged _ (
          Maintains-bind _ _
            (aside-Here content (store_base h.sha256 path)
              (λ w. ap (λ (d : Db). d.files) (store_base-same w).0) (λ w. (store_base-same w).1))
            (λ hash. aside-Here content _ (λ w. ground arith) (λ w. ground arith))))
        (Maintains-return tt)

  -- A download with its content in place, or an error.
  pub data Fetched : Outcome (Unit {0}) × World → Type 0 where
    here :
        {w : World} (content : String) (v : World)
        → h.download e.remote_path v ≡ done content
        → Here content w
        → Fetched (done tt, w)
    lost : {x : Fault} {w : World} → Fetched (fault x, w)

  stored :
      (content : String) (v : World)
      → h.download e.remote_path v ≡ done content
      → (x : Outcome (Unit {0}) × World) → Here content x.1
      → Fetched x
  stored content v k (done tt, w) g = here content v k g
  stored content v k (fault x, w) g = lost

  abbrev now_cached : String → FileRow → FileRow
  now_cached content r = record r {
    status = cached;
    cache_path = some path;
    cache_size = some (len content);
    etag = e.etag;
    mtime = e.mtime;
    size = e.size;
    cache_mtime = some now;
  }

  set_cached_rows :
      (content : String) (db : Db)
      → (set_cached now e.inode path (len content) e.etag e.mtime e.size db).0 ≡ ok tt
      → All
          (λ r. at_inode e.inode r ≡ true → (r.status ≡ cached) × (r.cache_path ≡ some path))
          (set_cached now e.inode path (len content) e.etag e.mtime e.size db).1.files
  unfolding set_cached update_files
  set_cached_rows content db k =
      elim (Bool-cases
        (some_of (λ r. at_inode e.inode r && violates (now_cached content r)) db.files)) [
          | inl b ↦ let bad = rw b at k in absurd (ground arith)
          | inr b ↦ rw b (
              rw (touch_lru-files now e.inode _) (
                updated_rows e.inode (now_cached content)
                  (λ r. (r.status ≡ cached) × (r.cache_path ≡ some path)) (λ r. (refl, refl))
                  (λ r. refl) db.files))
        ]

  arrived-Fetched :
      (content : String) (v w : World)
      → h.download e.remote_path v ≡ done content
      → Fetched (arrived h now e path content w)
  arrived-Fetched content v w k = elim (Bool-cases (has_text path w.denied)) [
    | inl d ↦ rw (d, arrived) lost
    | inr d ↦ elim (Result-cases (end w.db).0) [
      | inl (u, good) ↦
          rw (d, good, arrived)
            (stored content v k _ (
              (keep_base-Here content (len content) (lookup path (store path content w.files))).at
                (record w { db = (end w.db).1; files = store path content w.files })
                (record {
                  rows = set_cached_rows content w.db good;
                  file = lookup-store path content w.files;
                })))
      | inr (x, bad) ↦ rw (d, bad, arrived) lost
    ]
  ]
    where
      end : Exec Unit
      end = set_cached now e.inode path (len content) e.etag e.mtime e.size

  answered :
      (r : Outcome String) (v w : World)
      → h.download e.remote_path v ≡ r
      → Fetched (bind_outcome r (arrived h now e path) w)
  answered (done content) v w k = arrived-Fetched content v w k
  answered (fault x) v w k = lost

  pub fetched-Fetched : (w : World) → Fetched (fetched h now e path w)
  fetched-Fetched w = answered (h.download e.remote_path w) w (h.meanwhile w) refl
