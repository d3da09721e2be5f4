-- ===== src/State/Pending.antt =====
-- `get_pending_uploads`: what a restart finds to upload.
use stratosync.Common.{
  ℕ, ◌≡◌, refl, Bool, false, ◌&&◌, List, [], ◌∷◌, arith, select, some_of, is_some, map, ◌==◌,
}
use stratosync.Types.SyncStatus.{is_unsynced}
use stratosync.Types.FileKind.{is_file}
use stratosync.State.Tables.{FileRow, Db, ok}
use stratosync.State.Statement.{violates}
use stratosync.State.Files.{row_to_entry}
use stratosync.State.Cache.{get_pending_uploads}
use stratosync.State.Valid.{IsValid}

-- A file of the mount whose changes are not uploaded.
abbrev pub is_pending : ℕ → FileRow → Bool
is_pending m r = r.mount_id == m && is_unsynced r.status && is_file r.kind

with_cache_path :
    (m : ℕ) (xs : List FileRow)
    → some_of violates xs ≡ false
    → select
        (λ r. r.mount_id == m && is_unsynced r.status && is_file r.kind && is_some r.cache_path)
        xs
      ≡ select (is_pending m) xs
with_cache_path m [] h = refl
with_cache_path m (x ∷ xs) h = ground (arith, with_cache_path m xs)

-- In a database that keeps the constraints of the schema, the uploads that a restart finds are all
-- the files of the mount with changes that are not uploaded: the test for a cache path drops none.
pub get_pending_uploads_complete :
    (m : ℕ) (db : Db)
    → IsValid db
    → (get_pending_uploads m db).0 ≡ ok (map row_to_entry (select (is_pending m) db.files))
unfolding get_pending_uploads
get_pending_uploads_complete m db v = rw (with_cache_path m db.files v.guarded)
