-- ===== src/State/Clear.antt =====
-- `clear_cache_for_mount`: what it frees, and what it leaves alone.
use stratosync.Common.{
  ℕ, ◌+◌, ◌≡◌, refl, Bool, false, ◌&&◌, List, [], ◌∷◌, arith, select, update, count, sum_of,
  some_of, unwrap_or, length,
}
use stratosync.Types.SyncStatus.{is_unsynced}
use stratosync.State.Tables.{FileRow, LruRow, Db, ok}
use stratosync.State.Statement.{violates, update_files, delete_lru}
use stratosync.State.Files.{detached}
use stratosync.State.Cache.{
  CacheClearReport, clear_cache_for_mount, clearable, cached_bytes, delete_lru_all, paths_of,
}

-- No trigger guards a row that is set back to `remote`.
pub detached_free :
    (p : FileRow → Bool) (xs : List FileRow)
    → some_of (λ r. p r && violates (detached r)) xs ≡ false
detached_free p [] = refl
detached_free p (x ∷ xs) = ground (arith, detached_free p xs)

delete_lru_all_ok : (rs : List FileRow) (db : Db) → (delete_lru_all rs db).0 ≡ ok tt
unfolding delete_lru
delete_lru_all_ok [] db = refl
delete_lru_all_ok (r ∷ rs) db = delete_lru_all_ok rs _

delete_lru_all-files : (rs : List FileRow) (db : Db) → (delete_lru_all rs db).1.files ≡ db.files
unfolding delete_lru
delete_lru_all-files [] db = refl
delete_lru_all-files (r ∷ rs) db = delete_lru_all-files rs _

abbrev size_of : FileRow → ℕ
size_of r = unwrap_or r.cache_size 0

module _ (m : ℕ) (incl : Bool) (lru : List LruRow) where
  freed_bytes :
      (xs : List FileRow)
      → cached_bytes m (update (clearable m incl lru) detached xs)
          + sum_of size_of (select (clearable m incl lru) xs)
        ≡ cached_bytes m xs
  freed_bytes [] = refl
  freed_bytes (x ∷ xs) = ground (arith, freed_bytes xs)

  unsynced_kept :
      (xs : List FileRow)
      → select (λ r. is_unsynced r.status) (update (clearable m incl lru) detached xs)
        ≡ select (λ r. is_unsynced r.status) xs
  unsynced_kept [] = refl
  unsynced_kept (x ∷ xs) = ground (arith, unsynced_kept xs)

  paths_counted :
      (xs : List FileRow)
      → count (clearable m incl lru) xs ≡ length (paths_of (select (clearable m incl lru) xs))
  paths_counted [] = refl
  paths_counted (x ∷ xs) = ground (arith, paths_counted xs)

-- Clearing the cache of a mount always succeeds. The bytes that it reports are those by which the
-- cached total of the mount falls, it reports as many paths as it cleared rows, and every row with
-- changes that are not uploaded stays as it is.
pub clear_cache_for_mount_lem :
    (m : ℕ) (incl : Bool) (db : Db)
    → let (r, db') = clear_cache_for_mount m incl db in
      (c : CacheClearReport) × (r ≡ ok c)
      × (cached_bytes m db'.files + c.bytes_freed ≡ cached_bytes m db.files)
      × (c.files_cleared ≡ length c.cache_paths)
      × (select (λ r. is_unsynced r.status) db'.files ≡ select (λ r. is_unsynced r.status) db.files)
unfolding clear_cache_for_mount update_files
clear_cache_for_mount_lem m incl db =
    let p = clearable m incl db.lru in
    let db₁ = record db { files = update p detached db.files } in
    rw (detached_free p db.files, delete_lru_all_ok (select p db.files) db₁)
      (
        _,
        refl,
        rw (delete_lru_all-files (select p db.files) db₁) (freed_bytes m incl db.lru db.files),
        paths_counted m incl db.lru db.files,
        rw (delete_lru_all-files (select p db.files) db₁) (unsynced_kept m incl db.lru db.files),
      )
