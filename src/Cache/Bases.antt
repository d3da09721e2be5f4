-- ===== src/Cache/Bases.antt =====
-- The eviction of base versions, and the pins, which `CacheManager` writes with statements of its own.
use stratosync.Common.{update, ℕ, String, true, List, [], ◌∷◌, leb, false, ◌==◌, if◌then◌else◌}
use stratosync.State.Tables.{Exec, ok}
use stratosync.State.Statement.{upsert_lru}
use stratosync.State.Files.{touch_lru}
use stratosync.State.Versions.{base_hash_ref_count, remove_base_hash, stale_base_entries}
use stratosync.Sync.World.{Act, return, on_db, logged, ◌>>=◌, ◌>>◌}
use stratosync.Sync.BaseStore.{remove_object}

-- `on_file_cached`: an error is logged.
unfoldable on_file_cached : ℕ → ℕ → Act Unit
on_file_cached now i = logged (on_db (touch_lru now i))

unfoldable pin : ℕ → ℕ → Exec Unit
pin now i =
    upsert_lru (record { inode = i; last_access = now; pinned = true })
      (λ l. record l { pinned = true })

unfoldable unpin : ℕ → Exec Unit
unpin i db = (
  ok tt,
  record db { lru = update (λ l. l.inode == i) (λ l. record l { pinned = false }) db.lru },
)

-- An entry of `stale_base_entries`; the count is taken before the row goes.
abbrev pub evict_base : ℕ → ℕ × String × ℕ → Act Unit
evict_base m (i, hash, size) = do
  refs ← on_db (base_hash_ref_count hash)
  on_db (remove_base_hash i m)
  if leb refs 1 then remove_object hash else return tt

abbrev pub evict_each : ℕ → List (ℕ × String × ℕ) → Act Unit
evict_each m [] = return tt
evict_each m (e ∷ es) = do evict_base m e; evict_each m es

unfoldable pub evict_stale_bases : ℕ → ℕ → ℕ → Act Unit
evict_stale_bases now m retention_days = do
  stale ← on_db (stale_base_entries now m retention_days 500)
  evict_each m stale
