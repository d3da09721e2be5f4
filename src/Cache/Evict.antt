-- ===== src/Cache/Evict.antt =====
-- `CacheManager::maybe_evict`. The marks are fractions of the quota in floating point; the model
-- takes their products with the quota, `high` and `target`. The parameter `meanwhile` is what the
-- other tasks of the daemon do to the database before a candidate is looked up again: the loop
-- awaits there, and `settle` is what they do between that look and the write of the eviction.
use stratosync.Common.{
  ℕ, zero, suc, ◌+◌, ◌-◌, Option, none, some, List, [], ◌∷◌, leb, ◌==◌, if◌then◌else◌,
}
use stratosync.Types.SyncStatus.{is_cached}
use stratosync.State.Tables.{Db, ok}
use stratosync.State.Files.{FileEntry, get_by_inode, set_evicted}
use stratosync.State.Cache.{EvictionCandidate, total_cache_bytes, lru_eviction_candidates}
use stratosync.Cache.Disk.{
  Act, Removal, removed, not_found, failed, removing, on_db, return, ◌>>=◌, ◌>>◌,
}

-- What a pass adds up.
pub record Pass : Type 0 where
  pub pass_freed : ℕ
  pub pass_skipped : ℕ

-- How the loop ends.
pub data Ending : Type 0 where
  enough exhausted stuck out_of_fuel : Ending

pub record Report : Type 0 where
  pub freed : ℕ
  pub total_skipped : ℕ
  pub ending : Ending

abbrev pub batch : ℕ
batch = 1000

abbrev skipped : Pass → Pass
skipped p = record p { pass_skipped = p.pass_skipped + 1 }

abbrev env : (Db → Db) → Act Unit
env change w = (ok tt, record w { db = change w.db })

abbrev report : ℕ → ℕ → Ending → Act Report
report freed total_skipped ending =
    return (record { freed = freed; total_skipped = total_skipped; ending = ending })

-- The end of a round: `rest` is the next one.
abbrev pub after_pass : (ℕ → ℕ → Act Report) → ℕ → ℕ → Pass → Act Report
after_pass rest freed total_skipped p =
    if p.pass_freed == 0
    then report (freed + p.pass_freed) (total_skipped + p.pass_skipped) stuck
    else rest (freed + p.pass_freed) (total_skipped + p.pass_skipped)

abbrev pub fresh : Pass
fresh = record { pass_freed = 0; pass_skipped = 0 }

module _ (m : ℕ) (meanwhile settle : EvictionCandidate → Db → Db) where
  abbrev pub freed_by : EvictionCandidate → Pass → Act Pass
  freed_by c p = do
    env (settle c)
    on_db (set_evicted c.inode)
    return (record p { pass_freed = p.pass_freed + c.cache_size })

  -- The match on the outcome of `remove_file`.
  abbrev pub after_removal : EvictionCandidate → Pass → Removal → Act Pass
  after_removal c p removed = freed_by c p
  after_removal c p not_found = freed_by c p
  after_removal c p failed = return (skipped p)

  -- The match on `current.map(|e| e.status)`.
  abbrev pub if_still_cached : EvictionCandidate → Pass → Option FileEntry → Act Pass
  if_still_cached c p none = return (skipped p)
  if_still_cached c p (some e) =
      if is_cached e.status
      then (do r ← removing c.cache_path; after_removal c p r)
      else return (skipped p)

  unfoldable pub evict_one : EvictionCandidate → Pass → Act Pass
  evict_one c p = do
    env (meanwhile c)
    current ← on_db (get_by_inode c.inode)
    if_still_cached c p current

  -- The `for` loop over the candidates of one pass.
  unfoldable pub evict_pass : ℕ → ℕ → List EvictionCandidate → Pass → Act Pass
  evict_pass to_free freed [] p = return p
  evict_pass to_free freed (c ∷ cs) p =
      if leb to_free (freed + p.pass_freed)
      then return p
      else (do p' ← evict_one c p; evict_pass to_free freed cs p')

  abbrev pub try_batch : (ℕ → ℕ → Act Report) → ℕ → ℕ → ℕ → List EvictionCandidate → Act Report
  try_batch rest to_free freed total_skipped [] = report freed total_skipped exhausted
  try_batch rest to_free freed total_skipped (c ∷ cs) = do
    p ← evict_pass to_free freed (c ∷ cs) fresh
    after_pass rest freed total_skipped p

  -- The outer loop; a round that goes on has freed at least a byte.
  unfoldable pub evict_loop : ℕ → ℕ → ℕ → ℕ → Act Report
  evict_loop zero to_free freed total_skipped = report freed total_skipped out_of_fuel
  evict_loop (suc fuel) to_free freed total_skipped =
      if leb to_free freed
      then report freed total_skipped enough
      else on_db (lru_eviction_candidates m batch)
        >>= try_batch (evict_loop fuel to_free) to_free freed total_skipped

  -- `None` where the cache is not above its high mark.
  unfoldable pub maybe_evict : ℕ → ℕ → Act (Option Report)
  maybe_evict high target = on_db (total_cache_bytes m) >>= λ used.
      if leb used high
      then return none
      else (evict_loop (suc (used - target)) (used - target) 0 0 >>= λ r. return (some r))
