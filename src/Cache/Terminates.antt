-- ===== src/Cache/Terminates.antt =====
-- The eviction loop ends by one of its own tests, whatever the other tasks do.
use stratosync.Common.{
  ℕ, zero, suc, ◌+◌, ◌-◌, ◌≤◌, ◌<◌, ◌≡◌, ◌≢◌, refl, true, false, Option, none, some, List, [], ◌∷◌,
  arith, leb, ◌==◌, Bool-cases, inl, inr,
}
use stratosync.Types.SyncStatus.{is_cached}
use stratosync.State.Tables.{Db, Result, ok, err, SqlError, null_value}
use stratosync.State.Statement.{update_files, delete_lru, at_inode}
use stratosync.State.Files.{FileEntry, get_by_inode, set_evicted}
use stratosync.State.Clear.{detached_free}
use stratosync.State.Cache.{
  EvictionCandidate, lru_eviction_candidates, total_cache_bytes, cached_bytes,
}
use stratosync.Cache.Disk.{World, Act, Removal, removed, not_found, failed, bind_act, return, on_db}
use stratosync.Cache.Evict.{
  Pass, Report, enough, out_of_fuel, evict_one, if_still_cached, after_removal, freed_by,
  evict_pass, after_pass, try_batch, evict_loop, maybe_evict, fresh, batch,
}

set_evicted_ok : (i : ℕ) (db : Db) → (set_evicted i db).0 ≡ ok tt
unfolding set_evicted update_files delete_lru
set_evicted_ok i db = rw (detached_free (at_inode i) db.files)

abbrev IsOk : {A : Type 0} → Result A → Type 0
IsOk (ok a) = Unit
IsOk (err e) = ⊥

bind_act-IsOk :
    {A B : Type 0} (r : Result A) (f : A → Act B) (w : World)
    → IsOk r
    → ((a : A) → IsOk (f a w).0)
    → IsOk (bind_act r f w).0
bind_act-IsOk (ok a) f w h g = g a
bind_act-IsOk (err e) f w h g = absurd h

-- What the loop promises of its result.
abbrev Ended : ℕ → Result Report → Type 0
Ended to_free (ok r) =
    (r.ending ≢ out_of_fuel)
    × (r.ending ≡ enough → to_free ≤ r.freed)
    × (r.ending ≢ enough → r.freed < to_free)
Ended to_free (err e) = e ≡ null_value

-- `none`: there was nothing to do.
abbrev pub Returned : ℕ → Result (Option Report) → Type 0
Returned to_free (ok none) = Unit
Returned to_free (ok (some r)) = Ended to_free (ok r)
Returned to_free (err e) = e ≡ null_value

module _ (m : ℕ) (meanwhile settle : EvictionCandidate → Db → Db) where
  freed_by-IsOk :
      (c : EvictionCandidate) (p : Pass) (w : World) → IsOk (freed_by m meanwhile settle c p w).0
  freed_by-IsOk c p w = rw (set_evicted_ok c.inode (settle c w.db)) tt

  after_removal-IsOk :
      (c : EvictionCandidate) (p : Pass) (r : Removal) (w : World)
      → IsOk (after_removal m meanwhile settle c p r w).0
  after_removal-IsOk c p removed w = freed_by-IsOk c p w
  after_removal-IsOk c p not_found w = freed_by-IsOk c p w
  after_removal-IsOk c p failed w = tt

  if_still_cached-IsOk :
      (c : EvictionCandidate) (p : Pass) (o : Option FileEntry) (w : World)
      → IsOk (if_still_cached m meanwhile settle c p o w).0
  if_still_cached-IsOk c p none w = tt
  if_still_cached-IsOk c p (some e) w = elim (Bool-cases (is_cached e.status)) [
    | inl yes_cached ↦ rw yes_cached (after_removal-IsOk c p _ _)
    | inr changed ↦ rw changed tt
  ]

  evict_one-IsOk :
      (c : EvictionCandidate) (p : Pass) (w : World) → IsOk (evict_one m meanwhile settle c p w).0
  unfolding evict_one get_by_inode
  evict_one-IsOk c p w = if_still_cached-IsOk c p _ _

  evict_pass-IsOk :
      (to_free freed : ℕ) (cs : List EvictionCandidate) (p : Pass) (w : World)
      → IsOk (evict_pass m meanwhile settle to_free freed cs p w).0
  unfolding evict_pass
  evict_pass-IsOk to_free freed [] p w = tt
  evict_pass-IsOk to_free freed (c ∷ cs) p w =
      elim (Bool-cases (leb to_free (freed + p.pass_freed))) [
        | inl done ↦ rw done tt
        | inr more ↦ rw more (
            bind_act-IsOk _ _ _ (evict_one-IsOk c p w)
              (λ p'. evict_pass-IsOk to_free freed cs p' _))
      ]

  -- Only a NULL column stops the candidate query.
  candidates_err :
      (limit : ℕ) (db : Db) (e : SqlError)
      → (lru_eviction_candidates m limit db).0 ≡ err e
      → e ≡ null_value
  unfolding lru_eviction_candidates
  candidates_err limit db e h = ground arith

  after_pass-Ended :
      (rest : ℕ → ℕ → Act Report) (to_free freed s : ℕ) (p : Pass) (w : World)
      → freed < to_free
      → ((s' : ℕ) → 0 < p.pass_freed → Ended to_free (rest (freed + p.pass_freed) s' w).0)
      → Ended to_free (after_pass rest freed s p w).0
  after_pass-Ended rest to_free freed s p w h next = elim (Bool-cases (p.pass_freed == 0)) [
    | inl zero_freed ↦ rw zero_freed (λ e. cc, λ e. cc, λ e. ground arith)
    | inr some_freed ↦ rw some_freed (next _ (ground arith))
  ]

  try_batch-Ended :
      (rest : ℕ → ℕ → Act Report) (to_free freed s : ℕ) (cs : List EvictionCandidate) (w : World)
      → freed < to_free
      → ((n s' : ℕ) (w' : World) → 0 < n → Ended to_free (rest (freed + n) s' w').0)
      → Ended to_free (try_batch m meanwhile settle rest to_free freed s cs w).0
  try_batch-Ended rest to_free freed s [] w h next = (λ e. cc, λ e. cc, λ e. h)
  try_batch-Ended rest to_free freed s (c ∷ cs) w h next =
      passed _ _ (evict_pass-IsOk to_free freed (c ∷ cs) fresh w)
    where
      passed :
          (r : Result Pass) (w' : World)
          → IsOk r
          → Ended to_free (bind_act r (after_pass rest freed s) w').0
      passed (ok p) w' _ =
          after_pass-Ended rest to_free freed s p w' h (λ s' pos. next p.pass_freed s' w' pos)
      passed (err e) w' bad = absurd bad

  evict_loop_enough :
      (fuel to_free freed s : ℕ) (w : World)
      → leb to_free freed ≡ true
      → Ended to_free (evict_loop m meanwhile settle (suc fuel) to_free freed s w).0
  unfolding evict_loop
  evict_loop_enough fuel to_free freed s w h =
      rw h ((λ e. cc), (λ e. ground arith), (λ e. absurd (e refl)))

  candidates-Ended :
      (next : ℕ → ℕ → Act Report) (to_free freed s : ℕ) (r : Result (List EvictionCandidate))
      (w : World)
      → ((e : SqlError) → r ≡ err e → e ≡ null_value)
      → freed < to_free
      → ((n s' : ℕ) (w' : World) → 0 < n → Ended to_free (next (freed + n) s' w').0)
      → Ended to_free (bind_act r (try_batch m meanwhile settle next to_free freed s) w).0
  candidates-Ended next to_free freed s (ok cs) w known h k =
      try_batch-Ended next to_free freed s cs w h k
  candidates-Ended next to_free freed s (err e) w known h k = known e refl

  evict_loop_more :
      (fuel to_free freed s : ℕ) (w : World)
      → leb to_free freed ≡ false
      → ((n s' : ℕ) (w' : World)
          → 0 < n
          → Ended to_free (evict_loop m meanwhile settle fuel to_free (freed + n) s' w').0)
      → Ended to_free (evict_loop m meanwhile settle (suc fuel) to_free freed s w).0
  unfolding evict_loop
  evict_loop_more fuel to_free freed s w h k = rw h (
      candidates-Ended (evict_loop m meanwhile settle fuel to_free) to_free freed s _
        (on_db (lru_eviction_candidates m batch) w).1 (candidates_err batch w.db) (ground arith) k)

  evict_loop-Ended :
      (fuel to_free freed s : ℕ) (w : World)
      → to_free ≤ freed + fuel
      → Ended to_free (evict_loop m meanwhile settle (suc fuel) to_free freed s w).0
  evict_loop-Ended zero to_free freed s w h =
      evict_loop_enough zero to_free freed s w (ground arith)
  evict_loop-Ended (suc fuel) to_free freed s w h = elim (Bool-cases (leb to_free freed)) [
    | inl done ↦ evict_loop_enough (suc fuel) to_free freed s w done
    | inr more ↦
        evict_loop_more (suc fuel) to_free freed s w more
          (λ n s' w' pos. evict_loop-Ended fuel to_free (freed + n) s' w' (omega arith))
  ]

  some-Returned :
      (to_free : ℕ) (r : Result Report) (w : World)
      → Ended to_free r
      → Returned to_free (bind_act r (λ a. return (some a)) w).0
  some-Returned to_free (ok a) w h = h
  some-Returned to_free (err e) w h = h

  -- `maybe_evict` returns: its loop ends by one of its own tests, having freed what it set out to
  -- free, or having freed less because no candidate was left or a pass freed nothing. It fails only
  -- where a cached row has no size or path. This holds whatever the other tasks do meanwhile.
  pub maybe_evict_returns :
      (high target : ℕ) (w : World)
      → let used = cached_bytes m w.db.files in
        Returned (used - target) (maybe_evict m meanwhile settle high target w).0
  unfolding maybe_evict total_cache_bytes
  maybe_evict_returns high target w = elim (Bool-cases (leb (cached_bytes m w.db.files) high)) [
    | inl below ↦ rw below tt
    | inr above ↦ rw above (
        some-Returned _ _ _ (
          evict_loop-Ended (cached_bytes m w.db.files - target) (cached_bytes m w.db.files - target)
            0 0 w (omega arith)))
  ]
