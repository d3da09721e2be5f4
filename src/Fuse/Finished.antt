-- ===== src/Fuse/Finished.antt =====
-- How a hydration ends: its row, its tracker, and the channels that wait for it.
use stratosync.Common.{
  ℕ, ◌≡◌, refl, String, Bool, true, false, none, [], get, get-remove_same, map, ◌++◌, unwrap_or,
  Bool-cases, Option-cases, inl, inr,
}
use stratosync.Types.SyncStatus.{remote}
use stratosync.Types.SyncError.{not_found}
use stratosync.Types.Metadata.{RemoteMetadata}
use stratosync.State.Files.{FileEntry, set_status, delete_entry}
use stratosync.State.Keeps.{Result-cases}
use stratosync.Sync.World.{World, Act, Outcome, Fault, done, fault, backend, return, ◌>>=◌, ◌>>◌}
use stratosync.Fuse.Handler.{okay}
use stratosync.Fuse.Names.{safe_cache_path}
use stratosync.Fuse.Hydrate.{
  Hydrator, Ending, Hydrations, hydrate_row, do_hydrate, fetched, heal, recorded, started, ended,
  is_terminal, verified, is_done,
}
use stratosync.Fuse.Settled.{
  IsReset, Settled, hydrated, failed, set_status-IsReset, delete_entry-IsReset,
  record_hydration_failure-files, record_hydration_success-files,
}
use stratosync.Fuse.Fetched.{Fetched, here, fetched-Fetched}

module _ (h : Hydrator) (now : ℕ) (e : FileEntry) (path : String) where
  recorded-IsReset :
      (pruned : Bool) (x : Fault) (w : World)
      → (pruned ≡ true → IsReset e.inode w.db)
      → IsReset e.inode (recorded h now e pruned (fault x) w).1.db
  recorded-IsReset true x w gone = record {
    rows = rw (record_hydration_failure-files now e.mount_id _ w.db) (gone refl).rows;
  }
  recorded-IsReset false x w gone = record {
    rows =
        rw (record_hydration_failure-files now e.mount_id _ (set_status e.inode remote w.db).1)
          (set_status-IsReset e.inode w.db).rows;
  }

  data Finished : Outcome Ending × World → Type 0 where
    finished :
        (end : Ending) {w : World} → Settled h now e path (end.result, w) → Finished (done end, w)

  abbrev wrap_up : Ending → Act Ending
  wrap_up end = do recorded h now e end.stale_path_pruned end.result; return end

  failing :
      (pruned : Bool) (x : Fault) (w : World)
      → (pruned ≡ true → IsReset e.inode w.db)
      → Finished (wrap_up (record { result = fault x; stale_path_pruned = pruned }) w)
  failing true x w gone = finished _ (failed (recorded-IsReset true x w gone))
  failing false x w gone = finished _ (failed (recorded-IsReset false x w gone))

  abbrev closing : Outcome (Unit {0}) → Act Ending
  closing r = do end ← heal h now e r; wrap_up end

  deleted :
      (o : Outcome (Unit {0})) (x : Fault) (w : World)
      → (o ≡ done tt → IsReset e.inode w.db)
      → Finished (wrap_up (record { result = fault x; stale_path_pruned = is_done o }) w)
  deleted (done tt) x w gone = failing true x w (λ _. gone refl)
  deleted (fault y) x w gone = failing false x w (λ c. cc)

  missed :
      (m : String) (w : World) (o : Outcome RemoteMetadata)
      → Finished ((verified h now e m o >>= wrap_up) w)
  missed m w (done meta) = elim (Option-cases meta.item_id) [
    | inl a ↦ rw a (failing false _ w (λ c. cc))
    | inr a ↦ rw a.1 (failing false _ _ (λ c. cc))
  ]
  missed m w (fault (backend (not_found n))) = elim (Result-cases (delete_entry e.inode w.db).0) [
    | inl (u, good) ↦ rw good (failing true _ _ (λ c. delete_entry-IsReset e.inode w.db good))
    | inr (x, bad) ↦ rw bad (failing false _ _ (λ c. cc))
  ]
  missed m w (fault x) = failing false _ w (λ c. cc)

  closing-Finished :
      (x : Outcome (Unit {0}) × World) → Fetched h now e path x → Finished (closing x.0 x.1)
  closing-Finished (done tt, w) (here content v k g) = finished _ (
      hydrated content v k (record {
        rows = rw (record_hydration_success-files e.mount_id w.db) g.rows;
        file = g.file;
      }))
  closing-Finished (fault (backend (not_found m)), w) f = missed m w (h.stat e.remote_path)
  closing-Finished (fault x, w) f = failing false x w (λ c. cc)

  hydrate_row-Finished : (w : World) → Finished (hydrate_row h now e path w)
  unfolding hydrate_row
  hydrate_row-Finished w =
      closing-Finished (fetched h now e path w) (fetched-Fetched h now e path w)

  -- The tracker and the channels when the hydration has ended, before any channel is told.
  abbrev pub waiting : Hydrations → Hydrations
  waiting s = h.others (started h now e s)

  -- Each channel that waits by then is told, and none is left.
  abbrev pub HasTold : Hydrations → Outcome (Unit {0}) × Hydrations → Type 0
  HasTold s (r, t) =
      Settled h now e path (r, t.world)
      × (get e.inode t.waiters ≡ none)
      × (t.told
          ≡ (waiting s).told
            ++ map (λ c. (c, is_done r)) (unwrap_or (get e.inode (waiting s).waiters) []))
      × (get e.inode t.in_flight ≡ none)

  ended-HasTold :
      (s : Hydrations) (x : Outcome Ending × World)
      → Finished x
      → HasTold s (ended h now e x.0 (record (waiting s) { world = x.1 }))
  ended-HasTold s (fault x, w) f = elim f [ ]
  ended-HasTold s (done end, w) (finished _ good) =
      elim (Bool-cases (is_terminal h now e end.stale_path_pruned end.result)) [
        | inl t ↦ rw t (
          good,
          get-remove_same e.inode (waiting s).waiters,
          refl,
          get-remove_same e.inode (waiting s).in_flight,
        )
        | inr t ↦ rw t (
          good,
          get-remove_same e.inode (waiting s).waiters,
          refl,
          get-remove_same e.inode (waiting s).in_flight,
        )
      ]

-- A hydration of a file whose path is safe ends, whatever the backend answers and other tasks do while
-- it downloads, in one of two ways. It succeeds with a content that the backend gave for the remote
-- path: then every row of the inode is cached at the path, whatever its status was by then, and
-- the file at the path has that content. Or it fails: then every row of the inode, if one is left,
-- is remote, so that the next call opens it anew. Every channel that waits for it by then, also one
-- that another task has added in the meantime, is told which, and no channel and no running
-- download of the inode is left.
pub do_hydrate-Settled :
    (h : Hydrator) (now : ℕ) (e : FileEntry) (path : String) (s : Hydrations)
    → safe_cache_path h.os h.cache_dir e.remote_path ≡ okay path
    → HasTold h now e path s (do_hydrate h now e s)
unfolding do_hydrate
do_hydrate-Settled h now e path s safe = rw safe (
    ended-HasTold h now e path s (hydrate_row h now e path s.world)
      (hydrate_row-Finished h now e path s.world))
