-- ===== src/Fuse/Waiting.antt =====
-- `hydrate_if_needed` of crates/stratosync-daemon/src/fuse/mod.rs: a task hydrates a file itself, or waits
-- for the task that does. How each wait ends, and what other tasks do in that time, are parameters.
use stratosync.Common.{
  ℕ, zero, suc, ◌+◌, Option, none, some, [], ◌∷◌, ◌++◌, get, put, unwrap_or, leb, if◌then◌else◌,
}
use stratosync.Types.SyncStatus.{
  SyncStatus, remote, hydrating, cached, dirty, uploading, stale, conflict,
}
use stratosync.Types.SyncError.{not_found, transient, fatal, other}
use stratosync.State.Tables.{Result, ok, err}
use stratosync.State.Files.{FileEntry, get_by_inode, set_status}
use stratosync.Sync.World.{Outcome, done, fault, backend}
use stratosync.Fuse.Hydrate.{Hydrator, Hydrations, do_hydrate}

-- What a wait of five minutes at most gives: the message of the other task, nothing since that
-- task has dropped the channel, or nothing in time.
pub data Wait : Type 0 where
  told_ok : Wait
  told_err dropped timed_out : Wait

abbrev pub Ended : Type 0
Ended = Outcome (Unit {0}) × Hydrations

-- `MAX_RETRIES`
abbrev pub max_retries : ℕ
max_retries = 3

module _ (h : Hydrator) (now i : ℕ) (wait : ℕ → Wait) (between : ℕ → Hydrations → Hydrations) where
  -- A channel is added to those that wait for the inode.
  abbrev pub register : Hydrations → Hydrations
  register s = record s {
    waiters = put i (unwrap_or (get i s.waiters) [] ++ s.next_channel ∷ []) s.waiters;
    next_channel = s.next_channel + 1;
  }

  abbrev pub started_by_us : FileEntry → Result (Unit {0}) → Hydrations → Ended
  started_by_us e (ok u) s = do_hydrate h now e s
  started_by_us e (err x) s = (fault (backend (fatal (h.show x))), s)

  abbrev pub claim : FileEntry → Hydrations → Ended
  claim e s =
      let (r, db) = set_status i hydrating s.world.db in
      started_by_us e r (record s { world = record s.world { db = db } })

  abbrev pub reset : Hydrations → Hydrations
  reset s = record s { world = record s.world { db = (set_status i remote s.world.db).1 } }

  abbrev pub waited : (Hydrations → Ended) → ℕ → Wait → Hydrations → Ended
  waited retry n told_ok s = (done tt, s)
  waited retry n told_err s = (fault (backend (transient "hydration failed")), s)
  waited retry n dropped s = retry s
  waited retry n timed_out s =
      if leb max_retries (n + 1)
      then (fault (backend (transient "hydration timed out")), reset s)
      else retry (reset s)

  abbrev pub by_status : (Hydrations → Ended) → ℕ → FileEntry → SyncStatus → Hydrations → Ended
  by_status retry n e cached s = (done tt, s)
  by_status retry n e dirty s = (done tt, s)
  by_status retry n e uploading s = (done tt, s)
  by_status retry n e conflict s = (done tt, s)
  by_status retry n e remote s = claim e s
  by_status retry n e stale s = claim e s
  by_status retry n e hydrating s = waited retry n (wait n) (between n (register s))

  abbrev pub by_entry : (Hydrations → Ended) → ℕ → Result (Option FileEntry) → Hydrations → Ended
  by_entry retry n (err x) s = (fault (backend (other (h.show x))), s)
  by_entry retry n (ok none) s = (fault (backend (not_found "inode")), s)
  by_entry retry n (ok (some e)) s = by_status retry n e e.status s

  -- `left` attempts from attempt `n` on.
  unfoldable pub hydrate_loop : ℕ → ℕ → Hydrations → Ended
  hydrate_loop zero n s = (fault (backend (transient "hydration failed after retries")), s)
  hydrate_loop (suc left) n s =
      let retry = hydrate_loop left (n + 1) in by_entry retry n (get_by_inode i s.world.db).0 s

  unfoldable pub hydrate_if_needed : Hydrations → Ended
  unfolding hydrate_loop
  hydrate_if_needed s = hydrate_loop max_retries 0 s
