-- ===== src/Poller/Steps.antt =====
-- What a poll may do to the database: a step relation, and the proof that the polls make no other
-- steps.
use stratosync.Common.{ℕ, String, ◌≡◌, Option, List, arith}
use stratosync.State.Tables.{Db, Exec, gets, VersionSource}
use stratosync.State.Keeps.{Keeps-gets}
use stratosync.State.Remote
use stratosync.State.Remote.{RemoteEntry}
use stratosync.State.Poll
use stratosync.State.Poll.{RemoteSnapshot, active_tombstones}
use stratosync.State.Files
use stratosync.State.Files.{FileEntry}
use stratosync.State.Versions
use stratosync.Sync.World.{World, Act, on_db, remove_cache_file}
use stratosync.Sync.Headers.{invalidate_header}
use stratosync.Sync.Versioning.{Snapshot, capture}
use stratosync.Sync.Captures.{capture-Maintains}
use stratosync.Sync.Rules.{Maintains, OfDb, Maintains-on_db, Maintains-aside}

-- One call of the poller on the rows of mount `m`; it writes entries only at paths that `Allowed`
-- admits, and does the rest of a poll, the bookkeeping, only where `Sweeps` holds.
pub data PollStep (m : ℕ) (Allowed : String → Type 0) (Sweeps : Type 0) (db : Db)
    : Db → Type 0 where
  upsert :
      (e : RemoteEntry) (id : Option String) (gen : ℕ)
      → Allowed e.remote_path
      → PollStep m Allowed Sweeps db (Remote.upsert_remote_file_by_id_or_path m e id gen db).1
  mark :
      (is : List ℕ) (gen : ℕ)
      → Sweeps
      → PollStep m Allowed Sweeps db (Poll.batch_mark_generation is gen db).1
  sweep : (gen : ℕ) → Sweeps → PollStep m Allowed Sweeps db (Poll.delete_stale_entries m gen db).1
  forget_path :
      (path : String)
      → PollStep m Allowed Sweeps db (Remote.delete_remote_entry_by_path m path db).1
  forget_item :
      (id : String) → PollStep m Allowed Sweeps db (Remote.delete_remote_entry_by_item_id m id db).1
  set_token :
      (now : ℕ) (token : String)
      → Sweeps
      → PollStep m Allowed Sweeps db (Poll.set_change_token now m token db).1
  clear_token : Sweeps → PollStep m Allowed Sweeps db (Poll.clear_change_token m db).1
  expire :
      (now : ℕ) → Sweeps → PollStep m Allowed Sweeps db (Poll.cleanup_expired_tombstones now db).1
  list_dirs :
      (now : ℕ) → Sweeps → PollStep m Allowed Sweeps db (Files.batch_mark_dirs_listed now m db).1
  add_version :
      (now i : ℕ) (hash : String) (size : ℕ) (etag : Option String) (source : VersionSource)
      → PollStep m Allowed Sweeps db
          (Versions.insert_version_history now i m hash size etag source db).1
  drop_versions :
      (i keep : ℕ) → PollStep m Allowed Sweeps db (Versions.prune_version_history i keep db).1

-- Steps one after the other.
pub data PollSteps (m : ℕ) (Allowed : String → Type 0) (Sweeps : Type 0) (db : Db)
    : Db → Type 0 where
  unchanged : PollSteps m Allowed Sweeps db db
  further :
      {a b : Db}
      → PollSteps m Allowed Sweeps db a
      → PollStep m Allowed Sweeps a b
      → PollSteps m Allowed Sweeps db b

module _ (m : ℕ) (Allowed : String → Type 0) (Sweeps : Type 0) (from : Db) where
  abbrev pub Goes : World → Type 0
  Goes = OfDb (PollSteps m Allowed Sweeps from)

  abbrev pub Does : {A : Type 0} → Act A → Type 0
  Does = Maintains Goes

  abbrev pub step :
      {A : Type 0} (k : Exec A)
      → ((db : Db) → PollStep m Allowed Sweeps db (k db).1)
      → Does (on_db k)
  step k one = Maintains-on_db k (record { at = λ db s. further s (one db) })

  reads : {A : Type 0} (f : Db → A) → Does (on_db (gets f))
  reads f = Maintains-on_db _ (Keeps-gets f)

  pub remove_cache_file-Does : (p : String) → Does (remove_cache_file p)
  unfolding remove_cache_file
  remove_cache_file-Does p = Maintains-aside _ (λ w s. ground arith)

  pub invalidate_header-Does : (i : ℕ) → Does (invalidate_header i)
  unfolding invalidate_header
  invalidate_header-Does i = Maintains-aside _ (λ w s. ground arith)

  module _ (sha256 : String → String) (now max_size retention : ℕ) where
    pub capture-Does :
        (v : Snapshot) → v.mount_id ≡ m → Does (capture sha256 now max_size retention v)
    capture-Does v here =
        capture-Maintains (PollSteps m Allowed Sweeps from) sha256 now max_size retention v
          (λ hash. record {
            at = λ db s. rw here (further s (add_version now v.inode hash v.size v.etag v.source));
          })
          (record { at = λ db s. further s (drop_versions v.inode retention) })
