-- ===== src/State/Queue.antt =====
-- The methods of `StateDb` on `sync_queue`, and `SyncQueueJob`. The columns `remote_dest` and the
-- text of `op` are left out: only uploads are enqueued. A priority is not negative.
use stratosync.Common.{
  ℕ, suc, ◌+◌, ◌*◌, ◌^◌, String, Bool, true, false, ◌&&◌, ◌||◌, Option, none, some, List, [], ◌∷◌,
  ◌++◌, ◌==◌, ltb, leb, min, if◌then◌else◌, select, reject, update, first, some_of,
}
use stratosync.Types.SyncStatus.{dirty}
use stratosync.State.Tables.{
  QueueRow, FileRow, SyncOp, upload, Exec, ok, err, foreign_key, pure, gets, ◌>>=◌,
}
use stratosync.State.Statement.{update_files, at_inode, has_inode, has_mount}
use stratosync.State.Cache.{sort_by}

-- `SyncQueueJob`
pub record SyncQueueJob : Type 0 where
  pub id : ℕ
  pub inode : ℕ
  pub remote_path : String
  pub known_etag : Option String
  pub priority : ℕ
  pub attempt : ℕ
  pub cache_path : Option String

-- 5 s doubled for each attempt, capped at 600 s; the exponent is capped before the power is taken.
unfoldable pub backoff_secs : SyncQueueJob → ℕ
backoff_secs job = min (5 * 2 ^ min job.attempt 7) 600

abbrev is_upload : SyncOp → Bool
is_upload upload = true
is_upload _ = false

-- INSERT … ON CONFLICT DO NOTHING, with UNIQUE(inode, op).
unfoldable pub enqueue_upload : ℕ → ℕ → ℕ → String → Option String → ℕ → Exec Unit
enqueue_upload now i m remote_path known_etag priority db =
    let new : QueueRow = record {
      id = suc db.queue_seq;
      inode = i;
      mount_id = m;
      op = upload;
      remote_path = remote_path;
      known_etag = known_etag;
      priority = priority;
      attempt = 0;
      next_attempt = 0;
      created_at = now;
      error_msg = none;
    } in
    if some_of (λ q. q.inode == i && is_upload q.op) db.queue
    then (ok tt, db)
    else if has_inode i db.files && has_mount m db
    then (ok tt, record db { queue = db.queue ++ new ∷ []; queue_seq = suc db.queue_seq })
    else (err foreign_key, db)

-- JOIN file_index f ON f.inode = q.inode
unfoldable pub join_file : List FileRow → List QueueRow → List (QueueRow × FileRow)
join_file files [] = []
join_file files (q ∷ qs) = elim (first (at_inode q.inode) files) [
  | none ↦ join_file files qs
  | some f ↦ (q, f) ∷ join_file files qs
]

-- ORDER BY q.priority DESC, q.created_at ASC
abbrev pub sooner : QueueRow × FileRow → QueueRow × FileRow → Bool
sooner a b =
    ltb b.0.priority a.0.priority
    || (a.0.priority == b.0.priority && leb a.0.created_at b.0.created_at)

abbrev pub is_due : ℕ → ℕ → QueueRow × FileRow → Bool
is_due now m e = e.0.mount_id == m && is_upload e.0.op && leb e.0.next_attempt now

abbrev pub job_of : QueueRow × FileRow → SyncQueueJob
job_of (q, f) = record {
  id = q.id;
  inode = q.inode;
  remote_path = q.remote_path;
  known_etag = q.known_etag;
  priority = q.priority;
  attempt = q.attempt;
  cache_path = f.cache_path;
}

-- LIMIT 1
abbrev pub first_job : List (QueueRow × FileRow) → Option SyncQueueJob
first_job [] = none
first_job (e ∷ es) = some (job_of e)

unfoldable pub dequeue_next_upload : ℕ → ℕ → Exec (Option SyncQueueJob)
unfolding join_file sort_by
dequeue_next_upload now m =
    gets λ db. first_job (sort_by sooner (select (is_due now m) (join_file db.files db.queue)))

unfoldable pub complete_queue_job : ℕ → Exec Unit
complete_queue_job id db = (ok tt, record db { queue = reject (λ q. q.id == id) db.queue })

abbrev failed : ℕ → String → ℕ → QueueRow → QueueRow
failed now error backoff q = record q {
  attempt = q.attempt + 1;
  error_msg = some error;
  next_attempt = now + backoff;
}

unfoldable pub fail_queue_job : ℕ → ℕ → String → ℕ → Exec Unit
fail_queue_job now id error backoff db =
    (ok tt, record db { queue = update (λ q. q.id == id) (failed now error backoff) db.queue })

unfoldable pub fail_queue_job_by_inode : ℕ → ℕ → String → ℕ → Exec Unit
fail_queue_job_by_inode now i error backoff db =
    (update_files (at_inode i) (λ r. record r { status = dirty }) >>= λ _. pure tt)
      (record db { queue = update (λ q. q.inode == i) (failed now error backoff) db.queue })
