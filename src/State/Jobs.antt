-- ===== src/State/Jobs.antt =====
-- The upload queue of the database: which job is next, and how long a failed one waits.
use stratosync.Common.{
  ℕ, zero, suc, ◌*◌, ◌^◌, ◌≤◌, ◌≡◌, refl, true, false, Option, none, some, List, [], ◌∷◌, arith,
  select, All, min, subst,
}
use stratosync.State.Tables.{FileRow, QueueRow, Db, ok}
use stratosync.State.Cache.{sort_by}
use stratosync.State.Sorted.{IsMember, members, sort_by-All, sort_by-empty, sort_by-least}
use stratosync.State.Queue.{
  SyncQueueJob, backoff_secs, dequeue_next_upload, join_file, is_due, sooner, job_of, first_job,
}

abbrev wait : ℕ → ℕ
wait n = min (5 * 2 ^ min n 7) 600

abbrev Waits : ℕ → Type 0
Waits n = (wait n ≤ wait (suc n)) × (wait (suc n) ≤ 2 * wait n) × (5 ≤ wait n) × (wait n ≤ 600)

wait_capped : (n : ℕ) → wait (suc (suc (suc (suc (suc (suc (suc n))))))) ≡ 600
wait_capped n = let e : min (suc (suc (suc (suc (suc (suc (suc n))))))) 7 ≡ 7 = omega arith in rw e

waits : (n : ℕ) → Waits n
waits zero = omega arith
waits (suc zero) = omega arith
waits (suc (suc zero)) = omega arith
waits (suc (suc (suc zero))) = omega arith
waits (suc (suc (suc (suc zero)))) = omega arith
waits (suc (suc (suc (suc (suc zero))))) = omega arith
waits (suc (suc (suc (suc (suc (suc zero)))))) = omega arith
waits (suc (suc (suc (suc (suc (suc (suc n))))))) =
    rw (wait_capped n, wait_capped (suc n)) (omega arith)

-- The wait grows with every attempt: it is 5 seconds at first, at most doubles, never shrinks, and
-- is never over ten minutes, however often the job fails.
pub backoff_secs_lem :
    (j : SyncQueueJob)
    → let next : SyncQueueJob = record j { attempt = suc j.attempt } in
      (backoff_secs j ≤ backoff_secs next)
      × (backoff_secs next ≤ 2 * backoff_secs j)
      × (5 ≤ backoff_secs j)
      × (backoff_secs j ≤ 600)
unfolding backoff_secs
backoff_secs_lem j = waits j.attempt

abbrev Entry : Type 0
Entry = QueueRow × FileRow

sooner_total : (a b : Entry) → sooner a b ≡ false → sooner b a ≡ true
sooner_total a b h = ground arith

sooner_trans : (a b c : Entry) → sooner a b ≡ true → sooner b c ≡ true → sooner a c ≡ true
sooner_trans a b c h k = ground arith

-- The upload jobs of the mount that may run now, with their rows.
abbrev pub due : ℕ → ℕ → Db → List Entry
due now m db = select (is_due now m) (join_file db.files db.queue)

-- A job is of a waiting entry that no other waiting entry comes before; none if none waits.
abbrev pub IsNext : List Entry → Option SyncQueueJob → Type 0
IsNext es none = es ≡ []
IsNext es (some job) =
    (e : Entry) × (job ≡ job_of e) × IsMember es e × All (λ x. sooner e x ≡ true) es

head_IsNext : (es zs : List Entry) → sort_by sooner es ≡ zs → IsNext es (first_job zs)
head_IsNext es [] e = sort_by-empty sooner es e
head_IsNext es (z ∷ zs) e = (
  z,
  refl,
  (subst (All (IsMember es)) e (sort_by-All sooner (IsMember es) es (members es))).0,
  sort_by-least sooner sooner_total sooner_trans es z zs e,
)

-- `dequeue_next_upload` succeeds, and gives a job that is due and that no due job of the mount comes
-- before (by priority, then by age); it gives none only if none is due. The queue stays as it is.
pub dequeue_next_upload_lem :
    (now m : ℕ) (db : Db)
    → (job : Option SyncQueueJob) × (dequeue_next_upload now m db ≡ (ok job, db))
      × IsNext (due now m db) job
unfolding dequeue_next_upload
dequeue_next_upload_lem now m db = (_, refl, head_IsNext (due now m db) _ refl)
