-- ===== src/Fuse/Settled.antt =====
-- How a hydration leaves the row of its file.
use stratosync.Common.{
  ℕ, ◌≡◌, refl, String, true, false, ◌&&◌, some, List, [], ◌∷◌, arith, All, reject, some_of, lookup,
  Bool-cases, inl, inr,
}
use stratosync.Types.SyncStatus.{remote, cached}
use stratosync.State.Tables.{FileRow, HealthRow, Db, ok}
use stratosync.State.Statement.{at_inode, violates, update_files, delete_files, cascade}
use stratosync.State.Files.{FileEntry, set_status, delete_entry}
use stratosync.State.Health.{upsert_health, record_hydration_success, record_hydration_failure}
use stratosync.Sync.World.{World, Outcome, Fault, done, fault}
use stratosync.Upload.Sent.{updated_rows}
use stratosync.Fuse.Hydrate.{Hydrator}

-- Every row of the inode waits for a download.
pub record IsReset (i : ℕ) (db : Db) : Type 0 where
  pub rows : All (λ r. at_inode i r ≡ true → r.status ≡ remote) db.files

-- Every row of the inode is cached at the path, and the content is there.
pub record IsHere (i : ℕ) (path content : String) (w : World) : Type 0 where
  pub rows :
      All (λ r. at_inode i r ≡ true → (r.status ≡ cached) × (r.cache_path ≡ some path)) w.db.files
  pub file : lookup path w.files ≡ some content

no_violation :
    (i : ℕ) (xs : List FileRow)
    → some_of (λ r. at_inode i r && violates (record r { status = remote })) xs ≡ false
no_violation i [] = refl
no_violation i (x ∷ xs) = ground (arith, no_violation i xs)

pub set_status-IsReset : (i : ℕ) (db : Db) → IsReset i (set_status i remote db).1
unfolding set_status update_files
set_status-IsReset i db = rw (no_violation i db.files) (record {
  rows =
      updated_rows i (λ r. record r { status = remote }) (λ r. r.status ≡ remote) (λ r. refl)
        (λ r. refl) db.files;
})

none_left :
    (i : ℕ) (xs : List FileRow)
    → All (λ r. at_inode i r ≡ true → r.status ≡ remote) (reject (at_inode i) xs)
none_left i [] = tt
none_left i (x ∷ xs) = elim (Bool-cases (at_inode i x)) [
  | inl e ↦ rw e (none_left i xs)
  | inr e ↦ rw e ((λ h. absurd (ground arith)), none_left i xs)
]

pub delete_entry-IsReset :
    (i : ℕ) (db : Db) → (delete_entry i db).0 ≡ ok tt → IsReset i (delete_entry i db).1
unfolding delete_entry delete_files cascade
delete_entry-IsReset i db h = record { rows = ground (arith, none_left i db.files) }

upsert_health-files :
    (new : HealthRow) (f : HealthRow → HealthRow) (db : Db)
    → (upsert_health new f db).1.files ≡ db.files
unfolding upsert_health
upsert_health-files new f db = ground arith

pub record_hydration_failure-files :
    (now m : ℕ) (error : String) (db : Db)
    → (record_hydration_failure now m error db).1.files ≡ db.files
unfolding record_hydration_failure
record_hydration_failure-files now m error db = upsert_health-files _ _ db

pub record_hydration_success-files :
    (m : ℕ) (db : Db) → (record_hydration_success m db).1.files ≡ db.files
unfolding record_hydration_success
record_hydration_success-files m db = upsert_health-files _ _ db

module _ (h : Hydrator) (now : ℕ) (e : FileEntry) (path : String) where
  -- Where the hydration succeeds, the backend has answered with a content, which is in the cache
  -- file of the row; where it fails, the next call to open the file downloads it again.
  pub data Settled : Outcome (Unit {0}) × World → Type 0 where
    hydrated :
        {w : World} (content : String) (v : World)
        → h.download e.remote_path v ≡ done content
        → IsHere e.inode path content w
        → Settled (done tt, w)
    failed : {x : Fault} {w : World} → IsReset e.inode w.db → Settled (fault x, w)
