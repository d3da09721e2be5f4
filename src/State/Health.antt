-- ===== src/State/Health.antt =====
-- The methods of `StateDb` on `mount_health`, and on `mounts`.
use stratosync.Common.{
  ℕ, suc, ◌+◌, String, not, ◌&&◌, Option, none, some, List, [], ◌∷◌, ◌++◌, ◌==◌, str_eq,
  if◌then◌else◌, update, first, some_of, is_some,
}
use stratosync.State.Tables.{
  MountRow, FileRow, HealthRow, Db, Exec, ok, err, unique, foreign_key, no_rows, gets, ◌>>=◌, ◌>>◌,
}
use stratosync.State.Statement.{delete_files, has_mount}

-- `MountHealth` has the columns of a row; `MountHealth::default` is a row of zeroes.
unfoldable pub healthy : ℕ → HealthRow
healthy m = record {
  mount_id = m;
  consecutive_hydration_failures = 0;
  last_hydration_error = none;
  last_hydration_failure_unix = none;
  consecutive_upload_failures = 0;
  last_upload_error = none;
  last_upload_failure_unix = none;
}

-- INSERT INTO mount_health … ON CONFLICT(mount_id) DO UPDATE SET …
unfoldable pub upsert_health : HealthRow → (HealthRow → HealthRow) → Exec Unit
upsert_health new change db =
    let here = λ (h : HealthRow). h.mount_id == new.mount_id in
    if some_of here db.health
    then (ok tt, record db { health = update here change db.health })
    else if has_mount new.mount_id db
    then (ok tt, record db { health = db.health ++ new ∷ [] })
    else (err foreign_key, db)

unfoldable pub record_hydration_failure : ℕ → ℕ → String → Exec Unit
unfolding healthy
record_hydration_failure now m error =
    let base = healthy m in
    upsert_health
      (record base {
        consecutive_hydration_failures = 1;
        last_hydration_error = some error;
        last_hydration_failure_unix = some now;
      })
      (λ h. record h {
        consecutive_hydration_failures = h.consecutive_hydration_failures + 1;
        last_hydration_error = some error;
        last_hydration_failure_unix = some now;
      })

unfoldable pub record_hydration_success : ℕ → Exec Unit
unfolding healthy
record_hydration_success m =
    upsert_health (healthy m) (λ h. record h { consecutive_hydration_failures = 0 })

unfoldable pub record_upload_failure : ℕ → ℕ → String → Exec Unit
unfolding healthy
record_upload_failure now m error =
    let base = healthy m in
    upsert_health
      (record base {
        consecutive_upload_failures = 1;
        last_upload_error = some error;
        last_upload_failure_unix = some now;
      })
      (λ h. record h {
        consecutive_upload_failures = h.consecutive_upload_failures + 1;
        last_upload_error = some error;
        last_upload_failure_unix = some now;
      })

unfoldable pub record_upload_success : ℕ → Exec Unit
unfolding healthy
record_upload_success m =
    upsert_health (healthy m) (λ h. record h { consecutive_upload_failures = 0 })

unfoldable pub get_mount_health : ℕ → Exec HealthRow
unfolding healthy
get_mount_health m =
    gets λ db. elim (first (λ h. h.mount_id == m) db.health) [ none ↦ healthy m | some h ↦ h ]

abbrev mount_named : String → Db → Option ℕ
mount_named name db = elim (first (λ r. str_eq r.name name) db.mounts) [
  | none ↦ none
  | some r ↦ some r.id
]

abbrev or_no_rows : Option ℕ → Exec ℕ
or_no_rows none db = (err no_rows, db)
or_no_rows (some id) db = (ok id, db)

-- INSERT INTO mounts … ON CONFLICT(name) DO UPDATE SET …; `mount_path` is UNIQUE too.
unfoldable pub upsert_mount : String → String → String → String → ℕ → ℕ → Exec ℕ
upsert_mount name remote mount_path cache_dir quota poll_secs db =
    let taken =
      some_of (λ r. str_eq r.mount_path mount_path && not (str_eq r.name name)) db.mounts in
    let change = λ (r : MountRow). record r {
      remote = remote;
      mount_path = mount_path;
      cache_dir = cache_dir;
      cache_quota = quota;
      poll_secs = poll_secs;
    } in
    let new : MountRow = record {
      id = suc db.mount_seq;
      name = name;
      remote = remote;
      mount_path = mount_path;
      cache_dir = cache_dir;
      cache_quota = quota;
      poll_secs = poll_secs;
    } in
    if taken
    then (err unique, db)
    else if is_some (mount_named name db)
    then (gets (mount_named name) >>= or_no_rows)
        (record db { mounts = update (λ r. str_eq r.name name) change db.mounts })
    else (gets (mount_named name) >>= or_no_rows)
        (record db { mounts = db.mounts ++ new ∷ []; mount_seq = suc db.mount_seq })

unfoldable get_mount_id : String → Exec (Option ℕ)
get_mount_id name = gets (mount_named name)

-- The counter of row ids starts again when no row is left.
abbrev pub restart : List FileRow → Exec Unit
restart [] db = (ok tt, record db { file_seq = 0 })
restart (r ∷ rs) db = (ok tt, db)

abbrev pub reset_seq : Exec Unit
reset_seq db = restart db.files db

unfoldable pub delete_mount_entries : ℕ → Exec Unit
delete_mount_entries m = do delete_files (λ r. r.mount_id == m); reset_seq
