-- ===== src/State/Streaks.antt =====
-- `mount_health`: the failure streaks of hydrations and of uploads.
use stratosync.Common.{
  ℕ, ◌+◌, String, ◌≡◌, refl, ap, Bool, true, false, Option, none, some, List, [], ◌∷◌, ◌++◌, arith,
  update, first, some_of, ◌==◌, Bool-cases, inl, inr,
}
use stratosync.State.Tables.{HealthRow, Db, ok}
use stratosync.State.Statement.{has_mount}
use stratosync.State.Health.{
  healthy, upsert_health, record_hydration_failure, record_hydration_success, record_upload_failure,
  record_upload_success, get_mount_health,
}

abbrev of_mount : ℕ → HealthRow → Bool
of_mount m h = h.mount_id == m

abbrev or_healthy : ℕ → Option HealthRow → HealthRow
or_healthy m none = healthy m
or_healthy m (some h) = h

-- The health of a mount, which has no row before the first report.
abbrev health_of : ℕ → List HealthRow → HealthRow
health_of m hs = or_healthy m (first (of_mount m) hs)

module _ (m : ℕ) (change : HealthRow → HealthRow)
    (same : (h : HealthRow) → (change h).mount_id ≡ h.mount_id) where
  health_of-update :
      (hs : List HealthRow)
      → some_of (of_mount m) hs ≡ true
      → health_of m (update (of_mount m) change hs) ≡ change (health_of m hs)
  health_of-update [] e = cc
  health_of-update (h ∷ hs) e = ground (arith, health_of-update hs, same h)

  health_of-append :
      (hs : List HealthRow) (new : HealthRow)
      → some_of (of_mount m) hs ≡ false
      → new.mount_id ≡ m
      → new ≡ change (healthy m)
      → health_of m (hs ++ new ∷ []) ≡ change (health_of m hs)
  health_of-append [] new e k same = ground arith
  health_of-append (h ∷ hs) new e k same = ground (arith, health_of-append hs new)

upsert_health_get :
    (change : HealthRow → HealthRow)
    → ((h : HealthRow) → (change h).mount_id ≡ h.mount_id)
    → (new : HealthRow) (db : Db)
    → let m = new.mount_id in
      has_mount m db ≡ true
      → new ≡ change (healthy m)
      → (get_mount_health m (upsert_health new change db).1).0 ≡ ok (change (health_of m db.health))
unfolding get_mount_health upsert_health
upsert_health_get change same new db h e =
    let m = new.mount_id in
    elim (Bool-cases (some_of (of_mount m) db.health)) [
      | inl there ↦ rw there (got _ (health_of-update m change same db.health there))
      | inr absent ↦
          rw (absent, h) (got _ (health_of-append m change same db.health new absent refl e))
    ]
  where
    got : (x : HealthRow) {y : HealthRow} → x ≡ y → ok x ≡ ok y
    got x e = ap ok e

-- The health of the mount after each of the four reports, by what it was before.
abbrev pub Reports : ℕ → ℕ → String → Db → Type 0
Reports now m error db =
    let h = health_of m db.health in
    ((get_mount_health m (record_hydration_failure now m error db).1).0
      ≡ ok (record h {
        consecutive_hydration_failures = h.consecutive_hydration_failures + 1;
        last_hydration_error = some error;
        last_hydration_failure_unix = some now;
      }))
    × ((get_mount_health m (record_hydration_success m db).1).0
        ≡ ok (record h { consecutive_hydration_failures = 0 }))
    × ((get_mount_health m (record_upload_failure now m error db).1).0
        ≡ ok (record h {
          consecutive_upload_failures = h.consecutive_upload_failures + 1;
          last_upload_error = some error;
          last_upload_failure_unix = some now;
        }))
    × ((get_mount_health m (record_upload_success m db).1).0
        ≡ ok (record h { consecutive_upload_failures = 0 }))

-- For a mount that is in the database, a failure counts one more and stores its text and time, and a
-- success starts the streak again and keeps the text and time of the last failure. Reports on
-- hydrations leave the upload streak alone, and conversely.
pub get_mount_health-record :
    (now m : ℕ) (error : String) (db : Db) → has_mount m db ≡ true → Reports now m error db
unfolding record_hydration_failure record_hydration_success record_upload_failure
    record_upload_success healthy
get_mount_health-record now m error db h = (
  upsert_health_get _ (λ q. refl) _ db h refl,
  upsert_health_get _ (λ q. refl) _ db h refl,
  upsert_health_get _ (λ q. refl) _ db h refl,
  upsert_health_get _ (λ q. refl) _ db h refl,
)
