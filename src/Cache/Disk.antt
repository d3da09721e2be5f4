-- ===== src/Cache/Disk.antt =====
-- The cache files on disk, as far as the daemon asks: which paths are there, and which of them
-- cannot be removed (no permission, an I/O error). A call of the daemon acts on the database and
-- on the disk.
use stratosync.Common.{String, Bool, List, some_of, reject, str_eq, if◌then◌else◌}
use stratosync.State.Tables.{Db, Exec, Result, ok, err}

pub record Disk : Type 0 where
  pub present : List String
  pub locked : List String

abbrev on_disk : String → List String → Bool
on_disk p ps = some_of (λ q. str_eq q p) ps

pub data Removal : Type 0 where
  removed not_found failed : Removal

-- `remove_file`
unfoldable pub remove_file : String → Disk → Removal × Disk
remove_file p d =
    if on_disk p d.locked
    then (failed, d)
    else if on_disk p d.present
    then (removed, record d { present = reject (λ q. str_eq q p) d.present })
    else (not_found, d)

pub record World : Type 0 where
  pub db : Db
  pub disk : Disk

abbrev pub Act : Type 0 → Type 0
Act A = World → Result A × World

abbrev pub bind_act : {A B : Type 0} → Result A → (A → Act B) → Act B
bind_act (ok a) f w = f a w
bind_act (err e) f w = (err e, w)

infixl 5 ◌>>=◌ ◌>>◌
abbrev pub ◌>>=◌ : {A B : Type 0} → Act A → (A → Act B) → Act B
◌>>=◌ m f w = let (r, w') = m w in bind_act r f w'

abbrev pub ◌>>◌ : {A B : Type 0} → Act A → Act B → Act B
m >> k = m >>= λ _. k

abbrev pub return : {A : Type 0} → A → Act A
return a w = (ok a, w)

-- A call of the database.
abbrev pub on_db : {A : Type 0} → Exec A → Act A
on_db m w = let (r, db) = m w.db in (r, record w { db = db })

-- A removal, whose failures are answers and not errors.
abbrev pub removing : String → Act Removal
removing p w = let (r, disk) = remove_file p w.disk in (ok r, record w { disk = disk })
