-- ===== src/State/Tables.antt =====
-- The tables of crates/stratosync-core/src/state/migrations, the data types of
-- crates/stratosync-core/src/state/mod.rs, and calls that may fail: a call of SQLite that fails
-- leaves what the earlier calls of the same method have written, so an error carries the state.
-- Rows stand in the order of their row ids. Sizes and times are natural numbers: the casts
-- between `u64` and `i64` are the identity below 2^63.
use stratosync.Common.{ℕ, String, Bool, Option, List, []}
use stratosync.Types.SyncStatus.{SyncStatus}
use stratosync.Types.FileKind.{FileKind}

-- `mounts`
pub record MountRow : Type 0 where
  pub id : ℕ
  pub name : String
  pub remote : String
  pub mount_path : String
  pub cache_dir : String
  pub cache_quota : ℕ
  pub poll_secs : ℕ

-- `file_index`; the model reads the columns `kind` and `status` as the types whose text they hold.
pub record FileRow : Type 0 where
  pub inode : ℕ
  pub mount_id : ℕ
  pub parent_inode : Option ℕ
  pub name : String
  pub remote_path : String
  pub kind : FileKind
  pub size : ℕ
  pub mtime : ℕ
  pub etag : Option String
  pub status : SyncStatus
  pub cache_path : Option String
  pub cache_size : Option ℕ
  pub cache_mtime : Option ℕ
  pub dir_listed : Option ℕ
  pub poll_generation : ℕ
  pub remote_item_id : Option String

-- `cache_lru`
pub record LruRow : Type 0 where
  pub inode : ℕ
  pub last_access : ℕ
  pub pinned : Bool

-- `SyncOp`
pub data SyncOp : Type 0 where
  upload delete mkdir rmdir rename move : SyncOp

-- `sync_queue`
pub record QueueRow : Type 0 where
  pub id : ℕ
  pub inode : ℕ
  pub mount_id : ℕ
  pub op : SyncOp
  pub remote_path : String
  pub known_etag : Option String
  pub priority : ℕ
  pub attempt : ℕ
  pub next_attempt : ℕ
  pub created_at : ℕ
  pub error_msg : Option String

-- `delete_tombstones`
pub record TombstoneRow : Type 0 where
  pub mount_id : ℕ
  pub remote_path : String
  pub expires_at : ℕ

-- `change_tokens`
pub record TokenRow : Type 0 where
  pub mount_id : ℕ
  pub token : String
  pub updated_at : ℕ

-- `base_versions`
pub record BaseRow : Type 0 where
  pub inode : ℕ
  pub mount_id : ℕ
  pub object_hash : String
  pub file_size : ℕ
  pub updated_at : ℕ

-- `VersionSource`
pub data VersionSource : Type 0 where
  before_poll after_upload manual : VersionSource

-- `version_history`
pub record VersionRow : Type 0 where
  pub id : ℕ
  pub inode : ℕ
  pub mount_id : ℕ
  pub object_hash : String
  pub recorded_at : ℕ
  pub file_size : ℕ
  pub etag : Option String
  pub source : VersionSource

-- `mount_health`
pub record HealthRow : Type 0 where
  pub mount_id : ℕ
  pub consecutive_hydration_failures : ℕ
  pub last_hydration_error : Option String
  pub last_hydration_failure_unix : Option ℕ
  pub consecutive_upload_failures : ℕ
  pub last_upload_error : Option String
  pub last_upload_failure_unix : Option ℕ

-- The database; the `_seq` fields are the counters of `sqlite_sequence`.
pub record Db : Type 0 where
  pub mounts : List MountRow
  pub mount_seq : ℕ
  pub files : List FileRow
  pub file_seq : ℕ
  pub lru : List LruRow
  pub queue : List QueueRow
  pub queue_seq : ℕ
  pub tombstones : List TombstoneRow
  pub tokens : List TokenRow
  pub bases : List BaseRow
  pub versions : List VersionRow
  pub version_seq : ℕ
  pub health : List HealthRow

-- A freshly migrated database.
unfoldable pub empty : Db
empty = record {
  mounts = [];
  mount_seq = 0;
  files = [];
  file_seq = 0;
  lru = [];
  queue = [];
  queue_seq = 0;
  tombstones = [];
  tokens = [];
  bases = [];
  versions = [];
  version_seq = 0;
  health = [];
}

pub data SqlError : Type 0 where
  trigger unique foreign_key no_rows null_value : SqlError

pub data Result {ℓ} (A : Type ℓ) : Type ℓ where
  ok : A → Result A
  err : SqlError → Result A

abbrev pub Exec : Type 0 → Type 0
Exec A = Db → Result A × Db

abbrev pub bind_result : {A B : Type 0} → Result A → (A → Exec B) → Exec B
bind_result (ok a) f db = f a db
bind_result (err e) f db = (err e, db)

-- The `?` behind a call.
infixl 5 ◌>>=◌ ◌>>◌
abbrev pub ◌>>=◌ : {A B : Type 0} → Exec A → (A → Exec B) → Exec B
◌>>=◌ m f db = let (r, db') = m db in bind_result r f db'

abbrev pub ◌>>◌ : {A B : Type 0} → Exec A → Exec B → Exec B
m >> k = m >>= λ _. k

abbrev pub pure : {A : Type 0} → A → Exec A
pure a db = (ok a, db)

abbrev raise : {A : Type 0} → SqlError → Exec A
raise e db = (err e, db)

-- A query.
abbrev pub gets : {A : Type 0} → (Db → A) → Exec A
gets f db = (ok (f db), db)
