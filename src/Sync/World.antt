-- ===== src/Sync/World.antt =====
-- What the synchronisation tasks of the daemon act on: the database, the cache files, the blobs of
-- the base store, and the headers of crates/stratosync-daemon/src/fuse/header_cache.rs. An error of
-- a call leaves what the earlier calls have written.
use stratosync.Common.{
  ℕ, String, Bool, List, Texts, erase, Map, some_of, str_eq, lookup, is_some, if◌then◌else◌,
}
use stratosync.Types.SyncError.{SyncError}
use stratosync.State.Tables.{Db, Exec, Result, ok, err, SqlError}

-- `files` has the content of a cache file by its path, `objects` that of a blob by its hash, and
-- `headers` the bytes of a header by the inode. The
-- operating system refuses what it is asked at a path of `denied`, for a hash of `sealed`, and for
-- the header of an inode of `stuck`.
pub record World : Type 0 where
  pub db : Db
  pub files : Texts String
  pub objects : Texts String
  pub headers : Map (List ℕ)
  pub denied : List String
  pub sealed : List String
  pub stuck : List ℕ

-- What ends a call early: an error of the database, of the disk or of the backend, or a listing
-- that is too long.
pub data Fault : Type 0 where
  sql : SqlError → Fault
  disk : Fault
  backend : SyncError → Fault
  too_many : ℕ → Fault

pub data Outcome {ℓ} (A : Type ℓ) : Type ℓ where
  done : A → Outcome A
  fault : Fault → Outcome A

abbrev pub Act : Type 0 → Type 0
Act A = World → Outcome A × World

abbrev pub bind_outcome : {A B : Type 0} → Outcome A → (A → Act B) → Act B
bind_outcome (done a) f w = f a w
bind_outcome (fault e) f w = (fault e, w)

-- The `?` behind a call.
infixl 5 ◌>>=◌ ◌>>◌
abbrev pub ◌>>=◌ : {A B : Type 0} → Act A → (A → Act B) → Act B
◌>>=◌ m f w = let (r, w') = m w in bind_outcome r f w'

abbrev pub ◌>>◌ : {A B : Type 0} → Act A → Act B → Act B
m >> k = m >>= λ _. k

abbrev pub return : {A : Type 0} → A → Act A
return a w = (done a, w)

abbrev pub throw : {A : Type 0} → Fault → Act A
throw e w = (fault e, w)

-- A call whose error is only logged.
abbrev pub logged : {A : Type 0} → Act A → Act Unit
logged m w = let (r, w') = m w in (done tt, w')

-- A call whose outcome is matched on.
abbrev pub attempt : {A B : Type 0} → Act A → (Outcome A → Act B) → Act B
attempt m f w = let (r, w') = m w in f r w'

abbrev of_result : {A : Type 0} → Result A → Outcome A
of_result (ok a) = done a
of_result (err e) = fault (sql e)

-- A call of the database.
abbrev pub on_db : {A : Type 0} → Exec A → Act A
on_db m w = let (r, db) = m w.db in (of_result r, record w { db = db })

abbrev pub has_text : String → List String → Bool
has_text s ss = some_of (str_eq s) ss

-- `exists`
abbrev pub exists : {A : Type 0} → String → Texts A → Bool
exists p m = is_some (lookup p m)

-- `let _ = tokio::fs::remove_file(path).await`
unfoldable pub remove_cache_file : String → Act Unit
remove_cache_file p w =
    if has_text p w.denied then (done tt, w) else (done tt, record w { files = erase p w.files })
