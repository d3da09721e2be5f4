-- ===== src/State/Valid.antt =====
-- What the constraints of the schema promise of every state of `file_index` and `cache_lru`.
use stratosync.Common.{true, false, ◌≡◌, ◌≤◌, some_of, All}
use stratosync.State.Tables.{Db}
use stratosync.State.Statement.{violates, has_orphan, has_inode, distinct}

pub record IsValid (db : Db) : Type 0 where
  -- the triggers of migration 0010
  pub guarded : some_of violates db.files ≡ false
  -- the foreign key of `parent_inode`
  pub rooted : has_orphan db.files ≡ false
  -- the unique indexes
  pub separate : distinct db.files ≡ true
  -- AUTOINCREMENT never gives a row id again
  pub numbered : All (λ r. r.inode ≤ db.file_seq) db.files
  -- the foreign key of `cache_lru`
  pub listed : All (λ l. has_inode l.inode db.files ≡ true) db.lru
