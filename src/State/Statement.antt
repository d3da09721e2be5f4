-- ===== src/State/Statement.antt =====
-- The SQL statements that the methods of `StateDb` are made of, with the constraints of the
-- migrations: the triggers of 0010 on `file_index`, its unique indexes (0001, 0006, 0008) and the
-- foreign keys with their cascades. A statement that breaks one changes nothing.
use stratosync.Common.{
  ℕ, suc, String, Bool, true, false, not, ◌&&◌, ◌||◌, Option, none, some, List, [], ◌∷◌, ◌++◌,
  str_eq, ◌==◌, has_str, is_none, if◌then◌else◌, reject, update, some_of, count, max,
}
use stratosync.Types.SyncStatus.{is_cached, is_unsynced}
use stratosync.Types.FileKind.{is_file}
use stratosync.State.Tables.{FileRow, LruRow, Db, Exec, ok, err, trigger, unique, foreign_key}

-- The condition of the triggers file_index_dirty_requires_cache_path_insert and …_update.
abbrev pub violates : FileRow → Bool
violates r = is_file r.kind && (is_cached r.status || is_unsynced r.status) && is_none r.cache_path

abbrev pub at_inode : ℕ → FileRow → Bool
at_inode i r = r.inode == i

abbrev pub at_path : ℕ → String → FileRow → Bool
at_path m path r = r.mount_id == m && str_eq r.remote_path path

abbrev pub at_item : ℕ → String → FileRow → Bool
at_item m id r = r.mount_id == m && has_str r.remote_item_id id

-- Two nullable columns under a UNIQUE index: NULL equals nothing.
unfoldable pub same_num : Option ℕ → Option ℕ → Bool
same_num (some a) (some b) = a == b
same_num _ _ = false

unfoldable pub same_str : Option String → Option String → Bool
same_str (some a) (some b) = str_eq a b
same_str _ _ = false

-- Two rows that no table may hold together: the primary key, UNIQUE(mount_id, remote_path), and
-- the partial indexes on (mount_id, parent_inode, name) and (mount_id, remote_item_id).
unfoldable pub clash : FileRow → FileRow → Bool
unfolding same_num same_str
clash q r =
    q.inode == r.inode
    || (q.mount_id == r.mount_id
        && (str_eq q.remote_path r.remote_path
            || (same_num q.parent_inode r.parent_inode && str_eq q.name r.name)
            || same_str q.remote_item_id r.remote_item_id))

abbrev pub has_inode : ℕ → List FileRow → Bool
has_inode i files = some_of (at_inode i) files

abbrev pub parent_in : List FileRow → Option ℕ → Bool
parent_in files none = true
parent_in files (some p) = has_inode p files

-- No two rows clash.
abbrev pub distinct : List FileRow → Bool
distinct [] = true
distinct (r ∷ rs) = not (some_of (clash r) rs) && distinct rs

-- Some row names a parent that is not there.
abbrev pub has_orphan : List FileRow → Bool
has_orphan files = some_of (λ r. not (parent_in files r.parent_inode)) files

abbrev pub has_mount : ℕ → Db → Bool
has_mount m db = some_of (λ r. r.id == m) db.mounts

-- UPDATE file_index SET … WHERE …, where no key column is set. Returns the number of rows.
unfoldable pub update_files : (FileRow → Bool) → (FileRow → FileRow) → Exec ℕ
update_files p f db =
    if some_of (λ r. p r && violates (f r)) db.files
    then (err trigger, db)
    else (ok (count p db.files), record db { files = update p f db.files })

-- UPDATE file_index SET … WHERE inode = i, where key columns are set.
unfoldable pub update_keys : ℕ → (FileRow → FileRow) → Exec ℕ
update_keys i f db =
    let files = update (at_inode i) f db.files in
    if some_of (λ r. at_inode i r && violates (f r)) db.files
    then (err trigger, db)
    else if some_of (λ r. at_inode i r && some_of (clash (f r)) (reject (at_inode i) db.files))
        db.files
    then (err unique, db)
    else if has_orphan files
    then (err foreign_key, db)
    else (ok (count (at_inode i) db.files), record db { files = files })

-- INSERT INTO file_index of a row that has its inode.
unfoldable pub insert_row : FileRow → Exec ℕ
insert_row r db =
    if violates r
    then (err trigger, db)
    else if some_of (clash r) db.files
    then (err unique, db)
    else if not (has_mount r.mount_id db) || has_orphan (db.files ++ r ∷ [])
    then (err foreign_key, db)
    else (ok r.inode, record db { files = db.files ++ r ∷ []; file_seq = max r.inode db.file_seq })

-- The row id that AUTOINCREMENT gives.
abbrev pub next_inode : Db → ℕ
next_inode db = suc db.file_seq

-- What ON DELETE CASCADE removes with the rows that pass `p`.
unfoldable pub cascade : (FileRow → Bool) → Db → Db
cascade p db =
    let gone = λ (i : ℕ). some_of (λ r. p r && r.inode == i) db.files in
    record db {
      lru = reject (λ l. gone l.inode) db.lru;
      queue = reject (λ q. gone q.inode) db.queue;
      bases = reject (λ b. gone b.inode) db.bases;
      versions = reject (λ v. gone v.inode) db.versions;
    }

-- DELETE FROM file_index WHERE …: a row whose child stays cannot go.
unfoldable pub delete_files : (FileRow → Bool) → Exec ℕ
delete_files p db =
    let files = reject p db.files in
    if has_orphan files
    then (err foreign_key, db)
    else (ok (count p db.files), record (cascade p db) { files = files })

-- INSERT INTO cache_lru … ON CONFLICT(inode) DO UPDATE SET …
unfoldable pub upsert_lru : LruRow → (LruRow → LruRow) → Exec Unit
upsert_lru new change db =
    let here = λ (l : LruRow). l.inode == new.inode in
    if some_of here db.lru
    then (ok tt, record db { lru = update here change db.lru })
    else if has_inode new.inode db.files
    then (ok tt, record db { lru = db.lru ++ new ∷ [] })
    else (err foreign_key, db)

-- DELETE FROM cache_lru WHERE inode = i
unfoldable pub delete_lru : ℕ → Exec Unit
delete_lru i db = (ok tt, record db { lru = reject (λ l. l.inode == i) db.lru })
