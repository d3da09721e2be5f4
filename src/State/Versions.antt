-- ===== src/State/Versions.antt =====
-- The methods of `StateDb` on `base_versions` and `version_history`.
use stratosync.Common.{
  ℕ, suc, ◌+◌, ◌*◌, String, Bool, not, ◌&&◌, ◌||◌, Option, none, some, List, [], ◌∷◌, ◌++◌, ◌==◌,
  ltb, str_eq, if◌then◌else◌, select, reject, update, first, some_of, count, take, drop, map,
}
use stratosync.Types.SyncStatus.{is_unsynced}
use stratosync.State.Tables.{
  BaseRow, VersionRow, VersionSource, FileRow, Db, Exec, ok, err, foreign_key, gets,
}
use stratosync.State.Statement.{has_inode, has_mount}
use stratosync.State.Cache.{sort_by}

abbrev pub at_base : ℕ → ℕ → BaseRow → Bool
at_base i m b = b.inode == i && b.mount_id == m

unfoldable pub set_base_hash : ℕ → ℕ → ℕ → String → ℕ → Exec Unit
set_base_hash now i m hash size db =
    let new : BaseRow = record {
      inode = i;
      mount_id = m;
      object_hash = hash;
      file_size = size;
      updated_at = now;
    } in
    if some_of (at_base i m) db.bases
    then (ok tt, record db { bases = update (at_base i m) (λ _. new) db.bases })
    else if has_inode i db.files && has_mount m db
    then (ok tt, record db { bases = db.bases ++ new ∷ [] })
    else (err foreign_key, db)

unfoldable pub get_base_hash : ℕ → ℕ → Exec (Option String)
get_base_hash i m =
    gets λ db. elim (first (at_base i m) db.bases) [ none ↦ none | some b ↦ some b.object_hash ]

unfoldable pub remove_base_hash : ℕ → ℕ → Exec Unit
remove_base_hash i m db = (ok tt, record db { bases = reject (at_base i m) db.bases })

abbrev pub base_refs : String → Db → ℕ
base_refs hash db = count (λ b. str_eq b.object_hash hash) db.bases

abbrev version_refs : String → Db → ℕ
version_refs hash db = count (λ v. str_eq v.object_hash hash) db.versions

unfoldable pub base_hash_ref_count : String → Exec ℕ
base_hash_ref_count hash = gets (base_refs hash)

-- The JOIN with `file_index`, as a test on the base row.
abbrev has_synced_file : List FileRow → BaseRow → Bool
has_synced_file files b =
    some_of (λ f. f.inode == b.inode && f.mount_id == b.mount_id && not (is_unsynced f.status))
      files

-- `b.updated_at < unixepoch() - days * 86400` in signed arithmetic.
abbrev pub is_stale_base : ℕ → ℕ → ℕ → Db → BaseRow → Bool
is_stale_base now m max_age_days db b =
    b.mount_id == m && has_synced_file db.files b && ltb (b.updated_at + max_age_days * 86400) now

abbrev pub earlier : BaseRow → BaseRow → Bool
earlier a b = not (ltb b.updated_at a.updated_at)

unfoldable pub stale_base_entries : ℕ → ℕ → ℕ → ℕ → Exec (List (ℕ × String × ℕ))
unfolding sort_by
stale_base_entries now m max_age_days limit = gets λ db.
    map (λ b. (b.inode, b.object_hash, b.file_size))
      (take limit (sort_by earlier (select (is_stale_base now m max_age_days db) db.bases)))

unfoldable pub insert_version_history :
    ℕ → ℕ → ℕ → String → ℕ → Option String → VersionSource → Exec ℕ
insert_version_history now i m hash size etag source db =
    let new : VersionRow = record {
      id = suc db.version_seq;
      inode = i;
      mount_id = m;
      object_hash = hash;
      recorded_at = now;
      file_size = size;
      etag = etag;
      source = source;
    } in
    if has_inode i db.files && has_mount m db
    then (
      ok (suc db.version_seq),
      record db { versions = db.versions ++ new ∷ []; version_seq = suc db.version_seq },
    )
    else (err foreign_key, db)

-- ORDER BY recorded_at DESC, id DESC
abbrev pub newer : VersionRow → VersionRow → Bool
newer a b =
    ltb b.recorded_at a.recorded_at || (a.recorded_at == b.recorded_at && not (ltb a.id b.id))

unfoldable list_version_history : ℕ → Exec (List VersionRow)
unfolding sort_by
list_version_history i = gets λ db. sort_by newer (select (λ v. v.inode == i) db.versions)

-- LIMIT -1 OFFSET keep
unfoldable pub stale_versions : ℕ → ℕ → Db → List VersionRow
unfolding sort_by
stale_versions i keep db = drop keep (sort_by newer (select (λ v. v.inode == i) db.versions))

abbrev pub unreferenced : String → Db → Bool
unreferenced hash db = version_refs hash db == 0 && base_refs hash db == 0

-- The `is_empty` test before the DELETE only saves the statement.
unfoldable pub prune_version_history : ℕ → ℕ → Exec (List String)
unfolding stale_versions
prune_version_history i keep db =
    let stale = stale_versions i keep db in
    let db' = record db {
      versions = reject (λ v. some_of (λ s. s.id == v.id) stale) db.versions;
    } in
    (ok (select (λ h. unreferenced h db') (map (λ v. v.object_hash) stale)), db')
