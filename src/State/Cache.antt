-- ===== src/State/Cache.antt =====
-- The methods of `StateDb` on the cache: its size, the eviction candidates, pins, the operator's
-- clear, and the resets after a restart.
use stratosync.Common.{
  ℕ, String, Bool, true, false, not, ◌&&◌, ◌||◌, Option, none, some, List, [], ◌∷◌, ◌==◌, leb,
  is_some, is_none, unwrap_or, if◌then◌else◌, select, update, first, some_of, count, sum_of, take,
  map,
}
use stratosync.Types.SyncStatus.{
  SyncStatus, remote, cached, dirty, uploading, stale, is_unsynced, is_cached, is_hydrating,
}
use stratosync.Types.FileKind.{is_file, is_directory}
use stratosync.State.Tables.{
  FileRow, LruRow, HealthRow, Exec, ok, err, null_value, pure, gets, ◌>>=◌, ◌>>◌,
}
use stratosync.State.Statement.{update_files, delete_lru, upsert_lru}
use stratosync.State.Files.{FileEntry, row_to_entry, detached}

-- COALESCE(SUM(cache_size), 0) … WHERE mount_id = m AND cache_size IS NOT NULL
abbrev pub cached_bytes : ℕ → List FileRow → ℕ
cached_bytes m files = sum_of (λ r. if r.mount_id == m then unwrap_or r.cache_size 0 else 0) files

unfoldable pub total_cache_bytes : ℕ → Exec ℕ
total_cache_bytes m = gets λ db. cached_bytes m db.files

abbrev pub paths_of : List FileRow → List String
paths_of [] = []
paths_of (r ∷ rs) = elim r.cache_path [ none ↦ paths_of rs | some p ↦ p ∷ paths_of rs ]

unfoldable all_cache_paths : ℕ → Exec (List String)
all_cache_paths m = gets λ db. paths_of (select (λ r. r.mount_id == m) db.files)

-- `EvictionCandidate`
pub record EvictionCandidate : Type 0 where
  pub inode : ℕ
  pub cache_path : String
  pub cache_size : ℕ

-- A row of `file_index` joined with its row of `cache_lru`.
pub record Joined : Type 0 where
  pub row : FileRow
  pub last_access : ℕ
  pub pinned : Bool

unfoldable pub join_lru : List LruRow → List FileRow → List Joined
join_lru lru [] = []
join_lru lru (f ∷ fs) = elim (first (λ l. l.inode == f.inode) lru) [
  | none ↦ join_lru lru fs
  | some l ↦ record { row = f; last_access = l.last_access; pinned = l.pinned } ∷ join_lru lru fs
]

-- ORDER BY: a stable insertion sort.
module _ {ℓ} {A : Type ℓ} where
  unfoldable pub insert_by : (A → A → Bool) → A → List A → List A
  insert_by before a [] = a ∷ []
  insert_by before a (b ∷ bs) = if before a b then a ∷ b ∷ bs else b ∷ insert_by before a bs

  unfoldable pub sort_by : (A → A → Bool) → List A → List A
  unfolding insert_by
  sort_by before [] = []
  sort_by before (a ∷ rest) = insert_by before a (sort_by before rest)

abbrev pub older : Joined → Joined → Bool
older a b = leb a.last_access b.last_access

-- The row's test in WHERE.
abbrev pub evictable : ℕ → Joined → Bool
evictable m j = j.row.mount_id == m && is_cached j.row.status && not j.pinned

-- rusqlite refuses a NULL where the field has no `Option`.
abbrev pub candidate : Joined → Option EvictionCandidate
candidate j = elim j.row.cache_path [
  | none ↦ none
  | some path ↦ elim j.row.cache_size [
    | none ↦ none
    | some size ↦ some (record { inode = j.row.inode; cache_path = path; cache_size = size })
  ]
]

-- `collect` into a `Result`.
abbrev pub collect : List Joined → Option (List EvictionCandidate)
collect [] = some []
collect (j ∷ js) =
    let rest = collect js in
    elim (candidate j) [
      | none ↦ none
      | some c ↦ elim rest [ none ↦ none | some cs ↦ some (c ∷ cs) ]
    ]

unfoldable pub lru_eviction_candidates : ℕ → ℕ → Exec (List EvictionCandidate)
unfolding join_lru sort_by
lru_eviction_candidates m limit db =
    elim (collect (take limit (sort_by older (select (evictable m) (join_lru db.lru db.files))))) [
      | none ↦ (err null_value, db)
      | some cs ↦ (ok cs, db)
    ]

-- `CacheClearReport`
pub record CacheClearReport : Type 0 where
  pub files_cleared : ℕ
  pub bytes_freed : ℕ
  pub cache_paths : List String

abbrev is_pinned_in : List LruRow → ℕ → Bool
is_pinned_in lru i = some_of (λ l. l.inode == i && l.pinned) lru

abbrev is_clean : SyncStatus → Bool
is_clean cached = true
is_clean stale = true
is_clean _ = false

-- The predicate that the SELECT and the UPDATE share.
abbrev pub clearable : ℕ → Bool → List LruRow → FileRow → Bool
clearable m include_pinned lru r =
    r.mount_id == m
    && is_file r.kind
    && is_clean r.status
    && is_some r.cache_path
    && (include_pinned || not (is_pinned_in lru r.inode))

abbrev pub delete_lru_all : List FileRow → Exec Unit
delete_lru_all [] = pure tt
delete_lru_all (r ∷ rs) = do delete_lru r.inode; delete_lru_all rs

unfoldable pub clear_cache_for_mount : ℕ → Bool → Exec CacheClearReport
clear_cache_for_mount m include_pinned db =
    let p = clearable m include_pinned db.lru in
    let cleared = select p db.files in
    (do
      updated ← update_files p detached
      delete_lru_all cleared
      pure (record {
        files_cleared = updated;
        bytes_freed = sum_of (λ r. unwrap_or r.cache_size 0) cleared;
        cache_paths = paths_of cleared;
      }))
      db

unfoldable pub set_pinned : ℕ → ℕ → Bool → Exec Unit
set_pinned now i pinned =
    upsert_lru (record { inode = i; last_access = now; pinned = pinned })
      (λ l. record l { pinned = pinned })

unfoldable is_pinned : ℕ → Exec Bool
is_pinned i =
    gets λ db. elim (first (λ l. l.inode == i) db.lru) [ none ↦ false | some l ↦ l.pinned ]

unfoldable pinned_count : ℕ → Exec ℕ
unfolding join_lru
pinned_count m = gets λ db. count (λ j. j.row.mount_id == m && j.pinned) (join_lru db.lru db.files)

unfoldable pub reset_hydrating : Exec ℕ
reset_hydrating =
    update_files (λ r. is_hydrating r.status)
      (λ r. record r { status = remote; cache_path = none; cache_size = none })

abbrev is_uploading : SyncStatus → Bool
is_uploading uploading = true
is_uploading _ = false

unfoldable pub reset_uploading : Exec ℕ
reset_uploading = update_files (λ r. is_uploading r.status) (λ r. record r { status = dirty })

unfoldable pub get_pending_uploads : ℕ → Exec (List FileEntry)
unfolding row_to_entry
get_pending_uploads m = gets λ db. map row_to_entry (
    select (λ r. r.mount_id == m && is_unsynced r.status && is_file r.kind && is_some r.cache_path)
      db.files)

unfoldable pub reset_stuck_dirty_directories : Exec ℕ
reset_stuck_dirty_directories =
    update_files (λ r. is_directory r.kind && is_unsynced r.status)
      (λ r. record r { status = cached })

abbrev is_stuck : FileRow → Bool
is_stuck r = is_file r.kind && is_unsynced r.status && is_none r.cache_path

-- The health of the affected mounts is cleared before the rows that show them are changed.
unfoldable pub reset_stuck_dirty_files_without_cache_path : Exec ℕ
reset_stuck_dirty_files_without_cache_path db =
    let affected = λ (m : ℕ). some_of (λ r. is_stuck r && r.mount_id == m) db.files in
    let clear = λ (h : HealthRow). record h {
      consecutive_upload_failures = 0;
      last_upload_error = none;
      last_upload_failure_unix = none;
    } in
    update_files is_stuck (λ r. record r { status = remote })
      (record db { health = update (λ h. affected h.mount_id) clear db.health })
