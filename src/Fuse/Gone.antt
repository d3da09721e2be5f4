-- ===== src/Fuse/Gone.antt =====
-- A file that was deleted stays away.
use stratosync.Common.{
  ℕ, ◌+◌, ◌<◌, ◌≡◌, refl, String, Bool, true, false, ◌&&◌, ◌==◌, some, List, [], ◌∷◌, ◌++◌, arith,
  first, reject, select, map, subst, has_num, some_of, str_eq, str_eq_refl, eq_iff, ltb, Bool-cases,
  Option-cases, inl, inr,
}
use stratosync.Types.Metadata.{RemoteMetadata}
use stratosync.State.Tables.{FileRow, TombstoneRow, Db, ok}
use stratosync.State.Statement.{
  at_inode, at_path, clash, distinct, delete_files, cascade, has_mount,
}
use stratosync.State.Keys.{str_eq_sym}
use stratosync.State.Rows.{some_of-reject}
use stratosync.State.Files.{FileEntry, row_to_entry, get_by_parent_name, delete_entry}
use stratosync.State.Poll.{live_tombstones, insert_tombstone}
use stratosync.Poller.Diff.{is_tombstoned, is_skipped}

abbrev rows_at : FileRow → List FileRow → Bool
rows_at r = some_of (at_path r.mount_id r.remote_path)

-- Rows at one path clash.
apart : (q r : FileRow) → clash q r ≡ false → at_path r.mount_id r.remote_path q ≡ false
unfolding clash
apart q r h = ground arith

apart_sym : (q r : FileRow) → clash q r ≡ false → at_path q.mount_id q.remote_path r ≡ false
unfolding clash
apart_sym q r h = ground (arith, str_eq_sym q.remote_path r.remote_path)

all_apart : (q : FileRow) (xs : List FileRow) → some_of (clash q) xs ≡ false → rows_at q xs ≡ false
all_apart q [] h = refl
all_apart q (x ∷ xs) h = ground (arith, all_apart q xs, apart_sym q x)

only_first :
    (x : FileRow) (xs : List FileRow)
    → distinct (x ∷ xs) ≡ true
    → rows_at x (reject (at_inode x.inode) (x ∷ xs)) ≡ false
only_first x xs d =
    let free : some_of (clash x) xs ≡ false = ground arith in
    let rest =
      some_of-reject (at_inode x.inode) (at_path x.mount_id x.remote_path) xs
        (all_apart x xs free) in
    ground (arith, rest)

some_inj : {x y : FileRow} → some x ≡ some y → x ≡ y
some_inj h = cc

module _ (p : FileRow → Bool) where
  first-passes : (xs : List FileRow) (r : FileRow) → first p xs ≡ some r → p r ≡ true
  first-passes [] r h = cc
  first-passes (x ∷ xs) r h = elim (Bool-cases (p x)) [
    | inl e ↦ ground (arith, e)
    | inr e ↦ ground (arith, first-passes xs r)
  ]

  first-apart :
      (q r : FileRow) (xs : List FileRow)
      → first p xs ≡ some r
      → some_of (clash q) xs ≡ false
      → clash q r ≡ false
  first-apart q r [] h k = cc
  first-apart q r (x ∷ xs) h k = ground (arith, first-apart q r xs)

  -- Without the row, nothing is at its path.
  only_row :
      (r : FileRow) (xs : List FileRow)
      → first p xs ≡ some r
      → distinct xs ≡ true
      → rows_at r (reject (at_inode r.inode) xs) ≡ false
  only_row r [] h d = cc
  only_row r (x ∷ xs) h d = elim (Bool-cases (p x)) [
    | inl e ↦
        let same : x ≡ r = some_inj (rw e at h) in
        subst (λ q. rows_at q (reject (at_inode q.inode) (x ∷ xs)) ≡ false) same (only_first x xs d)
    | inr e ↦
        let found : first p xs ≡ some r = rw e at h in
        let free : some_of (clash x) xs ≡ false = ground arith in
        let rest : distinct xs ≡ true = ground arith in
        let away = apart x r (first-apart x r xs found free) in
        let others = only_row r xs found rest in ground (arith, away, others)
  ]

delete_entry-files :
    (i : ℕ) (db : Db)
    → (delete_entry i db).0 ≡ ok tt
    → (delete_entry i db).1.files ≡ reject (at_inode i) db.files
unfolding delete_entry delete_files cascade
delete_entry-files i db good = ground arith

abbrev child : ℕ → ℕ → String → FileRow → Bool
child m p name r = r.mount_id == m && has_num r.parent_inode p && str_eq r.name name

child-mount : (m p : ℕ) (name : String) (r : FileRow) → child m p name r ≡ true → r.mount_id ≡ m
child-mount m p name r h = ground arith

-- The row behind an entry that a name finds.
row_of :
    (m p : ℕ) (name : String) (e : FileEntry) (db : Db)
    → (get_by_parent_name m p name db).0 ≡ ok (some e)
    → (r : FileRow) × (first (child m p name) db.files ≡ some r) × (row_to_entry r ≡ e)
unfolding get_by_parent_name
row_of m p name e db found = elim (Option-cases (first (child m p name) db.files)) [
  | inl a ↦ let bad = rw a at found in absurd (ground arith)
  | inr a ↦ (a.0, a.1, some_entry (rw a.1 at found))
]
  where
    some_entry : {x y : FileEntry} → ok (some x) ≡ ok (some y) → x ≡ y
    some_entry h = cc

-- Where the deletion succeeds, nothing is at the path of the entry.
delete_entry-IsGone :
    (m p : ℕ) (name : String) (e : FileEntry) (db : Db)
    → distinct db.files ≡ true
    → (get_by_parent_name m p name db).0 ≡ ok (some e)
    → (delete_entry e.inode db).0 ≡ ok tt
    → some_of (at_path m e.remote_path) (delete_entry e.inode db).1.files ≡ false
unfolding row_to_entry
delete_entry-IsGone m p name e db d found good =
    let (r, here, same) = row_of m p name e db found in
    let mount = child-mount m p name r (first-passes (child m p name) db.files r here) in
    let gone = only_row (child m p name) r db.files here d in
    rw (delete_entry-files e.inode db good) (
      subst (λ x. some_of (at_path m x.remote_path) (reject (at_inode x.inode) db.files) ≡ false)
        same (rw (← mount) gone))

-- A tombstone that has not expired.
alive :
    (path : String) (now m expires : ℕ) (ts : List TombstoneRow)
    → now < expires
    → some_of (str_eq path) (
        map
          (λ t. t.remote_path)
          (select
            (λ t. t.mount_id == m && ltb now t.expires_at)
            (ts ++ record { mount_id = m; remote_path = path; expires_at = expires } ∷ [])))
      ≡ true
alive path now m expires [] h = ground (arith, str_eq_refl path)
alive path now m expires (t ∷ ts) h = ground (arith, alive path now m expires ts h)

insert_tombstone-alive :
    (now later m ttl : ℕ) (path : String) (db : Db)
    → has_mount m db ≡ true
    → later < now + ttl
    → some_of (str_eq path) (live_tombstones later m (insert_tombstone now m path ttl db).1) ≡ true
unfolding insert_tombstone
insert_tombstone-alive now later m ttl path db mounted h =
    rw mounted (alive path later m (now + ttl) _ h)

tombstoned :
    (path : String) (ts : List String) (e : RemoteMetadata)
    → some_of (str_eq path) ts ≡ true
    → str_eq e.path path ≡ true
    → is_tombstoned ts e ≡ true
unfolding is_tombstoned
tombstoned path [] e h k = cc
tombstoned path (t ∷ ts) e h k =
    let same : e.path ≡ path = (eq_iff e.path path).0 k in
    ground (arith, tombstoned path ts e, eq_iff e.path t, eq_iff path t)

delete_entry-mounts : (i : ℕ) (db : Db) → (delete_entry i db).1.mounts ≡ db.mounts
unfolding delete_entry delete_files cascade
delete_entry-mounts i db = ground arith

insert_tombstone-files :
    (now m : ℕ) (path : String) (ttl : ℕ) (db : Db)
    → (insert_tombstone now m path ttl db).1.files ≡ db.files
unfolding insert_tombstone
insert_tombstone-files now m path ttl db = ground arith

-- Nothing is at the path, and it is below a tombstone at the time `later`.
pub record IsGone (m later : ℕ) (path : String) (db : Db) : Type 0 where
  pub absent : some_of (at_path m path) db.files ≡ false
  pub buried : some_of (str_eq path) (live_tombstones later m db) ≡ true

pub buried-IsGone :
    (now later m p : ℕ) (name : String) (e : FileEntry) (db : Db)
    → distinct db.files ≡ true
    → has_mount m db ≡ true
    → (get_by_parent_name m p name db).0 ≡ ok (some e)
    → (delete_entry e.inode db).0 ≡ ok tt
    → later < now + 300
    → IsGone m later e.remote_path
        (insert_tombstone now m e.remote_path 300 (delete_entry e.inode db).1).1
buried-IsGone now later m p name e db d mounted found good soon = record {
  absent =
      rw (insert_tombstone-files now m e.remote_path 300 (delete_entry e.inode db).1)
        (delete_entry-IsGone m p name e db d found good);
  buried =
      let still : has_mount m (delete_entry e.inode db).1 ≡ true =
        rw (delete_entry-mounts e.inode db) mounted in
      insert_tombstone-alive now later m 300 e.remote_path _ still soon;
}

pub IsGone-skipped :
    (is_ignored : String → Bool) (m later : ℕ) (path : String) (db : Db) (e : RemoteMetadata)
    → IsGone m later path db
    → str_eq e.path path ≡ true
    → is_skipped is_ignored (live_tombstones later m db) e ≡ true
IsGone-skipped is_ignored m later path db e g h =
    let below = tombstoned path (live_tombstones later m db) e g.buried h in ground arith
