-- ===== src/Fuse/Moved.antt =====
-- What a rename does to cache files.
use stratosync.Common.{
  ℕ, ◌≡◌, refl, String, Bool, true, false, ◌||◌, ◌==◌, is_some, Option, none, some, List, [], ◌∷◌,
  arith, All, first, update, lookup, lookup-store, erase, Bool-cases, inl, inr, subst, ap,
  unwrap_or,
}
use mathlib.Core.Option
use stratosync.State.Keeps.{Result-cases}
use stratosync.State.Tables.{FileRow, Db, SqlError, ok, err}
use stratosync.State.Statement.{at_inode, update_keys}
use stratosync.State.Files.{FileEntry, get_by_inode, get_by_parent_name, rename_entry}
use stratosync.State.Poll.{insert_tombstone}
use stratosync.Sync.World.{has_text}
use stratosync.Upload.Sent.{updated_rows}
use stratosync.Fuse.Handler.{Fs, Task, Reply, okay, refused, spawn, ◌>>◌}
use stratosync.Fuse.Names.{Os, validate_filename, join_remote}
use stratosync.Fuse.Write.{Mount}
use stratosync.Fuse.Rename.{
  new_cache, handle_rename, rename_file, follow, tombstone, needs_remote_rename,
}

insert_tombstone-files :
    (now m : ℕ) (path : String) (ttl : ℕ) (db : Db)
    → (insert_tombstone now m path ttl db).1.files ≡ db.files
unfolding insert_tombstone
insert_tombstone-files now m path ttl db = ground arith

other_row :
    (i j : ℕ) (f : FileRow → FileRow)
    → ((r : FileRow) → (f r).inode ≡ r.inode)
    → (j == i) ≡ false
    → (xs : List FileRow) → first (at_inode j) (update (at_inode i) f xs) ≡ first (at_inode j) xs
other_row i j f same apart [] = refl
other_row i j f same apart (x ∷ xs) = ground (arith, other_row i j f same apart xs, same x)

-- The row of the inode names the path, and row `j` is as before.
pub record IsMoved (i j : ℕ) (path : String) (before after : Db) : Type 0 where
  pub rows : All (λ r. at_inode i r ≡ true → r.cache_path ≡ some path) after.files
  pub other : first (at_inode j) after.files ≡ first (at_inode j) before.files

abbrev moved : ℕ → String → String → Option String → FileRow → FileRow
moved p name remote_path path r = record r {
  parent_inode = some p;
  name = name;
  remote_path = remote_path;
  cache_path = path;
}

rename_entry-files :
    (i p : ℕ) (name remote_path : String) (path : Option String) (db : Db)
    → (rename_entry i p name remote_path path db).0 ≡ ok tt
    → (rename_entry i p name remote_path path db).1.files
      ≡ update (at_inode i) (moved p name remote_path path) db.files
unfolding rename_entry update_keys
rename_entry-files i p name remote_path path db good = ground arith

rename_entry-IsMoved :
    (i j p : ℕ) (name remote_path path : String) (db : Db)
    → (j == i) ≡ false
    → (rename_entry i p name remote_path (some path) db).0 ≡ ok tt
    → IsMoved i j path db (rename_entry i p name remote_path (some path) db).1
rename_entry-IsMoved i j p name remote_path path db apart good =
    let files = rename_entry-files i p name remote_path (some path) db good in
    record {
      rows = rw files (
          updated_rows i (moved p name remote_path (some path)) (λ r. r.cache_path ≡ some path)
            (λ r. refl) (λ r. refl) db.files);
      other =
          rw files
            (other_row i j (moved p name remote_path (some path)) (λ r. refl) apart db.files);
    }

parent_name-db : (m p : ℕ) (name : String) (db : Db) → (get_by_parent_name m p name db).1 ≡ db
unfolding get_by_parent_name
parent_name-db m p name db = refl

entry-db : (i : ℕ) (db : Db) → (get_by_inode i db).1 ≡ db
unfolding get_by_inode
entry-db i db = refl

-- What the operations in the background leave as it is.
pub record IsSettled (i j : ℕ) (path content : String) (before : Db) (s : Reply (Unit {0}) × Fs)
    : Type 0 where
  pub accepted : s.0 ≡ okay tt
  pub row : IsMoved i j path before s.1.world.db
  pub file : lookup path s.1.world.files ≡ some content

module _ (os : Os) (m : Mount) (now : ℕ) where
  tombstone-IsSettled :
      (b : Bool) (t : Task) (remote_path : String) (i j : ℕ) (path content : String) (before : Db)
      (s : Fs)
      → IsMoved i j path before s.world.db
      → lookup path s.world.files ≡ some content
      → IsSettled i j path content before ((tombstone os m now b remote_path >> spawn t) s)
  tombstone-IsSettled true t remote_path i j path content before s row file = record {
    accepted = refl;
    row = record {
      rows = rw (insert_tombstone-files now m.mount_id remote_path 300 s.world.db) row.rows;
      other = rw (insert_tombstone-files now m.mount_id remote_path 300 s.world.db) row.other;
    };
    file = file;
  }
  tombstone-IsSettled false t remote_path i j path content before s row file = record {
    accepted = refl;
    row = row;
    file = file;
  }

  follow-IsSettled :
      (e : FileEntry) (new : String) (dest : Option String) (i j : ℕ) (path content : String)
      (before : Db) (s : Fs)
      → IsMoved i j path before s.world.db
      → lookup path s.world.files ≡ some content
      → IsSettled i j path content before (follow os m now e new dest s)
  follow-IsSettled e new dest i j path content before s row file =
      elim (Bool-cases (needs_remote_rename e.status || is_some dest)) [
        | inl a ↦ rw (a, follow) (tombstone-IsSettled _ _ _ i j path content before s row file)
        | inr a ↦ rw (a, follow) (record { accepted = refl; row = row; file = file })
      ]

rename_entry-failed :
    (i p : ℕ) (name remote_path : String) (path : Option String) (db : Db) (x : SqlError)
    → (rename_entry i p name remote_path path db).0 ≡ err x
    → (rename_entry i p name remote_path path db).1 ≡ db
unfolding rename_entry update_keys
rename_entry-failed i p name remote_path path db x bad = ground arith

-- How a rename of a file with a cache file ends. `j` is any other inode.
module _ (i j : ℕ) (old new content : String) (s : Fs) where
  abbrev pub is_stuck : Bool
  is_stuck = has_text old s.world.denied || has_text new s.world.denied

  pub data Renamed : Reply (Unit {0}) × Fs → Type 0 where
    moved_file :
        {r : Reply (Unit {0}) × Fs}
        → is_stuck ≡ false
        → IsSettled i j new content s.world.db r
        → Renamed r
    kept_file :
        {r : Reply (Unit {0}) × Fs}
        → is_stuck ≡ true
        → IsSettled i j old content s.world.db r
        → Renamed r
    rejected :
        {x : ℕ} {t : Fs}
        → t.world.db ≡ s.world.db
        → (is_stuck ≡ false → lookup new t.world.files ≡ some content)
        → Renamed (refused x, t)

handle_rename_at :
    (os : Os) (m : Mount) (now parent : ℕ) (name : String) (new_parent : ℕ) (new_name : String)
    (s : Fs) (e new_dir : FileEntry) (old content : String) (j : ℕ)
    → validate_filename new_name ≡ okay tt
    → (get_by_parent_name m.mount_id parent name s.world.db).0 ≡ ok (some e)
    → (get_by_inode new_parent s.world.db).0 ≡ ok (some new_dir)
    → (get_by_parent_name m.mount_id new_parent new_name s.world.db).0 ≡ ok none
    → e.cache_path ≡ some old
    → lookup old s.world.files ≡ some content
    → (j == e.inode) ≡ false
    → Renamed e.inode j old
        (new_cache os m now old new_name)
        content
        s
        (handle_rename os m now parent name new_parent new_name s)
unfolding handle_rename rename_file
handle_rename_at os m now parent name new_parent new_name s e new_dir old content j valid found dir
      free cached stored apart =
    let new = new_cache os m now old new_name in
    let remote = join_remote new_dir.remote_path new_name in
    let same_db = parent_name-db m.mount_id parent name s.world.db in
    let same_entry = entry-db new_parent s.world.db in
    elim (Bool-cases (is_stuck e.inode j old new content s)) [
      | inl d ↦
          elim (Result-cases
            (rename_entry e.inode new_parent new_name remote (some old) s.world.db).0) [
              | inl (tt, good) ↦
                  rw (valid, found, same_db, dir, same_entry, free, cached, stored, d, good)
                    (kept_file d (
                      follow-IsSettled os m now e remote none e.inode j old content s.world.db _
                        (rename_entry-IsMoved e.inode j new_parent new_name _ _ s.world.db apart
                          good)
                        stored))
              | inr (x, bad) ↦
                  rw (valid, found, same_db, dir, same_entry, free, cached, stored, d, bad)
                    (rejected
                      (rename_entry-failed e.inode new_parent new_name remote (some old) s.world.db
                        x bad)
                      (λ h. absurd (ground arith)))
            ]
      | inr d ↦
          elim (Result-cases
            (rename_entry e.inode new_parent new_name remote (some new) s.world.db).0) [
              | inl (tt, good) ↦
                  rw (valid, found, same_db, dir, same_entry, free, cached, stored, d, good)
                    (moved_file d (
                      follow-IsSettled os m now e remote none e.inode j new content s.world.db _
                        (rename_entry-IsMoved e.inode j new_parent new_name _ _ s.world.db apart
                          good)
                        (lookup-store new content (erase old s.world.files))))
              | inr (x, bad) ↦
                  rw (valid, found, same_db, dir, same_entry, free, cached, stored, d, bad)
                    (rejected
                      (rename_entry-failed e.inode new_parent new_name remote (some new) s.world.db
                        x bad)
                      (λ h. lookup-store new content (erase old s.world.files)))
            ]
    ]

-- A rename of a file with a cache file, to a valid name that is free in a directory of the index, ends in
-- one of three ways. It is accepted with the cache file moved to the new name in the directory
-- that the cache file is in, not in the new one, over whatever file is there, and with the row naming
-- it; or, where the file cannot be moved, accepted with the row naming the old cache file, which
-- has its content; either way the row of every other file is as before, also one that names the
-- very file that was replaced. Or it is refused with the database as before; then too, unless the cache
-- file cannot be moved, its content is at the new name.
pub handle_rename-Renamed :
    (os : Os) (m : Mount) (now parent : ℕ) (name : String) (new_parent : ℕ) (new_name : String)
    (s : Fs) (e new_dir : FileEntry) (old cache_dir content : String) (j : ℕ)
    → validate_filename new_name ≡ okay tt
    → (get_by_parent_name m.mount_id parent name s.world.db).0 ≡ ok (some e)
    → (get_by_inode new_parent s.world.db).0 ≡ ok (some new_dir)
    → (get_by_parent_name m.mount_id new_parent new_name s.world.db).0 ≡ ok none
    → e.cache_path ≡ some old
    → os.parent old ≡ some cache_dir
    → lookup old s.world.files ≡ some content
    → (j == e.inode) ≡ false
    → Renamed e.inode j old
        (os.join cache_dir new_name)
        content
        s
        (handle_rename os m now parent name new_parent new_name s)
handle_rename-Renamed os m now parent name new_parent new_name s e new_dir old cache_dir content j
      valid found dir free cached place stored apart =
    subst
      (λ new.
        Renamed e.inode j old new content s
          (handle_rename os m now parent name new_parent new_name s))
      (ap (λ o. unwrap_or (Option.map (λ p. os.join p new_name) o) new_name) place)
      (handle_rename_at os m now parent name new_parent new_name s e new_dir old content j valid
        found dir free cached stored apart)
