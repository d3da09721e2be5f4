-- ===== src/State/Preserve.antt =====
-- Every statement keeps `IsValid`, whether it succeeds or is refused.
use stratosync.Common.{
  ℕ, Bool, true, false, not, ◌&&◌, ◌||◌, ◌≡◌, refl, ◌∙◌, none, List, [], ◌∷◌, ◌++◌, ◌==◌, ◌≤◌, max,
  arith, some_of, update, reject, if◌then◌else◌,
}
use stratosync.State.Tables.{FileRow, LruRow, Db, Result, Exec}
use stratosync.State.Statement.{
  violates, clash, has_inode, at_inode, has_orphan, has_mount, update_files, update_keys,
  insert_row, delete_files, cascade, upsert_lru, delete_lru,
}
use stratosync.Types.{fuse_root_inode}
use stratosync.State.Files.{NewFileEntry, new_row, insert_root}
use stratosync.State.Keys.{
  SameKeys, update-SameAll, has_inode-SameAll, has_orphan-SameAll, distinct-SameAll,
  numbered-SameAll,
}
use stratosync.State.Rows.{
  some_of-update, some_of-append, some_of-reject, some_of-reject_self, some_of_kept, All-imp,
  All-append, All-reject, All-reject_if, All-update, distinct-append, distinct-reject,
  distinct-update_keys,
}
use stratosync.State.Valid.{IsValid}

-- A call keeps `P`, whether it succeeds or fails.
pub record Keeps {A : Type 0} (P : Db → Type 0) (m : Exec A) : Type 0 where
  pub at : (db : Db) → P db → P (m db).1

-- A refused statement changes nothing, and the other branch may use that the test failed.
unless_refused :
    {A : Type 0} (P : Db → Type 0) (b : Bool) (x y : Result A × Db)
    → P x.1
    → (b ≡ false → P y.1)
    → P (if b then x else y).1
unless_refused P true x y h k = h
unless_refused P false x y h k = k refl

module _ (p : FileRow → Bool) (f : FileRow → FileRow)
    (keys : (r : FileRow) → SameKeys (f r) r) where
  pub update_files-IsValid : Keeps IsValid (update_files p f)
  unfolding update_files
  update_files-IsValid = record {
    at = λ db v. unless_refused IsValid _ _ _ v λ e.
        let same = update-SameAll p f keys db.files in
        let fs = update p f db.files in
        record {
          guarded = some_of-update p violates f db.files e v.guarded;
          rooted = has_orphan-SameAll fs db.files same ∙ v.rooted;
          separate = distinct-SameAll fs db.files same ∙ v.separate;
          numbered = numbered-SameAll db.file_seq fs db.files same v.numbered;
          listed = All-imp (λ l h. has_inode-SameAll l.inode fs db.files same ∙ h) db.lru v.listed;
        };
  }

or_true : (b : Bool) {c : Bool} → c ≡ true → (b || c) ≡ true
or_true true h = refl
or_true false h = h

or_false : (b c : Bool) → (b || c) ≡ false → c ≡ false
or_false true c h = cc
or_false false c h = h

has_inode-update :
    (i j : ℕ) (f : FileRow → FileRow) (xs : List FileRow)
    → ((r : FileRow) → (f r).inode ≡ r.inode)
    → has_inode j (update (at_inode i) f xs) ≡ has_inode j xs
has_inode-update i j f [] k = refl
has_inode-update i j f (x ∷ xs) k = ground (arith, has_inode-update i j f xs k, k x)

module _ (i : ℕ) (f : FileRow → FileRow) (same : (r : FileRow) → (f r).inode ≡ r.inode) where
  changed-IsValid :
      (db : Db)
      → IsValid db
      → some_of (λ r. at_inode i r && violates (f r)) db.files ≡ false
      → some_of (λ r. at_inode i r && some_of (clash (f r)) (reject (at_inode i) db.files)) db.files
        ≡ false
      → has_orphan (update (at_inode i) f db.files) ≡ false
      → IsValid (record db { files = update (at_inode i) f db.files })
  changed-IsValid db v e free rooted = record {
    guarded = some_of-update (at_inode i) violates f db.files e v.guarded;
    rooted = rooted;
    separate = distinct-update_keys i f db.files v.separate (rw free);
    numbered =
        All-update (λ r. r.inode ≤ db.file_seq) (at_inode i) f db.files (λ r h. rw (same r) h)
          v.numbered;
    listed = All-imp (λ l h. has_inode-update i l.inode f db.files same ∙ h) db.lru v.listed;
  }

  pub update_keys-IsValid : Keeps IsValid (update_keys i f)
  unfolding update_keys
  update_keys-IsValid = record {
    at = λ db v. unless_refused IsValid _ _ _ v λ e.
        unless_refused IsValid _ _ _ v
          λ free. unless_refused IsValid _ _ _ v λ rooted. changed-IsValid db v e free rooted;
  }

has_inode-append :
    (i : ℕ) (xs ys : List FileRow) → has_inode i xs ≡ true → has_inode i (xs ++ ys) ≡ true
has_inode-append i xs ys h = rw (some_of-append (at_inode i) xs ys, h)

inserted-IsValid :
    (r : FileRow) (db : Db)
    → IsValid db
    → violates r ≡ false
    → some_of (clash r) db.files ≡ false
    → (not (has_mount r.mount_id db) || has_orphan (db.files ++ r ∷ [])) ≡ false
    → IsValid (record db { files = db.files ++ r ∷ []; file_seq = max r.inode db.file_seq })
inserted-IsValid r db v e free rooted = record {
  guarded = rw (some_of-append violates db.files (r ∷ []), v.guarded, e);
  rooted = or_false (not (has_mount r.mount_id db)) _ rooted;
  separate = distinct-append db.files r v.separate free;
  numbered =
      All-append _ db.files (r ∷ []) (All-imp (λ q h. omega arith) db.files v.numbered)
        (omega arith, tt);
  listed = All-imp (λ l h. has_inode-append l.inode db.files (r ∷ []) h) db.lru v.listed;
}

pub insert_row-IsValid : (r : FileRow) → Keeps IsValid (insert_row r)
unfolding insert_row
insert_row-IsValid r = record {
  at = λ db v. unless_refused IsValid _ _ _ v λ e.
      unless_refused IsValid _ _ _ v
        λ free. unless_refused IsValid _ _ _ v λ rooted. inserted-IsValid r db v e free rooted;
}

-- The rows of `cache_lru` that a cascade leaves name rows that stay.
listed-cascade :
    (p : FileRow → Bool) (files : List FileRow) (l : LruRow)
    → some_of (λ r. p r && r.inode == l.inode) files ≡ false
    → has_inode l.inode files ≡ true
    → has_inode l.inode (reject p files) ≡ true
listed-cascade p files l e h = some_of_kept p (at_inode l.inode) files h e

pub delete_files-IsValid : (p : FileRow → Bool) → Keeps IsValid (delete_files p)
unfolding delete_files cascade
delete_files-IsValid p = record {
  at = λ db v. unless_refused IsValid _ _ _ v λ rooted. record {
    guarded = some_of-reject p violates db.files v.guarded;
    rooted = rooted;
    separate = distinct-reject p db.files v.separate;
    numbered = All-reject _ p db.files v.numbered;
    listed = All-reject_if _ _ _ db.lru (listed-cascade p db.files) v.listed;
  };
}

replaced-IsValid :
    (r : FileRow) (db : Db)
    → IsValid db
    → violates r ≡ false
    → (not (has_mount r.mount_id db) || has_orphan (r ∷ reject (clash r) db.files)) ≡ false
    → IsValid (record (cascade (clash r) db) {
      files = r ∷ reject (clash r) db.files;
      file_seq = max r.inode db.file_seq;
    })
unfolding cascade
replaced-IsValid r db v e rooted = record {
  guarded = rw (e, some_of-reject (clash r) violates db.files v.guarded);
  rooted = or_false (not (has_mount r.mount_id db)) _ rooted;
  separate =
      rw (some_of-reject_self (clash r) db.files, distinct-reject (clash r) db.files v.separate);
  numbered = (
    omega arith,
    All-reject _ (clash r) db.files (All-imp (λ q h. omega arith) db.files v.numbered),
  );
  listed =
      All-reject_if _ _ _ db.lru
        (λ l g h. or_true (at_inode l.inode r) (listed-cascade (clash r) db.files l g h)) v.listed;
}

pub insert_root-IsValid : (e : NewFileEntry) → Keeps IsValid (insert_root e)
unfolding insert_root cascade
insert_root-IsValid e = record {
  at = λ db v. unless_refused IsValid _ _ _ v λ good.
      unless_refused IsValid _ _ _ v
        λ rooted. replaced-IsValid (new_row fuse_root_inode none e) db v good rooted;
}

module _ (new : LruRow) (change : LruRow → LruRow)
    (same : (l : LruRow) → (change l).inode ≡ l.inode) where
  touched-IsValid :
      (db : Db)
      → IsValid db
      → IsValid (record db { lru = update (λ l. l.inode == new.inode) change db.lru })
  touched-IsValid db v = record {
    guarded = v.guarded;
    rooted = v.rooted;
    separate = v.separate;
    numbered = v.numbered;
    listed = All-update _ _ change db.lru (λ l h. rw (same l) h) v.listed;
  }

  appended-IsValid :
      (db : Db)
      → IsValid db
      → has_inode new.inode db.files ≡ true
      → IsValid (record db { lru = db.lru ++ new ∷ [] })
  appended-IsValid db v h = record {
    guarded = v.guarded;
    rooted = v.rooted;
    separate = v.separate;
    numbered = v.numbered;
    listed = All-append _ db.lru (new ∷ []) v.listed (h, tt);
  }

  upsert_lru_at : (db : Db) → IsValid db → IsValid (upsert_lru new change db).1
  unfolding upsert_lru
  upsert_lru_at db v = ground (arith, touched-IsValid db v, appended-IsValid db v)

  pub upsert_lru-IsValid : Keeps IsValid (upsert_lru new change)
  upsert_lru-IsValid = record { at = upsert_lru_at }

pub delete_lru-IsValid : (i : ℕ) → Keeps IsValid (delete_lru i)
unfolding delete_lru
delete_lru-IsValid i = record {
  at = λ db v. record {
    guarded = v.guarded;
    rooted = v.rooted;
    separate = v.separate;
    numbered = v.numbered;
    listed = All-reject _ _ db.lru v.listed;
  };
}
