-- ===== src/State/Keeps.antt =====
-- Rules for what keeps a predicate on the database: the calls of a method one after the other.
use stratosync.Common.{
  ℕ, String, Bool, true, false, ◌≡◌, refl, Option, if◌then◌else◌, inl, inr, ◌⊎◌,
}
use stratosync.Types.SyncStatus.{SyncStatus}
use stratosync.Types.FileKind.{FileKind}
use stratosync.State.Tables.{
  FileRow, Db, Result, Exec, ok, err, pure, gets, bind_result, ◌>>=◌, SqlError,
}
use stratosync.State.Keys.{SameKeys}
use stratosync.State.Remote.{transaction}
use stratosync.State.Valid.{IsValid}
use stratosync.State.Preserve.{Keeps, upsert_lru-IsValid}
use stratosync.State.Files.{touch_lru}

-- The columns that are no keys.
pub cells :
    (r : FileRow) {kind : FileKind} {size mtime : ℕ} {etag : Option String} {status : SyncStatus}
    {cache_path : Option String} {cache_size cache_mtime dir_listed : Option ℕ} {gen : ℕ}
    → SameKeys
        (record r {
          kind = kind;
          size = size;
          mtime = mtime;
          etag = etag;
          status = status;
          cache_path = cache_path;
          cache_size = cache_size;
          cache_mtime = cache_mtime;
          dir_listed = dir_listed;
          poll_generation = gen;
        })
        r
cells r = record {
  inode = refl;
  mount_id = refl;
  parent_inode = refl;
  name = refl;
  remote_path = refl;
  remote_item_id = refl;
}

module _ {P : Db → Type 0} where
  pub Keeps-pure : {A : Type 0} (a : A) → Keeps P (pure a)
  Keeps-pure a = record { at = λ db h. h }

  pub Keeps-gets : {A : Type 0} (f : Db → A) → Keeps P (gets f)
  Keeps-gets f = record { at = λ db h. h }

  Keeps-result :
      {A B : Type 0} (r : Result A) (f : A → Exec B)
      → ((a : A) → Keeps P (f a))
      → Keeps P (bind_result r f)
  Keeps-result (ok a) f k = k a
  Keeps-result (err e) f k = record { at = λ db h. h }

  pub Keeps-bind :
      {A B : Type 0} (m : Exec A) (f : A → Exec B)
      → Keeps P m
      → ((a : A) → Keeps P (f a))
      → Keeps P (m >>= f)
  Keeps-bind m f k l = record {
    at = λ db h. let (r, db') = m db in (Keeps-result r f l).at db' (k.at db h);
  }

  pub Keeps-if :
      {A : Type 0} (b : Bool) (m n : Exec A) → Keeps P m → Keeps P n → Keeps P (if b then m else n)
  Keeps-if true m n k l = k
  Keeps-if false m n k l = l

pub Result-cases :
    {A : Type 0} (r : Result A) → ((a : A) × (r ≡ ok a)) ⊎ ((e : SqlError) × (r ≡ err e))
Result-cases (ok a) = inl (a, refl)
Result-cases (err e) = inr (e, refl)

-- A transaction that fails is rolled back.
pub Keeps-transaction : {P : Db → Type 0} (k : Exec Unit) → Keeps P k → Keeps P (transaction k)
Keeps-transaction k h = record {
  at = λ db v. elim (Result-cases (k db).0) [
    | inl (u, good) ↦ rw (good, transaction) (h.at db v)
    | inr (x, bad) ↦ rw (bad, transaction) v
  ];
}

-- A call that leaves `file_index` and `cache_lru` alone.
pub Keeps-elsewhere :
    {A : Type 0} (m : Exec A)
    → ((db : Db) → (m db).1.files ≡ db.files)
    → ((db : Db) → (m db).1.file_seq ≡ db.file_seq)
    → ((db : Db) → (m db).1.lru ≡ db.lru)
    → Keeps IsValid m
Keeps-elsewhere m files seq lru = record {
  at = λ db v. record {
    guarded = rw (files db) v.guarded;
    rooted = rw (files db) v.rooted;
    separate = rw (files db) v.separate;
    numbered = rw (files db, seq db) v.numbered;
    listed = rw (files db, lru db) v.listed;
  };
}

pub touch_lru-IsValid : (now i : ℕ) → Keeps IsValid (touch_lru now i)
unfolding touch_lru
touch_lru-IsValid now i = upsert_lru-IsValid _ _ (λ l. refl)
