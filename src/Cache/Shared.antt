-- ===== src/Cache/Shared.antt =====
-- What the eviction of base versions does to the blobs that rows share.
use stratosync.Common.{
  Texts, ap, sym, ℕ, zero, suc, ◌≤◌, ◌<◌, String, Bool, true, false, not, ◌&&◌, ◌≡◌, refl, List, [],
  ◌∷◌, map, arith, count, select, reject, take, some_of, All, leb, str_eq, str_eq_refl, Bool-cases,
  inl, inr, erase, ◌==◌,
}
use stratosync.State.Tables.{BaseRow, Db, ok}
use stratosync.State.Cache.{sort_by, insert_by}
use stratosync.State.Rows.{All-reject, All-imp, All-both}
use stratosync.State.Sorted.{sort_by-All, members}
use stratosync.State.Versions.{
  at_base, base_refs, base_hash_ref_count, remove_base_hash, stale_base_entries, is_stale_base,
  earlier,
}
use stratosync.Sync.World.{World, Outcome, done, fault, bind_outcome, return, exists, has_text}
use stratosync.Sync.Backed.{kept_rows, remove_object-db}
use stratosync.Sync.Rules.{bound}
use stratosync.Sync.BaseStore.{remove_object}
use stratosync.Cache.Bases.{evict_base, evict_each, evict_stale_bases}

module _ {A : Type 0} (q : A → Bool) where
  count-insert_by :
      (before : A → A → Bool) (a : A) (xs : List A)
      → count q (insert_by before a xs) ≡ count q (a ∷ xs)
  unfolding insert_by
  count-insert_by before a [] = refl
  count-insert_by before a (x ∷ xs) = ground (arith, count-insert_by before a xs)

  count-sort_by : (before : A → A → Bool) (xs : List A) → count q (sort_by before xs) ≡ count q xs
  unfolding sort_by
  count-sort_by before [] = refl
  count-sort_by before (x ∷ xs) =
      ground (arith, count-insert_by before x (sort_by before xs), count-sort_by before xs)

  count-take : (n : ℕ) (xs : List A) → count q (take n xs) ≤ count q xs
  count-take zero xs = omega arith
  count-take (suc n) [] = omega arith
  count-take (suc n) (x ∷ xs) = ground (arith, count-take n xs)

  count-select : (p : A → Bool) (xs : List A) → count q (select p xs) ≤ count q xs
  count-select p [] = omega arith
  count-select p (x ∷ xs) = ground (arith, count-select p xs)

  count-reject : (p : A → Bool) (xs : List A) → count q (reject p xs) ≤ count q xs
  count-reject p [] = omega arith
  count-reject p (x ∷ xs) = ground (arith, count-reject p xs)

  -- A row that goes and that the count counts.
  count-reject_less :
      (p : A → Bool) (xs : List A)
      → some_of (λ x. p x && q x) xs ≡ true
      → count q (reject p xs) < count q xs
  count-reject_less p [] h = cc
  count-reject_less p (x ∷ xs) h = ground (arith, count-reject_less p xs, count-reject p xs)

  none_counted : (xs : List A) → count q xs ≤ 0 → All (λ x. q x ≡ false) xs
  none_counted [] h = tt
  none_counted (x ∷ xs) h = (ground arith, none_counted xs (ground arith))

-- The primary key of `base_versions`.
abbrev pub IsKeyed : List BaseRow → Type 0
IsKeyed bs = (i m : ℕ) → count (at_base i m) bs ≤ 1

abbrev pub HasBlobs : World → Type 0
HasBlobs w = All (λ b. exists b.object_hash w.objects ≡ true) w.db.bases

-- The row of an entry is there.
abbrev is_listed : List BaseRow → BaseRow → Bool
is_listed bs e =
    some_of (λ b. at_base e.inode e.mount_id b && str_eq b.object_hash e.object_hash) bs

abbrev entry : BaseRow → ℕ × String × ℕ
entry b = (b.inode, b.object_hash, b.file_size)

still_listed :
    (e d : BaseRow) (bs : List BaseRow)
    → at_base e.inode e.mount_id d ≡ false
    → is_listed bs d ≡ true
    → is_listed (reject (at_base e.inode e.mount_id) bs) d ≡ true
still_listed e d [] apart h = cc
still_listed e d (b ∷ bs) apart h = ground (arith, still_listed e d bs apart)

removed-HasBlobs :
    (h : String) (w : World)
    → (base_refs h w.db == 0) ≡ true
    → HasBlobs w
    → HasBlobs (remove_object h w).1
unfolding remove_object
removed-HasBlobs h w none_left blobs = elim (Bool-cases (not (exists h w.objects))) [
  | inl e ↦ rw (e, remove_object) blobs
  | inr e ↦ elim (Bool-cases (has_text h w.sealed)) [
    | inl f ↦ rw (e, f, remove_object) blobs
    | inr f ↦
        rw (e, f, remove_object)
          (kept_rows (λ b. b.object_hash) h w.objects w.db.bases none_left blobs)
  ]
]

module _ (m : ℕ) (e : BaseRow) (w : World) (here : e.mount_id ≡ m) where
  abbrev left : World
  left =
      let db = w.db in record w { db = record db { bases = reject (at_base e.inode m) db.bases } }

  evict_base-bases : (evict_base m (entry e) w).1.db.bases ≡ reject (at_base e.inode m) w.db.bases
  unfolding base_hash_ref_count remove_base_hash
  evict_base-bases = elim (Bool-cases (leb (base_refs e.object_hash w.db) 1)) [
    | inl last ↦ rw (last, evict_base) (ap (λ db. db.bases) (remove_object-db e.object_hash left))
    | inr shared ↦ rw (shared, evict_base)
  ]

  evict_base-HasBlobs :
      is_listed w.db.bases e ≡ true → HasBlobs w → HasBlobs (evict_base m (entry e) w).1
  unfolding base_hash_ref_count remove_base_hash
  evict_base-HasBlobs listed blobs =
      let kept : HasBlobs left =
        All-reject (λ b. exists b.object_hash w.objects ≡ true) _ w.db.bases blobs in
      let fewer : base_refs e.object_hash left.db < base_refs e.object_hash w.db =
        count-reject_less (λ b. str_eq b.object_hash e.object_hash) (at_base e.inode m) w.db.bases
          (rw (sym here) listed) in
      elim (Bool-cases (leb (base_refs e.object_hash w.db) 1)) [
        | inl last ↦ rw (last, evict_base) (removed-HasBlobs e.object_hash left (ground arith) kept)
        | inr shared ↦ rw (shared, evict_base) kept
      ]

evict_each-HasBlobs :
    (m : ℕ) (es : List BaseRow) (w : World)
    → All (λ e. e.mount_id ≡ m) es
    → IsKeyed es
    → All (λ e. is_listed w.db.bases e ≡ true) es
    → HasBlobs w
    → HasBlobs (evict_each m (map entry es) w).1
evict_each-HasBlobs m [] w here keyed listed blobs = blobs
evict_each-HasBlobs m (e ∷ es) w here keyed listed blobs =
    let (r, w') = evict_base m (entry e) w in
    let own : at_base e.inode e.mount_id e ≡ true = ground arith in
    let at = keyed e.inode e.mount_id in
    let apart = none_counted (at_base e.inode e.mount_id) es (ground arith) in
    let keyed' : IsKeyed es = λ i n. let k = keyed i n in ground arith in
    let listed' : All (λ d. is_listed w'.db.bases d ≡ true) es =
      rw (evict_base-bases m e w here.0, sym here.0)
        (All-both (λ d a l. still_listed e d w.db.bases a l) es apart listed.1) in
    let blobs' = evict_base-HasBlobs m e w here.0 listed.0 blobs in
    bound HasBlobs r (λ _. evict_each m (map entry es)) w'
      (λ _ _. evict_each-HasBlobs m es w' here.1 keyed' listed' blobs') blobs'

All-take : (P : BaseRow → Type 0) (n : ℕ) (xs : List BaseRow) → All P xs → All P (take n xs)
All-take P zero xs a = tt
All-take P (suc n) [] a = tt
All-take P (suc n) (x ∷ xs) a = (a.0, All-take P n xs a.1)

All-select_if :
    (P Q : BaseRow → Type 0) (p : BaseRow → Bool) (xs : List BaseRow)
    → ((b : BaseRow) → p b ≡ true → P b → Q b)
    → All P xs
    → All Q (select p xs)
All-select_if P Q p [] f a = tt
All-select_if P Q p (x ∷ xs) f a = elim (Bool-cases (p x)) [
  | inl e ↦ rw e (f x e a.0, All-select_if P Q p xs f a.1)
  | inr e ↦ rw e (All-select_if P Q p xs f a.1)
]

all_listed : (bs : List BaseRow) → All (λ e. is_listed bs e ≡ true) bs
all_listed bs = All-imp (λ e h. h _ (ground (arith, str_eq_refl e.object_hash))) bs (members bs)

-- The eviction of stale base versions, whatever its outcome, leaves each base version that stays
-- with its blob, if each had its blob before and no two rows have the inode and the mount in common.
pub evict_stale_bases-HasBlobs :
    (now m days : ℕ) (w : World)
    → IsKeyed w.db.bases
    → HasBlobs w
    → HasBlobs (evict_stale_bases now m days w).1
unfolding evict_stale_bases stale_base_entries
evict_stale_bases-HasBlobs now m days w keyed blobs =
    let stale = select (is_stale_base now m days w.db) w.db.bases in
    let es = take 500 (sort_by earlier stale) in
    let both : All (λ e. (e.mount_id ≡ m) × (is_listed w.db.bases e ≡ true)) es = All-take _ 500 _ (
      sort_by-All earlier _ stale
        (All-select_if _ _ _ w.db.bases (λ b p l. (ground arith, l)) (all_listed w.db.bases))) in
    let keyed' : IsKeyed es = λ i n.
      let q = at_base i n in
      let a = count-take q 500 (sort_by earlier stale) in
      let b = count-sort_by q earlier stale in
      let c = count-select q (is_stale_base now m days w.db) w.db.bases in
      let d = keyed i n in ground arith in
    evict_each-HasBlobs m es w (All-imp (λ e h. h.0) es both) keyed' (All-imp (λ e h. h.1) es both)
      blobs

erased : (h : String) (m : Texts String) → exists h (erase h m) ≡ false
erased h [] = refl
erased h ((k, c) ∷ m) = ground (arith, erased h m)

removed-exists :
    (h : String) (w : World)
    → has_text h w.sealed ≡ false
    → exists h (remove_object h w).1.objects ≡ false
unfolding remove_object
removed-exists h w free = elim (Bool-cases (exists h w.objects)) [
  | inl e ↦ rw (e, free, remove_object) (erased h w.objects)
  | inr e ↦ rw (e, remove_object) e
]

entries-db : (now m days : ℕ) (db : Db) → (stale_base_entries now m days 500 db).1 ≡ db
unfolding stale_base_entries
entries-db now m days db = refl

ending : (r : Outcome Unit) (w : World) → (bind_outcome {B = Unit {0}} r (λ _. return tt) w).1 ≡ w
ending (done a) w = refl
ending (fault e) w = refl

-- Where one base version is stale and no other shares its blob, the eviction removes the blob, and
-- the version history keeps every row, those that refer to the blob as well.
pub evict_stale_bases-versions :
    (now m days i size : ℕ) (hash : String) (w : World)
    → (stale_base_entries now m days 500 w.db).0 ≡ ok ((i, hash, size) ∷ [])
    → leb (base_refs hash w.db) 1 ≡ true
    → has_text hash w.sealed ≡ false
    → let w' = (evict_stale_bases now m days w).1 in
      (w'.db.versions ≡ w.db.versions) × (exists hash w'.objects ≡ false)
unfolding evict_stale_bases base_hash_ref_count remove_base_hash
evict_stale_bases-versions now m days i size hash w stale last free =
    let db = w.db in
    let left = record w { db = record db { bases = reject (at_base i m) db.bases } } in
    rw
      (
        stale,
        entries-db now m days w.db,
        last,
        ending (remove_object hash left).0 (remove_object hash left).1,
      )
      (ap (λ d. d.versions) (remove_object-db hash left), removed-exists hash left free)
