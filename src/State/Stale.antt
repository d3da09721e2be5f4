-- ===== src/State/Stale.antt =====
-- `delete_stale_entries`, which prunes what a full listing of the remote did not report.
use stratosync.Common.{
  ℕ, ◌≡◌, refl, ◌∙◌, Bool, true, false, not, ◌&&◌, Option, List, [], ◌∷◌, arith, select, reject,
  some_of, All, Bool-cases, inl, inr, map, String,
}
use stratosync.Types.SyncStatus.{is_unsynced}
use stratosync.State.Tables.{FileRow, Db, Result, ok, err, bind_result, pure}
use stratosync.State.Statement.{delete_files, cascade, clash, distinct, at_inode, has_orphan}
use stratosync.State.Poll.{delete_stale_entries, delete_each, is_stale_at}
use stratosync.State.Rows.{some_of-reject, All-imp, All-both}
use stratosync.State.Valid.{IsValid}

abbrev pub unsynced : List FileRow → List FileRow
unsynced = select (λ r. is_unsynced r.status)

-- No row of the inode has changes that are not uploaded.
abbrev clean_at : List FileRow → FileRow → Bool
clean_at files r = not (some_of (λ q. at_inode r.inode q && is_unsynced q.status) files)

clash-inode : (q r : FileRow) → clash q r ≡ false → at_inode r.inode q ≡ false
unfolding clash
clash-inode q r h = ground arith

-- A selection from `xs`, where no row clashes with `x`, selects no row of its inode.
apart :
    (x : FileRow) (p : FileRow → Bool) (xs : List FileRow)
    → some_of (clash x) xs ≡ false
    → All (λ r. at_inode r.inode x ≡ false) (select p xs)
apart x p [] h = tt
apart x p (y ∷ ys) h = elim (Bool-cases (p y)) [
  | inl e ↦ rw e (clash-inode x y (ground arith), apart x p ys (ground arith))
  | inr e ↦ rw e (apart x p ys (ground arith))
]

clash_inode_at : (q r : FileRow) → clash q r ≡ false → at_inode q.inode r ≡ false
unfolding clash
clash_inode_at q r e = ground arith

none_beside :
    (x : FileRow) (xs : List FileRow)
    → some_of (clash x) xs ≡ false
    → some_of (λ q. at_inode x.inode q && is_unsynced q.status) xs ≡ false
none_beside x [] h = refl
none_beside x (y ∷ ys) h = ground (arith, none_beside x ys, clash_inode_at x y)

module _ (p : FileRow → Bool)
    (synced : (r : FileRow) → p r ≡ true → is_unsynced r.status ≡ false) where
  selected_clean :
      (xs : List FileRow) → distinct xs ≡ true → All (λ r. clean_at xs r ≡ true) (select p xs)
  selected_clean [] d = tt
  selected_clean (x ∷ xs) d =
      let rest : All (λ r. clean_at (x ∷ xs) r ≡ true) (select p xs) =
        All-both {P = λ r. at_inode r.inode x ≡ false} {Q = λ r. clean_at xs r ≡ true}
          (λ r away clean. ground arith) (select p xs) (apart x p xs (ground arith))
          (selected_clean xs (ground arith)) in
      elim (Bool-cases (p x)) [
        | inl e ↦ rw e (ground (arith, synced x e, none_beside x xs (ground arith)), rest)
        | inr e ↦ rw e rest
      ]

unsynced-reject :
    (i : ℕ) (xs : List FileRow)
    → some_of (λ q. at_inode i q && is_unsynced q.status) xs ≡ false
    → unsynced (reject (at_inode i) xs) ≡ unsynced xs
unsynced-reject i [] h = refl
unsynced-reject i (x ∷ xs) h = ground (arith, unsynced-reject i xs)

still_clean :
    (r : FileRow) (files : List FileRow) (q : FileRow)
    → clean_at files q ≡ true
    → clean_at (reject (at_inode r.inode) files) q ≡ true
still_clean r files q h = ground (
  arith,
  some_of-reject (at_inode r.inode) (λ s. at_inode q.inode s && is_unsynced s.status) files,
)

delete_each-unsynced :
    (rs : List FileRow) (db : Db)
    → All (λ r. clean_at db.files r ≡ true) rs
    → unsynced (delete_each rs db).1.files ≡ unsynced db.files
unfolding delete_each delete_files cascade
delete_each-unsynced [] db c = refl
delete_each-unsynced (r ∷ rs) db c =
    elim (Bool-cases (has_orphan (reject (at_inode r.inode) db.files))) [
      | inl e ↦ rw e
      | inr e ↦ rw e (
          delete_each-unsynced rs _ (All-imp (still_clean r db.files) rs c.1)
          ∙ unsynced-reject r.inode db.files (ground arith))
    ]

stale_synced : (m gen : ℕ) (r : FileRow) → is_stale_at m gen r ≡ true → is_unsynced r.status ≡ false
stale_synced m gen r h = ground arith

after_pure :
    {A B : Type 0} (r : Result A) (b : B) (db : Db) → (bind_result r (λ _. pure b) db).1 ≡ db
after_pure (ok a) b db = refl
after_pure (err e) b db = refl

-- The prune of a full listing loses no local work: whatever its outcome, the rows with changes that
-- are not uploaded are afterwards those from before, in a database that keeps its constraints.
pub delete_stale_entries-unsynced :
    (m gen : ℕ) (db : Db)
    → IsValid db
    → unsynced (delete_stale_entries m gen db).1.files ≡ unsynced db.files
unfolding delete_stale_entries
delete_stale_entries-unsynced m gen db v =
    let stale = select (is_stale_at m gen) db.files in
    rw
      (after_pure (delete_each stale db).0
        (map {B = ℕ × String × Option String} (λ r. (r.inode, r.remote_path, r.cache_path)) stale)
        (delete_each stale db).1)
      (delete_each-unsynced stale db
        (selected_clean (is_stale_at m gen) (stale_synced m gen) db.files v.separate))
