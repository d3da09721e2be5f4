-- ===== src/State/Prune.antt =====
-- `prune_version_history`: which blobs it hands over for removal.
use stratosync.Common.{
  ℕ, String, ◌≡◌, ◌==◌, ◌≤◌, ◌||◌, refl, Bool, true, false, not, false, length, count, List, [],
  ◌∷◌, map, arith, select, some_of, All, str_eq, str_eq_refl, drop, reject, subst, ap, ◌∙◌, sym,
  Bool-cases, inl, inr,
}
use stratosync.State.Tables.{VersionRow, BaseRow, Db, ok}
use stratosync.State.Versions.{newer, stale_versions, unreferenced, prune_version_history}
use stratosync.State.Rows.{All-imp, All-both}
use stratosync.State.Cache.{sort_by}
use stratosync.State.Sorted.{sort_by-All}
use stratosync.State.Counts.{
  count_none, All-drop, All-select, count-sort_by, count-select, count-reject, count-drop,
  length-sort_by, drop_all, reject_none,
}

module _ (p : String → Bool) where
  pub select-passing : (hs : List String) → All (λ h. p h ≡ true) (select p hs)
  select-passing [] = tt
  select-passing (h ∷ hs) = elim (Bool-cases (p h)) [
    | inl e ↦ rw e (e, select-passing hs)
    | inr e ↦ rw e (select-passing hs)
  ]

  abbrev Handed : List String → VersionRow → Type 0
  Handed hs v = p v.object_hash ≡ true → some_of (str_eq v.object_hash) hs ≡ true

  select-Handed : (vs : List VersionRow) → All (Handed (select p (map (λ v. v.object_hash) vs))) vs
  select-Handed [] = tt
  select-Handed (v ∷ vs) = (
    (λ k. ground (arith, str_eq_refl v.object_hash)),
    All-imp (λ w h k. ground (arith, h)) vs (select-Handed vs),
  )

-- Some version or base version names the blob.
abbrev pub is_named : String → Db → Bool
is_named h db =
    some_of (λ v. str_eq v.object_hash h) db.versions
    || some_of (λ b. str_eq b.object_hash h) db.bases

named_or_free : (h : String) (db : Db) → unreferenced h db ≡ not (is_named h db)
named_or_free h db = ground (
  arith,
  count_none (λ (v : VersionRow). str_eq v.object_hash h) db.versions,
  count_none (λ (b : BaseRow). str_eq b.object_hash h) db.bases,
)

-- Versions of one id have one blob.
abbrev pub HasOneBlob : List VersionRow → VersionRow → Type 0
HasOneBlob vs v = All (λ w. (w.id == v.id) ≡ true → w.object_hash ≡ v.object_hash) vs

-- A blob that a dropped version named is still named, or is handed over.
abbrev pub IsAccounted : List String → Db → VersionRow → Type 0
IsAccounted hs db v =
    some_of (λ w. w.id == v.id) db.versions ≡ false
    → is_named v.object_hash db ≡ false
    → some_of (str_eq v.object_hash) hs ≡ true

-- A dropped version with the id of `v` has its blob, which was handed over or is still named.
handed_over :
    (p : String → Bool) (hs : List String) (v : VersionRow) (ss : List VersionRow)
    → some_of (λ s. s.id == v.id) ss ≡ true
    → HasOneBlob ss v
    → All (λ w. p w.object_hash ≡ true → some_of (str_eq w.object_hash) hs ≡ true) ss
    → p v.object_hash ≡ true
    → some_of (str_eq v.object_hash) hs ≡ true
handed_over p hs v [] e one handed free = cc
handed_over p hs v (s ∷ ss) e one handed free = elim (Bool-cases (s.id == v.id)) [
  | inl a ↦
      let same = one.0 a in
      subst (λ h. some_of (str_eq h) hs ≡ true) same
        (handed.0 (subst (λ h. p h ≡ true) (sym same) free))
  | inr a ↦ handed_over p hs v ss (ground arith) one.1 handed.1 free
]

module _ (P : VersionRow → Type 0) where
  stale_versions-All : (i keep : ℕ) (db : Db) → All P db.versions → All P (stale_versions i keep db)
  unfolding stale_versions
  stale_versions-All i keep db h =
      All-drop P keep _ (sort_by-All _ P _ (All-select P (λ v. v.inode == i) db.versions h))

not_both : true ≡ false → ⊥
not_both e = cc

-- A version that is not dropped is there under its id.
kept_ids :
    (p : VersionRow → Bool) (xs : List VersionRow)
    → All (λ v. p v ≡ false → some_of (λ w. w.id == v.id) (reject p xs) ≡ true) xs
kept_ids p [] = tt
kept_ids p (x ∷ xs) =
    ((λ k. ground arith), All-imp (λ v h k. ground (arith, h k)) xs (kept_ids p xs))

count_dropped :
    (ss xs : List VersionRow)
    → All (λ v. some_of (λ s. s.id == v.id) ss ≡ true) xs
    → count (λ v. not (some_of (λ s. s.id == v.id) ss)) xs ≡ 0
count_dropped ss [] h = refl
count_dropped ss (x ∷ xs) h = ground (arith, h.0, count_dropped ss xs h.1)

own_ids : (xs : List VersionRow) → All (λ v. some_of (λ s. s.id == v.id) xs ≡ true) xs
own_ids [] = tt
own_ids (x ∷ xs) = ((ground arith), All-imp (λ v h. ground (arith, h)) xs (own_ids xs))

-- At most `keep` versions of the file are left.
count_kept :
    (i keep : ℕ) (db : Db)
    → count (λ v. v.inode == i) (prune_version_history i keep db).1.versions ≤ keep
unfolding prune_version_history stale_versions
count_kept i keep db =
    let own = λ (v : VersionRow). v.inode == i in
    let sorted = sort_by newer (select own db.versions) in
    let stays = λ (v : VersionRow). not (some_of (λ s. s.id == v.id) (drop keep sorted)) in
    let left = count-reject own (λ v. some_of (λ s. s.id == v.id) (drop keep sorted)) db.versions in
    let same =
      count-sort_by stays newer (select own db.versions) ∙ count-select stays own db.versions in
    let bound = count-drop stays keep sorted in
    let none_left =
      count_dropped (drop keep sorted) (drop keep sorted) (own_ids (drop keep sorted)) in
    omega (arith, left, same, bound, none_left)

-- A file with at most `keep` versions keeps them all.
all_kept :
    (i keep : ℕ) (db : Db)
    → length (select (λ v. v.inode == i) db.versions) ≤ keep
    → (prune_version_history i keep db).1.versions ≡ db.versions
unfolding prune_version_history stale_versions
all_kept i keep db h =
    let few = length-sort_by newer (select (λ v. v.inode == i) db.versions) in
    rw
      (drop_all keep (sort_by newer (select (λ v. v.inode == i) db.versions))
        (omega (arith, few, h)))
      (reject_none db.versions)

-- Pruning the versions of a file succeeds and leaves the base versions alone. At most `keep` versions of
-- the file are left, and where it has no more than that, all versions are. No version and no base
-- version that is left names a blob that it hands over for removal. And, where versions of one id
-- have one blob, it hands over the blob of each version that is dropped, unless some version or
-- base version that is left names it.
pub prune_version_history_lem :
    (i keep : ℕ) (db : Db)
    → All (HasOneBlob db.versions) db.versions
    → let (r, db') = prune_version_history i keep db in
      (hs : List String) × (r ≡ ok hs)
      × (db'.bases ≡ db.bases)
      × (count (λ v. v.inode == i) db'.versions ≤ keep)
      × (length (select (λ v. v.inode == i) db.versions) ≤ keep → db'.versions ≡ db.versions)
      × All (λ h. is_named h db' ≡ false) hs
      × All (IsAccounted hs db') db.versions
unfolding prune_version_history
prune_version_history_lem i keep db one =
    let db' = (prune_version_history i keep db).1 in
    let stale = stale_versions i keep db in
    let gone = λ (h : String). unreferenced h db' in
    let hs = select gone (map (λ v. v.object_hash) stale) in
    (
      hs,
      refl,
      refl,
      count_kept i keep db,
      all_kept i keep db,
      All-imp (λ h free. ground (arith, named_or_free h db')) hs (select-passing gone _),
      All-both
          (λ v same stays dropped unnamed. elim (Bool-cases (some_of (λ s. s.id == v.id) stale)) [
            | inr e ↦ absurd (not_both (sym (stays e) ∙ dropped))
            | inl e ↦
                handed_over gone hs v stale e (stale_versions-All _ i keep db same)
                  (select-Handed gone stale) (named_or_free v.object_hash db' ∙ ap not unnamed)
          ])
          db.versions one (kept_ids (λ v. some_of (λ s. s.id == v.id) stale) db.versions),
    )
