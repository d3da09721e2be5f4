-- ===== src/State/Candidates.antt =====
-- `lru_eviction_candidates`: what the eviction loop is offered.
use stratosync.Common.{
  ℕ, zero, suc, ◌≤◌, ◌≡◌, ◌≢◌, ◌∙◌, refl, Bool, true, false, not, ◌&&◌, none, some, List, [], ◌∷◌,
  arith, select, some_of, first, take, length, All, ◌==◌, has_num, has_str, Bool-cases,
  Option-cases, inl, inr, str_eq_refl,
}
use stratosync.Types.SyncStatus.{is_cached}
use stratosync.State.Tables.{FileRow, LruRow, Db, ok}
use stratosync.State.Cache.{
  EvictionCandidate, Joined, join_lru, sort_by, older, evictable, candidate, collect,
  lru_eviction_candidates,
}
use stratosync.State.Rows.{All-imp}
use stratosync.State.Sorted.{sort_by-All}

module _ {ℓ} {A : Type ℓ} (P : A → Type 0) where
  take-All : (n : ℕ) (xs : List A) → All P xs → All P (take n xs)
  take-All zero xs h = tt
  take-All (suc n) [] h = tt
  take-All (suc n) (x ∷ xs) h = (h.0, take-All n xs h.1)

  length-take_le : (n : ℕ) (xs : List A) → length (take n xs) ≤ n
  length-take_le zero xs = omega arith
  length-take_le (suc n) [] = omega arith
  length-take_le (suc n) (x ∷ xs) = omega (arith, length-take_le n xs)

abbrev pub unpinned : List LruRow → ℕ → Bool
unpinned lru i = elim (first (λ l. l.inode == i) lru) [ none ↦ false | some l ↦ not l.pinned ]

-- The joined row is one of the table's, with its pin.
abbrev IsJoin : List LruRow → List FileRow → Joined → Type 0
IsJoin lru files j =
    ((q : FileRow → Bool) → q j.row ≡ true → some_of q files ≡ true)
    × (unpinned lru j.row.inode ≡ not j.pinned)

join_lru-IsJoin :
    (lru : List LruRow) (files : List FileRow) → All (IsJoin lru files) (join_lru lru files)
unfolding join_lru
join_lru-IsJoin lru [] = tt
join_lru-IsJoin lru (f ∷ fs) =
    let rest : All (IsJoin lru (f ∷ fs)) (join_lru lru fs) =
      All-imp (λ j h. ((λ q e. ground (arith, h.0 q)), h.1)) (join_lru lru fs)
        (join_lru-IsJoin lru fs) in
    elim (Option-cases (first (λ l. l.inode == f.inode) lru)) [
      | inl e ↦ rw (e, join_lru) rest
      | inr (l, e) ↦ rw (e, join_lru) (((λ q h. ground arith), rw (e, unpinned)), rest)
    ]

select-All :
    (P : Joined → Type 0) (p : Joined → Bool) (xs : List Joined)
    → All P xs
    → All (λ j. P j × (p j ≡ true)) (select p xs)
select-All P p [] h = tt
select-All P p (x ∷ xs) h = elim (Bool-cases (p x)) [
  | inl e ↦ rw e ((h.0, e), select-All P p xs h.1)
  | inr e ↦ rw e (select-All P p xs h.1)
]

collect_none : (j : Joined) (js : List Joined) → collect (j ∷ js) ≢ some []
collect_none j js e = ground arith

collect_cons :
    (j : Joined) (js : List Joined) (c : EvictionCandidate) (cs : List EvictionCandidate)
    → collect (j ∷ js) ≡ some (c ∷ cs)
    → (candidate j ≡ some c) × (collect js ≡ some cs)
collect_cons j js c cs e = ground arith

collect-All :
    (P : Joined → Type 0) (Q : EvictionCandidate → Type 0)
    → ((j : Joined) (c : EvictionCandidate) → P j → candidate j ≡ some c → Q c)
    → (js : List Joined) (cs : List EvictionCandidate) → collect js ≡ some cs
    → All P js
    → All Q cs × (length cs ≡ length js)
collect-All P Q f [] [] e h = (tt, refl)
collect-All P Q f [] (c ∷ cs) e h = cc
collect-All P Q f (j ∷ js) [] e h = absurd (collect_none j js e)
collect-All P Q f (j ∷ js) (c ∷ cs) e h =
    let (at, rest) = collect_cons j js c cs e in
    let (all, len) = collect-All P Q f js cs rest h.1 in ((f j c h.0 at, all), rw len)

-- What a candidate says of its row.
abbrev pub describes : ℕ → EvictionCandidate → FileRow → Bool
describes m c r =
    r.inode == c.inode
    && r.mount_id == m
    && is_cached r.status
    && has_str r.cache_path c.cache_path
    && has_num r.cache_size c.cache_size

describes_row :
    (m : ℕ) (j : Joined) (c : EvictionCandidate)
    → evictable m j ≡ true
    → candidate j ≡ some c
    → describes m c j.row ≡ true
describes_row m j c h e = ground (arith, str_eq_refl c.cache_path)

candidate-inode :
    (j : Joined) (c : EvictionCandidate) → candidate j ≡ some c → c.inode ≡ j.row.inode
candidate-inode j c e = ground arith

evictable_free : (m : ℕ) (j : Joined) → evictable m j ≡ true → not j.pinned ≡ true
evictable_free m j e = ground arith

abbrev chosen : ℕ → ℕ → Db → List Joined
chosen m limit db = take limit (sort_by older (select (evictable m) (join_lru db.lru db.files)))

candidates_collect :
    (m limit : ℕ) (db : Db) (cs : List EvictionCandidate)
    → (lru_eviction_candidates m limit db).0 ≡ ok cs
    → collect (chosen m limit db) ≡ some cs
unfolding lru_eviction_candidates
candidates_collect m limit db cs h = ground arith

-- Every candidate for eviction is a cached row of the mount, with its path and size, that is not
-- pinned; and there are at most as many as asked for.
pub lru_eviction_candidates_lem :
    (m limit : ℕ) (db : Db) (cs : List EvictionCandidate)
    → (lru_eviction_candidates m limit db).0 ≡ ok cs
    → All (λ c. (some_of (describes m c) db.files ≡ true) × (unpinned db.lru c.inode ≡ true)) cs
      × (length cs ≤ limit)
lru_eviction_candidates_lem m limit db cs h =
    let P = λ (j : Joined). IsJoin db.lru db.files j × (evictable m j ≡ true) in
    let (all, len) =
      collect-All P _
        (λ j c (join, e) k. (
          join.0 (describes m c) (describes_row m j c e k),
          rw (candidate-inode j c k) (join.1 ∙ evictable_free m j e),
        ))
        (chosen m limit db) cs (candidates_collect m limit db cs h)
        (take-All P limit _ (
          sort_by-All older P _
            (select-All _ (evictable m) _ (join_lru-IsJoin db.lru db.files)))) in
    (all, rw len (length-take_le P limit _))
