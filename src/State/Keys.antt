-- ===== src/State/Keys.antt =====
-- Lemmas on rows that no statement but `update_keys` changes in their key columns.
use stratosync.Common.{
  ℕ, String, Bool, not, ◌≡◌, refl, ◌∙◌, Option, none, some, List, [], ◌∷◌, ◌==◌, str_eq, eq_iff,
  arith, Bool-cases, All, inl, inr, ◌≤◌, some_of, update,
}
use stratosync.State.Tables.{FileRow}
use stratosync.State.Statement.{
  clash, same_num, same_str, has_inode, has_orphan, parent_in, distinct,
}

pub record SameKeys (q r : FileRow) : Type 0 where
  pub inode : q.inode ≡ r.inode
  pub mount_id : q.mount_id ≡ r.mount_id
  pub parent_inode : q.parent_inode ≡ r.parent_inode
  pub name : q.name ≡ r.name
  pub remote_path : q.remote_path ≡ r.remote_path
  pub remote_item_id : q.remote_item_id ≡ r.remote_item_id

clash_row : (q r r' : FileRow) → SameKeys r' r → clash q r' ≡ clash q r
unfolding clash
clash_row q r r' l =
    cc (l.inode, l.mount_id, l.parent_inode, l.name, l.remote_path, l.remote_item_id)

pub str_eq_sym : (s t : String) → str_eq s t ≡ str_eq t s
str_eq_sym s t = ground (arith, eq_iff s t, eq_iff t s)

num_eq_sym : (a b : ℕ) → (a == b) ≡ (b == a)
num_eq_sym a b = ground arith

same_num_sym : (a b : Option ℕ) → same_num a b ≡ same_num b a
unfolding same_num
same_num_sym (some a) (some b) = num_eq_sym a b
same_num_sym (some a) none = refl
same_num_sym none (some b) = refl
same_num_sym none none = refl

same_str_sym : (a b : Option String) → same_str a b ≡ same_str b a
unfolding same_str
same_str_sym (some a) (some b) = str_eq_sym a b
same_str_sym (some a) none = refl
same_str_sym none (some b) = refl
same_str_sym none none = refl

pub clash_sym : (q r : FileRow) → clash q r ≡ clash r q
clash_sym q r =
    unfold clash in
    cc (
      num_eq_sym q.inode r.inode,
      num_eq_sym q.mount_id r.mount_id,
      str_eq_sym q.remote_path r.remote_path,
      str_eq_sym q.name r.name,
      same_num_sym q.parent_inode r.parent_inode,
      same_str_sym q.remote_item_id r.remote_item_id,
    )

clash-SameKeys : (q q' r r' : FileRow) → SameKeys q' q → SameKeys r' r → clash q' r' ≡ clash q r
clash-SameKeys q q' r r' k l =
    clash_row q' r r' l ∙ clash_sym q' r ∙ clash_row r q q' k ∙ clash_sym r q

SameKeys-refl : (r : FileRow) → SameKeys r r
SameKeys-refl r = record {
  inode = refl;
  mount_id = refl;
  parent_inode = refl;
  name = refl;
  remote_path = refl;
  remote_item_id = refl;
}

-- Row by row the same keys.
abbrev SameAll : List FileRow → List FileRow → Type 0
SameAll [] [] = Unit
SameAll (x ∷ xs) (y ∷ ys) = SameKeys x y × SameAll xs ys
SameAll _ _ = ⊥

pub update-SameAll :
    (p : FileRow → Bool) (f : FileRow → FileRow)
    → ((r : FileRow) → SameKeys (f r) r)
    → (xs : List FileRow) → SameAll (update p f xs) xs
update-SameAll p f k [] = tt
update-SameAll p f k (x ∷ xs) = elim (Bool-cases (p x)) [
  | inl e ↦ rw e (k x, update-SameAll p f k xs)
  | inr e ↦ rw e (SameKeys-refl x, update-SameAll p f k xs)
]

pub has_inode-SameAll :
    (i : ℕ) (xs ys : List FileRow) → SameAll xs ys → has_inode i xs ≡ has_inode i ys
has_inode-SameAll i [] [] s = refl
has_inode-SameAll i [] (y ∷ ys) s = absurd s
has_inode-SameAll i (x ∷ xs) [] s = absurd s
has_inode-SameAll i (x ∷ xs) (y ∷ ys) s = cc (s.0.inode, has_inode-SameAll i xs ys s.1)

parent_in-SameAll :
    (p : Option ℕ) (xs ys : List FileRow) → SameAll xs ys → parent_in xs p ≡ parent_in ys p
parent_in-SameAll none xs ys s = refl
parent_in-SameAll (some i) xs ys s = has_inode-SameAll i xs ys s

orphans-SameAll :
    (olds news xs ys : List FileRow)
    → SameAll olds news
    → SameAll xs ys
    → some_of (λ r. not (parent_in olds r.parent_inode)) xs
      ≡ some_of (λ r. not (parent_in news r.parent_inode)) ys
orphans-SameAll olds news [] [] t s = refl
orphans-SameAll olds news [] (y ∷ ys) t s = absurd s
orphans-SameAll olds news (x ∷ xs) [] t s = absurd s
orphans-SameAll olds news (x ∷ xs) (y ∷ ys) t s = cc (
  s.0.parent_inode,
  parent_in-SameAll y.parent_inode olds news t,
  orphans-SameAll olds news xs ys t s.1,
)

pub has_orphan-SameAll : (xs ys : List FileRow) → SameAll xs ys → has_orphan xs ≡ has_orphan ys
has_orphan-SameAll xs ys s = orphans-SameAll xs ys xs ys s s

clashes-SameAll :
    (q q' : FileRow) (xs ys : List FileRow)
    → SameKeys q q'
    → SameAll xs ys
    → some_of (clash q) xs ≡ some_of (clash q') ys
clashes-SameAll q q' [] [] k s = refl
clashes-SameAll q q' [] (y ∷ ys) k s = absurd s
clashes-SameAll q q' (x ∷ xs) [] k s = absurd s
clashes-SameAll q q' (x ∷ xs) (y ∷ ys) k s =
    cc (clash-SameKeys q' q y x k s.0, clashes-SameAll q q' xs ys k s.1)

pub distinct-SameAll : (xs ys : List FileRow) → SameAll xs ys → distinct xs ≡ distinct ys
distinct-SameAll [] [] s = refl
distinct-SameAll [] (y ∷ ys) s = absurd s
distinct-SameAll (x ∷ xs) [] s = absurd s
distinct-SameAll (x ∷ xs) (y ∷ ys) s =
    cc (clashes-SameAll x y xs ys s.0 s.1, distinct-SameAll xs ys s.1)

pub numbered-SameAll :
    (n : ℕ) (xs ys : List FileRow)
    → SameAll xs ys
    → All (λ r. r.inode ≤ n) ys
    → All (λ r. r.inode ≤ n) xs
numbered-SameAll n [] [] s a = tt
numbered-SameAll n [] (y ∷ ys) s a = absurd s
numbered-SameAll n (x ∷ xs) [] s a = absurd s
numbered-SameAll n (x ∷ xs) (y ∷ ys) s a = (rw s.0.inode a.0, numbered-SameAll n xs ys s.1 a.1)
