-- ===== src/State/Rows.antt =====
-- Lemmas on what UPDATE, INSERT and DELETE do to a list of rows.
use stratosync.Common.{
  ℕ, Bool, true, false, not, ◌&&◌, ◌||◌, ◌≡◌, refl, List, [], ◌∷◌, ◌++◌, arith, Bool-cases, inl,
  inr, some_of, update, reject, All,
}
use stratosync.State.Tables.{FileRow}
use stratosync.State.Statement.{clash, distinct, at_inode}
use stratosync.State.Keys.{clash_sym}

module _ {ℓ} {A : Type ℓ} where
  pub some_of-update :
      (p v : A → Bool) (f : A → A) (xs : List A)
      → some_of (λ r. p r && v (f r)) xs ≡ false
      → some_of v xs ≡ false
      → some_of v (update p f xs) ≡ false
  some_of-update p v f [] h k = refl
  some_of-update p v f (x ∷ xs) h k = ground (arith, some_of-update p v f xs)

  pub some_of-append :
      (p : A → Bool) (xs ys : List A) → some_of p (xs ++ ys) ≡ (some_of p xs || some_of p ys)
  some_of-append p [] ys = refl
  some_of-append p (x ∷ xs) ys = ground (arith, some_of-append p xs ys)

  pub some_of-reject :
      (p q : A → Bool) (xs : List A) → some_of q xs ≡ false → some_of q (reject p xs) ≡ false
  some_of-reject p q [] h = refl
  some_of-reject p q (x ∷ xs) h = ground (arith, some_of-reject p q xs)

  pub some_of-reject_self : (p : A → Bool) (xs : List A) → some_of p (reject p xs) ≡ false
  some_of-reject_self p [] = refl
  some_of-reject_self p (x ∷ xs) = ground (arith, some_of-reject_self p xs)

  -- A row that passes `q` and is not deleted stays.
  pub some_of_kept :
      (p q : A → Bool) (xs : List A)
      → some_of q xs ≡ true
      → some_of (λ r. p r && q r) xs ≡ false
      → some_of q (reject p xs) ≡ true
  some_of_kept p q [] h k = cc
  some_of_kept p q (x ∷ xs) h k = ground (arith, some_of_kept p q xs)

  pub All-imp {κ μ} :
      {P : A → Type κ} {Q : A → Type μ}
      → ((a : A) → P a → Q a)
      → (xs : List A) → All P xs
      → All Q xs
  All-imp f [] a = tt
  All-imp f (x ∷ xs) a = (f x a.0, All-imp f xs a.1)

  pub All-both {κ μ ν} :
      {P : A → Type κ} {Q : A → Type μ} {R : A → Type ν}
      → ((a : A) → P a → Q a → R a)
      → (xs : List A) → All P xs
      → All Q xs
      → All R xs
  All-both f [] p q = tt
  All-both f (x ∷ xs) p q = (f x p.0 q.0, All-both f xs p.1 q.1)

  pub All-append {κ} : (P : A → Type κ) (xs ys : List A) → All P xs → All P ys → All P (xs ++ ys)
  All-append P [] ys a b = b
  All-append P (x ∷ xs) ys a b = (a.0, All-append P xs ys a.1 b)

  pub All-left {κ} : (P : A → Type κ) (xs ys : List A) → All P (xs ++ ys) → All P xs
  All-left P [] ys a = tt
  All-left P (x ∷ xs) ys a = (a.0, All-left P xs ys a.1)

  pub All-right {κ} : (P : A → Type κ) (xs ys : List A) → All P (xs ++ ys) → All P ys
  All-right P [] ys a = a
  All-right P (x ∷ xs) ys a = All-right P xs ys a.1

  pub All-reject {κ} :
      (P : A → Type κ) (p : A → Bool) (xs : List A) → All P xs → All P (reject p xs)
  All-reject P p [] a = tt
  All-reject P p (x ∷ xs) a = elim (Bool-cases (p x)) [
    | inl e ↦ rw e (All-reject P p xs a.1)
    | inr e ↦ rw e (a.0, All-reject P p xs a.1)
  ]

  -- What is left of a DELETE fails its test.
  pub All-reject_if {κ μ} :
      (P : A → Type κ) (Q : A → Type μ) (p : A → Bool) (xs : List A)
      → ((a : A) → p a ≡ false → P a → Q a)
      → All P xs
      → All Q (reject p xs)
  All-reject_if P Q p [] f a = tt
  All-reject_if P Q p (x ∷ xs) f a = elim (Bool-cases (p x)) [
    | inl e ↦ rw e (All-reject_if P Q p xs f a.1)
    | inr e ↦ rw e (f x e a.0, All-reject_if P Q p xs f a.1)
  ]

  pub All-update {κ} :
      (P : A → Type κ) (p : A → Bool) (f : A → A) (xs : List A)
      → ((a : A) → P a → P (f a))
      → All P xs
      → All P (update p f xs)
  All-update P p f [] k a = tt
  All-update P p f (x ∷ xs) k a = elim (Bool-cases (p x)) [
    | inl e ↦ rw e (k x a.0, All-update P p f xs k a.1)
    | inr e ↦ rw e (a.0, All-update P p f xs k a.1)
  ]

pub distinct-append :
    (xs : List FileRow) (r : FileRow)
    → distinct xs ≡ true
    → some_of (clash r) xs ≡ false
    → distinct (xs ++ r ∷ []) ≡ true
distinct-append [] r d c = refl
distinct-append (x ∷ xs) r d c =
    ground (arith, distinct-append xs r, some_of-append (clash x) xs (r ∷ []), clash_sym x r)

pub distinct-reject :
    (p : FileRow → Bool) (xs : List FileRow) → distinct xs ≡ true → distinct (reject p xs) ≡ true
distinct-reject p [] d = refl
distinct-reject p (x ∷ xs) d = ground (arith, distinct-reject p xs, some_of-reject p (clash x) xs)

-- A row that clashes with no other of its inode is alone with it.
clash-inode : (q r : FileRow) (i : ℕ) → clash q r ≡ false → q.inode ≡ i → at_inode i r ≡ false
unfolding clash
clash-inode q r i h e = ground arith

alone :
    (x : FileRow) (i : ℕ) (xs : List FileRow)
    → some_of (clash x) xs ≡ false
    → x.inode ≡ i
    → some_of (at_inode i) xs ≡ false
alone x i [] h e = refl
alone x i (y ∷ ys) h e = ground (arith, alone x i ys, clash-inode x y i)

update_none :
    (p : FileRow → Bool) (f : FileRow → FileRow) (xs : List FileRow)
    → some_of p xs ≡ false
    → update p f xs ≡ xs
update_none p f [] h = refl
update_none p f (x ∷ xs) h = ground (arith, update_none p f xs)

reject_none : (p : FileRow → Bool) (xs : List FileRow) → some_of p xs ≡ false → reject p xs ≡ xs
reject_none p [] h = refl
reject_none p (x ∷ xs) h = ground (arith, reject_none p xs)

-- The rows of inode `i`, changed, clash with none of the others.
abbrev fits : ℕ → (FileRow → FileRow) → List FileRow → List FileRow → Bool
fits i f others xs = not (some_of (λ r. at_inode i r && some_of (clash (f r)) others) xs)

fits_weaken :
    (i : ℕ) (f : FileRow → FileRow) (y : FileRow) (others xs : List FileRow)
    → fits i f (y ∷ others) xs ≡ true
    → fits i f others xs ≡ true
fits_weaken i f y others [] h = refl
fits_weaken i f y others (x ∷ xs) h = ground (arith, fits_weaken i f y others xs)

-- A row that stays is not in the way of a changed one.
fits_clear :
    (i : ℕ) (f : FileRow → FileRow) (y : FileRow) (others xs : List FileRow)
    → fits i f (y ∷ others) xs ≡ true
    → some_of (clash y) xs ≡ false
    → some_of (clash y) (update (at_inode i) f xs) ≡ false
fits_clear i f y others [] h c = refl
fits_clear i f y others (x ∷ xs) h c = ground (arith, fits_clear i f y others xs, clash_sym (f x) y)

pub distinct-update_keys :
    (i : ℕ) (f : FileRow → FileRow) (xs : List FileRow)
    → distinct xs ≡ true
    → fits i f (reject (at_inode i) xs) xs ≡ true
    → distinct (update (at_inode i) f xs) ≡ true
distinct-update_keys i f [] d h = refl
distinct-update_keys i f (x ∷ xs) d h = elim (Bool-cases (at_inode i x)) [
  | inl e ↦
      let only : some_of (at_inode i) xs ≡ false = alone x i xs (ground arith) (ground arith) in
      rw (e, update_none (at_inode i) f xs only) (ground (arith, reject_none (at_inode i) xs only))
  | inr e ↦ ground (
    arith,
    fits_weaken i f x (reject (at_inode i) xs) xs,
    fits_clear i f x (reject (at_inode i) xs) xs,
    distinct-update_keys i f xs,
  )
]
