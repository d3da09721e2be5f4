-- ===== src/State/Counts.antt =====
-- Counting, sorting and dropping: what these leave of lists.
use stratosync.Common.{
  ℕ, zero, suc, ◌+◌, ◌≤◌, ◌≡◌, ◌==◌, ◌&&◌, ◌∙◌, refl, ap, Bool, false, not, List, [], ◌∷◌, arith,
  select, reject, count, length, drop, some_of, All, Bool-cases, inl, inr,
}
use stratosync.State.Cache.{insert_by, sort_by}

pub count_none : {A : Type 0} (p : A → Bool) (xs : List A) → (count p xs == 0) ≡ not (some_of p xs)
count_none p [] = refl
count_none p (x ∷ xs) = ground (arith, count_none p xs)

module _ {A : Type 0} (P : A → Type 0) where
  pub All-drop : (n : ℕ) (xs : List A) → All P xs → All P (drop n xs)
  All-drop zero xs h = h
  All-drop (suc n) [] h = tt
  All-drop (suc n) (x ∷ xs) h = All-drop n xs h.1

  pub All-select : (q : A → Bool) (xs : List A) → All P xs → All P (select q xs)
  All-select q [] h = tt
  All-select q (x ∷ xs) h = elim (Bool-cases (q x)) [
    | inl e ↦ rw e (h.0, All-select q xs h.1)
    | inr e ↦ rw e (All-select q xs h.1)
  ]

module _ {A : Type 0} (p : A → Bool) where
  pub count-insert_by :
      (before : A → A → Bool) (a : A) (xs : List A)
      → count p (insert_by before a xs) ≡ count p (a ∷ xs)
  unfolding insert_by
  count-insert_by before a [] = refl
  count-insert_by before a (x ∷ xs) = ground (arith, count-insert_by before a xs)

  pub count-sort_by :
      (before : A → A → Bool) (xs : List A) → count p (sort_by before xs) ≡ count p xs
  unfolding sort_by
  count-sort_by before [] = refl
  count-sort_by before (x ∷ xs) =
      ground (arith, count-insert_by before x (sort_by before xs), count-sort_by before xs)

  pub count-select :
      (q : A → Bool) (xs : List A) → count p (select q xs) ≡ count (λ x. q x && p x) xs
  count-select q [] = refl
  count-select q (x ∷ xs) = ground (arith, count-select q xs)

  pub count-reject :
      (q : A → Bool) (xs : List A) → count p (reject q xs) ≡ count (λ x. p x && not (q x)) xs
  count-reject q [] = refl
  count-reject q (x ∷ xs) = ground (arith, count-reject q xs)

  pub count-drop : (n : ℕ) (xs : List A) → count p xs ≤ n + count p (drop n xs)
  count-drop zero xs = omega arith
  count-drop (suc n) [] = omega arith
  count-drop (suc n) (x ∷ xs) = ground (arith, count-drop n xs)

module _ {A : Type 0} where
  pub length-insert_by :
      (before : A → A → Bool) (a : A) (xs : List A)
      → length (insert_by before a xs) ≡ suc (length xs)
  unfolding insert_by
  length-insert_by before a [] = refl
  length-insert_by before a (x ∷ xs) = ground (arith, length-insert_by before a xs)

  pub length-sort_by :
      (before : A → A → Bool) (xs : List A) → length (sort_by before xs) ≡ length xs
  unfolding sort_by
  length-sort_by before [] = refl
  length-sort_by before (x ∷ xs) =
      length-insert_by before x (sort_by before xs) ∙ ap suc (length-sort_by before xs)

  pub drop_all : (n : ℕ) (xs : List A) → length xs ≤ n → drop n xs ≡ []
  drop_all zero [] h = refl
  drop_all zero (x ∷ xs) h = absurd (omega arith)
  drop_all (suc n) [] h = refl
  drop_all (suc n) (x ∷ xs) h = drop_all n xs (omega arith)

  pub reject_none : (xs : List A) → reject (λ x. false) xs ≡ xs
  reject_none [] = refl
  reject_none (x ∷ xs) = ap (λ ys. x ∷ ys) (reject_none xs)
