-- ===== src/State/Sorted.antt =====
-- Sorting rows: `sort_by` keeps the rows and puts a least one first.
use stratosync.Common.{
  ◌≡◌, ◌≢◌, refl, sym, Bool, true, false, List, [], ◌∷◌, arith, some_of, All, Bool-cases, inl, inr,
  subst,
}
use stratosync.State.Cache.{insert_by, sort_by}
use stratosync.State.Rows.{All-imp}

-- A row of the list: what it passes, some row of the list passes.
abbrev pub IsMember {ℓ} : {A : Type ℓ} → List A → A → Type ℓ
IsMember {A = A} xs x = (q : A → Bool) → q x ≡ true → some_of q xs ≡ true

pub members {ℓ} : {A : Type ℓ} (xs : List A) → All (IsMember xs) xs
members [] = tt
members (x ∷ xs) = ((λ q e. ground arith), All-imp (λ y h q e. ground (arith, h q)) xs (members xs))

module _ {ℓ} {A : Type ℓ} (before : A → A → Bool) (P : A → Type 0) where
  insert_by-All : (a : A) (xs : List A) → P a → All P xs → All P (insert_by before a xs)
  unfolding insert_by
  insert_by-All a [] p h = (p, tt)
  insert_by-All a (x ∷ xs) p h = elim (Bool-cases (before a x)) [
    | inl e ↦ rw e (p, h)
    | inr e ↦ rw e (h.0, insert_by-All a xs p h.1)
  ]

  pub sort_by-All : (xs : List A) → All P xs → All P (sort_by before xs)
  unfolding sort_by
  sort_by-All [] h = tt
  sort_by-All (x ∷ xs) h = insert_by-All x _ h.0 (sort_by-All xs h.1)

module _ {ℓ} {A : Type ℓ} (before : A → A → Bool) where
  pub sort_by-empty : (xs : List A) → sort_by before xs ≡ [] → xs ≡ []
  unfolding sort_by insert_by
  sort_by-empty [] e = refl
  sort_by-empty (x ∷ xs) e = absurd (insert_some x (sort_by before xs) e)
    where
      insert_some : (a : A) (bs : List A) → insert_by before a bs ≢ []
      insert_some a [] h = cc
      insert_some a (b ∷ bs) h = ground arith

  module _ (total : (a b : A) → before a b ≡ false → before b a ≡ true)
      (trans : (a b c : A) → before a b ≡ true → before b c ≡ true → before a c ≡ true) where
    reflexive : (a : A) → before a a ≡ true
    reflexive a = elim (Bool-cases (before a a)) [ inl e ↦ e | inr e ↦ total a a e ]

    All-after :
        (a b : A) (xs : List A)
        → before a b ≡ true
        → All (λ x. before b x ≡ true) xs
        → All (λ x. before a x ≡ true) xs
    All-after a b xs e = All-imp (λ x h. trans a b x e h) xs

    insert_least :
        (x : A) (zs : List A) (y : A) (ys xs : List A)
        → (zs ≡ [] → xs ≡ [])
        → ((z : A) (zs' : List A) → zs ≡ z ∷ zs' → All (λ a. before z a ≡ true) xs)
        → insert_by before x zs ≡ y ∷ ys
        → All (λ a. before y a ≡ true) (x ∷ xs)
    unfolding insert_by
    insert_least x [] y ys xs void least h =
        let e : x ≡ y = cc in rw (void refl, sym e) (reflexive x, tt)
    insert_least x (z ∷ zs) y ys xs void least h = elim (Bool-cases (before x z)) [
      | inl e ↦
          let same : x ≡ y = ground arith in
          subst (λ v. All (λ a. before v a ≡ true) (x ∷ xs)) same
            (reflexive x, All-after x z xs e (least z zs refl))
      | inr e ↦
          let same : z ≡ y = ground arith in
          subst (λ v. All (λ a. before v a ≡ true) (x ∷ xs)) same (total x z e, least z zs refl)
    ]

    -- The first row of a sorted list comes before every row.
    pub sort_by-least :
        (xs : List A) (y : A) (ys : List A)
        → sort_by before xs ≡ y ∷ ys
        → All (λ x. before y x ≡ true) xs
    unfolding sort_by
    sort_by-least [] y ys e = tt
    sort_by-least (x ∷ xs) y ys e =
        insert_least x (sort_by before xs) y ys xs (sort_by-empty xs) (sort_by-least xs) e
