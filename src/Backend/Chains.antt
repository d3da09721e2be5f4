-- ===== src/Backend/Chains.antt =====
-- The path of a file of Google Drive, against the chains of its parents.
use stratosync.Common.{
  ℕ, zero, suc, ◌<◌, ◌≡◌, refl, ap, sym, ◌∙◌, ◌↔◌, arith, String, true, false, Option, none, some,
  List, [], ◌∷◌, ◌++◌, str_eq, lookup, Bool-cases, inl, inr,
}
use mathlib.Core.List.{append_assoc}
use stratosync.Backend.Parents.{Entry, IdMap, join, step_up, climb, resolve_path}

module _ (root : String) (ids : IdMap) where
  -- A chain of first parents from an id up to the root, and the names on the way down.
  pub data Under : ℕ → String → List String → Type 0 where
    at_root : {id : String} → str_eq id root ≡ true → Under zero id []
    within :
        {n : ℕ} {id parent name : String} {more names : List String}
        → str_eq id root ≡ false
        → lookup id ids ≡ some (name, parent ∷ more)
        → Under n parent names
        → Under (suc n) id (names ++ name ∷ [])

  abbrev pub IsUnder : ℕ → String → List String → String → Type 0
  IsUnder bound id components path =
      (n : ℕ) × (n < bound)
      × (names : List String) × Under n id names
      × (path ≡ join (names ++ components))

  stepped :
      (left : ℕ) (id : String) (cs : List String) (path : String) (entry : Option Entry)
      → str_eq id root ≡ false
      → lookup id ids ≡ entry
      → ((name g : String)
          → climb root ids left g (name ∷ cs) ≡ some path
          → IsUnder left g (name ∷ cs) path)
      → step_up entry (λ name g. climb root ids left g (name ∷ cs)) ≡ some path
      → IsUnder (suc left) id cs path
  stepped left id cs path none apart k ih e = cc
  stepped left id cs path (some (name, [])) apart k ih e = cc
  stepped left id cs path (some (name, g ∷ gs)) apart k ih e =
      let (n, short, names, chain, same) = ih name g e in
      (
        suc n,
        omega arith,
        names ++ name ∷ [],
        within apart k chain,
        same ∙ ap join (sym (append_assoc names (name ∷ []) cs)),
      )

  climb-IsUnder :
      (left : ℕ) (id : String) (cs : List String) (path : String)
      → climb root ids left id cs ≡ some path
      → IsUnder left id cs path
  unfolding climb
  climb-IsUnder zero id cs path e = cc
  climb-IsUnder (suc left) id cs path e = elim (Bool-cases (str_eq id root)) [
    | inl r ↦ (0, omega arith, [], at_root r, ground arith)
    | inr r ↦
        stepped left id cs path (lookup id ids) r refl
          (λ name g. climb-IsUnder left g (name ∷ cs) path) (ground arith)
  ]

  climb-Under :
      {n : ℕ} {id : String} {names : List String}
      → Under n id names
      → (left : ℕ) (cs : List String) → n < left
      → climb root ids left id cs ≡ some (join (names ++ cs))
  unfolding climb
  climb-Under (at_root r) zero cs short = absurd (omega arith)
  climb-Under (at_root r) (suc left) cs short = rw r
  climb-Under (within apart k chain) zero cs short = absurd (omega arith)
  climb-Under (within {name = name} {names = names} apart k chain) (suc left) cs short = rw (
    apart,
    k,
    climb-Under chain left (name ∷ cs) (omega arith),
    append_assoc names (name ∷ []) cs,
  )

-- A file of Google Drive has the path that `resolve_path` gives exactly if fewer than a hundred steps lead
-- from its first parent to the root, each from an id of the map, other than the root, to the first
-- of its parents: the names on the way down, and its own, make the path. A file that has no parent has
-- no path.
pub resolve_path_iff :
    (root : String) (ids : IdMap) (name p : String) (ps : List String) (path : String)
    → ((resolve_path root ids name (p ∷ ps) ≡ some path) ↔ IsUnder root ids 100 p (name ∷ []) path)
      × (resolve_path root ids name [] ≡ none)
unfolding resolve_path
resolve_path_iff root ids name p ps path = (
  (
    climb-IsUnder root ids 100 p (name ∷ []) path,
    λ (n, short, names, chain, same).
        climb-Under root ids chain 100 (name ∷ []) short ∙ ap some (sym same),
  ),
  refl,
)
