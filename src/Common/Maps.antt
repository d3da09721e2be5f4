-- ===== src/Common/Maps.antt =====
-- Maps keyed by numbers, as association lists with one entry for a key.
use Prim.Native.Nat.{ℕ}
use mathlib.Core.Path.{◌≡◌, refl}
use mathlib.Core.Bool.{false}
use mathlib.Core.List.{List, [], ◌∷◌}
use mathlib.Core.Option.{Option, none, some}
use native.Mathlib.Omega.{arith}
use stratosync.Common.Tests.{◌==◌, if◌then◌else◌}

abbrev pub Map : Type 0 → Type 0
Map A = List (ℕ × A)

module _ {A : Type 0} where
  abbrev pub get : ℕ → Map A → Option A
  get k [] = none
  get k ((j, a) ∷ m) = let rest = get k m in if j == k then some a else rest

  abbrev pub remove : ℕ → Map A → Map A
  remove k [] = []
  remove k ((j, a) ∷ m) = let rest = remove k m in if j == k then rest else (j, a) ∷ rest

  abbrev pub put : ℕ → A → Map A → Map A
  put k a m = (k, a) ∷ remove k m

  pub get-remove : (k j : ℕ) (m : Map A) → (j == k) ≡ false → get j (remove k m) ≡ get j m
  get-remove k j [] h = refl
  get-remove k j ((i, a) ∷ m) h = ground (arith, get-remove k j m)

  pub get-remove_same : (k : ℕ) (m : Map A) → get k (remove k m) ≡ none
  get-remove_same k [] = refl
  get-remove_same k ((i, a) ∷ m) = ground (arith, get-remove_same k m)

  pub get-put : (k : ℕ) (a : A) (m : Map A) → get k (put k a m) ≡ some a
  get-put k a m = ground arith

  pub get-put_other : (k j : ℕ) (a : A) (m : Map A) → (j == k) ≡ false → get j (put k a m) ≡ get j m
  get-put_other k j a m h = ground (arith, get-remove k j m)
