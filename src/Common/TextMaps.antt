-- ===== src/Common/TextMaps.antt =====
-- Tests on texts, and maps keyed by texts as association lists with one entry for a key.
use Prim.Native.Nat.{ℕ, zero, suc}
use Prim.Native.Char.{nul}
use Prim.Native.String.{String, len, find, slice}
use text.Mathlib.Text.{◌==◌ as str_eq}
use mathlib.Core.Path.{◌≡◌, refl}
use mathlib.Core.Logic.{inl, inr}
use text.Mathlib.TextEquality.{eq_iff}
use mathlib.Core.Bool.{Bool, true, false}
use mathlib.Core.Option.{Option, none, some}
use mathlib.Core.List.{List, [], ◌∷◌}
use native.Mathlib.Omega.{arith}
use stratosync.Common.Tests.{leb, Bool-cases, str_eq_refl, if◌then◌else◌}

-- `contains`
unfoldable pub contains : String → String → Bool
contains s t = leb (find s t) (len s)

-- The text of one NUL.
abbrev pub nul_text : String
nul_text = String.◌∷◌ nul String.[]

-- The last of the first `n` positions that holds the character of `c`.
abbrev rfind_below : String → String → ℕ → Option ℕ
rfind_below s c zero = none
rfind_below s c (suc i) =
    let rest = rfind_below s c i in if str_eq (slice s i (suc i)) c then some i else rest

-- `rfind` of a character of one byte.
unfoldable pub rfind : String → String → Option ℕ
rfind s c = rfind_below s c (len s)

abbrev pub Texts : Type 0 → Type 0
Texts A = List (String × A)

module _ {A : Type 0} where
  abbrev pub lookup : String → Texts A → Option A
  lookup k [] = none
  lookup k ((j, a) ∷ m) = let rest = lookup k m in if str_eq j k then some a else rest

  abbrev pub erase : String → Texts A → Texts A
  erase k [] = []
  erase k ((j, a) ∷ m) = let rest = erase k m in if str_eq j k then rest else (j, a) ∷ rest

  abbrev pub store : String → A → Texts A → Texts A
  store k a m = (k, a) ∷ erase k m

-- A key that is kept apart from the one erased.
apart_keys : (i j k : String) → str_eq i k ≡ true → str_eq j k ≡ false → str_eq i j ≡ false
apart_keys i j k e h = elim (Bool-cases (str_eq i j)) [
  | inl f ↦ let same : i ≡ j = (eq_iff i j).0 f in cc
  | inr f ↦ f
]

module _ {A : Type 0} where
  pub lookup-erase :
      (k j : String) (m : Texts A) → str_eq j k ≡ false → lookup j (erase k m) ≡ lookup j m
  lookup-erase k j [] h = refl
  lookup-erase k j ((i, a) ∷ m) h = ground (arith, lookup-erase k j m h, apart_keys i j k)

  pub lookup-store : (k : String) (a : A) (m : Texts A) → lookup k (store k a m) ≡ some a
  lookup-store k a m = rw (str_eq_refl k)
