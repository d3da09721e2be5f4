-- ===== src/Config/Parse.antt =====
-- What the parsers of crates/stratosync-core/src/config/mod.rs use of Rust's `str`, over the code
-- points of a text, and `parse_hhmm`.
use stratosync.Common.{
  ℕ, ◌+◌, ◌*◌, ◌-◌, ◌^◌, Bool, ◌&&◌, ◌||◌, Option, none, some, List, [], ◌∷◌, leb, ltb, ◌==◌,
  if◌then◌else◌,
}
use mathlib.Core.List.{reverse}

abbrev pub Text : Type 0
Text = List ℕ

abbrev pub is_digit : ℕ → Bool
is_digit c = leb b'0' c && leb c b'9'

-- `char::is_whitespace`.
abbrev pub is_whitespace : ℕ → Bool
is_whitespace c =
    (leb 9 c && leb c 13)
    || c == 32
    || c == 0x85
    || c == 0xa0
    || c == 0x1680
    || (leb 0x2000 c && leb c 0x200a)
    || c == 0x2028
    || c == 0x2029
    || c == 0x202f
    || c == 0x205f
    || c == 0x3000

abbrev pub trim_start : Text → Text
trim_start [] = []
trim_start (c ∷ s) = let rest = trim_start s in if is_whitespace c then rest else c ∷ s

abbrev pub trim : Text → Text
trim s = reverse (trim_start (reverse (trim_start s)))

abbrev split_on : ℕ → Text → Text → Option (Text × Text)
split_on sep before [] = none
split_on sep before (c ∷ s) =
    let rest = split_on sep (c ∷ before) s in if c == sep then some (reverse before, s) else rest

-- `str::split_once`.
abbrev pub split_once : ℕ → Text → Option (Text × Text)
split_once sep s = split_on sep [] s

abbrev digits : ℕ → Text → Option ℕ
digits n [] = some n
digits n (c ∷ s) =
    let rest = digits (n * 10 + (c - b'0')) s in
    if is_digit c && ltb (n * 10 + (c - b'0')) (2 ^ 32) then rest else none

abbrev digits_of : Text → Option ℕ
digits_of [] = none
digits_of (c ∷ s) = digits 0 (c ∷ s)

-- `str::parse::<u32>`: digits behind at most one `+`, and `none` on overflow.
abbrev pub parse_u32 : Text → Option ℕ
parse_u32 [] = none
parse_u32 (c ∷ s) = if c == b'+' then digits_of s else digits_of (c ∷ s)

infixl 5 ◌>>=◌
abbrev pub ◌>>=◌ {ℓ κ} : {A : Type ℓ} {B : Type κ} → Option A → (A → Option B) → Option B
none >>= f = none
some a >>= f = f a

abbrev pub in_range : ℕ → ℕ → Option ℕ
in_range h m = if leb 24 h then none else if leb 60 m then none else some (h * 60 + m)

unfoldable pub parse_hhmm : Text → Option ℕ
parse_hhmm s = split_once b':' s >>= λ (h, m).
    parse_u32 h >>= λ hour. parse_u32 m >>= λ minute. in_range hour minute
