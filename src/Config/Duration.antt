-- ===== src/Config/Duration.antt =====
-- `parse_duration` of crates/stratosync-core/src/config/mod.rs. A duration is its number of
-- milliseconds. Minutes and hours are multiplied at 64 bits with the wrap-around of a release build.
use stratosync.Common.{
  ℕ, ◌+◌, ◌*◌, ◌-◌, ◌^◌, ◌%◌, ◌≤◌, ◌<◌, ◌≡◌, refl, ◌++◌, Bool, true, false, ◌&&◌, Option, none,
  some, [], ◌∷◌, ltb, ◌==◌, if◌then◌else◌, arith, sym, ◌∙◌, ap,
}
use mathlib.Core.List.{reverse, reverse_aux, reverse-append, reverse-reverse}
use stratosync.Config.Parse.{Text, trim, is_digit, is_whitespace, ◌>>=◌}

abbrev digits_u64 : ℕ → Text → Option ℕ
digits_u64 n [] = some n
digits_u64 n (c ∷ s) =
    let rest = digits_u64 (n * 10 + (c - b'0')) s in
    if is_digit c && ltb (n * 10 + (c - b'0')) (2 ^ 64) then rest else none

abbrev some_digits : Text → Option ℕ
some_digits [] = none
some_digits (c ∷ s) = digits_u64 0 (c ∷ s)

-- `str::parse::<u64>`: digits behind at most one `+`, and `none` on overflow.
abbrev parse_u64 : Text → Option ℕ
parse_u64 [] = none
parse_u64 (c ∷ s) = if c == b'+' then some_digits s else some_digits (c ∷ s)

abbrev strip_prefix : Text → Text → Option Text
strip_prefix [] s = some s
strip_prefix (p ∷ ps) [] = none
strip_prefix (p ∷ ps) (c ∷ s) = let rest = strip_prefix ps s in if c == p then rest else none

-- `str::strip_suffix`.
abbrev strip_suffix : Text → Text → Option Text
strip_suffix suffix s = strip_prefix (reverse suffix) (reverse s) >>= λ r. some (reverse r)

abbrev from_secs : ℕ → ℕ
from_secs n = n * 1000

-- The trimmed text, with its unit.
unfoldable pub with_unit : Text → Option ℕ
with_unit s = elim (strip_suffix (b'm' ∷ b's' ∷ []) s) [
  | some n ↦ parse_u64 (trim n)
  | none ↦ elim (strip_suffix (b's' ∷ []) s) [
    | some n ↦ parse_u64 (trim n) >>= λ k. some (from_secs k)
    | none ↦ elim (strip_suffix (b'm' ∷ []) s) [
      | some n ↦ parse_u64 (trim n) >>= λ k. some (from_secs (k * 60 % 2 ^ 64))
      | none ↦ elim (strip_suffix (b'h' ∷ []) s) [
        | some n ↦ parse_u64 (trim n) >>= λ k. some (from_secs (k * 3600 % 2 ^ 64))
        | none ↦ parse_u64 s >>= λ k. some (from_secs k)
      ]
    ]
  ]
]

unfoldable pub parse_duration : Text → Option ℕ
parse_duration s = with_unit (trim s)

-- A number and its reading, digit by digit.
abbrev pub all_digits : Text → Bool
all_digits [] = true
all_digits (c ∷ s) = is_digit c && all_digits s

abbrev pub value : ℕ → Text → ℕ
value n [] = n
value n (c ∷ s) = value (n * 10 + (c - b'0')) s

value_ge : (n : ℕ) (s : Text) → n ≤ value n s
value_ge n [] = omega arith
value_ge n (c ∷ s) = let later = value_ge (n * 10 + (c - b'0')) s in omega arith

digits_u64-value :
    (n : ℕ) (s : Text)
    → all_digits s ≡ true
    → value n s < 2 ^ 64
    → digits_u64 n s ≡ some (value n s)
digits_u64-value n [] h lt = refl
digits_u64-value n (c ∷ s) h lt =
    let later = value_ge (n * 10 + (c - b'0')) s in
    ground (arith, digits_u64-value (n * 10 + (c - b'0')) s)

parse_u64-value :
    (c : ℕ) (s : Text)
    → all_digits (c ∷ s) ≡ true
    → value 0 (c ∷ s) < 2 ^ 64
    → parse_u64 (c ∷ s) ≡ some (value 0 (c ∷ s))
parse_u64-value c s h lt =
    let no_plus : (c == b'+') ≡ false = ground arith in rw no_plus (digits_u64-value 0 (c ∷ s) h lt)

not_blank : (c : ℕ) → is_digit c ≡ true → is_whitespace c ≡ false
not_blank c h = ground arith

trim_same :
    (c e : ℕ) (s r : Text)
    → is_whitespace c ≡ false
    → is_whitespace e ≡ false
    → reverse (c ∷ s) ≡ e ∷ r
    → trim (c ∷ s) ≡ c ∷ s
trim_same c e s r hc he h = rw (hc, h, he, sym h, reverse-reverse (c ∷ s))

ends_in_digit :
    (e : ℕ) (r s : Text)
    → is_digit e ≡ true
    → all_digits s ≡ true
    → (d : ℕ) × (t : Text) × (reverse_aux s (e ∷ r) ≡ d ∷ t) × (is_digit d ≡ true)
ends_in_digit e r [] he h = (e, r, refl, he)
ends_in_digit e r (c ∷ s) he h =
    let hc : is_digit c ≡ true = ground arith in
    let hs : all_digits s ≡ true = ground arith in ends_in_digit c (e ∷ r) s hc hs

strip_last : (u : ℕ) (t : Text) → strip_suffix (u ∷ []) (t ++ u ∷ []) ≡ some t
strip_last u t =
    let same : (u == u) ≡ true = ground arith in
    rw (reverse-append t (u ∷ []), same, reverse-reverse t)

strip_other :
    (u v : ℕ) (us t : Text)
    → (v == u) ≡ false
    → (p : Text) → reverse us ≡ u ∷ p
    → strip_suffix us (t ++ v ∷ []) ≡ none
strip_other u v us t apart p h = rw (reverse-append t (v ∷ []), h, apart)

module _ (c : ℕ) (s : Text) (digits : all_digits (c ∷ s) ≡ true) where
  first : is_digit c ≡ true
  first = ground arith

  trim_number : trim (c ∷ s) ≡ c ∷ s
  trim_number =
      let more : all_digits s ≡ true = ground arith in
      let (e, r, h, he) = ends_in_digit c [] s first more in
      trim_same c e s r (not_blank c first) (not_blank e he) h

  trim_unit :
      (u : Text) (e : ℕ) (p : Text)
      → reverse u ≡ e ∷ p
      → is_whitespace e ≡ false
      → trim (c ∷ s ++ u) ≡ c ∷ s ++ u
  trim_unit u e p h he =
      trim_same c e (s ++ u) (p ++ reverse (c ∷ s)) (not_blank c first) he
        (rw (reverse-append (c ∷ s) u, h))

  not_milliseconds : strip_suffix (b'm' ∷ b's' ∷ []) (c ∷ s ++ b's' ∷ []) ≡ none
  not_milliseconds =
      let more : all_digits s ≡ true = ground arith in
      let (e, r, h, he) = ends_in_digit c [] s first more in
      let apart : (e == b'm') ≡ false = ground arith in
      rw (reverse-append (c ∷ s) (b's' ∷ []), h, apart)

  milliseconds : strip_suffix (b'm' ∷ b's' ∷ []) (c ∷ s ++ b'm' ∷ b's' ∷ []) ≡ some (c ∷ s)
  milliseconds = rw (reverse-append (c ∷ s) (b'm' ∷ b's' ∷ []), reverse-reverse (c ∷ s))

  module _ (small : value 0 (c ∷ s) < 2 ^ 64) where
    in_milliseconds : parse_duration (c ∷ s ++ b'm' ∷ b's' ∷ []) ≡ some (value 0 (c ∷ s))
    unfolding parse_duration with_unit
    in_milliseconds =
        ap with_unit (trim_unit (b'm' ∷ b's' ∷ []) b's' (b'm' ∷ []) refl refl)
        ∙ rw (with_unit, milliseconds, trim_number, parse_u64-value c s digits small)

    in_seconds : parse_duration (c ∷ s ++ b's' ∷ []) ≡ some (value 0 (c ∷ s) * 1000)
    unfolding parse_duration with_unit
    in_seconds =
        ap with_unit (trim_unit (b's' ∷ []) b's' [] refl refl)
        ∙ rw (
          with_unit,
          not_milliseconds,
          strip_last b's' (c ∷ s),
          trim_number,
          parse_u64-value c s digits small,
        )

    in_minutes : parse_duration (c ∷ s ++ b'm' ∷ []) ≡ some (value 0 (c ∷ s) * 60 % 2 ^ 64 * 1000)
    unfolding parse_duration with_unit
    in_minutes =
        ap with_unit (trim_unit (b'm' ∷ []) b'm' [] refl refl)
        ∙ rw (
          with_unit,
          strip_other b's' b'm' (b'm' ∷ b's' ∷ []) (c ∷ s) refl (b'm' ∷ []) refl,
          strip_other b's' b'm' (b's' ∷ []) (c ∷ s) refl [] refl,
          strip_last b'm' (c ∷ s),
          trim_number,
          parse_u64-value c s digits small,
        )

    in_hours : parse_duration (c ∷ s ++ b'h' ∷ []) ≡ some (value 0 (c ∷ s) * 3600 % 2 ^ 64 * 1000)
    unfolding parse_duration with_unit
    in_hours =
        ap with_unit (trim_unit (b'h' ∷ []) b'h' [] refl refl)
        ∙ rw (
          with_unit,
          strip_other b's' b'h' (b'm' ∷ b's' ∷ []) (c ∷ s) refl (b'm' ∷ []) refl,
          strip_other b's' b'h' (b's' ∷ []) (c ∷ s) refl [] refl,
          strip_other b'm' b'h' (b'm' ∷ []) (c ∷ s) refl [] refl,
          strip_last b'h' (c ∷ s),
          trim_number,
          parse_u64-value c s digits small,
        )

-- A decimal number below 2^64, written with a unit, is read as that many milliseconds (ms), seconds (s),
-- minutes (m) or hours (h); the seconds in the minutes and the hours wrap around at 2^64.
pub parse_duration_lem :
    (c : ℕ) (s : Text)
    → all_digits (c ∷ s) ≡ true
    → value 0 (c ∷ s) < 2 ^ 64
    → (parse_duration (c ∷ s ++ b'm' ∷ b's' ∷ []) ≡ some (value 0 (c ∷ s)))
      × (parse_duration (c ∷ s ++ b's' ∷ []) ≡ some (value 0 (c ∷ s) * 1000))
      × (parse_duration (c ∷ s ++ b'm' ∷ []) ≡ some (value 0 (c ∷ s) * 60 % 2 ^ 64 * 1000))
      × (parse_duration (c ∷ s ++ b'h' ∷ []) ≡ some (value 0 (c ∷ s) * 3600 % 2 ^ 64 * 1000))
parse_duration_lem c s digits small = (
  in_milliseconds c s digits small,
  in_seconds c s digits small,
  in_minutes c s digits small,
  in_hours c s digits small,
)
