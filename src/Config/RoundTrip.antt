-- ===== src/Config/RoundTrip.antt =====
-- What `parse_transfer_window` accepts: windows within the day, and every window as it is written.
use stratosync.Common.{
  ℕ, zero, suc, ◌+◌, ◌/◌, ◌%◌, ◌≤◌, ◌<◌, ◌≡◌, refl, ◌++◌, Bool, true, false, Option, none, some, [],
  ◌∷◌, arith, ◌==◌, if◌then◌else◌,
}
use stratosync.Config.Parse.{
  Text, trim, split_once, parse_hhmm, is_whitespace, parse_u32, in_range, ◌>>=◌,
}
use stratosync.Config.Window.{TransferWindow, parse_transfer_window}
use stratosync.Config.Schedule.{IsWindow}

bind-eq-some {ℓ κ} :
    {A : Type ℓ} {B : Type κ} (m : Option A) (f : A → Option B) {b : B}
    → (m >>= f) ≡ some b
    → (a : A) × (m ≡ some a) × (f a ≡ some b)
bind-eq-some none f h = cc
bind-eq-some (some a) f h = (a, refl, h)

in_range_lt : (h m : ℕ) {n : ℕ} → in_range h m ≡ some n → n < 1440
in_range_lt h m e = ground arith

in_day : (s : Text) (n : ℕ) → parse_hhmm s ≡ some n → n < 1440
unfolding parse_hhmm
in_day s n h =
    let (p, e, h₁) = bind-eq-some (split_once b':' s) _ h in
    let (a, e₁, h₂) = bind-eq-some (parse_u32 p.0) _ h₁ in
    let (b, e₂, h₃) = bind-eq-some (parse_u32 p.1) _ h₂ in in_range_lt a b h₃

-- A parsed window lies within the day.
pub parse_transfer_window-IsWindow :
    (s : Text) (w : TransferWindow) → parse_transfer_window s ≡ some w → IsWindow w
unfolding parse_transfer_window
parse_transfer_window-IsWindow s w h =
    let (p, e, h₁) = bind-eq-some (split_once b'-' (trim s)) _ h in
    let (a, e₁, h₂) = bind-eq-some (parse_hhmm (trim p.0)) _ h₁ in
    let (b, e₂, h₃) = bind-eq-some (parse_hhmm (trim p.1)) _ h₂ in
    let la = in_day (trim p.0) a e₁ in let lb = in_day (trim p.1) b e₂ in ground arith

abbrev digit : ℕ → ℕ
digit n = n % 10 + b'0'

-- A minute of the day as `HH:MM`.
abbrev hhmm : ℕ → Text
hhmm n = digit (n / 60 / 10) ∷ digit (n / 60) ∷ b':' ∷ digit (n % 60 / 10) ∷ digit (n % 60) ∷ []

abbrev pub show_window : TransferWindow → Text
show_window w = hhmm w.start_min ++ b'-' ∷ hhmm w.end_min

-- A code of a decimal digit.
abbrev IsDigit : ℕ → Type 0
IsDigit c = (b'0' ≤ c) × (c ≤ b'9')

not_space : (c : ℕ) → IsDigit c → is_whitespace c ≡ false
not_space c h = ground arith

trim_clock :
    (a b c d : ℕ)
    → IsDigit a
    → IsDigit d
    → trim (a ∷ b ∷ b':' ∷ c ∷ d ∷ []) ≡ a ∷ b ∷ b':' ∷ c ∷ d ∷ []
trim_clock a b c d ha hd = simp (not_space a ha, not_space d hd)

trim_range :
    (a b c d e f g h : ℕ)
    → IsDigit a
    → IsDigit h
    → let s = a ∷ b ∷ b':' ∷ c ∷ d ∷ b'-' ∷ e ∷ f ∷ b':' ∷ g ∷ h ∷ [] in trim s ≡ s
trim_range a b c d e f g h ha hh = simp (not_space a ha, not_space h hh)

not_dash : (c : ℕ) → IsDigit c → (c == b'-') ≡ false
not_dash c h = ground arith

split_range :
    (a b c d : ℕ) (s : Text)
    → IsDigit a
    → IsDigit b
    → IsDigit c
    → IsDigit d
    → split_once b'-' (a ∷ b ∷ b':' ∷ c ∷ d ∷ b'-' ∷ s) ≡ some (a ∷ b ∷ b':' ∷ c ∷ d ∷ [], s)
split_range a b c d s ha hb hc hd =
    simp (not_dash a ha, not_dash b hb, not_dash c hc, not_dash d hd)

-- Whether minute `m` of the day is read back from its text.
reads_back : ℕ → Bool
unfolding parse_hhmm
reads_back m = elim (parse_hhmm (hhmm m)) [ none ↦ false | some r ↦ r == m ]

-- Whether each of the first `k` minutes is.
day_reads_back : ℕ → Bool
day_reads_back zero = true
day_reads_back (suc k) = let earlier = day_reads_back k in if reads_back k then earlier else false

whole_day : day_reads_back 1440 ≡ true
unfolding day_reads_back reads_back parse_hhmm
whole_day = refl

reads_back_within : (m k : ℕ) → m < k → day_reads_back k ≡ true → reads_back m ≡ true
unfolding day_reads_back
reads_back_within m zero lt h = absurd (omega arith)
reads_back_within m (suc k) lt h = ground (arith, reads_back_within m k)

read : (m : ℕ) (o : Option ℕ) → elim o [ none ↦ false | some r ↦ r == m ] ≡ true → o ≡ some m
read m none h = cc
read m (some r) h = ground arith

parse_hhmm-hhmm : (m : ℕ) → m < 1440 → parse_hhmm (hhmm m) ≡ some m
unfolding reads_back
parse_hhmm-hhmm m h = read m (parse_hhmm (hhmm m)) (reads_back_within m 1440 h whole_day)

digit-IsDigit : (n : ℕ) → IsDigit (digit n)
digit-IsDigit n = omega arith

-- Every window within the day is read back from its `HH:MM-HH:MM` text.
pub parse_transfer_window-show_window :
    (w : TransferWindow) → IsWindow w → parse_transfer_window (show_window w) ≡ some w
unfolding parse_transfer_window
parse_transfer_window-show_window w h =
    let dig = digit-IsDigit in
    rw (
      trim_range _ _ _ _ _ _ _ _ (dig (w.start_min / 60 / 10)) (dig (w.end_min % 60)),
      split_range _ _ _ _ (hhmm w.end_min) (dig (w.start_min / 60 / 10)) (dig (w.start_min / 60))
          (dig (w.start_min % 60 / 10)) (dig (w.start_min % 60)),
      trim_clock _ _ _ _ (dig (w.start_min / 60 / 10)) (dig (w.start_min % 60)),
      trim_clock _ _ _ _ (dig (w.end_min / 60 / 10)) (dig (w.end_min % 60)),
      parse_hhmm-hhmm w.start_min h.start_lt,
      parse_hhmm-hhmm w.end_min h.end_lt,
    )
