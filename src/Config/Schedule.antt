-- ===== src/Config/Schedule.antt =====
-- When a transfer window opens: `seconds_until_open` against the clock.
use stratosync.Common.{ℕ, ◌+◌, ◌*◌, ◌/◌, ◌%◌, ◌≤◌, ◌<◌, ◌≡◌, ◌↔◌, true, false, arith}
use stratosync.Config.Window.{TransferWindow, contains_minute, seconds_until_open, day}

-- Both ends are minutes of the day, as `parse_hhmm` gives them.
pub record IsWindow (w : TransferWindow) : Type 0 where
  pub start_lt : w.start_min < 1440
  pub end_lt : w.end_min < 1440

-- The minute of the day, `t` seconds after second `s` of minute `m`.
abbrev pub minute_after : ℕ → ℕ → ℕ → ℕ
minute_after m s t = (m * 60 + s + t) / 60 % 1440

module _ (w : TransferWindow) (m s : ℕ) (wf : IsWindow w) (m_lt : m < 1440) (s_lt : s < 60) where
  -- The wait is zero exactly while the window is open, and it is never longer than a day.
  pub seconds_until_open-zero :
      ((seconds_until_open w m s ≡ 0) ↔ (contains_minute w m ≡ true))
      × (seconds_until_open w m s ≤ day)
  unfolding seconds_until_open contains_minute
  seconds_until_open-zero = ground arith

  -- After the wait the window is open, and at no second before that was it open.
  pub seconds_until_open_first :
      (contains_minute w (minute_after m s (seconds_until_open w m s)) ≡ true)
      × ((t : ℕ) → t < seconds_until_open w m s → contains_minute w (minute_after m s t) ≡ false)
  unfolding seconds_until_open contains_minute
  seconds_until_open_first = (ground arith, λ t h. ground arith)
