-- ===== src/Config/Examples.antt =====
-- Witnesses and tests for durations and transfer windows: a night window, at noon.
use stratosync.Common.{ℕ, ◌<◌, ◌≤◌, ◌≡◌, ◌↔◌, refl, true, false, some, arith, [], ◌∷◌}
use stratosync.Config.Window.{
  TransferWindow, contains_minute, seconds_until_open, day, parse_transfer_window,
}
use stratosync.Config.Schedule.{
  IsWindow, minute_after, seconds_until_open-zero, seconds_until_open_first,
}
use stratosync.Config.Duration.{parse_duration, parse_duration_lem}
use stratosync.Config.RoundTrip.{show_window, parse_transfer_window-show_window}

-- 22:00 to 06:00
abbrev night : TransferWindow
night = record { start_min = 1320; end_min = 360 }

abbrev night-IsWindow : IsWindow night
night-IsWindow = record { start_lt = omega arith; end_lt = omega arith }

-- At noon the window opens in ten hours.
ten_hours : seconds_until_open night 720 0 ≡ 36000
unfolding seconds_until_open contains_minute
ten_hours = refl

seconds_until_open-zero_example :
    ((seconds_until_open night 720 0 ≡ 0) ↔ (contains_minute night 720 ≡ true))
    × (seconds_until_open night 720 0 ≤ day)
seconds_until_open-zero_example =
    seconds_until_open-zero night 720 0 night-IsWindow (omega arith) (omega arith)

seconds_until_open_first_example :
    (contains_minute night (minute_after 720 0 (seconds_until_open night 720 0)) ≡ true)
    × ((t : ℕ)
        → t < seconds_until_open night 720 0
        → contains_minute night (minute_after 720 0 t) ≡ false)
seconds_until_open_first_example =
    seconds_until_open_first night 720 0 night-IsWindow (omega arith) (omega arith)

parse_transfer_window-show_window_example : parse_transfer_window (show_window night) ≡ some night
parse_transfer_window-show_window_example = parse_transfer_window-show_window night night-IsWindow

-- 30 of each unit.
parse_duration_lem_example :
    (parse_duration (b'3' ∷ b'0' ∷ b'm' ∷ b's' ∷ []) ≡ some 30)
    × (parse_duration (b'3' ∷ b'0' ∷ b's' ∷ []) ≡ some 30000)
    × (parse_duration (b'3' ∷ b'0' ∷ b'm' ∷ []) ≡ some 1800000)
    × (parse_duration (b'3' ∷ b'0' ∷ b'h' ∷ []) ≡ some 108000000)
parse_duration_lem_example = parse_duration_lem b'3' (b'0' ∷ []) refl (omega arith)
