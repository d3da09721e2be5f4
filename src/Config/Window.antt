-- ===== src/Config/Window.antt =====
-- `TransferWindow`, `TransferDirection`, `parse_transfer_window` and the resolution of the two
-- configuration forms in `parse_window`, of crates/stratosync-core/src/config/mod.rs. Times are
-- minutes since midnight; an error is `none`, its text is left out.
use stratosync.Common.{
  ℕ, ◌+◌, ◌*◌, ◌-◌, ◌%◌, ◌^◌, Bool, true, false, ◌&&◌, ◌||◌, Option, none, some, [], ◌∷◌, leb, ltb,
  ◌==◌, if◌then◌else◌,
}
use stratosync.Config.Parse.{Text, trim, split_once, parse_hhmm, ◌>>=◌}

pub record TransferWindow : Type 0 where
  pub start_min : ℕ
  pub end_min : ℕ

unfoldable pub contains_minute : TransferWindow → ℕ → Bool
contains_minute w m =
    if w.start_min == w.end_min
    then true
    else if ltb w.start_min w.end_min
    then leb w.start_min m && ltb m w.end_min
    else leb w.start_min m || ltb m w.end_min

abbrev pub day : ℕ
day = 86400

-- A difference of two `i64` below 2^63, cast to `u64`.
abbrev sub_u64 : ℕ → ℕ → ℕ
sub_u64 a b = (a + 2 ^ 64 - b) % 2 ^ 64

unfoldable pub seconds_until_open : TransferWindow → ℕ → ℕ → ℕ
seconds_until_open w now_min now_sec =
    let now_total = now_min * 60 + now_sec in
    let start_total = w.start_min * 60 in
    if contains_minute w now_min
    then 0
    else if leb start_total now_total
    then sub_u64 (start_total + day) now_total
    else sub_u64 start_total now_total

pub data TransferDirection : Type 0 where
  upload download both : TransferDirection

abbrev includes_upload : TransferDirection → Bool
includes_upload upload = true
includes_upload download = false
includes_upload both = true

abbrev includes_download : TransferDirection → Bool
includes_download upload = false
includes_download download = true
includes_download both = true

unfoldable pub parse_transfer_window : Text → Option TransferWindow
parse_transfer_window s = split_once b'-' (trim s) >>= λ (start, end).
    parse_hhmm (trim start) >>= λ start_min.
    parse_hhmm (trim end) >>= λ end_min. some (record { start_min = start_min; end_min = end_min })

-- `.filter(|s| !s.is_empty())`
abbrev nonempty : Option Text → Option Text
nonempty none = none
nonempty (some []) = none
nonempty (some (c ∷ s)) = some (c ∷ s)

-- `Ok(None)`, `Ok(Some(…))`, and an error.
pub data Resolved : Type 0 where
  unset : Resolved
  window : TransferWindow → TransferDirection → Resolved
  invalid : Resolved

abbrev resolve : Option Text → Option Text → TransferDirection → Resolved
resolve none none d = unset
resolve (some s) none d = elim (parse_transfer_window s) [
  | none ↦ invalid
  | some w ↦ window w upload
]
resolve none (some s) d = elim (parse_transfer_window s) [ none ↦ invalid | some w ↦ window w d ]
resolve (some s) (some t) d = invalid

-- `MountConfig::parse_window`: `upload_window`, `transfer_window`, `transfer_window_direction`.
unfoldable parse_window : Option Text → Option Text → TransferDirection → Resolved
parse_window upload_window transfer_window direction =
    resolve (nonempty upload_window) (nonempty transfer_window) direction
