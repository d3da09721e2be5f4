-- ===== src/Poller/Run.antt =====
-- `RemotePoller::run` and `update_state`: a turn of the loop after its poll. Durations are whole
-- seconds, as `parse_duration` gives them but for its unit `ms`.
use stratosync.Common.{
  ℕ, ◌+◌, ◌*◌, min, String, Bool, Option, none, some, List, [], ◌∷◌, ltb, leb, if◌then◌else◌,
}
use stratosync.Sync.World.{Outcome, done, fault, Fault}

-- `PollerStatus`
pub record PollerStatus : Type 0 where
  pub mode : String
  pub last_poll_unix : Option ℕ
  pub next_poll_unix : Option ℕ
  pub consecutive_failures : ℕ
  pub current_interval_secs : ℕ
  pub last_error : Option String

-- The variables of the loop.
pub record Runner : Type 0 where
  pub current_interval : ℕ
  pub failures : ℕ
  pub state : PollerStatus

unfoldable pub start : Bool → ℕ → Runner
start use_delta poll_interval = record {
  current_interval = poll_interval;
  failures = 0;
  state = record {
    mode = if use_delta then "delta" else "full-listing";
    last_poll_unix = none;
    next_poll_unix = none;
    consecutive_failures = 0;
    current_interval_secs = poll_interval;
    last_error = none;
  };
}

unfoldable pub update_state : ℕ → Option String → ℕ → ℕ → PollerStatus → PollerStatus
update_state now error interval failures s = record s {
  last_poll_unix = some now;
  next_poll_unix = some (now + interval);
  consecutive_failures = failures;
  current_interval_secs = interval;
  last_error = error;
}

-- The text of an error is the parameter `show`.
module _ (show : Fault → String) (base : ℕ) where
  abbrev on_success : ℕ → Runner → Runner
  on_success now r =
      let current = if ltb 0 r.failures then base else r.current_interval in
      record {
        current_interval = current;
        failures = 0;
        state = update_state now none current 0 r.state;
      }

  abbrev on_failure : ℕ → Fault → Runner → Runner
  on_failure now e r =
      let failures = r.failures + 1 in
      let current =
        if leb 10 failures
        then r.current_interval
        else if leb 3 failures
        then min (r.current_interval * 2) 600
        else r.current_interval in
      record {
        current_interval = current;
        failures = failures;
        state = update_state now (some (show e)) current failures r.state;
      }

  unfoldable pub after_poll : ℕ → Outcome (Unit {0}) → Runner → Runner
  after_poll now (done a) r = on_success now r
  after_poll now (fault e) r = on_failure now e r

  -- Polls one after the other, each with the time of its end.
  abbrev pub run : List (ℕ × Outcome (Unit {0})) → Runner → Runner
  run [] r = r
  run ((now, o) ∷ os) r = run os (after_poll now o r)
