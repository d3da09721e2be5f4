-- ===== src/Poller/Intervals.antt =====
-- The wait between polls as a function of how many polls in a row have failed.
use stratosync.Common.{
  ℕ, zero, suc, ◌+◌, ◌*◌, ◌-◌, ◌≤◌, min, max, String, Bool, ◌≡◌, refl, sym, ◌∙◌, List, [], ◌∷◌,
  arith, ltb, leb, if◌then◌else◌, Bool-cases, inl, inr,
}
use stratosync.Sync.World.{Outcome, done, fault, Fault}
use stratosync.Poller.Run.{Runner, start, update_state, after_poll, run}

-- The failures in a row at the end of a list of polls, after `k` before it.
abbrev pub streak : ℕ → List (ℕ × Outcome (Unit {0})) → ℕ
streak k [] = k
streak k ((now, done a) ∷ os) = streak 0 os
streak k ((now, fault e) ∷ os) = streak (suc k) os

abbrev doubled : ℕ → ℕ → ℕ
doubled zero base = base
doubled (suc n) base = doubled n base * 2

-- Twice the wait for each failure from the third to the ninth, but ten minutes from then on if
-- that is less.
abbrev pub wait : ℕ → ℕ → ℕ
wait base k =
    if leb k 2
    then base
    else if leb 9 k
    then min (doubled 7 base) 600
    else min (doubled (k - 2) base) 600

-- The wait after one failure more.
abbrev longer : ℕ → ℕ → ℕ
longer k current =
    if leb 10 (k + 1) then current else if leb 3 (k + 1) then min (current * 2) 600 else current

capped : (x : ℕ) → min (min x 600 * 2) 600 ≡ min (x * 2) 600
capped x = omega arith

wait-suc : (base k : ℕ) → longer k (wait base k) ≡ wait base (suc k)
wait-suc base zero = refl
wait-suc base (suc zero) = refl
wait-suc base (suc (suc zero)) = refl
wait-suc base (suc (suc (suc j))) = elim (Bool-cases (leb 6 j)) [
  | inl e ↦ ground arith
  | inr e ↦ elim (Bool-cases (leb 5 j)) [
    | inl f ↦ let five : j ≡ 5 = ground arith in rw five (capped _)
    | inr f ↦ ground (arith, capped (doubled (suc j) base))
  ]
]

record IsPaced (base k : ℕ) (r : Runner) : Type 0 where
  counted : r.failures ≡ k
  paced : r.current_interval ≡ wait base k
  shown : (r.state.consecutive_failures ≡ k) × (r.state.current_interval_secs ≡ wait base k)

module _ (show : Fault → String) (base : ℕ) where
  after_poll-IsPaced :
      (k now : ℕ) (o : Outcome (Unit {0})) (r : Runner)
      → IsPaced base k r
      → IsPaced base (streak k ((now, o) ∷ [])) (after_poll show base now o r)
  unfolding after_poll update_state
  after_poll-IsPaced k now (done a) r h =
      let same : (if ltb 0 r.failures then base else r.current_interval) ≡ base =
        let c = h.counted in let p = h.paced in ground arith in
      record { counted = refl; paced = same; shown = (refl, same) }
  after_poll-IsPaced k now (fault e) r h =
      let more : longer r.failures r.current_interval ≡ wait base (suc k) =
        rw (h.counted, h.paced) (wait-suc base k) in
      let next : r.failures + 1 ≡ suc k = let c = h.counted in omega arith in
      record { counted = next; paced = more; shown = (next, more) }

  run-IsPaced :
      (os : List (ℕ × Outcome (Unit {0}))) (k : ℕ) (r : Runner)
      → IsPaced base k r
      → IsPaced base (streak k os) (run show base os r)
  run-IsPaced [] k r h = h
  run-IsPaced ((now, done a) ∷ os) k r h =
      run-IsPaced os 0 _ (after_poll-IsPaced k now (done a) r h)
  run-IsPaced ((now, fault e) ∷ os) k r h =
      run-IsPaced os (suc k) _ (after_poll-IsPaced k now (fault e) r h)

doubled_bounds : (n base : ℕ) → base ≤ doubled n base
doubled_bounds zero base = omega arith
doubled_bounds (suc n) base = omega (arith, doubled_bounds n base)

wait_bounds : (base k : ℕ) → (min base 600 ≤ wait base k) × (wait base k ≤ max base 600)
wait_bounds base k = ground (arith, doubled_bounds 7 base, doubled_bounds (k - 2) base)

-- After any sequence of polls the wait before the next is the poll interval where at most two polls
-- in a row have failed, and else that interval doubled for each failure from the third to the ninth,
-- cut at 600 seconds. It lies between the lesser and the greater of the interval and 600 seconds,
-- so an interval above ten minutes is shortened by the third failure. The status shows the wait and
-- the number of failures.
pub run_lem :
    (show : Fault → String) (base : ℕ) (use_delta : Bool) (os : List (ℕ × Outcome (Unit {0})))
    → let r = run show base os (start use_delta base) in
      (r.current_interval ≡ wait base (streak 0 os))
      × (r.state.current_interval_secs ≡ r.current_interval)
      × (r.state.consecutive_failures ≡ streak 0 os)
      × (min base 600 ≤ r.current_interval)
      × (r.current_interval ≤ max base 600)
unfolding start
run_lem show base use_delta os =
    let h =
      run-IsPaced show base os 0 (start use_delta base)
        (record { counted = refl; paced = refl; shown = (refl, refl) }) in
    let b = wait_bounds base (streak 0 os) in
    (h.paced, h.shown.1 ∙ sym h.paced, h.shown.0, rw h.paced b.0, rw h.paced b.1)
