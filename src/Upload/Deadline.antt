-- ===== src/Upload/Deadline.antt =====
-- When a pending upload runs: triggers, debounce and the bandwidth window.
use stratosync.Common.{
  ℕ, ◌+◌, ◌%◌, ◌≤◌, ◌<◌, Bool, Bool-cases, inl, inr, refl, ◌≡◌, true, false, Option, none, some,
  arith, leb, ◌==◌, get, get-put, get-put_other,
}
use stratosync.Config.Window.{TransferWindow, seconds_until_open}
use stratosync.Config.Schedule.{
  IsWindow, minute_after, seconds_until_open-zero, seconds_until_open_first,
}
use stratosync.Upload.Loop.{
  PendingUpload, effective_due_at, secs_until_window_opens, is_ready, UploadTrigger, inode_of,
  is_fsync, window_of, merged, on_trigger, Loop,
}

-- The deadline of an upload, and whether it may run, `t` seconds after the deadline was computed.
module _ (p : PendingUpload) (w : Option TransferWindow) (now m s : ℕ) where
  abbrev pub deadline : ℕ
  deadline = effective_due_at p w now (secs_until_window_opens w m s)

  abbrev pub may_run : ℕ → Bool
  may_run t =
      is_ready (now + t) (secs_until_window_opens w (minute_after m s t) ((s + t) % 60) == 0) p

-- While a window is closed, no second before the one at which it opens is in it.
closed_until :
    (w : TransferWindow) (m s t : ℕ)
    → IsWindow w
    → m < 1440
    → s < 60
    → t < seconds_until_open w m s
    → (seconds_until_open w (minute_after m s t) ((s + t) % 60) == 0) ≡ false
closed_until w m s t wf m_lt s_lt h =
    let shut = (seconds_until_open_first w m s wf m_lt s_lt).1 t h in
    let zero_iff =
      (seconds_until_open-zero w (minute_after m s t) ((s + t) % 60) wf (omega arith)
        (omega arith)).0 in
    elim (Bool-cases (seconds_until_open w (minute_after m s t) ((s + t) % 60) == 0)) [
      | inr e ↦ e
      | inl e ↦ let open_then = zero_iff.0 (ground arith) in absurd (ground arith)
    ]

not_before :
    (p : PendingUpload) (w : Option TransferWindow) (now m s t : ℕ)
    → ((v : TransferWindow) → w ≡ some v → IsWindow v)
    → m < 1440
    → s < 60
    → now + t < deadline p w now m s
    → may_run p w now m s t ≡ false
unfolding effective_due_at secs_until_window_opens
not_before p none now m s t wf m_lt s_lt h = ground arith
not_before p (some w) now m s t wf m_lt s_lt h =
    ground (arith, closed_until w m s t (wf w refl) m_lt s_lt)

passed :
    (p : PendingUpload) (w : Option TransferWindow) (now m s : ℕ)
    → leb (deadline p w now m s) now ≡ is_ready now (secs_until_window_opens w m s == 0) p
unfolding effective_due_at secs_until_window_opens
passed p none now m s = ground arith
passed p (some w) now m s = ground arith

-- The deadline of a pending upload, computed at second `s` of minute `m` of the day, has passed at that
-- instant exactly if the upload may be started then, and at no later second before the deadline
-- may it be started: a sleep until the deadline does not go past a second at which it might run.
pub effective_due_at-is_ready :
    (p : PendingUpload) (w : Option TransferWindow) (now m s : ℕ)
    → ((v : TransferWindow) → w ≡ some v → IsWindow v)
    → m < 1440
    → s < 60
    → (leb (deadline p w now m s) now ≡ is_ready now (secs_until_window_opens w m s == 0) p)
      × ((t : ℕ) → now + t < deadline p w now m s → may_run p w now m s t ≡ false)
effective_due_at-is_ready p w now m s wf m_lt s_lt =
    (passed p w now m s, λ t. not_before p w now m s t wf m_lt s_lt)

-- After a trigger its file has a pending upload, due no later than the trigger's window asks. It is
-- immediate behind an fsync, and stays immediate if it was. No other pending upload changes.
pub on_trigger_lem :
    (debounce close_debounce now : ℕ) (t : UploadTrigger) (s : Loop)
    → let s' = on_trigger debounce close_debounce now t s in
      (p : PendingUpload) × (get (inode_of t) s'.pending ≡ some p)
      × (p.due_at ≤ now + window_of debounce close_debounce t)
      × (is_fsync t ≡ true → p.immediate ≡ true)
      × ((q : PendingUpload)
          → get (inode_of t) s.pending ≡ some q
          → q.immediate ≡ true
          → p.immediate ≡ true)
      × ((j : ℕ) → (j == inode_of t) ≡ false → get j s'.pending ≡ get j s.pending)
unfolding on_trigger
on_trigger_lem debounce close_debounce now t s = (
  merged debounce close_debounce now t (get (inode_of t) s.pending),
  get-put (inode_of t) _ s.pending,
  merged_due (get (inode_of t) s.pending),
  merged_fsync (get (inode_of t) s.pending),
  merged_immediate (get (inode_of t) s.pending),
  λ j e. get-put_other (inode_of t) j _ s.pending e,
)
  where
    merged_due :
        (o : Option PendingUpload)
        → (merged debounce close_debounce now t o).due_at
          ≤ now + window_of debounce close_debounce t
    merged_due none = omega arith
    merged_due (some q) = ground arith

    merged_fsync :
        (o : Option PendingUpload)
        → is_fsync t ≡ true
        → (merged debounce close_debounce now t o).immediate ≡ true
    merged_fsync none e = e
    merged_fsync (some q) e = ground arith

    merged_immediate :
        (o : Option PendingUpload) (q : PendingUpload)
        → o ≡ some q
        → q.immediate ≡ true
        → (merged debounce close_debounce now t o).immediate ≡ true
    merged_immediate none q e h = cc
    merged_immediate (some r) q e h = ground arith
