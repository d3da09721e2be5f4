-- ===== src/Upload/Bounds.antt =====
-- Invariants of the upload loop: how many uploads run at once, and that none is forgotten.
use stratosync.Common.{
  ℕ, ◌+◌, ◌≤◌, ◌≡◌, refl, Bool, true, false, not, ◌&&◌, ◌||◌, Option, none, some, List, [], ◌∷◌,
  arith, leb, ◌==◌, if◌then◌else◌, Map, get, put, get-remove, is_some, some_of, length, Bool-cases,
  inl, inr, String,
}
use stratosync.Types.SyncError.{SyncError, is_retryable}
use stratosync.State.Tables.{Db}
use stratosync.State.Files.{FileEntry}
use stratosync.Upload.Loop.{
  Loop, PendingUpload, Event, triggered, fired, completed, panicked, turn, start, on_trigger,
  dispatch, on_completed, on_panicked, launch, launch_all, remove_one, settled, inode_of,
}

remove_one-length : (i : ℕ) (js : List ℕ) → length (remove_one i js) ≤ length js
remove_one-length i [] = omega arith
remove_one-length i (j ∷ js) = ground (arith, remove_one-length i js)

launch_all-length :
    (m now : ℕ) (is : List ℕ) (s : Loop)
    → length s.in_flight ≤ m
    → length (launch_all m now is s).in_flight ≤ m
unfolding launch_all
launch_all-length m now [] s h = h
launch_all-length m now (i ∷ is) s h = elim (Bool-cases (leb m (length s.in_flight))) [
  | inl full ↦ rw full h
  | inr room ↦ rw room (launch_all-length m now is (launch now i s) (ground arith))
]

module _ (show : SyncError → String) (resolve : FileEntry → Db → Db)
    (mount debounce close_debounce m : ℕ) where
  -- What is pending when an upload of `i` has ended: a retry waits as a write does.
  abbrev pending_after : ℕ → ℕ → Option SyncError → Map PendingUpload → Map PendingUpload
  pending_after now i none pending = pending
  pending_after now i (some e) pending =
      if is_retryable e
      then put i (record { due_at = now + debounce; immediate = false }) pending
      else pending

  settled_lem :
      (now i : ℕ) (o : Option SyncError) (s : Loop)
      → let s' = settled show resolve mount debounce now i o s in
        (s'.in_flight ≡ s.in_flight) × (s'.pending ≡ pending_after now i o s.pending)
  settled_lem now i none s = (refl, refl)
  settled_lem now i (some (SyncError.not_found x)) s = (refl, refl)
  settled_lem now i (some (SyncError.permission_denied x)) s = (refl, refl)
  settled_lem now i (some (SyncError.network x)) s = (refl, refl)
  settled_lem now i (some (SyncError.transient x)) s = (refl, refl)
  settled_lem now i (some (SyncError.fatal x)) s = (refl, refl)
  settled_lem now i (some (SyncError.io x)) s = (refl, refl)
  settled_lem now i (some (SyncError.other x)) s = (refl, refl)
  settled_lem now i (some (SyncError.conflict x y)) s = (refl, refl)
  settled_lem now i (some SyncError.quota_exceeded) s = (refl, refl)
  settled_lem now i (some SyncError.token_expired) s = (refl, refl)
  settled_lem now i (some SyncError.not_supported) s = (refl, refl)

  turn-length :
      (e : Event) (s : Loop)
      → length s.in_flight ≤ m
      → length (turn show resolve mount debounce close_debounce m e s).in_flight ≤ m
  unfolding turn on_trigger on_completed on_panicked dispatch
  turn-length (triggered now t) s h = h
  turn-length (fired now window_open) s h = elim (Bool-cases (leb m (length s.in_flight))) [
    | inl full ↦ rw full h
    | inr room ↦ rw room (launch_all-length m now _ s h)
  ]
  turn-length (completed now i o) s h =
      rw ((settled_lem now i o _).0) (omega (arith, remove_one-length i s.in_flight))
  turn-length (panicked i) s h = omega (arith, remove_one-length i s.in_flight)

  abbrev pub run : List Event → Loop → Loop
  run [] s = s
  run (e ∷ es) s = run es (turn show resolve mount debounce close_debounce m e s)

  run-length :
      (es : List Event) (s : Loop) → length s.in_flight ≤ m → length (run es s).in_flight ≤ m
  run-length [] s h = h
  run-length (e ∷ es) s h = run-length es _ (turn-length e s h)

  -- However triggers, deadlines and completions follow each other, at most `max_concurrent` uploads
  -- run at the same time.
  pub in_flight_bound : (es : List Event) (db : Db) → length (run es (start db)).in_flight ≤ m
  in_flight_bound es db = run-length es (start db) (omega arith)

-- A file that the loop has to do with: its upload is pending or running.
abbrev pub is_tracked : ℕ → Loop → Bool
is_tracked i s = is_some (get i s.pending) || some_of (λ j. j == i) s.in_flight

-- An outcome that the loop does not retry.
abbrev is_final : Option SyncError → Bool
is_final none = true
is_final (some e) = not (is_retryable e)

-- The events after which the loop is done with an upload of `i`.
abbrev ends : ℕ → Event → Bool
ends i (completed now j o) = j == i && is_final o
ends i (panicked j) = j == i
ends i _ = false

some_of-remove_one :
    (i j : ℕ) (js : List ℕ)
    → (j == i) ≡ false
    → some_of (λ k. k == i) js ≡ true
    → some_of (λ k. k == i) (remove_one j js) ≡ true
some_of-remove_one i j [] h e = cc
some_of-remove_one i j (k ∷ ks) h e = ground (arith, some_of-remove_one i j ks)

launch-tracked :
    (now i k : ℕ) (s : Loop) → is_tracked k s ≡ true → is_tracked k (launch now i s) ≡ true
launch-tracked now i k s h = ground (arith, get-remove i k s.pending)

launch_all-tracked :
    (m now k : ℕ) (is : List ℕ) (s : Loop)
    → is_tracked k s ≡ true
    → is_tracked k (launch_all m now is s) ≡ true
unfolding launch_all
launch_all-tracked m now k [] s h = h
launch_all-tracked m now k (i ∷ is) s h = elim (Bool-cases (leb m (length s.in_flight))) [
  | inl full ↦ rw full h
  | inr room ↦ rw room (launch_all-tracked m now k is (launch now i s) (launch-tracked now i k s h))
]

module _ (show : SyncError → String) (resolve : FileEntry → Db → Db)
    (mount debounce close_debounce m : ℕ) where
  after-tracked :
      (now i k : ℕ) (o : Option SyncError) (pending : Map PendingUpload) (js : List ℕ)
      → (i == k && is_final o) ≡ false
      → (is_some (get k pending) || some_of (λ j. j == k) js) ≡ true
      → (is_some
            (get k (pending_after show resolve mount debounce close_debounce m now i o pending))
          || some_of (λ j. j == k) (remove_one i js))
        ≡ true
  after-tracked now i k none pending js e h = ground (arith, some_of-remove_one k i js)
  after-tracked now i k (some x) pending js e h =
      ground (arith, some_of-remove_one k i js, get-remove i k pending)

  completed-tracked :
      (now i k : ℕ) (o : Option SyncError) (s : Loop)
      → (i == k && is_final o) ≡ false
      → is_tracked k s ≡ true
      → is_tracked k (turn show resolve mount debounce close_debounce m (completed now i o) s)
        ≡ true
  unfolding turn on_completed
  completed-tracked now i k o s e h =
      let kept =
        settled_lem show resolve mount debounce close_debounce m now i o
          (record s { in_flight = remove_one i s.in_flight }) in
      rw (kept.0, kept.1) (after-tracked now i k o s.pending s.in_flight e h)

  -- No upload is forgotten: a file whose upload is pending or running stays so through every turn of
  -- the loop that is not the end of an upload of that file, and an error that is retried is no end.
  pub turn-is_tracked :
      (k : ℕ) (e : Event) (s : Loop)
      → ends k e ≡ false
      → is_tracked k s ≡ true
      → is_tracked k (turn show resolve mount debounce close_debounce m e s) ≡ true
  unfolding turn on_trigger on_panicked dispatch
  turn-is_tracked k (triggered now t) s e h = ground (arith, get-remove (inode_of t) k s.pending)
  turn-is_tracked k (fired now window_open) s e h = elim (Bool-cases (leb m (length s.in_flight))) [
    | inl full ↦ rw full h
    | inr room ↦ rw room (launch_all-tracked m now k _ s h)
  ]
  turn-is_tracked k (completed now i o) s e h = completed-tracked now i k o s e h
  turn-is_tracked k (panicked i) s e h = ground (arith, some_of-remove_one k i s.in_flight)
