-- ===== src/Poller/Excluded.antt =====
-- What the polls pass over does not get into the index.
use stratosync.Common.{
  ℕ, ◌≡◌, refl, String, Bool, true, false, none, not, ◌&&◌, List, [], ◌∷◌, arith, some_of, All,
  str_eq, Bool-cases, inl, inr,
}
use stratosync.Types.Metadata.{RemoteMetadata}
use stratosync.State.Statement.{at_path}
use stratosync.State.Tables.{Db}
use stratosync.State.Poll.{live_tombstones, get_change_token}
use stratosync.Sync.World.{World, Outcome}
use stratosync.Poller.Diff.{is_skipped}
use stratosync.Poller.Full.{Settings, poll_once}
use stratosync.Poller.Delta.{Answers, poll_once_delta}
use stratosync.Poller.Refines.{IsAccepted, entries, value, poll_once-PollSteps}
use stratosync.Poller.DeltaSteps.{reported, poll_once_delta-PollSteps}
use stratosync.Poller.HiddenSteps.{PollSteps-IsHidden}

module _ (c : Settings) (now : ℕ) (db : Db) (path : String) where
  -- Every entry at the path is passed over; so it is where there is none.
  abbrev pub IsExcluded : List RemoteMetadata → Type 0
  IsExcluded = All (λ e.
      str_eq e.path path ≡ true
      → is_skipped c.is_ignored (live_tombstones now c.mount_id db) e ≡ true)

  abbrev is_taken_at : RemoteMetadata → Bool
  is_taken_at e =
      str_eq e.path path && not (is_skipped c.is_ignored (live_tombstones now c.mount_id db) e)

  none_taken : (es : List RemoteMetadata) → IsExcluded es → some_of is_taken_at es ≡ false
  none_taken [] x = refl
  none_taken (e ∷ es) x = ground (arith, x.0, none_taken es x.1)

  not_accepted :
      (es : List RemoteMetadata)
      → IsExcluded es
      → (p : String) → IsAccepted c now db es p
      → str_eq p path ≡ false
  not_accepted es x p a = elim (Bool-cases (str_eq p path)) [
    | inl e ↦
        let here : str_eq a.entry.path path ≡ true = rw a.here e in
        let some_taken = a.listed is_taken_at (ground (arith, a.taken)) in
        let untaken = none_taken es x in cc
    | inr e ↦ e
  ]

-- A path that is not in the index of the mount, and at which every entry that the backend reports is
-- below a tombstone, matches an ignore pattern, has the conflict prefix or has an unsafe name, is not
-- in the index after a poll by a full listing, whatever its outcome. The same is true of a poll by
-- the changes since a token.
pub poll-excluded :
    (c : Settings) (now : ℕ) (path : String) (listing : Outcome (List RemoteMetadata)) (a : Answers)
    (w : World)
    → some_of (at_path c.mount_id path) w.db.files ≡ false
    → IsExcluded c now w.db path (entries listing)
    → IsExcluded c now w.db path (reported a (value none (get_change_token c.mount_id w.db).0))
    → (some_of (at_path c.mount_id path) (poll_once c now listing w).1.db.files ≡ false)
      × (some_of (at_path c.mount_id path) (poll_once_delta c now a w).1.db.files ≡ false)
poll-excluded c now path listing a w out full delta = (
  (PollSteps-IsHidden c.mount_id path (not_accepted c now w.db path _ full)
      (poll_once-PollSteps c now listing w) (record { hidden = out })).hidden,
  (PollSteps-IsHidden c.mount_id path (not_accepted c now w.db path _ delta)
      (poll_once_delta-PollSteps c now a w) (record { hidden = out })).hidden,
)
