-- ===== src/Poller/Refines.antt =====
-- The polls refine the step relation `PollStep`.
use stratosync.Common.{
  ℕ, ◌+◌, String, Bool, false, ◌≡◌, refl, Option, none, some, List, [], ◌∷◌, All, arith, Bool-cases,
  inl, inr, ltb, length,
}
use stratosync.Types.Metadata.{RemoteMetadata}
use stratosync.State.Tables.{Db, Result, ok, err}
use stratosync.State.Rows.{All-append, All-imp}
use stratosync.State.Poll.{
  RemoteSnapshot, snapshot_remote_index, get_poll_generation, get_change_token, active_tombstones,
  live_tombstones,
}
use stratosync.State.Sorted.{IsMember, members}
use stratosync.Sync.World.{World, Outcome, done, fault, ◌>>◌}
use stratosync.Sync.Rules.{Maintains-bind}
use stratosync.Poller.Diff.{
  Diff, diff, diff_one, nothing, snapshot_of, is_unsafe, is_conflict, is_tombstoned, is_skipped,
  mark_known, compare, is_same,
}
use stratosync.Poller.Full.{Settings, keep_versions, apply_diff, poll_once, max_poll_entries}
use stratosync.Poller.Steps.{PollSteps, unchanged, Does}
use stratosync.Poller.FullSteps.{keep_versions-Does, apply_diff-Does}

module _ (is_ignored : String → Bool) (tombs : List String) (snaps : List RemoteSnapshot)
    (P : RemoteMetadata → Type 0) where
  compare-All :
      (e : RemoteMetadata) (o : Option RemoteSnapshot) (d : Diff)
      → P e
      → All P d.to_upsert
      → All P (compare is_ignored tombs snaps e o d).to_upsert
  compare-All e none d p h = All-append P d.to_upsert _ h (p, tt)
  compare-All e (some s) d p h = elim (Bool-cases (is_same s e)) [
    | inl same ↦ rw (same, compare) h
    | inr other ↦ rw (other, compare) (All-append P d.to_upsert _ h (p, tt))
  ]

  mark_known-All :
      (o : Option RemoteSnapshot) (d : Diff)
      → All P d.to_upsert
      → All P (mark_known is_ignored tombs snaps o d).to_upsert
  mark_known-All none d h = h
  mark_known-All (some s) d h = h

  diff_one-All :
      (e : RemoteMetadata) (d : Diff)
      → (is_skipped is_ignored tombs e ≡ false → P e)
      → All P d.to_upsert
      → All P (diff_one is_ignored tombs snaps e d).to_upsert
  unfolding diff_one
  diff_one-All e d p h = elim (Bool-cases (is_unsafe e)) [
    | inl u ↦ rw (u, diff_one) h
    | inr u ↦ elim (Bool-cases (is_conflict e)) [
      | inl k ↦ rw (u, k, diff_one) h
      | inr k ↦ elim (Bool-cases (is_tombstoned tombs e)) [
        | inl t ↦ rw (u, k, t, diff_one) h
        | inr t ↦ elim (Bool-cases (is_ignored e.path)) [
          | inl i ↦ rw (u, k, t, i, diff_one) (mark_known-All (snapshot_of e.path snaps) d h)
          | inr i ↦
              rw (u, k, t, i, diff_one)
                (compare-All e (snapshot_of e.path snaps) d (p (ground arith)) h)
        ]
      ]
    ]
  ]

  diff-All :
      (es : List RemoteMetadata) (d : Diff)
      → All (λ e. is_skipped is_ignored tombs e ≡ false → P e) es
      → All P d.to_upsert
      → All P (diff is_ignored tombs snaps es d).to_upsert
  unfolding diff
  diff-All [] d p h = h
  diff-All (e ∷ es) d p h = diff-All es _ p.1 (diff_one-All e d p.0 h)

abbrev pub entries : Outcome (List RemoteMetadata) → List RemoteMetadata
entries (done es) = es
entries (fault e) = []

-- The paths that a poll may write: those of the entries of the listing that it does not pass over.
pub record IsAccepted (c : Settings) (now : ℕ) (db : Db) (listing : List RemoteMetadata)
    (path : String) : Type 0 where
  pub entry : RemoteMetadata
  pub here : entry.path ≡ path
  pub listed : IsMember listing entry
  pub taken : is_skipped c.is_ignored (live_tombstones now c.mount_id db) entry ≡ false

abbrev pub value {ℓ} : {A : Type ℓ} → A → Result A → A
value d (ok a) = a
value d (err e) = d

module _ (Allowed : String → Type 0) (from : Db) (c : Settings) (now : ℕ) where
  -- Every entry of a listing that is not passed over is allowed.
  abbrev pub Admits : List String → List RemoteMetadata → Type 0
  Admits tombs es = All (λ e. is_skipped c.is_ignored tombs e ≡ false → Allowed e.path) es

  work-Does :
      (es : List RemoteMetadata) (tombs : List String) (snaps : List RemoteSnapshot) (gen : ℕ)
      → Admits tombs es
      → let d = diff c.is_ignored tombs snaps es nothing in
        Does c.mount_id Allowed Unit from
          (keep_versions c now snaps d.to_upsert >> apply_diff c now snaps gen d)
  work-Does es tombs snaps gen a =
      let d = diff c.is_ignored tombs snaps es nothing in
      Maintains-bind (keep_versions c now snaps d.to_upsert) (λ u. apply_diff c now snaps gen d)
        (keep_versions-Does Allowed Unit from c now snaps d.to_upsert)
        (λ u.
          apply_diff-Does Allowed Unit from c now snaps gen d tt
            (diff-All c.is_ignored tombs snaps (λ e. Allowed e.path) es nothing a tt))

  pub poll_once-Goes :
      (listing : Outcome (List RemoteMetadata)) (w : World)
      → Admits (live_tombstones now c.mount_id w.db) (entries listing)
      → PollSteps c.mount_id Allowed Unit from w.db
      → PollSteps c.mount_id Allowed Unit from (poll_once c now listing w).1.db
  unfolding poll_once snapshot_remote_index get_poll_generation get_change_token active_tombstones
  poll_once-Goes (fault e) w a s = s
  poll_once-Goes (done es) w a s = elim (Bool-cases (ltb max_poll_entries (length es))) [
    | inl e ↦ rw (e, poll_once) s
    | inr e ↦
        rw (e, poll_once)
          ((work-Does es (live_tombstones now c.mount_id w.db)
              (value [] (snapshot_remote_index c.mount_id w.db).0)
              (value 0 (get_poll_generation c.show c.parse c.mount_id w.db).0 + 1) a).at
            w (record { db = s })).db
  ]

pub admitted :
    (c : Settings) (now : ℕ) (db : Db) (es : List RemoteMetadata)
    → Admits (IsAccepted c now db es) db c now (live_tombstones now c.mount_id db) es
admitted c now db es =
    All-imp (λ e m k. record { entry = e; here = refl; listed = m; taken = k }) es (members es)

-- A poll by a full listing, whatever its outcome, is a sequence of steps of the poller on its mount,
-- each of which writes an entry only at the path of an entry of the listing that no tombstone, no
-- ignore pattern, no conflict prefix and no unsafe name excludes.
pub poll_once-PollSteps :
    (c : Settings) (now : ℕ) (listing : Outcome (List RemoteMetadata)) (w : World)
    → PollSteps c.mount_id
        (IsAccepted c now w.db (entries listing))
        Unit
        w.db
        (poll_once c now listing w).1.db
poll_once-PollSteps c now listing w =
    poll_once-Goes (IsAccepted c now w.db (entries listing)) w.db c now listing w
      (admitted c now w.db (entries listing)) unchanged
