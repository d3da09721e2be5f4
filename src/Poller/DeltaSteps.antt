-- ===== src/Poller/DeltaSteps.antt =====
-- A poll by the changes since a token makes only the steps of `PollStep`.
use stratosync.Common.{
  if◌then◌else◌, ℕ, String, false, ◌≡◌, refl, Option, none, some, List, [], ◌∷◌, ◌++◌, Texts,
  Bool-cases, inl, inr, length, leb,
}
use stratosync.Types.Metadata.{RemoteMetadata}
use stratosync.State.Tables.{Db, Exec}
use stratosync.State.Preserve.{Keeps}
use stratosync.State.Keeps.{Keeps-bind, Keeps-pure}
use stratosync.State.Rows.{All-left, All-right}
use stratosync.State.Remote
use stratosync.State.Poll
use stratosync.State.Poll.{
  RemoteSnapshot, live_tombstones, get_change_token, snapshot_remote_index, active_tombstones,
}
use stratosync.Sync.World.{Act, World, Outcome, done, fault, return, logged, on_db}
use stratosync.Sync.Rules.{
  Maintains-bind, Maintains-return, Maintains-logged, Maintains-on_db, bound, picked,
}
use stratosync.Poller.Diff.{is_skipped}
use stratosync.Poller.Full.{Settings, poll_once}
use stratosync.Poller.Delta
use stratosync.Poller.Delta.{
  RemoteChange, added, modified, deleted, Answers, delete_change, delete_or,
}
use stratosync.Poller.Steps.{
  PollSteps, unchanged, further, forget_path, forget_item, set_token, clear_token, expire, Does,
  Goes,
}
use stratosync.Poller.FullSteps.{one, keep_version-Does, apply_one-Does, clean_up-Does}
use stratosync.Poller.Refines.{Admits, entries, poll_once-Goes, IsAccepted, admitted, value}

-- The entries that changes report.
abbrev pub changed : List RemoteChange → List RemoteMetadata
changed [] = []
changed (added e ∷ xs) = e ∷ changed xs
changed (modified e old ∷ xs) = e ∷ changed xs
changed (deleted path id ∷ xs) = changed xs

abbrev pub changes_at : Outcome (List RemoteChange × String) → List RemoteMetadata
changes_at (done (xs, next)) = changed xs
changes_at (fault e) = []

-- The entries that a poll may hear of, where `token` is stored.
abbrev pub reported : Answers → Option String → List RemoteMetadata
reported a none = entries a.list_recursive
reported a (some token) = entries a.list_recursive ++ changes_at (a.changes_since token)

module _ (Allowed : String → Type 0) (Sweeps : Type 0) (from : Db) (c : Settings) (now : ℕ) where
  abbrev Pure : {A : Type 0} → Act A → Type 0
  Pure = Does c.mount_id Allowed Sweeps from

  abbrev Walks : {A : Type 0} → Exec A → Type 0
  Walks = Keeps (PollSteps c.mount_id Allowed Sweeps from)

  delete_or-Walks :
      (path : String) (o : Option (ℕ × Option String)) → Walks (delete_or c.mount_id path o)
  delete_or-Walks path none = record { at = λ db s. further s (forget_path path) }
  delete_or-Walks path (some r) = Keeps-pure (some r)

  delete_change-Walks :
      (path : String) (id : Option String) → Walks (delete_change c.mount_id path id)
  unfolding delete_change
  delete_change-Walks path none = delete_or-Walks path none
  delete_change-Walks path (some id) =
      Keeps-bind (Remote.delete_remote_entry_by_item_id c.mount_id id) (delete_or c.mount_id path)
        (record { at = λ db s. further s (forget_item id) }) (delete_or-Walks path)

  apply_entry-Does :
      (tombs : List String) (snaps : List RemoteSnapshot) (e : RemoteMetadata) (inodes : Texts ℕ)
      → (is_skipped c.is_ignored tombs e ≡ false → Allowed e.path)
      → Pure (Delta.apply_entry c now tombs snaps e inodes)
  apply_entry-Does tombs snaps e inodes a = elim (Bool-cases (is_skipped c.is_ignored tombs e)) [
    | inl k ↦ rw (k, Delta.apply_entry) (Maintains-return inodes)
    | inr k ↦
        rw (k, Delta.apply_entry)
          (Maintains-bind _ _ (keep_version-Does Allowed Sweeps from c now snaps e)
            (λ u. apply_one-Does Allowed Sweeps from c now 0 e inodes (a k)))
  ]

  clean_deleted-Does :
      (path : String) (o : Option (ℕ × Option String)) → Pure (Delta.clean_deleted path o)
  clean_deleted-Does path none = Maintains-return tt
  clean_deleted-Does path (some (i, p)) =
      clean_up-Does Allowed Sweeps from c now ((i, path, p) ∷ [])

  pub apply_changes-Does :
      (tombs : List String) (snaps : List RemoteSnapshot) (xs : List RemoteChange)
      (inodes : Texts ℕ)
      → Admits Allowed from c now tombs (changed xs)
      → Pure (Delta.apply_changes c now tombs snaps xs inodes)
  unfolding Delta.apply_changes Delta.apply_change
  apply_changes-Does tombs snaps [] inodes a = Maintains-return tt
  apply_changes-Does tombs snaps (added e ∷ xs) inodes a =
      Maintains-bind _ _ (apply_entry-Does tombs snaps e inodes a.0)
        (λ is. apply_changes-Does tombs snaps xs is a.1)
  apply_changes-Does tombs snaps (modified e old ∷ xs) inodes a =
      Maintains-bind _ _ (apply_entry-Does tombs snaps e inodes a.0)
        (λ is. apply_changes-Does tombs snaps xs is a.1)
  apply_changes-Does tombs snaps (deleted path id ∷ xs) inodes a =
      Maintains-bind _ _
        (Maintains-bind _ _ (Maintains-on_db _ (delete_change-Walks path id))
          λ r. Maintains-bind _ _ (clean_deleted-Does path r) (λ u. Maintains-return inodes))
        (λ is. apply_changes-Does tombs snaps xs is a)

module _ (Allowed : String → Type 0) (from : Db) (c : Settings) (now : ℕ) where
  abbrev Whole : {A : Type 0} → Act A → Type 0
  Whole = Does c.mount_id Allowed Unit from

  restart-Does : (a : Answers) → Whole (Delta.restart c now a)
  restart-Does a =
      Maintains-bind _ _ (record { at = λ w s. s })
        λ token.
          one Allowed Unit from c now (Poll.set_change_token now c.mount_id token)
            (λ db. set_token now token tt)

  set_token-Does : (token : String) → Whole (on_db (Poll.set_change_token now c.mount_id token))
  set_token-Does token =
      one Allowed Unit from c now (Poll.set_change_token now c.mount_id token)
        (λ db. set_token now token tt)

  module _ (tombs : List String) where
    -- What holds while a poll reads its tombstones.
    record IsAt (w : World) : Type 0 where
      steps : PollSteps c.mount_id Allowed Unit from w.db
      same : live_tombstones now c.mount_id w.db ≡ tombs

    catch_up-Goes :
        (xs : List RemoteChange) (next : String) (w : World)
        → Admits Allowed from c now tombs (changed xs)
        → IsAt w
        → Goes c.mount_id Allowed Unit from (Delta.catch_up c now xs next w).1
    unfolding active_tombstones snapshot_remote_index
    catch_up-Goes [] next w a h = (set_token-Does next).at w (record { db = h.steps })
    catch_up-Goes (x ∷ xs) next w a h = rw h.same (
        (Maintains-bind _ _ (apply_changes-Does Allowed Unit from c now tombs _ (x ∷ xs) _ a) λ u.
            Maintains-bind _ _ (set_token-Does next) λ u. Maintains-logged _ (
              one Allowed Unit from c now (Poll.cleanup_expired_tombstones now)
                (λ db. expire now tt))).at
          w (record { db = h.steps }))

    list_again-Goes :
        (a : Answers) (w : World)
        → Admits Allowed from c now tombs (entries a.list_recursive)
        → IsAt w
        → Goes c.mount_id Allowed Unit from (Delta.list_again c now a w).1
    unfolding Poll.clear_change_token
    list_again-Goes a w ad h =
        let cleared = record w { db = (Poll.clear_change_token c.mount_id w.db).1 } in
        let r = poll_once c now a.list_recursive cleared in
        let listed : Goes c.mount_id Allowed Unit from r.1 = record {
          db =
              poll_once-Goes Allowed from c now a.list_recursive cleared (rw h.same ad)
                (further h.steps (clear_token tt));
        } in
        bound (Goes c.mount_id Allowed Unit from) r.0 (λ u. Delta.restart c now a) r.1
          (λ u _. (restart-Does a).at r.1 listed) listed

    first_token-Goes :
        (a : Answers) (w : World)
        → Admits Allowed from c now tombs (entries a.list_recursive)
        → IsAt w
        → Goes c.mount_id Allowed Unit from (Delta.first_token c now a w).1
    unfolding snapshot_remote_index
    first_token-Goes a w ad h =
        let few = leb (length (value [] (snapshot_remote_index c.mount_id w.db).0)) 1 in
        let k : Act Unit = if few then logged (poll_once c now a.list_recursive) else return tt in
        let listed : Goes c.mount_id Allowed Unit from (k w).1 =
          picked (Goes c.mount_id Allowed Unit from) few _ _ w
            (record {
              db = poll_once-Goes Allowed from c now a.list_recursive w (rw h.same ad) h.steps;
            })
            (record { db = h.steps }) in
        bound (Goes c.mount_id Allowed Unit from) (k w).0 (λ u. Delta.restart c now a) (k w).1
          (λ u _. (restart-Does a).at (k w).1 listed) listed

    on_changes-Goes :
        (a : Answers) (o : Outcome (List RemoteChange × String)) (w : World)
        → Admits Allowed from c now tombs (entries a.list_recursive)
        → Admits Allowed from c now tombs (changes_at o)
        → IsAt w
        → Goes c.mount_id Allowed Unit from (Delta.on_changes c now a o w).1
    on_changes-Goes a (done (xs, next)) w l x h = catch_up-Goes xs next w x h
    on_changes-Goes a (fault e) w l x h =
        picked (Goes c.mount_id Allowed Unit from) (Delta.is_expired e) _ _ w
          (list_again-Goes a w l h) (record { db = h.steps })

    with_token-Goes :
        (a : Answers) (o : Option String) (w : World)
        → Admits Allowed from c now tombs (reported a o)
        → IsAt w
        → Goes c.mount_id Allowed Unit from (Delta.with_token c now a o w).1
    with_token-Goes a none w l h = first_token-Goes a w l h
    with_token-Goes a (some t) w l h =
        on_changes-Goes a (a.changes_since t) w
          (All-left _ (entries a.list_recursive) (changes_at (a.changes_since t)) l)
          (All-right _ (entries a.list_recursive) (changes_at (a.changes_since t)) l) h

-- A poll by the changes since a token, whatever its outcome and whatever it falls back to, is a
-- sequence of steps of the poller on its mount, each of which writes an entry only at the path of
-- an entry that the backend reported and that no tombstone, no ignore pattern, no conflict prefix
-- and no unsafe name excludes.
pub poll_once_delta-PollSteps :
    (c : Settings) (now : ℕ) (a : Answers) (w : World)
    → let heard = reported a (value none (get_change_token c.mount_id w.db).0) in
      PollSteps c.mount_id
        (IsAccepted c now w.db heard)
        Unit
        w.db
        (Delta.poll_once_delta c now a w).1.db
unfolding Delta.poll_once_delta get_change_token
poll_once_delta-PollSteps c now a w =
    let token = value none (get_change_token c.mount_id w.db).0 in
    let heard = reported a token in
    (with_token-Goes (IsAccepted c now w.db heard) w.db c now (live_tombstones now c.mount_id w.db)
      a token w (admitted c now w.db heard) (record { steps = unchanged; same = refl })).db
