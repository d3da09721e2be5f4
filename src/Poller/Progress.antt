-- ===== src/Poller/Progress.antt =====
-- The change token moves on with the changes that it stands for, or stays for the next poll.
use stratosync.Common.{
  ℕ, ◌≡◌, refl, ◌∙◌, String, Bool, true, some, List, [], ◌∷◌, arith, first, some_of, ◌==◌,
  Option-cases, inl, inr,
}
use stratosync.Types.Metadata.{RemoteMetadata}
use stratosync.State.Tables.{TokenRow, Db, ok}
use stratosync.State.Poll.{
  live_tombstones, get_change_token, set_change_token, snapshot_remote_index, active_tombstones,
  cleanup_expired_tombstones,
}
use stratosync.State.Generation.{first-update, token_row}
use stratosync.State.Remote
use stratosync.State.Versions
use stratosync.Sync.World.{World, Outcome, done, fault, Act, bind_outcome, logged, on_db, ◌>>◌}
use stratosync.Poller.Full.{Settings, known_inodes}
use stratosync.Poller.Delta.{RemoteChange, Answers, apply_changes, catch_up, poll_once_delta}
use stratosync.Poller.Steps.{PollStep, PollSteps, unchanged}
use stratosync.Poller.DeltaSteps.{apply_changes-Does, changed}
use stratosync.Poller.Refines.{Admits, value}
use stratosync.Poller.Tokens.{upsert-HasTokens, delete_selected-HasTokens}

-- The steps of the changes themselves leave the tokens.
PollStep-tokens :
    {m : ℕ} {Allowed : String → Type 0} {a b : Db} → PollStep m Allowed ⊥ a b → b.tokens ≡ a.tokens
unfolding Remote.delete_remote_entry_by_path Remote.delete_remote_entry_by_item_id
    Versions.insert_version_history Versions.prune_version_history
PollStep-tokens {m = m} {a = a} (PollStep.upsert e id gen o) =
    ((upsert-HasTokens a.tokens m e id gen).at a (record { tokens = refl })).tokens
PollStep-tokens (PollStep.mark is gen void) = absurd void
PollStep-tokens (PollStep.sweep gen void) = absurd void
PollStep-tokens {a = a} (PollStep.forget_path path) =
    ((delete_selected-HasTokens a.tokens _).at a (record { tokens = refl })).tokens
PollStep-tokens {a = a} (PollStep.forget_item id) =
    ((delete_selected-HasTokens a.tokens _).at a (record { tokens = refl })).tokens
PollStep-tokens (PollStep.set_token now token void) = absurd void
PollStep-tokens (PollStep.clear_token void) = absurd void
PollStep-tokens (PollStep.expire now void) = absurd void
PollStep-tokens (PollStep.list_dirs now void) = absurd void
PollStep-tokens (PollStep.add_version now i hash size etag source) = ground arith
PollStep-tokens (PollStep.drop_versions i keep) = refl

PollSteps-tokens :
    {m : ℕ} {Allowed : String → Type 0} {a b : Db} → PollSteps m Allowed ⊥ a b → b.tokens ≡ a.tokens
PollSteps-tokens PollSteps.unchanged = refl
PollSteps-tokens (PollSteps.further s one) = PollStep-tokens one ∙ PollSteps-tokens s

abbrev here : ℕ → TokenRow → Bool
here m t = t.mount_id == m

first-there :
    (m : ℕ) (ts : List TokenRow) (t : TokenRow)
    → first (here m) ts ≡ some t
    → some_of (here m) ts ≡ true
first-there m [] t h = ground arith
first-there m (x ∷ xs) t h = ground (arith, first-there m xs t)

stored-there :
    (m : ℕ) (t : String) (db : Db)
    → (get_change_token m db).0 ≡ ok (some t)
    → some_of (here m) db.tokens ≡ true
unfolding get_change_token
stored-there m t db h = elim (Option-cases (first (here m) db.tokens)) [
  | inl absent ↦ let bad = rw absent at h in ground arith
  | inr (x, there) ↦ first-there m db.tokens x there
]

set_there :
    (now m : ℕ) (next : String) (db : Db)
    → some_of (here m) db.tokens ≡ true
    → let (r, db') = set_change_token now m next db in
      (r ≡ ok tt) × ((get_change_token m db').0 ≡ ok (some next))
unfolding set_change_token get_change_token
set_there now m next db h =
    rw (h, first-update m (token_row now m next) refl db.tokens h) (refl, refl)

same_token :
    (m : ℕ) (a b : Db) → b.tokens ≡ a.tokens → (get_change_token m b).0 ≡ (get_change_token m a).0
unfolding get_change_token
same_token m a b e = rw e

token-db : (m : ℕ) (db : Db) → (get_change_token m db).1 ≡ db
unfolding get_change_token
token-db m db = refl

anything :
    (c : Settings) (now : ℕ) (from : Db) (tombs : List String) (es : List RemoteMetadata)
    → Admits (λ _. Unit) from c now tombs es
anything c now from tombs [] = tt
anything c now from tombs (e ∷ es) = ((λ h. tt), anything c now from tombs es)

-- How a poll may end for a stored token.
abbrev pub MovedOn : ℕ → String → String → Outcome (Unit {0}) × World → Type 0
MovedOn m t next (done u, w) = (get_change_token m w.db).0 ≡ ok (some next)
MovedOn m t next (fault e, w) = (get_change_token m w.db).0 ≡ ok (some t)

module _ (c : Settings) (now : ℕ) (t next : String) where
  abbrev finish : Act Unit
  finish = do
    on_db (set_change_token now c.mount_id next)
    logged (on_db (cleanup_expired_tombstones now))

  finish-MovedOn :
      (w : World)
      → some_of (here c.mount_id) w.db.tokens ≡ true
      → MovedOn c.mount_id t next (finish w)
  unfolding cleanup_expired_tombstones
  finish-MovedOn w h =
      let (good, got) = set_there now c.mount_id next w.db h in
      rw good (same_token c.mount_id (set_change_token now c.mount_id next w.db).1 _ refl ∙ got)

  after-MovedOn :
      (r : Outcome Unit) (w : World)
      → (get_change_token c.mount_id w.db).0 ≡ ok (some t)
      → MovedOn c.mount_id t next (bind_outcome r (λ u. finish) w)
  after-MovedOn (fault e) w h = h
  after-MovedOn (done u) w h = finish-MovedOn w (stored-there c.mount_id t w.db h)

  catch_up-MovedOn :
      (xs : List RemoteChange) (w : World)
      → (get_change_token c.mount_id w.db).0 ≡ ok (some t)
      → MovedOn c.mount_id t next (catch_up c now xs next w)
  unfolding active_tombstones snapshot_remote_index
  catch_up-MovedOn [] w h =
      let (good, got) = set_there now c.mount_id next w.db (stored-there c.mount_id t w.db h) in
      rw good got
  catch_up-MovedOn (x ∷ xs) w h =
      let tombs = live_tombstones now c.mount_id w.db in
      let snaps = value [] (snapshot_remote_index c.mount_id w.db).0 in
      let k = apply_changes c now tombs snaps (x ∷ xs) (known_inodes snaps) w in
      let steps =
        (apply_changes-Does (λ _. Unit) ⊥ w.db c now tombs snaps (x ∷ xs) (known_inodes snaps)
            (anything c now w.db tombs (changed (x ∷ xs)))).at
          w (record { db = unchanged }) in
      after-MovedOn k.0 k.1 (same_token c.mount_id w.db k.1.db (PollSteps-tokens steps.db) ∙ h)

-- Where a change token is stored and the backend has changes since it and a next token, a poll that
-- succeeds has stored the next token, and one that fails has left the stored one, so that the next
-- poll asks for the same changes again.
pub poll_once_delta-MovedOn :
    (c : Settings) (now : ℕ) (a : Answers) (w : World) (t next : String) (xs : List RemoteChange)
    → (get_change_token c.mount_id w.db).0 ≡ ok (some t)
    → a.changes_since t ≡ done (xs, next)
    → MovedOn c.mount_id t next (poll_once_delta c now a w)
unfolding poll_once_delta
poll_once_delta-MovedOn c now a w t next xs h k =
    rw (h, token-db c.mount_id w.db, k) (catch_up-MovedOn c now t next xs w h)
