-- ===== src/Poller/Delta.antt =====
-- `poll_once_delta`: the changes since a token, and the full listings that stand in for them.
use stratosync.Common.{
  ℕ, String, Bool, true, false, Option, none, some, List, [], ◌∷◌, length, leb, Texts,
  if◌then◌else◌,
}
use stratosync.Types.SyncError.{token_expired}
use stratosync.Types.Metadata.{RemoteMetadata}
use stratosync.State.Tables.{Exec, pure}
use stratosync.State.Tables
use stratosync.State.Remote.{delete_remote_entry_by_path, delete_remote_entry_by_item_id}
use stratosync.State.Poll.{
  RemoteSnapshot, snapshot_remote_index, active_tombstones, cleanup_expired_tombstones,
  get_change_token, set_change_token, clear_change_token,
}
use stratosync.Sync.World.{
  Act, Outcome, Fault, done, fault, backend, return, throw, logged, on_db, ◌>>=◌, ◌>>◌,
}
use stratosync.Poller.Diff.{is_skipped}
use stratosync.Poller.Full.{
  Settings, or_empty, known_inodes, keep_version, apply_one, poll_once, clean_up,
}

-- `RemoteChange`
pub data RemoteChange : Type 0 where
  added : RemoteMetadata → RemoteChange
  modified : RemoteMetadata → Option String → RemoteChange
  deleted : String → Option String → RemoteChange

-- What the backend answers to the calls of one poll: `list_recursive`, `get_start_token` and
-- `changes_since`.
pub record Answers : Type 0 where
  pub list_recursive : Outcome (List RemoteMetadata)
  pub get_start_token : Outcome String
  pub changes_since : String → Outcome (List RemoteChange × String)

-- By the item id where there is one and a row has it, else by the path.
abbrev pub delete_or : ℕ → String → Option (ℕ × Option String) → Exec (Option (ℕ × Option String))
delete_or m path none = delete_remote_entry_by_path m path
delete_or m path (some r) = pure (some r)

unfoldable pub delete_change : ℕ → String → Option String → Exec (Option (ℕ × Option String))
delete_change m path none = delete_remote_entry_by_path m path
delete_change m path (some id) =
    Tables.◌>>=◌ (delete_remote_entry_by_item_id m id) (delete_or m path)

abbrev pub clean_deleted : String → Option (ℕ × Option String) → Act Unit
clean_deleted path none = return tt
clean_deleted path (some (i, cache_path)) = clean_up ((i, path, cache_path) ∷ [])

-- The `?` behind a call of the backend.
abbrev pub answered : {A : Type 0} → Outcome A → Act A
answered o w = (o, w)

abbrev pub is_expired : Fault → Bool
is_expired (backend token_expired) = true
is_expired _ = false

module _ (c : Settings) (now : ℕ) where
  abbrev pub apply_entry :
      List String → List RemoteSnapshot → RemoteMetadata → Texts ℕ → Act (Texts ℕ)
  apply_entry tombstones snaps e inodes =
      if is_skipped c.is_ignored tombstones e
      then return inodes
      else (do keep_version c now snaps e; apply_one c now 0 e inodes)

  unfoldable pub apply_change :
      List String → List RemoteSnapshot → RemoteChange → Texts ℕ → Act (Texts ℕ)
  apply_change tombstones snaps (added e) inodes = apply_entry tombstones snaps e inodes
  apply_change tombstones snaps (modified e old) inodes = apply_entry tombstones snaps e inodes
  apply_change tombstones snaps (deleted path id) inodes = do
    r ← on_db (delete_change c.mount_id path id)
    clean_deleted path r
    return inodes

  unfoldable pub apply_changes :
      List String → List RemoteSnapshot → List RemoteChange → Texts ℕ → Act Unit
  apply_changes tombstones snaps [] inodes = return tt
  apply_changes tombstones snaps (x ∷ xs) inodes = do
    inodes' ← apply_change tombstones snaps x inodes
    apply_changes tombstones snaps xs inodes'

  -- A start token from the backend, stored.
  abbrev pub restart : Answers → Act Unit
  restart a = do token ← answered a.get_start_token; on_db (set_change_token now c.mount_id token)

  abbrev pub first_token : Answers → Act Unit
  first_token a = do
    snaps ← on_db (snapshot_remote_index c.mount_id)
    if leb (length snaps) 1 then logged (poll_once c now a.list_recursive) else return tt
    restart a

  abbrev pub list_again : Answers → Act Unit
  list_again a = do
    on_db (clear_change_token c.mount_id)
    poll_once c now a.list_recursive
    restart a

  abbrev pub catch_up : List RemoteChange → String → Act Unit
  catch_up [] next = on_db (set_change_token now c.mount_id next)
  catch_up (x ∷ xs) next = do
    tombstones ← or_empty (on_db (active_tombstones now c.mount_id))
    snaps ← on_db (snapshot_remote_index c.mount_id)
    apply_changes tombstones snaps (x ∷ xs) (known_inodes snaps)
    on_db (set_change_token now c.mount_id next)
    logged (on_db (cleanup_expired_tombstones now))

  abbrev pub on_changes : Answers → Outcome (List RemoteChange × String) → Act Unit
  on_changes a (done (changes, next)) = catch_up changes next
  on_changes a (fault e) = if is_expired e then list_again a else throw e

  abbrev pub with_token : Answers → Option String → Act Unit
  with_token a none = first_token a
  with_token a (some t) = on_changes a (a.changes_since t)

  unfoldable pub poll_once_delta : Answers → Act Unit
  poll_once_delta a = do token ← on_db (get_change_token c.mount_id); with_token a token
