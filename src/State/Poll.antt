-- ===== src/State/Poll.antt =====
-- The methods of `StateDb` on the poller's bookkeeping: the snapshot, poll generations, change
-- tokens and tombstones.
use stratosync.Common.{
  ℕ, ◌+◌, String, Bool, not, ◌&&◌, Option, none, some, List, [], ◌∷◌, ◌++◌, ◌==◌, ltb, leb,
  unwrap_or, str_eq, if◌then◌else◌, select, reject, update, first, some_of, count, chunks, map,
}
use stratosync.Types.{fuse_root_inode}
use stratosync.Types.SyncStatus.{SyncStatus, is_unsynced}
use stratosync.State.Tables.{
  Db, FileRow, TombstoneRow, TokenRow, Exec, ok, err, foreign_key, pure, gets, ◌>>=◌, ◌>>◌,
}
use stratosync.State.Statement.{update_files, delete_files, at_inode, has_mount}
use stratosync.State.Remote.{transaction}

-- `RemoteSnapshot`, with the path that is its key.
pub record RemoteSnapshot : Type 0 where
  pub path : String
  pub inode : ℕ
  pub etag : Option String
  pub size : ℕ
  pub status : SyncStatus

unfoldable pub snapshot_remote_index : ℕ → Exec (List RemoteSnapshot)
snapshot_remote_index m = gets λ db.
    map
      (λ r. record {
        path = r.remote_path;
        inode = r.inode;
        etag = r.etag;
        size = r.size;
        status = r.status;
      })
      (select (λ r. r.mount_id == m) db.files)

abbrev pub mark_all : List ℕ → ℕ → Exec Unit
mark_all [] gen = pure tt
mark_all (i ∷ is) gen = do
  update_files (at_inode i) (λ r. record r { poll_generation = gen })
  mark_all is gen

abbrev pub mark_chunks : List (List ℕ) → ℕ → Exec Unit
mark_chunks [] gen = pure tt
mark_chunks (chunk ∷ rest) gen = do transaction (mark_all chunk gen); mark_chunks rest gen

-- Each chunk of 1000 inodes is a transaction of its own.
unfoldable pub batch_mark_generation : List ℕ → ℕ → Exec Unit
batch_mark_generation inodes gen = mark_chunks (chunks 1000 inodes) gen

-- The WHERE clause of `delete_stale_entries`.
abbrev pub is_stale_at : ℕ → ℕ → FileRow → Bool
is_stale_at m gen r =
    r.mount_id == m
    && ltb r.poll_generation gen
    && not (is_unsynced r.status)
    && not (r.inode == fuse_root_inode)

-- One DELETE for each row, in the order of the SELECT; an error ends the loop.
unfoldable pub delete_each : List FileRow → Exec Unit
delete_each [] = pure tt
delete_each (r ∷ rs) = do delete_files (at_inode r.inode); delete_each rs

unfoldable pub delete_stale_entries : ℕ → ℕ → Exec (List (ℕ × String × Option String))
delete_stale_entries m gen db =
    let stale = select (is_stale_at m gen) db.files in
    (do delete_each stale; pure (map (λ r. (r.inode, r.remote_path, r.cache_path)) stale)) db

-- INSERT INTO change_tokens … ON CONFLICT(mount_id) DO UPDATE SET token, updated_at
unfoldable pub set_change_token : ℕ → ℕ → String → Exec Unit
set_change_token now m token db =
    let new : TokenRow = record { mount_id = m; token = token; updated_at = now } in
    let here = λ (t : TokenRow). t.mount_id == m in
    if some_of here db.tokens
    then (ok tt, record db { tokens = update here (λ _. new) db.tokens })
    else if has_mount m db
    then (ok tt, record db { tokens = db.tokens ++ new ∷ [] })
    else (err foreign_key, db)

unfoldable pub get_change_token : ℕ → Exec (Option String)
get_change_token m =
    gets λ db. elim (first (λ t. t.mount_id == m) db.tokens) [ none ↦ none | some t ↦ some t.token ]

unfoldable pub clear_change_token : ℕ → Exec Unit
clear_change_token m db = (ok tt, record db { tokens = reject (λ t. t.mount_id == m) db.tokens })

-- `to_string` and `parse::<u64>` of Rust, on the text of a token.
module _ (show : ℕ → String) (parse : String → Option ℕ) where
  unfoldable pub set_poll_generation : ℕ → ℕ → ℕ → Exec Unit
  set_poll_generation now m gen = set_change_token now m (show gen)

  unfoldable pub get_poll_generation : ℕ → Exec ℕ
  get_poll_generation m = do
    token ← get_change_token m
    pure (unwrap_or (elim token [ none ↦ none | some s ↦ parse s ]) 0)

-- INSERT OR REPLACE: the row of the same mount and path goes first.
unfoldable pub insert_tombstone : ℕ → ℕ → String → ℕ → Exec Unit
insert_tombstone now m path ttl_secs db =
    let new : TombstoneRow = record {
      mount_id = m;
      remote_path = path;
      expires_at = now + ttl_secs;
    } in
    if has_mount m db
    then (
      ok tt,
      record db {
        tombstones =
            reject (λ t. t.mount_id == m && str_eq t.remote_path path) db.tombstones ++ new ∷ [];
      },
    )
    else (err foreign_key, db)

unfoldable pub remove_tombstone : ℕ → String → Exec Unit
remove_tombstone m path db = (
  ok tt,
  record db {
    tombstones = reject (λ t. t.mount_id == m && str_eq t.remote_path path) db.tombstones;
  },
)

abbrev pub live_tombstones : ℕ → ℕ → Db → List String
live_tombstones now m db =
    map (λ t. t.remote_path) (select (λ t. t.mount_id == m && ltb now t.expires_at) db.tombstones)

unfoldable pub active_tombstones : ℕ → ℕ → Exec (List String)
active_tombstones now m = gets (live_tombstones now m)

unfoldable pub cleanup_expired_tombstones : ℕ → Exec ℕ
cleanup_expired_tombstones now db =
    let expired = λ (t : TombstoneRow). leb t.expires_at now in
    (ok (count expired db.tombstones), record db { tombstones = reject expired db.tombstones })
