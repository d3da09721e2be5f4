-- ===== src/Fuse/Deleted.antt =====
-- A deletion by the kernel and the polls after it.
use stratosync.Common.{
  ℕ, ◌+◌, ◌<◌, ◌≡◌, refl, String, true, false, some, List, [], ◌∷◌, arith, some_of, Option-cases,
  inl, inr,
}
use stratosync.Types.Metadata.{RemoteMetadata}
use stratosync.State.Tables.{Db, ok}
use stratosync.State.Statement.{at_path, has_mount}
use stratosync.State.Files.{FileEntry, get_by_parent_name, delete_entry}
use stratosync.State.Poll.{insert_tombstone}
use stratosync.State.Reach.{Reachable}
use stratosync.State.Invariant.{Reachable-IsValid}
use stratosync.Sync.World.{World, Outcome, remove_cache_file}
use stratosync.Sync.Headers.{invalidate_header}
use stratosync.Poller.Full.{Settings, poll_once}
use stratosync.Poller.Delta.{Answers, poll_once_delta}
use stratosync.Poller.Excluded.{IsExcluded, poll-excluded}
use stratosync.Fuse.Handler.{Fs}
use stratosync.Fuse.Remove.{handle_unlink}
use stratosync.Fuse.Gone.{IsGone, buried-IsGone, IsGone-skipped}

remove_cache_file-db : (p : String) (w : World) → (remove_cache_file p w).1.db ≡ w.db
unfolding remove_cache_file
remove_cache_file-db p w = ground arith

invalidate_header-db : (i : ℕ) (w : World) → (invalidate_header i w).1.db ≡ w.db
unfolding invalidate_header
invalidate_header-db i w = ground arith

parent_name-db : (m p : ℕ) (name : String) (db : Db) → (get_by_parent_name m p name db).1 ≡ db
unfolding get_by_parent_name
parent_name-db m p name db = refl

handle_unlink-db :
    (m now p : ℕ) (name : String) (e : FileEntry) (s : Fs)
    → (get_by_parent_name m p name s.world.db).0 ≡ ok (some e)
    → (delete_entry e.inode s.world.db).0 ≡ ok tt
    → (handle_unlink m now p name s).1.world.db
      ≡ (insert_tombstone now m e.remote_path 300 (delete_entry e.inode s.world.db).1).1
unfolding handle_unlink
handle_unlink-db m now p name e s found good = elim (Option-cases e.cache_path) [
  | inl a ↦
      rw (found, parent_name-db m p name s.world.db, a, invalidate_header-db e.inode s.world, good)
  | inr a ↦ rw (
    found,
    parent_name-db m p name s.world.db,
    a.1,
    invalidate_header-db e.inode (remove_cache_file a.0 s.world).1,
    remove_cache_file-db a.0 s.world,
    good,
  )
]

excluded :
    (c : Settings) (later : ℕ) (path : String) (db : Db) (es : List RemoteMetadata)
    → IsGone c.mount_id later path db
    → IsExcluded c later db path es
excluded c later path db [] g = tt
excluded c later path db (e ∷ es) g = (
  (λ h. IsGone-skipped c.is_ignored c.mount_id later path db e g h),
  excluded c later path db es g,
)

-- After a file is deleted, nothing is at its remote path in the index, and so it is after a poll of
-- either kind within 300 seconds, whatever the backend reports, until the tombstone is removed.
pub handle_unlink-poll :
    (c : Settings) (now p : ℕ) (name : String) (e : FileEntry) (s : Fs) (later : ℕ)
    (listing : Outcome (List RemoteMetadata)) (a : Answers)
    → Reachable s.world.db
    → has_mount c.mount_id s.world.db ≡ true
    → (get_by_parent_name c.mount_id p name s.world.db).0 ≡ ok (some e)
    → (delete_entry e.inode s.world.db).0 ≡ ok tt
    → later < now + 300
    → let w = (handle_unlink c.mount_id now p name s).1.world in
      (some_of (at_path c.mount_id e.remote_path) w.db.files ≡ false)
      × (some_of (at_path c.mount_id e.remote_path) (poll_once c later listing w).1.db.files
          ≡ false)
      × (some_of (at_path c.mount_id e.remote_path) (poll_once_delta c later a w).1.db.files
          ≡ false)
handle_unlink-poll c now p name e s later listing a r mounted found good soon =
    let gone : IsGone c.mount_id later e.remote_path
        (handle_unlink c.mount_id now p name s).1.world.db =
      rw (handle_unlink-db c.mount_id now p name e s found good) (
        buried-IsGone now later c.mount_id p name e s.world.db (Reachable-IsValid r).separate
          mounted found good soon) in
    let polls =
      poll-excluded c later e.remote_path listing a (handle_unlink c.mount_id now p name s).1.world
        gone.absent (excluded c later e.remote_path _ _ gone)
        (excluded c later e.remote_path _ _ gone) in
    (gone.absent, polls.0, polls.1)
