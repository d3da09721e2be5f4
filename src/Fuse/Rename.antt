-- ===== src/Fuse/Rename.antt =====
-- `handle_rename`: what is at the destination goes, the cache file gets the new name in the
-- directory that it is in, and the row the new place; the remote follows later.
use stratosync.Common.{
  ℕ, String, Bool, true, false, ◌||◌, Option, none, some, lookup, store, erase, unwrap_or, is_some,
  if◌then◌else◌,
}
use mathlib.Core.Option
use stratosync.Types.SyncStatus.{
  SyncStatus, remote, hydrating, cached, dirty, uploading, stale, conflict,
}
use stratosync.State.Tables.{Result, ok}
use stratosync.State.Files.{FileEntry, get_by_parent_name, delete_entry, rename_entry}
use stratosync.State.Poll.{insert_tombstone}
use stratosync.Sync.World.{Act, Outcome, done, fault, disk, on_db, has_text}
use stratosync.Sync.Headers.{invalidate_header}
use stratosync.Fuse.Handler.{Handler, move_file, okay, answer, in_db, besides, spawn, ◌>>=◌, ◌>>◌}
use stratosync.Fuse.Names.{Os, validate_filename, join_remote}
use stratosync.Fuse.Write.{Mount, entry_of}
use stratosync.Fuse.Remove.{child_of}

-- `tokio::fs::rename`, which replaces what is at the new path.
unfoldable pub rename_file : String → String → Act Unit
rename_file old new w = elim (lookup old w.files) [
  | none ↦ (fault disk, w)
  | some content ↦
      if has_text old w.denied || has_text new w.denied
      then (fault disk, w)
      else (done tt, record w { files = store new content (erase old w.files) })
]

abbrev pub needs_remote_rename : SyncStatus → Bool
needs_remote_rename cached = true
needs_remote_rename stale = true
needs_remote_rename uploading = true
needs_remote_rename conflict = true
needs_remote_rename remote = false
needs_remote_rename hydrating = false
needs_remote_rename dirty = false

-- The remote path of the entry that is overwritten.
abbrev pub overwrite : Result (Option FileEntry) → Handler (Option String)
overwrite (ok (some d)) = do
  besides (on_db (delete_entry d.inode))
  besides (invalidate_header d.inode)
  answer (okay (some d.remote_path))
overwrite _ = answer (okay none)

abbrev pub moved_to : String → String → Outcome (Unit {0}) → Option String
moved_to old new (done u) = some new
moved_to old new (fault e) = some old

module _ (os : Os) (m : Mount) (now : ℕ) where
  -- `old_cache.parent().map(|p| p.join(new_name)).unwrap_or_else(|| PathBuf::from(new_name))`
  abbrev pub new_cache : String → String → String
  new_cache old name = unwrap_or (Option.map (λ p. os.join p name) (os.parent old)) name

  abbrev pub move_cache : String → Option String → Handler (Option String)
  move_cache name none = answer (okay none)
  move_cache name (some old) = λ s.
      let (r, w) = rename_file old (new_cache old name) s.world in
      (okay (moved_to old (new_cache old name) r), record s { world = w })

  abbrev pub replaced : ℕ → String → Handler (Option String)
  replaced parent name s = overwrite (get_by_parent_name m.mount_id parent name s.world.db).0 s

  abbrev pub tombstone : Bool → String → Handler Unit
  tombstone true path = besides (on_db (insert_tombstone now m.mount_id path 300))
  tombstone false path = answer (okay tt)

  -- The remote operations in the background.
  abbrev pub follow : FileEntry → String → Option String → Handler Unit
  follow e new_remote dest =
      if needs_remote_rename e.status || is_some dest
      then (do
        tombstone (needs_remote_rename e.status) e.remote_path
        spawn (move_file dest (needs_remote_rename e.status) e.remote_path new_remote))
      else answer (okay tt)

  unfoldable pub handle_rename : ℕ → String → ℕ → String → Handler Unit
  handle_rename parent name new_parent new_name = do
    answer (validate_filename new_name)
    e ← child_of m.mount_id parent name
    new_parent_entry ← entry_of new_parent
    let new_remote = join_remote new_parent_entry.remote_path new_name in
        (do
          dest ← replaced new_parent new_name
          path ← move_cache new_name e.cache_path
          in_db (rename_entry e.inode new_parent new_name new_remote path)
          follow e new_remote dest)
