-- ===== src/Poller/FullSteps.antt =====
-- A full listing makes only the steps of `PollStep`, and writes only entries that it accepts.
use stratosync.Common.{
  ℕ, String, refl, Option, none, some, List, [], ◌∷◌, Texts, All, inl, inr, ltb, Option-cases,
}
use stratosync.Types.SyncStatus.{is_cached}
use stratosync.Types.Metadata.{RemoteMetadata}
use stratosync.State.Tables.{Db, Exec}
use stratosync.State.Keeps.{Keeps-gets}
use stratosync.State.Remote
use stratosync.State.Poll
use stratosync.State.Poll.{RemoteSnapshot, active_tombstones}
use stratosync.State.Files
use stratosync.State.Files.{FileEntry}
use stratosync.State.Sorted.{sort_by-All}
use stratosync.Sync.World.{Act, Outcome, done, fault, on_db}
use stratosync.Sync.Rules.{
  Maintains-return, Maintains-bind, Maintains-if, Maintains-logged, Maintains-attempt,
  Maintains-on_db,
}
use stratosync.Poller.Diff.{Diff, snapshot_of}
use stratosync.Poller.Full.{
  Settings, keep_content, keep_known, keep_version, keep_versions, apply_one, apply_all, clean_up,
  apply_diff, shorter, known_inodes,
}
use stratosync.Poller.Steps.{
  PollStep, upsert, mark, sweep, set_token, expire, list_dirs, Does, step, remove_cache_file-Does,
  invalidate_header-Does, capture-Does,
}

module _ (Allowed : String → Type 0) (Sweeps : Type 0) (from : Db) (c : Settings) (now : ℕ) where
  abbrev Pure : {A : Type 0} → Act A → Type 0
  Pure = Does c.mount_id Allowed Sweeps from

  abbrev pub one :
      {A : Type 0} (k : Exec A)
      → ((db : Db) → PollStep c.mount_id Allowed Sweeps db (k db).1)
      → Pure (on_db k)
  one = step c.mount_id Allowed Sweeps from

  keep_content-Does : (i : ℕ) (o : Outcome (Option FileEntry)) → Pure (keep_content c now i o)
  keep_content-Does i (fault e) = Maintains-return tt
  keep_content-Does i (done none) = Maintains-return tt
  keep_content-Does i (done (some e)) = record {
    at = λ w s. elim (Option-cases e.cache_path) [
      | inl absent ↦ rw (absent, keep_content) s
      | inr (p, there) ↦
          rw (there, keep_content)
            ((Maintains-logged _ (
                capture-Does c.mount_id Allowed Sweeps from c.sha256 now c.version_max_size
                  c.version_retention _ refl)).at
              w s)
    ];
  }

  keep_known-Does : (o : Option RemoteSnapshot) → Pure (keep_known c now o)
  unfolding Files.get_by_inode
  keep_known-Does none = Maintains-return tt
  keep_known-Does (some s) =
      Maintains-if (is_cached s.status) _ _
        (Maintains-attempt (on_db (Files.get_by_inode s.inode)) (keep_content c now s.inode)
          (Maintains-on_db _ (Keeps-gets _)) (keep_content-Does s.inode))
        (Maintains-return tt)

  pub keep_version-Does :
      (snaps : List RemoteSnapshot) (e : RemoteMetadata) → Pure (keep_version c now snaps e)
  unfolding keep_version
  keep_version-Does snaps e =
      Maintains-if (ltb 0 c.version_retention) _ _ (keep_known-Does (snapshot_of e.path snaps))
        (Maintains-return tt)

  pub keep_versions-Does :
      (snaps : List RemoteSnapshot) (es : List RemoteMetadata) → Pure (keep_versions c now snaps es)
  keep_versions-Does snaps [] = Maintains-return tt
  keep_versions-Does snaps (e ∷ es) =
      Maintains-bind _ _ (keep_version-Does snaps e) (λ u. keep_versions-Does snaps es)

  pub apply_one-Does :
      (gen : ℕ) (e : RemoteMetadata) (inodes : Texts ℕ)
      → Allowed e.path
      → Pure (apply_one c now gen e inodes)
  unfolding apply_one
  apply_one-Does gen e inodes a =
      Maintains-bind _ _
        (step c.mount_id Allowed Sweeps from
          (Remote.upsert_remote_file_by_id_or_path c.mount_id _ e.item_id gen)
          (λ db. upsert _ e.item_id gen a))
        (λ i.
          Maintains-bind _ _ (invalidate_header-Does c.mount_id Allowed Sweeps from i)
            (λ u. Maintains-return _))

  apply_all-Does :
      (gen : ℕ) (es : List RemoteMetadata) (inodes : Texts ℕ)
      → All (λ e. Allowed e.path) es
      → Pure (apply_all c now gen es inodes)
  apply_all-Does gen [] inodes a = Maintains-return inodes
  apply_all-Does gen (e ∷ es) inodes a =
      Maintains-bind _ _ (apply_one-Does gen e inodes a.0) (λ is. apply_all-Does gen es is a.1)

  pub clean_up-Does : (ds : List (ℕ × String × Option String)) → Pure (clean_up ds)
  clean_up-Does [] = Maintains-return tt
  clean_up-Does ((i, path, none) ∷ ds) = Maintains-bind _ _ (Maintains-return tt) λ u.
      Maintains-bind _ _ (invalidate_header-Does c.mount_id Allowed Sweeps from i)
        (λ u. clean_up-Does ds)
  clean_up-Does ((i, path, some p) ∷ ds) =
      Maintains-bind _ _ (remove_cache_file-Does c.mount_id Allowed Sweeps from p) λ u.
        Maintains-bind _ _ (invalidate_header-Does c.mount_id Allowed Sweeps from i)
          (λ u. clean_up-Does ds)

  pub apply_diff-Does :
      (snaps : List RemoteSnapshot) (gen : ℕ) (d : Diff)
      → Sweeps
      → All (λ e. Allowed e.path) d.to_upsert
      → Pure (apply_diff c now snaps gen d)
  unfolding apply_diff Poll.set_poll_generation
  apply_diff-Does snaps gen d sw a =
      Maintains-bind _ _
        (apply_all-Does gen _ (known_inodes snaps) (sort_by-All shorter _ d.to_upsert a))
        λ is.
          Maintains-bind _ _
            (one (Poll.batch_mark_generation d.unchanged_inodes gen) (λ db. mark _ gen sw))
            λ u.
              Maintains-bind _ _
                (one (Poll.delete_stale_entries c.mount_id gen) (λ db. sweep gen sw))
                λ ds. Maintains-bind _ _ (clean_up-Does ds) λ u.
                  Maintains-bind _ _
                    (one (Poll.set_change_token now c.mount_id (c.show gen))
                      (λ db. set_token now _ sw))
                    λ u.
                      Maintains-bind _ _
                        (Maintains-logged _
                          (one (Poll.cleanup_expired_tombstones now) (λ db. expire now sw)))
                        λ u. Maintains-logged _ (
                          one (Files.batch_mark_dirs_listed now c.mount_id)
                            (λ db. list_dirs now sw))
