-- ===== src/Poller/HiddenSteps.antt =====
-- A step of the poller brings no row to a path that it may not write.
use stratosync.Common.{
  ℕ, ◌≡◌, refl, String, Bool, false, not, ◌&&◌, Option, none, some, List, [], ◌∷◌, arith, str_eq,
  first, Option-cases, inl, inr, chunks,
}
use stratosync.Types.SyncStatus.{is_unsynced}
use stratosync.State.Tables.{FileRow, Db, Exec}
use stratosync.State.Statement.{at_path, at_inode, next_inode}
use stratosync.State.Preserve.{Keeps}
use stratosync.State.Keeps.{Keeps-pure, Keeps-gets, Keeps-bind, Keeps-if, Keeps-transaction}
use stratosync.State.Remote
use stratosync.State.Remote.{RemoteEntry}
use stratosync.State.Poll
use stratosync.State.Files
use stratosync.State.Versions
use stratosync.Poller.Hidden.{
  IsHidden, update_files-IsHidden, update_keys-IsHidden, insert_row-IsHidden, delete_files-IsHidden,
}
use stratosync.Poller.Steps.{PollStep, PollSteps}

module _ (m : ℕ) (path : String) where
  abbrev Kept : {A : Type 0} → Exec A → Type 0
  Kept = Keeps (IsHidden m path)

  existing-IsHidden : (o : Option String) → Kept (Remote.existing_inode_by_id m o)
  unfolding Remote.existing_inode_by_id
  existing-IsHidden none = Keeps-pure none
  existing-IsHidden (some id) = Keeps-gets _

  module _ (e : RemoteEntry) (gen : ℕ) (id : Option String)
      (away : str_eq e.remote_path path ≡ false) where
    upsert_path-IsHidden :
        (change : FileRow → FileRow)
        → ((r : FileRow) → at_path m path r ≡ false → at_path m path (change r) ≡ false)
        → Kept (Remote.upsert_path m e id gen change)
    unfolding Remote.upsert_path
    upsert_path-IsHidden change same = record {
      at = λ db h. elim (Option-cases (first (at_path m e.remote_path) db.files)) [
        | inl absent ↦
            rw (absent, Remote.upsert_path)
              ((insert_row-IsHidden m path (Remote.remote_row (next_inode db) m e id gen)
                  (ground (arith, away))).at
                db h)
        | inr (r, there) ↦
            rw (there, Remote.upsert_path)
              ((update_keys-IsHidden m path r.inode change same).at db h)
      ];
    }

    inode_at-IsHidden : (p : String) → Kept (Remote.inode_at m p)
    inode_at-IsHidden p = record {
      at = λ db h. elim (Option-cases (first (at_path m p) db.files)) [
        | inl absent ↦ rw (absent, Remote.inode_at) h
        | inr (r, there) ↦ rw (there, Remote.inode_at) h
      ];
    }

    upsert_found-IsHidden : (o : Option FileRow) → Kept (Remote.upsert_found m e id gen o)
    unfolding Remote.upsert_by_path Remote.upsert_by_id
    upsert_found-IsHidden none =
        Keeps-bind _ _ (upsert_path-IsHidden _ (λ r h. h)) (λ n. inode_at-IsHidden e.remote_path)
    upsert_found-IsHidden (some found) =
        Keeps-bind _ _ (Keeps-if _ _ _ (Keeps-pure 0) (delete_files-IsHidden m path _)) λ k.
          Keeps-bind _ _ (update_keys-IsHidden m path _ _ (λ r h. ground (arith, away)))
            λ n. Keeps-pure found.inode

    pub upsert-IsHidden : Kept (Remote.upsert_remote_file_by_id_or_path m e id gen)
    unfolding Remote.upsert_remote_file_by_id_or_path
    upsert-IsHidden = Keeps-bind _ _ (existing-IsHidden id) upsert_found-IsHidden

  mark_all-IsHidden : (is : List ℕ) (gen : ℕ) → Kept (Poll.mark_all is gen)
  mark_all-IsHidden [] gen = Keeps-pure tt
  mark_all-IsHidden (i ∷ is) gen =
      Keeps-bind _ _ (update_files-IsHidden m path _ _ (λ r h. h)) (λ n. mark_all-IsHidden is gen)

  mark_chunks-IsHidden : (cs : List (List ℕ)) (gen : ℕ) → Kept (Poll.mark_chunks cs gen)
  mark_chunks-IsHidden [] gen = Keeps-pure tt
  mark_chunks-IsHidden (c ∷ cs) gen =
      Keeps-bind _ _ (Keeps-transaction _ (mark_all-IsHidden c gen))
        (λ u. mark_chunks-IsHidden cs gen)

  delete_each-IsHidden : (rs : List FileRow) → Kept (Poll.delete_each rs)
  unfolding Poll.delete_each
  delete_each-IsHidden [] = Keeps-pure tt
  delete_each-IsHidden (r ∷ rs) =
      Keeps-bind _ _ (delete_files-IsHidden m path _) (λ n. delete_each-IsHidden rs)

  delete_selected-IsHidden : (p : FileRow → Bool) → Kept (Remote.delete_selected p)
  unfolding Remote.delete_selected
  delete_selected-IsHidden p = record {
    at = λ db h. elim (Option-cases (first (λ r. p r && not (is_unsynced r.status)) db.files)) [
      | inl absent ↦ rw (absent, Remote.delete_selected) h
      | inr (r, there) ↦
          rw (there, Remote.delete_selected)
            ((Keeps-bind _ _ (delete_files-IsHidden m path (at_inode r.inode))
                (λ n. Keeps-pure _)).at
              db h)
    ];
  }

  aside-IsHidden : {A : Type 0} (k : Exec A) → ((db : Db) → (k db).1.files ≡ db.files) → Kept k
  aside-IsHidden k same = record { at = λ db h. record { hidden = rw (same db) h.hidden } }

  PollStep-IsHidden :
      {Allowed : String → Type 0} {Sweeps : Type 0} {a b : Db}
      → ((p : String) → Allowed p → str_eq p path ≡ false)
      → PollStep m Allowed Sweeps a b
      → IsHidden m path a
      → IsHidden m path b
  unfolding Poll.batch_mark_generation Poll.delete_stale_entries Remote.delete_remote_entry_by_path
      Remote.delete_remote_entry_by_item_id Poll.set_change_token Poll.clear_change_token
      Poll.cleanup_expired_tombstones Files.batch_mark_dirs_listed Versions.insert_version_history
      Versions.prune_version_history
  PollStep-IsHidden away (PollStep.upsert e id gen ok) h =
      (upsert-IsHidden e gen id (away e.remote_path ok)).at _ h
  PollStep-IsHidden away (PollStep.mark is gen sw) h =
      (mark_chunks-IsHidden (chunks 1000 is) gen).at _ h
  PollStep-IsHidden away (PollStep.sweep gen sw) h =
      (Keeps-bind _ _ (delete_each-IsHidden _) (λ u. Keeps-pure _)).at _ h
  PollStep-IsHidden away (PollStep.forget_path p) h = (delete_selected-IsHidden _).at _ h
  PollStep-IsHidden away (PollStep.forget_item id) h = (delete_selected-IsHidden _).at _ h
  PollStep-IsHidden away (PollStep.set_token now token sw) h =
      (aside-IsHidden (Poll.set_change_token now m token) (λ db. ground arith)).at _ h
  PollStep-IsHidden away (PollStep.clear_token sw) h =
      (aside-IsHidden (Poll.clear_change_token m) (λ db. refl)).at _ h
  PollStep-IsHidden away (PollStep.expire now sw) h =
      (aside-IsHidden (Poll.cleanup_expired_tombstones now) (λ db. refl)).at _ h
  PollStep-IsHidden away (PollStep.list_dirs now sw) h =
      (update_files-IsHidden m path _ _ (λ r k. k)).at _ h
  PollStep-IsHidden away (PollStep.add_version now i hash size etag source) h =
      (aside-IsHidden (Versions.insert_version_history now i m hash size etag source)
          (λ db. ground arith)).at
        _ h
  PollStep-IsHidden away (PollStep.drop_versions i keep) h =
      (aside-IsHidden (Versions.prune_version_history i keep) (λ db. refl)).at _ h

  pub PollSteps-IsHidden :
      {Allowed : String → Type 0} {Sweeps : Type 0} {a b : Db}
      → ((p : String) → Allowed p → str_eq p path ≡ false)
      → PollSteps m Allowed Sweeps a b
      → IsHidden m path a
      → IsHidden m path b
  PollSteps-IsHidden away PollSteps.unchanged h = h
  PollSteps-IsHidden away (PollSteps.further s one) h =
      PollStep-IsHidden away one (PollSteps-IsHidden away s h)
