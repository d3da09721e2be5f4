-- ===== src/State/RemoteKeeps.antt =====
-- Every method by which the poller writes keeps `IsValid`: upserts, marks and guarded deletes.
use stratosync.Common.{
  ℕ, String, Bool, not, ◌&&◌, is_none, ◌≡◌, refl, Option, none, some, List, [], ◌∷◌, inl, inr,
  first, Option-cases, chunks,
}
use stratosync.Types.SyncStatus.{is_unsynced}
use stratosync.State.Tables.{FileRow}
use stratosync.State.Statement.{at_inode, at_path, at_item, next_inode}
use stratosync.State.Valid.{IsValid}
use stratosync.State.Preserve.{
  Keeps, update_files-IsValid, update_keys-IsValid, insert_row-IsValid, delete_files-IsValid,
}
use stratosync.State.Remote
use stratosync.State.Remote.{
  RemoteEntry, upsert_path, upsert_one, upsert_all, transaction, refreshed,
}
use stratosync.State.Poll
use stratosync.State.Keeps.{Keeps-transaction, cells, Keeps-pure, Keeps-gets, Keeps-bind, Keeps-if}

module _ (m : ℕ) (e : RemoteEntry) (gen : ℕ) where
  upsert_path-IsValid :
      (id : Option String) (change : FileRow → FileRow)
      → ((r : FileRow) → (change r).inode ≡ r.inode)
      → Keeps IsValid (upsert_path m e id gen change)
  unfolding upsert_path
  upsert_path-IsValid id change same = record {
    at = λ db v. elim (Option-cases (first (at_path m e.remote_path) db.files)) [
      | inl absent ↦
          rw (absent, upsert_path)
            ((insert_row-IsValid (Remote.remote_row (next_inode db) m e id gen)).at db v)
      | inr (r, present) ↦
          rw (present, upsert_path) ((update_keys-IsValid r.inode change same).at db v)
    ];
  }

  inode_at-IsValid : (path : String) → Keeps IsValid (Remote.inode_at m path)
  inode_at-IsValid path = record {
    at = λ db v. elim (Option-cases (first (at_path m path) db.files)) [
      | inl absent ↦ rw (absent, Remote.inode_at) v
      | inr (r, present) ↦ rw (present, Remote.inode_at) v
    ];
  }

  upsert_by_path-IsValid : (id : Option String) → Keeps IsValid (Remote.upsert_by_path m e id gen)
  unfolding Remote.upsert_by_path
  upsert_by_path-IsValid id =
      Keeps-bind _ _ (upsert_path-IsValid id _ (λ r. refl)) (λ n. inode_at-IsValid e.remote_path)

  upsert_by_id-IsValid : (found : FileRow) → Keeps IsValid (Remote.upsert_by_id m e gen found)
  unfolding Remote.upsert_by_id
  upsert_by_id-IsValid found =
      Keeps-bind _ _ (Keeps-if _ _ _ (Keeps-pure 0) (delete_files-IsValid _))
        λ k. Keeps-bind _ _ (update_keys-IsValid _ _ (λ r. refl)) (λ n. Keeps-pure found.inode)

  upsert_found-IsValid :
      (id : Option String) (o : Option FileRow) → Keeps IsValid (Remote.upsert_found m e id gen o)
  upsert_found-IsValid id none = upsert_by_path-IsValid id
  upsert_found-IsValid id (some r) = upsert_by_id-IsValid r

existing-IsValid : (m : ℕ) (id : Option String) → Keeps IsValid (Remote.existing_inode_by_id m id)
unfolding Remote.existing_inode_by_id
existing-IsValid m none = Keeps-pure none
existing-IsValid m (some id) = Keeps-gets _

pub upsert_remote_file_by_id_or_path-IsValid :
    (m : ℕ) (e : RemoteEntry) (id : Option String) (gen : ℕ)
    → Keeps IsValid (Remote.upsert_remote_file_by_id_or_path m e id gen)
unfolding Remote.upsert_remote_file_by_id_or_path
upsert_remote_file_by_id_or_path-IsValid m e id gen =
    Keeps-bind _ _ (existing-IsValid m id) (λ o. upsert_found-IsValid m e gen id o)

upsert_all-IsValid : (m gen : ℕ) (es : List RemoteEntry) → Keeps IsValid (upsert_all m gen es)
unfolding upsert_one
upsert_all-IsValid m gen [] = Keeps-pure tt
upsert_all-IsValid m gen (e ∷ es) =
    Keeps-bind _ _ (upsert_path-IsValid m e gen none _ (λ r. refl))
      (λ n. upsert_all-IsValid m gen es)

upsert_chunks-IsValid :
    (m gen : ℕ) (cs : List (List RemoteEntry)) → Keeps IsValid (Remote.upsert_chunks m gen cs)
upsert_chunks-IsValid m gen [] = Keeps-pure tt
upsert_chunks-IsValid m gen (c ∷ cs) =
    Keeps-bind _ _ (Keeps-transaction _ (upsert_all-IsValid m gen c))
      (λ u. upsert_chunks-IsValid m gen cs)

pub batch_upsert_remote_files_gen-IsValid :
    (m : ℕ) (es : List RemoteEntry) (gen : ℕ)
    → Keeps IsValid (Remote.batch_upsert_remote_files_gen m es gen)
unfolding Remote.batch_upsert_remote_files_gen
batch_upsert_remote_files_gen-IsValid m es gen = upsert_chunks-IsValid m gen (chunks 1000 es)

mark_all-IsValid : (is : List ℕ) (gen : ℕ) → Keeps IsValid (Poll.mark_all is gen)
mark_all-IsValid [] gen = Keeps-pure tt
mark_all-IsValid (i ∷ is) gen =
    Keeps-bind _ _ (update_files-IsValid _ _ (λ r. cells r)) (λ n. mark_all-IsValid is gen)

mark_chunks-IsValid : (cs : List (List ℕ)) (gen : ℕ) → Keeps IsValid (Poll.mark_chunks cs gen)
mark_chunks-IsValid [] gen = Keeps-pure tt
mark_chunks-IsValid (c ∷ cs) gen =
    Keeps-bind _ _ (Keeps-transaction _ (mark_all-IsValid c gen)) (λ u. mark_chunks-IsValid cs gen)

pub batch_mark_generation-IsValid :
    (is : List ℕ) (gen : ℕ) → Keeps IsValid (Poll.batch_mark_generation is gen)
unfolding Poll.batch_mark_generation
batch_mark_generation-IsValid is gen = mark_chunks-IsValid (chunks 1000 is) gen

delete_each-IsValid : (rs : List FileRow) → Keeps IsValid (Poll.delete_each rs)
unfolding Poll.delete_each
delete_each-IsValid [] = Keeps-pure tt
delete_each-IsValid (r ∷ rs) = Keeps-bind _ _ (delete_files-IsValid _) (λ n. delete_each-IsValid rs)

pub delete_stale_entries-IsValid : (m gen : ℕ) → Keeps IsValid (Poll.delete_stale_entries m gen)
unfolding Poll.delete_stale_entries
delete_stale_entries-IsValid m gen = record {
  at = λ db v. (Keeps-bind _ _ (delete_each-IsValid _) (λ u. Keeps-pure _)).at db v;
}

delete_selected-IsValid : (p : FileRow → Bool) → Keeps IsValid (Remote.delete_selected p)
unfolding Remote.delete_selected
delete_selected-IsValid p = record {
  at = λ db v. elim (Option-cases (first (λ r. p r && not (is_unsynced r.status)) db.files)) [
    | inl absent ↦ rw (absent, Remote.delete_selected) v
    | inr (r, present) ↦
        rw (present, Remote.delete_selected)
          ((Keeps-bind _ _ (delete_files-IsValid (at_inode r.inode)) (λ n. Keeps-pure _)).at db v)
  ];
}

pub delete_remote_entry_by_path-IsValid :
    (m : ℕ) (path : String) → Keeps IsValid (Remote.delete_remote_entry_by_path m path)
unfolding Remote.delete_remote_entry_by_path
delete_remote_entry_by_path-IsValid m path = delete_selected-IsValid (at_path m path)

pub delete_remote_entry_by_item_id-IsValid :
    (m : ℕ) (id : String) → Keeps IsValid (Remote.delete_remote_entry_by_item_id m id)
unfolding Remote.delete_remote_entry_by_item_id
delete_remote_entry_by_item_id-IsValid m id = delete_selected-IsValid (at_item m id)

pub set_item_id_if_absent-IsValid :
    (i : ℕ) (id : String) → Keeps IsValid (Remote.set_item_id_if_absent i id)
unfolding Remote.set_item_id_if_absent
set_item_id_if_absent-IsValid i id = record {
  at = λ db v.
      elim (Option-cases (first (λ r. at_inode i r && is_none r.remote_item_id) db.files)) [
        | inl absent ↦ rw (absent, Remote.set_item_id_if_absent) v
        | inr (r, present) ↦
            rw (present, Remote.set_item_id_if_absent)
              ((Keeps-bind _ _ (update_keys-IsValid i _ (λ q. refl)) (λ n. Keeps-pure _)).at db v)
      ];
}
