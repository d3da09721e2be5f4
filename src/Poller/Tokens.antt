-- ===== src/Poller/Tokens.antt =====
-- The change token of a delta poll: it moves on with the changes, or stays for the next poll.
use stratosync.Common.{
  ℕ, ◌≡◌, String, Bool, not, ◌&&◌, Option, none, some, List, first, arith, Option-cases, inl, inr,
}
use stratosync.Types.SyncStatus.{is_unsynced}
use stratosync.State.Tables.{FileRow, TokenRow, Db, Exec}
use stratosync.State.Statement
use stratosync.State.Statement.{at_path, at_inode, next_inode}
use stratosync.State.Preserve.{Keeps}
use stratosync.State.Keeps.{Keeps-pure, Keeps-gets, Keeps-bind, Keeps-if}
use stratosync.State.Remote
use stratosync.State.Remote.{RemoteEntry}

pub record HasTokens (ts : List TokenRow) (db : Db) : Type 0 where
  pub tokens : db.tokens ≡ ts

module _ (ts : List TokenRow) where
  abbrev Kept : {A : Type 0} → Exec A → Type 0
  Kept = Keeps (HasTokens ts)

  aside-HasTokens : {A : Type 0} (k : Exec A) → ((db : Db) → (k db).1.tokens ≡ db.tokens) → Kept k
  aside-HasTokens k same = record { at = λ db h. record { tokens = rw (same db) h.tokens } }

  update_keys-HasTokens : (i : ℕ) (f : FileRow → FileRow) → Kept (Statement.update_keys i f)
  unfolding Statement.update_keys
  update_keys-HasTokens i f = aside-HasTokens (Statement.update_keys i f) (λ db. ground arith)

  insert_row-HasTokens : (r : FileRow) → Kept (Statement.insert_row r)
  unfolding Statement.insert_row
  insert_row-HasTokens r = aside-HasTokens (Statement.insert_row r) (λ db. ground arith)

  delete_files-HasTokens : (p : FileRow → Bool) → Kept (Statement.delete_files p)
  unfolding Statement.delete_files Statement.cascade
  delete_files-HasTokens p = aside-HasTokens (Statement.delete_files p) (λ db. ground arith)

  inode_at-HasTokens : (m : ℕ) (p : String) → Kept (Remote.inode_at m p)
  inode_at-HasTokens m p = aside-HasTokens (Remote.inode_at m p) λ db.
      elim (Option-cases (first (at_path m p) db.files)) [
        | inl absent ↦ rw (absent, Remote.inode_at)
        | inr (r, there) ↦ rw (there, Remote.inode_at)
      ]

  upsert_path-HasTokens :
      (m : ℕ) (e : RemoteEntry) (id : Option String) (gen : ℕ) (change : FileRow → FileRow)
      → Kept (Remote.upsert_path m e id gen change)
  unfolding Remote.upsert_path
  upsert_path-HasTokens m e id gen change = record {
    at = λ db h. elim (Option-cases (first (at_path m e.remote_path) db.files)) [
      | inl absent ↦ rw (absent, Remote.upsert_path) ((insert_row-HasTokens _).at db h)
      | inr (r, there) ↦
          rw (there, Remote.upsert_path) ((update_keys-HasTokens r.inode change).at db h)
    ];
  }

  upsert_found-HasTokens :
      (m : ℕ) (e : RemoteEntry) (id : Option String) (gen : ℕ) (o : Option FileRow)
      → Kept (Remote.upsert_found m e id gen o)
  unfolding Remote.upsert_by_path Remote.upsert_by_id
  upsert_found-HasTokens m e id gen none =
      Keeps-bind _ _ (upsert_path-HasTokens m e id gen _) (λ n. inode_at-HasTokens m e.remote_path)
  upsert_found-HasTokens m e id gen (some found) =
      Keeps-bind _ _ (Keeps-if _ _ _ (Keeps-pure 0) (delete_files-HasTokens _))
        λ k. Keeps-bind _ _ (update_keys-HasTokens _ _) (λ n. Keeps-pure found.inode)

  existing-HasTokens : (m : ℕ) (o : Option String) → Kept (Remote.existing_inode_by_id m o)
  unfolding Remote.existing_inode_by_id
  existing-HasTokens m none = Keeps-pure none
  existing-HasTokens m (some id) = Keeps-gets _

  pub upsert-HasTokens :
      (m : ℕ) (e : RemoteEntry) (id : Option String) (gen : ℕ)
      → Kept (Remote.upsert_remote_file_by_id_or_path m e id gen)
  unfolding Remote.upsert_remote_file_by_id_or_path
  upsert-HasTokens m e id gen =
      Keeps-bind _ _ (existing-HasTokens m id) (upsert_found-HasTokens m e id gen)

  pub delete_selected-HasTokens : (p : FileRow → Bool) → Kept (Remote.delete_selected p)
  unfolding Remote.delete_selected
  delete_selected-HasTokens p = record {
    at = λ db h. elim (Option-cases (first (λ r. p r && not (is_unsynced r.status)) db.files)) [
      | inl absent ↦ rw (absent, Remote.delete_selected) h
      | inr (r, there) ↦
          rw (there, Remote.delete_selected)
            ((Keeps-bind _ _ (delete_files-HasTokens (at_inode r.inode)) (λ n. Keeps-pure _)).at db
              h)
    ];
  }
