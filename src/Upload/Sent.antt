-- ===== src/Upload/Sent.antt =====
-- The row of a file whose upload has succeeded.
use stratosync.Common.{
  ℕ, ◌≡◌, refl, sym, subst, String, true, false, ◌&&◌, some, List, [], ◌∷◌, arith, All, update,
  some_of, Bool-cases, inl, inr,
}
use stratosync.Types.SyncStatus.{cached, uploading}
use stratosync.Types.FileKind.{is_file}
use stratosync.Types.Metadata.{RemoteMetadata}
use stratosync.State.Tables.{FileRow, Db, Exec, ok, after_upload}
use stratosync.State.Statement.{at_inode, violates, update_files, upsert_lru}
use stratosync.State.Files.{
  uploaded_row, FileEntry, set_uploaded, set_status, get_by_inode, touch_lru,
}
use stratosync.State.Versions
use stratosync.State.Preserve.{Keeps}
use stratosync.State.Keeps.{Result-cases}
use stratosync.Sync.World.{
  World, Act, Outcome, Fault, done, fault, bind_outcome, exists, has_text, ◌>>=◌, ◌>>◌,
}
use stratosync.Sync.Rules.{Maintains, OfDb}
use stratosync.Upload.Run.{
  Job, as_fatal, run_upload, uploaded, send, sent, snapshots, with_path, is_conflicted,
}
use stratosync.Upload.Finish.{snapshots-Maintains}

-- Every row of the inode is cached, with what the backend reported.
pub record IsSent (i : ℕ) (meta : RemoteMetadata) (db : Db) : Type 0 where
  pub rows :
      All
        (λ r.
          at_inode i r ≡ true → (r.status ≡ cached) × (r.etag ≡ meta.etag) × (r.size ≡ meta.size))
        db.files

module _ (i : ℕ) (f : FileRow → FileRow) (P : FileRow → Type 0) (to : (r : FileRow) → P (f r))
    (same : (r : FileRow) → (f r).inode ≡ r.inode) where
  pub updated_rows :
      (xs : List FileRow) → All (λ r. at_inode i r ≡ true → P r) (update (at_inode i) f xs)
  updated_rows [] = tt
  updated_rows (x ∷ xs) = elim (Bool-cases (at_inode i x)) [
    | inl e ↦ rw e ((λ h. to x), updated_rows xs)
    | inr e ↦ rw e ((λ h. absurd (ground arith)), updated_rows xs)
  ]

pub touch_lru-files : (now i : ℕ) (db : Db) → (touch_lru now i db).1.files ≡ db.files
unfolding touch_lru upsert_lru
touch_lru-files now i db = ground arith

module _ (now i : ℕ) (meta : RemoteMetadata) where
  abbrev changed : FileRow → FileRow
  changed = uploaded_row now meta.size meta.etag meta.mtime meta.size

  -- Where `set_uploaded` succeeds, the row is sent.
  set_uploaded-IsSent :
      (db : Db)
      → (set_uploaded now i meta.size meta.etag meta.mtime meta.size db).0 ≡ ok tt
      → IsSent i meta (set_uploaded now i meta.size meta.etag meta.mtime meta.size db).1
  unfolding set_uploaded update_files
  set_uploaded-IsSent db h =
      elim (Bool-cases (some_of (λ r. at_inode i r && violates (changed r)) db.files)) [
        | inl e ↦ let bad = rw e at h in absurd (ground arith)
        | inr e ↦ rw e (record {
          rows = rw (touch_lru-files now i _) (
              updated_rows i changed
                (λ r. (r.status ≡ cached) × (r.etag ≡ meta.etag) × (r.size ≡ meta.size))
                (λ r. (refl, refl, refl)) (λ r. refl) db.files);
        })
      ]

  aside-IsSent :
      {A : Type 0} (k : Exec A) → ((db : Db) → (k db).1.files ≡ db.files) → Keeps (IsSent i meta) k
  aside-IsSent k same = record { at = λ db h. record { rows = rw (same db) h.rows } }

  abbrev WhenDone : Outcome (Unit {0}) × World → Type 0
  WhenDone (done u, w) = IsSent i meta w.db
  WhenDone (fault e, w) = Unit

  in_any : (x : Outcome (Unit {0}) × World) → IsSent i meta x.1.db → WhenDone x
  in_any (done u, w) h = h
  in_any (fault e, w) h = tt

  module _ (j : Job) where
    snapshots-IsSent :
        (path : String) → Maintains (OfDb (IsSent i meta)) (snapshots j now i path meta)
    unfolding Versions.set_base_hash Versions.insert_version_history Versions.prune_version_history
    snapshots-IsSent path =
        snapshots-Maintains (IsSent i meta) j now i
          (λ hash.
            aside-IsSent (Versions.set_base_hash now i j.mount_id hash 0) (λ db. ground arith))
          (λ hash size etag.
            aside-IsSent
              (Versions.insert_version_history now i j.mount_id hash size etag after_upload)
              (λ db. ground arith))
          (aside-IsSent (Versions.prune_version_history i j.version_retention) (λ db. refl)) path
          meta

    uploaded-WhenDone : (path : String) (w : World) → WhenDone (uploaded j now i path meta w)
    uploaded-WhenDone path w = elim (Result-cases (end w.db).0) [
      | inl (u, good) ↦
          let next = record w { db = (end w.db).1 } in
          rw (good, uploaded)
            (in_any _
              ((snapshots-IsSent path).at next (record { db = set_uploaded-IsSent w.db good })).db)
      | inr (x, bad) ↦ rw (bad, uploaded) tt
    ]
      where
        end : Exec Unit
        end = set_uploaded now i meta.size meta.etag meta.mtime meta.size

entry-db : (i : ℕ) (db : Db) → (get_by_inode i db).1 ≡ db
unfolding get_by_inode
entry-db i db = refl

-- Where a run succeeds, the backend has answered with some metadata, and the row has them.
pub data Delivered (j : Job) (i : ℕ) (e : FileEntry) (path : String)
    : Outcome (Unit {0}) × World → Type 0 where
  failed : {x : Fault} {w : World} → Delivered j i e path (fault x, w)
  delivered :
      {w : World} (meta : RemoteMetadata) (v : World)
      → j.upload path e.remote_path e.etag v ≡ done meta
      → IsSent i meta w.db
      → Delivered j i e path (done tt, w)

module _ (j : Job) (now i : ℕ) (e : FileEntry) (path : String) where
  of_done :
      (meta : RemoteMetadata) (v : World)
      → j.upload path e.remote_path e.etag v ≡ done meta
      → (x : Outcome (Unit {0}) × World) → WhenDone now i meta x
      → Delivered j i e path x
  of_done meta v k (done u, w) h = delivered meta v k h
  of_done meta v k (fault x, w) h = failed

  answered :
      (r : Outcome RemoteMetadata) (v w : World)
      → j.upload path e.remote_path e.etag v ≡ r
      → Delivered j i e path (bind_outcome r (uploaded j now i path) w)
  answered (done meta) v w k =
      of_done meta v k (uploaded j now i path meta w) (uploaded-WhenDone now i meta j path w)
  answered (fault x) v w k = failed

  abbrev sending : Act Unit
  sending = do
    as_fatal j.show (set_status i uploading)
    meta ← sent j now i path e.remote_path e.etag
    uploaded j now i path meta

  sending-Delivered : (w : World) → Delivered j i e path (sending w)
  sending-Delivered w =
      let next = record w { db = (set_status i uploading w.db).1 } in
      elim (Result-cases (set_status i uploading w.db).0) [
        | inl (u, good) ↦
            rw (good, sending)
              (answered (j.upload path e.remote_path e.etag next) next (j.meanwhile next) refl)
        | inr (x, bad) ↦ rw (bad, sending) failed
      ]

  send-Delivered : (w : World) → Delivered j i e path (send j now i e path w)
  send-Delivered w = elim (Bool-cases (has_text path w.denied)) [
    | inl d ↦ rw (d, send) failed
    | inr d ↦ elim (Bool-cases (j.is_symlink path)) [
      | inl l ↦ rw (d, l, send) failed
      | inr l ↦ rw (d, l, send) (sending-Delivered w)
    ]
  ]

-- An upload of a file that has a cache file, and that is in no conflict, succeeds only with an answer
-- of the backend to the upload of that cache file; then the row is cached, with the etag and the
-- size of the answer. It is so whatever other tasks do meanwhile: a change of the file that they
-- mark in that time is marked as cached too.
pub run_upload-Delivered :
    (j : Job) (now i : ℕ) (e : FileEntry) (path : String) (w : World)
    → (get_by_inode i w.db).0 ≡ ok (some e)
    → is_conflicted j now i e.status ≡ false
    → is_file e.kind ≡ true
    → e.cache_path ≡ some path
    → exists path w.files ≡ true
    → Delivered j i e path (run_upload j now i w)
unfolding run_upload
run_upload-Delivered j now i e path w found calm file cache there =
    rw (found, entry-db i w.db, calm, file)
      (subst (λ p. Delivered j i e path (with_path j now i e p w)) (sym cache)
        (rw there (send-Delivered j now i e path w)))
