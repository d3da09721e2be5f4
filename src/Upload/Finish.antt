-- ===== src/Upload/Finish.antt =====
-- What a finished upload leaves behind.
use stratosync.Common.{ℕ, String, Option, lookup}
use stratosync.Types.Metadata.{RemoteMetadata}
use stratosync.State.Tables.{Db, Exec, SqlError, after_upload}
use stratosync.State.Versions
use stratosync.State.Preserve.{Keeps}
use stratosync.Sync.BaseStore.{is_text_mergeable}
use stratosync.Sync.Rules.{
  Maintains, OfDb, Maintains-return, Maintains-bind, Maintains-if, Maintains-logged,
  Maintains-on_db,
}
use stratosync.Sync.Captures.{capture-Maintains, store_base-Maintains}
use stratosync.Upload.Run.{snapshots, take_base, Job, as_fatal, keep_base}

module _ (Q : Db → Type 0) where
  Maintains-as_fatal :
      {A : Type 0} (show : SqlError → String) (m : Exec A)
      → Keeps Q m
      → Maintains (OfDb Q) (as_fatal show m)
  Maintains-as_fatal show m k = record { at = λ w h. record { db = k.at w.db h.db } }

  module _ (j : Job) (now i : ℕ) where
    module _
        (based : (hash : String) → Keeps Q (Versions.set_base_hash now i j.mount_id hash 0)) where
      keep_base-Maintains :
          (path : String) (size : ℕ) (content : Option String)
          → Maintains (OfDb Q) (keep_base j now i path size content)
      keep_base-Maintains path size content =
          Maintains-if
            (is_text_mergeable j.lower (j.extension path) (j.file_name path) content size
              j.base_max_size j.text_extensions)
            _ _
            (Maintains-logged _ (
              Maintains-bind _ _ (store_base-Maintains Q j.sha256 path)
                (λ hash. Maintains-on_db _ (based hash))))
            (Maintains-return tt)

      module _
          (adds : (hash : String) (size : ℕ) (etag : Option String)
            → Keeps Q
                (Versions.insert_version_history now i j.mount_id hash size etag after_upload))
          (drops : Keeps Q (Versions.prune_version_history i j.version_retention)) where
        -- What follows `set_uploaded`.
        pub snapshots-Maintains :
            (path : String) (meta : RemoteMetadata)
            → Maintains (OfDb Q) (snapshots j now i path meta)
        snapshots-Maintains path meta =
            Maintains-bind _ (λ u. take_base j now i path meta.size)
              (Maintains-logged _ (
                capture-Maintains Q j.sha256 now j.base_max_size j.version_retention _
                  (λ hash. adds hash meta.size meta.etag) drops))
              (λ u. record {
                at = λ w h. (keep_base-Maintains path meta.size (lookup path w.files)).at w h;
              })
