-- ===== src/Sync/Captures.antt =====
-- What holds of the database after a snapshot, where the two calls of it that write keep it.
use stratosync.Common.{ℕ, ◌≡◌, arith, String, List, [], ◌∷◌, ◌==◌, ◌||◌, not, ltb}
use stratosync.State.Tables.{Db}
use stratosync.State.Preserve.{Keeps}
use stratosync.State.Versions
use stratosync.Sync.World.{World, Act, exists}
use stratosync.Sync.BaseStore.{store_base, remove_object}
use stratosync.Sync.Backed.{remove_object-db}
use stratosync.Sync.Versioning.{Snapshot, capture, record_version, remove_all}
use stratosync.Sync.Rules.{
  Maintains, OfDb, Maintains-return, Maintains-bind, Maintains-logged, Maintains-on_db,
  Maintains-aside, chosen,
}

store_base-db :
    (sha256 : String → String) (p : String) (w : World) → (store_base sha256 p w).1.db ≡ w.db
unfolding store_base
store_base-db sha256 p w = ground arith

module _ (Q : Db → Type 0) where
  abbrev Has : {A : Type 0} → Act A → Type 0
  Has = Maintains (OfDb Q)

  pub store_base-Maintains : (sha256 : String → String) (p : String) → Has (store_base sha256 p)
  store_base-Maintains sha256 p =
      Maintains-aside (store_base sha256 p) (λ w h. rw (store_base-db sha256 p w) h)

  remove_all-Maintains : (hs : List String) → Has (remove_all hs)
  remove_all-Maintains [] = Maintains-return tt
  remove_all-Maintains (h ∷ hs) =
      Maintains-bind _ _
        (Maintains-logged _
          (Maintains-aside (remove_object h) (λ w s. rw (remove_object-db h w) s)))
        (λ u. remove_all-Maintains hs)

  module _ (sha256 : String → String) (now max_size retention : ℕ) (v : Snapshot)
      (adds : (hash : String)
        → Keeps Q
            (Versions.insert_version_history now v.inode v.mount_id hash v.size v.etag v.source))
      (drops : Keeps Q (Versions.prune_version_history v.inode retention)) where
    pub capture-Maintains : Has (capture sha256 now max_size retention v)
    unfolding capture
    capture-Maintains = record {
      at = λ w s. chosen (OfDb Q) (retention == 0 || ltb max_size v.size) _ _ s (
          chosen (OfDb Q) (not (exists v.cache_path w.files)) _ _ s (
            (Maintains-bind (store_base sha256 v.cache_path)
                (record_version sha256 now max_size retention v)
                (store_base-Maintains sha256 v.cache_path)
                (λ hash.
                  Maintains-bind _ _ (Maintains-on_db _ (adds hash))
                    λ n. Maintains-bind _ _ (Maintains-on_db _ drops) remove_all-Maintains)).at
              w s));
    }
