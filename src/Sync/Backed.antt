-- ===== src/Sync/Backed.antt =====
-- The blobs behind the version history and the base versions stay in the base store.
use stratosync.Common.{
  ◌&&◌, map, select, subst, ◌||◌, ltb, ℕ, String, true, not, ◌≡◌, refl, Option, List, [], ◌∷◌,
  arith, count, All, str_eq, str_eq_refl, Texts, lookup, store, erase, lookup-erase, Bool-cases,
  Option-cases, inl, inr, ◌==◌,
}
use stratosync.State.Tables.{VersionSource}
use stratosync.State.Statement.{has_inode, has_mount}
use stratosync.State.Keys.{str_eq_sym}
use stratosync.State.Rows.{All-append, All-reject, All-imp}
use stratosync.State.Versions.{
  insert_version_history, prune_version_history, unreferenced, stale_versions,
}
use stratosync.State.Prune.{select-passing}
use stratosync.Sync.World.{World, Outcome, done, fault, has_text, exists, on_db, ◌>>=◌}
use stratosync.Sync.BaseStore.{put_object, store_base, remove_object}
use stratosync.Sync.Versioning.{Snapshot, remove_all, record_version, capture}
use stratosync.Sync.Rules.{bound}

-- Every version and every base version has its blob, and a blob's name is the hash of its content.
pub record IsStored (sha256 : String → String) (w : World) : Type 0 where
  pub versions : All (λ v. exists v.object_hash w.objects ≡ true) w.db.versions
  pub bases : All (λ b. exists b.object_hash w.objects ≡ true) w.db.bases
  pub addressed : All (λ o. sha256 o.1 ≡ o.0) w.objects

module _ {A : Type 0} where
  exists-store :
      (h k : String) (c : A) (m : Texts A) → exists k m ≡ true → exists k (store h c m) ≡ true
  exists-store h k c m e = ground (arith, str_eq_sym h k, lookup-erase h k m)

  exists-store_same : (h : String) (c : A) (m : Texts A) → exists h (store h c m) ≡ true
  exists-store_same h c m = rw (str_eq_refl h)

  All-erase : (P : String × A → Type 0) (h : String) (m : Texts A) → All P m → All P (erase h m)
  All-erase P h [] p = tt
  All-erase P h ((k, a) ∷ m) p = elim (Bool-cases (str_eq k h)) [
    | inl e ↦ rw e (All-erase P h m p.1)
    | inr e ↦ rw e (p.0, All-erase P h m p.1)
  ]

-- Rows that do not refer to a blob keep theirs when it goes.
module _ {R : Type 0} (hash_of : R → String) (h : String) (m : Texts String) where
  pub kept_rows :
      (rs : List R)
      → (count (λ r. str_eq (hash_of r) h) rs == 0) ≡ true
      → All (λ r. exists (hash_of r) m ≡ true) rs
      → All (λ r. exists (hash_of r) (erase h m) ≡ true) rs
  kept_rows [] z p = tt
  kept_rows (r ∷ rs) z p =
      (ground (arith, lookup-erase h (hash_of r) m), kept_rows rs (ground arith) p.1)

pub remove_object-db : (h : String) (w : World) → (remove_object h w).1.db ≡ w.db
unfolding remove_object
remove_object-db h w = ground arith

module _ (sha256 : String → String) where
  -- What a stored hash promises.
  abbrev IsThere : Outcome String → World → Type 0
  IsThere (done h) w = exists h w.objects ≡ true
  IsThere (fault e) w = Unit

  put_object-IsStored :
      (c : String) (w : World)
      → IsStored sha256 w
      → let (r, w') = put_object sha256 c w in IsThere r w' × IsStored sha256 w'
  put_object-IsStored c w s = elim (Bool-cases (exists (sha256 c) w.objects)) [
    | inl e ↦ rw (e, put_object) (e, s)
    | inr e ↦ elim (Bool-cases (has_text (sha256 c) w.sealed)) [
      | inl f ↦ rw (e, f, put_object) (tt, s)
      | inr f ↦
          rw (e, f, put_object)
            (
              exists-store_same (sha256 c) c w.objects,
              record {
                versions =
                    All-imp (λ v h. exists-store (sha256 c) v.object_hash c w.objects h)
                      w.db.versions s.versions;
                bases =
                    All-imp (λ b h. exists-store (sha256 c) b.object_hash c w.objects h) w.db.bases
                      s.bases;
                addressed = (refl, All-erase _ (sha256 c) w.objects s.addressed);
              },
            )
    ]
  ]

  store_base-IsStored :
      (path : String) (w : World)
      → IsStored sha256 w
      → let (r, w') = store_base sha256 path w in IsThere r w' × IsStored sha256 w'
  unfolding store_base
  store_base-IsStored path w s = elim (Option-cases (lookup path w.files)) [
    | inl e ↦ rw (e, store_base) (tt, s)
    | inr (c, e) ↦ elim (Bool-cases (has_text path w.denied)) [
      | inl f ↦ rw (e, f, store_base) (tt, s)
      | inr f ↦ rw (e, f, store_base) (put_object-IsStored c w s)
    ]
  ]

  remove_object-IsStored :
      (h : String) (w : World)
      → unreferenced h w.db ≡ true
      → IsStored sha256 w
      → IsStored sha256 (remove_object h w).1
  unfolding remove_object
  remove_object-IsStored h w u s = elim (Bool-cases (not (exists h w.objects))) [
    | inl e ↦ rw (e, remove_object) s
    | inr e ↦ elim (Bool-cases (has_text h w.sealed)) [
      | inl f ↦ rw (e, f, remove_object) s
      | inr f ↦
          rw (e, f, remove_object)
            (record {
              versions =
                  kept_rows (λ v. v.object_hash) h w.objects w.db.versions (ground arith)
                    s.versions;
              bases = kept_rows (λ b. b.object_hash) h w.objects w.db.bases (ground arith) s.bases;
              addressed = All-erase _ h w.objects s.addressed;
            })
    ]
  ]

  remove_all-IsStored :
      (hs : List String) (w : World)
      → All (λ h. unreferenced h w.db ≡ true) hs
      → IsStored sha256 w
      → IsStored sha256 (remove_all hs w).1
  remove_all-IsStored [] w u s = s
  remove_all-IsStored (h ∷ hs) w u s =
      remove_all-IsStored hs (remove_object h w).1 (rw (remove_object-db h w) u.1)
        (remove_object-IsStored h w u.0 s)

  pruned-IsStored :
      (i retention : ℕ) (w : World)
      → IsStored sha256 w
      → IsStored sha256 ((on_db (prune_version_history i retention) >>= remove_all) w).1
  unfolding prune_version_history
  pruned-IsStored i retention w s =
      let db' = (prune_version_history i retention w.db).1 in
      let hashes = map (λ v. v.object_hash) (stale_versions i retention w.db) in
      remove_all-IsStored (select (λ h. unreferenced h db') hashes) (record w { db = db' })
        (select-passing (λ h. unreferenced h db') hashes)
        (record {
          versions =
              All-reject (λ v. exists v.object_hash w.objects ≡ true) _ w.db.versions s.versions;
          bases = s.bases;
          addressed = s.addressed;
        })

  inserted-IsStored :
      (now i m : ℕ) (h : String) (size : ℕ) (etag : Option String) (source : VersionSource)
      (w : World)
      → exists h w.objects ≡ true
      → IsStored sha256 w
      → IsStored sha256 (on_db (insert_version_history now i m h size etag source) w).1
  unfolding insert_version_history
  inserted-IsStored now i m h size etag source w e s =
      elim (Bool-cases (has_inode i w.db.files && has_mount m w.db)) [
        | inl f ↦
            rw (f, insert_version_history)
              (record {
                versions =
                    All-append (λ v. exists v.object_hash w.objects ≡ true) w.db.versions _
                      s.versions (e, tt);
                bases = s.bases;
                addressed = s.addressed;
              })
        | inr f ↦ rw (f, insert_version_history) s
      ]

  module _ (now max_size retention : ℕ) (v : Snapshot) where
    record_version-IsStored :
        (h : String) (w : World)
        → exists h w.objects ≡ true
        → IsStored sha256 w
        → IsStored sha256 (record_version sha256 now max_size retention v h w).1
    record_version-IsStored h w e s =
        let insert =
          on_db (insert_version_history now v.inode v.mount_id h v.size v.etag v.source) in
        bound (IsStored sha256) (insert w).0 _ (insert w).1
          (λ n _.
            pruned-IsStored v.inode retention (insert w).1
              (inserted-IsStored now v.inode v.mount_id h v.size v.etag v.source w e s))
          (inserted-IsStored now v.inode v.mount_id h v.size v.etag v.source w e s)

    -- A snapshot, whatever its outcome, leaves every version and every base version with its blob,
    -- and every blob under the hash of its content.
    pub capture-IsStored :
        (w : World)
        → IsStored sha256 w
        → IsStored sha256 (capture sha256 now max_size retention v w).1
    unfolding capture
    capture-IsStored w s = elim (Bool-cases (retention == 0 || ltb max_size v.size)) [
      | inl e ↦ rw (e, capture) s
      | inr e ↦ elim (Bool-cases (not (exists v.cache_path w.files))) [
        | inl f ↦ rw (e, f, capture) s
        | inr f ↦
            let stored = store_base-IsStored v.cache_path w s in
            let w' = (store_base sha256 v.cache_path w).1 in
            rw (e, f, capture)
              (bound (IsStored sha256) (store_base sha256 v.cache_path w).0 _ w'
                (λ h good.
                  record_version-IsStored h w' (subst (λ r. IsThere r w') good stored.0) stored.1)
                stored.1)
      ]
    ]
