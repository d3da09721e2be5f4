-- ===== src/Conflict/Kept.antt =====
-- Where the versions of a file are after its conflict is resolved.
use stratosync.Common.{
  ℕ, ◌≡◌, ◌≢◌, ◌&&◌, refl, sym, ◌∙◌, String, Bool, true, false, some, lookup, store, erase,
  lookup-erase, lookup-store, str_eq, Bool-cases, Option-cases, inl, inr, ◌⊎◌, subst,
}
use stratosync.Types.Metadata.{RemoteMetadata}
use stratosync.State.Tables.{Exec}
use stratosync.State.Files.{FileEntry, set_cached}
use stratosync.Sync.World.{
  World, Outcome, done, fault, Fault, disk, on_db, has_text, remove_cache_file,
}
use stratosync.Conflict.Site.{
  Backend, IsFaithful, Site, Doing, next, locally, trying, asking, ◌>>=◌, ◌>>◌,
}
use stratosync.Conflict.Resolve.{
  Resolver, conflict_remote_path, write_file, file_len, read_file, upload_file, download_file,
  record_both, stat_or, insert_copy, keep_both_versions, after_merge, conflict_markers, compared,
  differing, wants_merge, resolve_at, resolve,
}

-- What a call leaves true.
record Leaves {R A : Type 0} (P : Site R → Type 0) (m : Doing R A) : Type 0 where
  at : (s : Site R) → P s → P (m s).1

module _ {R : Type 0} (P : Site R → Type 0) where
  Leaves-next :
      {A B : Type 0} (r : Outcome A) (f : A → Doing R B) (s : Site R)
      → ((a : A) → P (f a s).1)
      → P s
      → P (next r f s).1
  Leaves-next (done a) f s k p = k a
  Leaves-next (fault e) f s k p = p

  Leaves-bind :
      {A B : Type 0} (m : Doing R A) (f : A → Doing R B)
      → Leaves P m
      → ((a : A) → Leaves P (f a))
      → Leaves P (m >>= f)
  Leaves-bind m f k l = record {
    at = λ s p. Leaves-next (m s).0 f (m s).1 (λ a. (l a).at (m s).1 (k.at s p)) (k.at s p);
  }

  Leaves-trying :
      {A B : Type 0} (m : Doing R A) (f : Outcome A → Doing R B)
      → Leaves P m
      → ((o : Outcome A) → Leaves P (f o))
      → Leaves P (trying m f)
  Leaves-trying m f k l = record { at = λ s p. (l (m s).0).at (m s).1 (k.at s p) }

-- The content of the cache file, and what the remote has at two paths.
record Holds {R : Type 0} (b : Backend R) (path content p q : String) (at_p : String) (s : Site R)
    : Type 0 where
  here : lookup path s.world.files ≡ some content
  there : b.download p s.remote ≡ done at_p
  canonical : b.download q s.remote ≡ done content

module _ {R : Type 0} (c : Resolver R) (path content p q at_p : String) where
  abbrev Still : {A : Type 0} → Doing R A → Type 0
  Still = Leaves (Holds c.backend path content p q at_p)

  on_db-Still : {A : Type 0} (m : Exec A) → Still (locally (on_db m))
  on_db-Still m = record {
    at = λ s h. record { here = h.here; there = h.there; canonical = h.canonical };
  }

  asking-Still : {A : Type 0} (f : R → Outcome A) → Still (asking f)
  asking-Still f = record { at = λ s h. h }

  file_len-Still : (x : String) → Still (locally (file_len x))
  unfolding file_len
  file_len-Still x = record {
    at = λ s h. elim (Option-cases (lookup x s.world.files)) [
      | inl absent ↦ rw (absent, file_len) h
      | inr (a, found) ↦ rw (found, file_len) h
    ];
  }

  stat_or-Still :
      (e : FileEntry) (size : ℕ) (o : Outcome RemoteMetadata) → Still (stat_or c e size o)
  stat_or-Still e size (done m) = record { at = λ s h. h }
  stat_or-Still e size (fault x) = record { at = λ s h. h }

  insert_copy-Still :
      (e : FileEntry) (name copy : String) (size : ℕ) (o : Outcome RemoteMetadata)
      → Still (insert_copy c e name copy size o)
  insert_copy-Still e name copy size (done m) = on_db-Still _
  insert_copy-Still e name copy size (fault x) = on_db-Still _

  record_both-Still : (e : FileEntry) (x name copy : String) → Still (record_both c e x name copy)
  record_both-Still e x name copy =
      let P = Holds c.backend path content p q at_p in
      Leaves-bind P (locally (file_len x)) _ (file_len-Still x) λ size.
        Leaves-bind P (trying (asking (c.backend.stat e.remote_path)) (stat_or c e size)) _
          (Leaves-trying P _ (stat_or c e size) (asking-Still (c.backend.stat e.remote_path))
            (stat_or-Still e size))
          λ meta.
            Leaves-bind P
              (locally (on_db (set_cached c.clock e.inode x size meta.etag meta.mtime meta.size))) _
              (on_db-Still _)
              λ u.
                Leaves-bind P
                  (trying (asking (c.backend.stat copy)) (insert_copy c e name copy size)) _
                  (Leaves-trying P _ (insert_copy c e name copy size)
                    (asking-Still (c.backend.stat copy)) (insert_copy-Still e name copy size))
                  λ n. record { at = λ s h. h }

-- Where both versions are kept: the remote has the local one at the path of the copy, and the cache
-- file has what the remote has at the path of the file.
pub data BothKept {R : Type 0} (b : Backend R) (path local copy canonical : String)
    : Outcome (Unit {0}) × Site R → Type 0 where
  ended : {x : Fault} {s : Site R} → BothKept b path local copy canonical (fault x, s)
  both_kept :
      {s : Site R} (winner : String)
      → b.download copy s.remote ≡ done local
      → b.download canonical s.remote ≡ done winner
      → lookup path s.world.files ≡ some winner
      → BothKept b path local copy canonical (done tt, s)

of_holds :
    {R : Type 0} (b : Backend R) (path local copy canonical winner : String)
    (x : Outcome (Unit {0}) × Site R)
    → Holds b path winner copy canonical local x.1
    → BothKept b path local copy canonical x
of_holds b path local copy canonical winner (done u, s) h =
    both_kept winner h.there h.canonical h.here
of_holds b path local copy canonical winner (fault e, s) h = ended

module _ {R : Type 0} (c : Resolver R) (lawful : IsFaithful c.backend) (e : FileEntry)
    (path local name copy : String) where
  -- After the upload of the copy.
  downloaded :
      (o : Outcome String) (s : Site R)
      → c.backend.download e.remote_path s.remote ≡ o
      → c.backend.download copy s.remote ≡ done local
      → BothKept c.backend path local copy e.remote_path (
          ((λ (t : Site R). next o (λ content. locally (write_file path content)) t)
              >> record_both c e path name copy)
            s)
  unfolding write_file
  downloaded (fault x) s k l = ended
  downloaded (done winner) s k l = elim (Bool-cases (has_text path s.world.denied)) [
    | inl d ↦ rw d ended
    | inr d ↦ rw d (
        of_holds c.backend path local copy e.remote_path winner _ (
          (record_both-Still c path winner copy e.remote_path local e path name copy).at _
            (record { here = lookup-store path winner s.world.files; there = l; canonical = k })))
  ]

  sent :
      (s : Site R) (m : RemoteMetadata)
      → (c.backend.upload local copy s.remote).0 ≡ done m
      → let s' = record s { remote = (c.backend.upload local copy s.remote).1 } in
        BothKept c.backend path local copy e.remote_path
          ((download_file c e.remote_path path >> record_both c e path name copy) s')
  unfolding download_file
  sent s m good =
      let s' = record s { remote = (c.backend.upload local copy s.remote).1 } in
      downloaded (c.backend.download e.remote_path s'.remote) s' refl
        (lawful.upload_here local copy s.remote m good)

Outcome-cases :
    {A : Type 0} (o : Outcome A) → ((a : A) × (o ≡ done a)) ⊎ ((x : Fault) × (o ≡ fault x))
Outcome-cases (done a) = inl (a, refl)
Outcome-cases (fault x) = inr (x, refl)

read-done :
    (path local : String) (w : World)
    → lookup path w.files ≡ some local
    → has_text path w.denied ≡ false
    → read_file path w ≡ (done local, w)
unfolding read_file
read-done path local w here d = rw (here, d, read_file)

read-denied :
    (path local : String) (w : World)
    → lookup path w.files ≡ some local
    → has_text path w.denied ≡ true
    → read_file path w ≡ (fault disk, w)
unfolding read_file
read-denied path local w here d = rw (here, d, read_file)

-- Keeping both versions of a file, where it succeeds, leaves the local content at the remote under
-- the name of the copy, and in the cache file what the remote has under the name of the file, if
-- the remote keeps what an upload gives it.
pub keep_both_versions-BothKept :
    {R : Type 0} (c : Resolver R) (e : FileEntry) (path local : String) (s : Site R)
    → IsFaithful c.backend
    → lookup path s.world.files ≡ some local
    → BothKept c.backend path local
        (conflict_remote_path e.remote_path (c.conflict_name e.name local))
        e.remote_path
        (keep_both_versions c e path s)
unfolding keep_both_versions upload_file
keep_both_versions-BothKept {R = R} c e path local s lawful here =
    let name = c.conflict_name e.name local in
    let copy = conflict_remote_path e.remote_path name in
    elim (Bool-cases (has_text path s.world.denied)) [
      | inl d ↦ rw (here, read-denied path local s.world here d) ended
      | inr d ↦ elim (Outcome-cases (c.backend.upload local copy s.remote).0) [
        | inl (m, good) ↦
            rw (here, read-done path local s.world here d, good)
              (sent c lawful e path local name copy s m good)
        | inr (x, bad) ↦ rw (here, read-done path local s.world here d, bad) ended
      ]
    ]

-- After a merge that leaves conflict markers, where keeping both versions succeeds, the copy at the
-- remote is the text with the markers, and the cache file, to which that text was written, is again
-- the remote's version: the local content as it was is at neither place.
pub after_merge-BothKept :
    {R : Type 0} (c : Resolver R) (e : FileEntry) (path marked : String) (s : Site R)
    → IsFaithful c.backend
    → str_eq path (c.tmp_of path) ≡ false
    → BothKept c.backend path marked
        (conflict_remote_path e.remote_path (c.conflict_name e.name marked))
        e.remote_path
        (after_merge c e path (conflict_markers marked) s)
unfolding write_file remove_cache_file
after_merge-BothKept c e path marked s lawful apart =
    let files = store path marked s.world.files in
    let found : lookup path (erase (c.tmp_of path) files) ≡ some marked =
      lookup-erase (c.tmp_of path) path files apart ∙ lookup-store path marked s.world.files in
    elim (Bool-cases (has_text path s.world.denied)) [
      | inl d ↦ rw (d, write_file) ended
      | inr d ↦ elim (Bool-cases (has_text (c.tmp_of path) s.world.denied)) [
        | inl t ↦
            rw (d, t, write_file, remove_cache_file)
              (keep_both_versions-BothKept c e path marked
                (record s { world = let w = s.world in record w { files = files } }) lawful
                (lookup-store path marked s.world.files))
        | inr t ↦
            rw (d, t, write_file, remove_cache_file)
              (keep_both_versions-BothKept c e path marked
                (record s {
                  world = let w = s.world in record w { files = erase (c.tmp_of path) files };
                })
                lawful found)
      ]
    ]

compared-BothKept :
    {R : Type 0} (c : Resolver R) (e : FileEntry) (path local : String) (s : Site R)
    (o : Outcome (Bool × RemoteMetadata))
    → BothKept c.backend path local
        (conflict_remote_path e.remote_path (c.conflict_name e.name local))
        e.remote_path
        (differing c e path s)
    → ((m : RemoteMetadata) → o ≢ done (true, m))
    → BothKept c.backend path local
        (conflict_remote_path e.remote_path (c.conflict_name e.name local))
        e.remote_path
        (compared c e path o s)
compared-BothKept c e path local s (done (true, m)) b other = absurd (other m refl)
compared-BothKept c e path local s (done (false, m)) b other = b
compared-BothKept c e path local s (fault x) b other = b

-- The conflict of a file whose content is not found equal to the remote's, where merging is off: if
-- resolving it succeeds, the remote has the local content at the path of the copy, and the cache
-- file has the remote's version.
pub resolve-BothKept :
    {R : Type 0} (c : Resolver R) (e : FileEntry) (path local : String) (s : Site R)
    → IsFaithful c.backend
    → e.cache_path ≡ some path
    → lookup path s.world.files ≡ some local
    → (c.has_git && wants_merge c c.strategy) ≡ false
    → ((m : RemoteMetadata)
        → c.backend.local_eq_remote (lookup path s.world.files) e.remote_path s.remote
          ≢ done (true, m))
    → BothKept c.backend path local
        (conflict_remote_path e.remote_path (c.conflict_name e.name local))
        e.remote_path
        (resolve c e s)
unfolding resolve
resolve-BothKept c e path local s lawful cache here off other =
    let both = keep_both_versions-BothKept c e path local s lawful here in
    subst
      (λ p.
        BothKept c.backend path local
          (conflict_remote_path e.remote_path (c.conflict_name e.name local)) e.remote_path
          (resolve_at c e p s))
      (sym cache) (compared-BothKept c e path local s _ (rw (off, differing) both) other)
