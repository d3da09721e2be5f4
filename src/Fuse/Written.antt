-- ===== src/Fuse/Written.antt =====
-- What a write leaves behind.
use stratosync.Common.{
  ℕ, ◌≡◌, refl, String, Bool, true, false, ◌&&◌, some, List, [], ◌∷◌, ◌++◌, arith, All, some_of,
  len, lookup, is_none,
}
use stratosync.Types.FileKind.{is_file}
use stratosync.Types.SyncStatus.{dirty}
use stratosync.State.Tables.{FileRow, Db}
use stratosync.State.Statement.{at_inode, violates, update_files}
use stratosync.State.Files.{set_dirty_size}
use stratosync.Upload.Loop.{write}
use stratosync.Upload.Sent.{updated_rows}
use stratosync.Fuse.Handler.{Fs, OpenFile, Reply, okay, refused}
use stratosync.Fuse.Names.{Os}

-- Every row of the inode has changes of the size that are not uploaded.
pub record IsMarked (i size : ℕ) (db : Db) : Type 0 where
  pub rows : All (λ r. at_inode i r ≡ true → (r.status ≡ dirty) × (r.size ≡ size)) db.files

abbrev pub is_bare : ℕ → FileRow → Bool
is_bare i r = at_inode i r && is_file r.kind && is_none r.cache_path

abbrev marked : ℕ → FileRow → FileRow
marked size r = record r { status = dirty; size = size; cache_size = some size }

nothing_bare :
    (i size : ℕ) (xs : List FileRow)
    → some_of (is_bare i) xs ≡ false
    → some_of (λ r. at_inode i r && violates (marked size r)) xs ≡ false
nothing_bare i size [] h = refl
nothing_bare i size (x ∷ xs) h = ground (arith, nothing_bare i size xs)

pub set_dirty_size-IsMarked :
    (i size : ℕ) (db : Db)
    → some_of (is_bare i) db.files ≡ false
    → IsMarked i size (set_dirty_size i size db).1
unfolding set_dirty_size update_files
set_dirty_size-IsMarked i size db h = rw (nothing_bare i size db.files h) (record {
  rows =
      updated_rows i (marked size) (λ r. (r.status ≡ dirty) × (r.size ≡ size)) (λ r. (refl, refl))
        (λ r. refl) db.files;
})

-- What becomes of the rows: a row without a cache file keeps the update away.
pub data Noted (i size : ℕ) (before after : Db) : Type 0 where
  noted :
      some_of (is_bare i) before.files ≡ false → IsMarked i size after → Noted i size before after
  missed : some_of (is_bare i) before.files ≡ true → after ≡ before → Noted i size before after

module _ (os : Os) (offset : ℕ) (bytes : String) (f : OpenFile) (s : Fs) where
  pub data Written : Reply ℕ × Fs → Type 0 where
    rejected :
        {e : ℕ} {t : Fs}
        → t.world.db ≡ s.world.db
        → t.triggers ≡ s.triggers
        → Written (refused e, t)
    accepted :
        {t : Fs} (content : String)
        → lookup f.cache_path s.world.files ≡ some content
        → lookup f.cache_path t.world.files ≡ some (os.write content offset bytes).content
        → Noted f.inode (len (os.write content offset bytes).content) s.world.db t.world.db
        → t.triggers ≡ s.triggers ++ write f.inode ∷ []
        → Written (okay (len bytes), t)
