-- ===== src/Sync/BaseStore.antt =====
-- `BaseStore`: blobs named by the hash of their content. A blob is kept under its hash; the path
-- that `object_path` makes of a hash, a directory of its first two digits and a file of the rest,
-- tells hashes apart. The hash function of the sha2 crate is the parameter `sha256`.
use stratosync.Common.{
  ℕ, String, Bool, true, false, not, Option, none, some, List, ltb, str_eq, contains, nul_text,
  slice, unwrap_or, lookup, store, erase, if◌then◌else◌, some_of,
}
use stratosync.Sync.World.{Act, done, fault, disk, has_text, exists}

module _ (sha256 : String → String) where
  -- A blob that is there is not written again.
  abbrev pub put_object : String → Act String
  put_object content w =
      let hash = sha256 content in
      if exists hash w.objects
      then (done hash, w)
      else if has_text hash w.sealed
      then (fault disk, w)
      else (done hash, record w { objects = store hash content w.objects })

  unfoldable pub store_base : String → Act String
  store_base path w = elim (lookup path w.files) [
    | none ↦ (fault disk, w)
    | some content ↦ if has_text path w.denied then (fault disk, w) else put_object content w
  ]

-- A blob that is not there is no error.
unfoldable pub remove_object : String → Act Unit
remove_object hash w =
    if not (exists hash w.objects)
    then (done tt, w)
    else if has_text hash w.sealed
    then (fault disk, w)
    else (done tt, record w { objects = erase hash w.objects })

-- `to_lowercase` of Rust is the parameter `lower`; `extension` and `file_name` of a path are its
-- arguments, and so is the content of the file, none where it cannot be read.
module _ (lower : String → String) where
  abbrev listed : List String → String → Bool
  listed exts e = some_of (λ x. str_eq (lower x) e) exts

  unfoldable pub is_text_mergeable :
      Option String → String → Option String → ℕ → ℕ → List String → Bool
  is_text_mergeable extension file_name content size max_size exts =
      if ltb max_size size
      then false
      else if not (listed exts (lower (unwrap_or extension file_name)))
      then false
      else elim content [ none ↦ true | some c ↦ not (contains (slice c 0 512) nul_text) ]
