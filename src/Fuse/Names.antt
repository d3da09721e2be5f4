-- ===== src/Fuse/Names.antt =====
-- The helpers on names and paths of crates/stratosync-daemon/src/fuse/write_ops.rs. What they ask of
-- the operating system and of Rust's `Path` are parameters.
use Prim.Native.Char.{code}
use Prim.Native.String
use stratosync.Common.{
  ℕ, ◌==◌, String, Bool, not, ◌&&◌, ◌||◌, Option, none, some, str_eq, contains, nul_text, unwrap_or,
  if◌then◌else◌,
}
use stratosync.Fuse.Handler.{Reply, okay, refused}
use stratosync.Fuse.Errno.{eio, einval, eacces, enospc, edquot}

-- `write` puts data at an offset of a content, and gives the raw number of the error that stops it,
-- if one does; `raw_error` is the number of the error where a path is refused.
pub record Written : Type 0 where
  pub content : String
  pub error : Option (Option ℕ)

pub record Os : Type 0 where
  pub there : String → Bool
  pub canonicalize : String → Option String
  pub join : String → String → String
  pub parent : String → Option String
  pub file_name : String → Option String
  pub starts_with : String → String → Bool
  pub write : String → ℕ → String → Written
  pub set_len : String → ℕ → String
  pub raw_error : String → Option ℕ

unfoldable pub io_errno : Option ℕ → ℕ
io_errno none = eio
io_errno (some c) = if c == enospc || c == edquot then enospc else c

unfoldable pub validate_filename : String → Reply (Unit {0})
validate_filename name =
    if str_eq name ""
      || str_eq name "."
      || str_eq name ".."
      || contains name "/"
      || contains name nul_text
    then refused einval
    else okay tt

-- `trim_start_matches('/')`
unfoldable pub trim_start_slashes : String → String
trim_start_slashes String.[] = String.[]
trim_start_slashes (String.◌∷◌ c s) =
    let rest = trim_start_slashes s in if code c == b'/' then rest else String.◌∷◌ c s

-- `trim_end_matches('/')`
unfoldable pub trim_end_slashes : String → String
trim_end_slashes String.[] = String.[]
trim_end_slashes (String.◌∷◌ c s) =
    let rest = trim_end_slashes s in
    if code c == b'/' && str_eq rest "" then String.[] else String.◌∷◌ c rest

unfoldable pub join_remote : String → String → String
unfolding trim_start_slashes trim_end_slashes
join_remote parent child =
    let p = trim_end_slashes (trim_start_slashes parent) in
    if str_eq p "" then child else String.◌++◌ p (String.◌++◌ "/" child)

module _ (os : Os) where
  -- The directory that is checked, for a path that is there and for one that is not.
  abbrev check_dir : String → String → Option String
  check_dir cache_dir candidate =
      if os.there candidate
      then os.canonicalize candidate
      else elim (os.canonicalize (unwrap_or (os.parent candidate) cache_dir)) [
        | none ↦ some candidate
        | some p ↦ some (os.join p (unwrap_or (os.file_name candidate) ""))
      ]

  abbrev within : String → String → Option String → Reply String
  within cache_dir candidate none = refused eio
  within cache_dir candidate (some p) =
      if not (os.starts_with p (unwrap_or (os.canonicalize cache_dir) cache_dir))
      then refused eacces
      else okay candidate

  unfoldable pub safe_cache_path : String → String → Reply String
  unfolding trim_start_slashes
  safe_cache_path cache_dir remote_path =
      let candidate = os.join cache_dir (trim_start_slashes remote_path) in
      within cache_dir candidate (check_dir cache_dir candidate)
