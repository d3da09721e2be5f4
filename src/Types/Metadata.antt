-- ===== src/Types/Metadata.antt =====
-- `RcloneLsJsonEntry`, `RemoteMetadata` and the conversion between them, of
-- crates/stratosync-core/src/types/mod.rs. A map of hashes is an association list. The RFC 3339
-- parser of the chrono crate is the parameter `parse_time`.
use stratosync.Common.{
  ℕ, String, Bool, Option, none, some, List, [], ◌∷◌, str_eq, unwrap_or, if◌then◌else◌,
}

-- An `i64`, as its sign and its size: `negsuc n` is -(n + 1).
pub data ℤ : Type 0 where
  pos negsuc : ℕ → ℤ

abbrev max_zero : ℤ → ℕ
max_zero (pos n) = n
max_zero (negsuc n) = 0

abbrev Hashes : Type 0
Hashes = List (String × String)

unfoldable pub get : String → Hashes → Option String
get k [] = none
get k ((j, v) ∷ m) = let rest = get k m in if str_eq j k then some v else rest

pub record RcloneLsJsonEntry : Type 0 where
  pub path : String
  pub name : String
  pub size : ℤ
  pub mime_type : Option String
  pub mod_time : String
  pub is_dir : Bool
  pub hashes : Option Hashes
  pub id : Option String

pub record RemoteMetadata : Type 0 where
  pub path : String
  pub name : String
  pub size : ℕ
  pub mtime : ℕ
  pub is_dir : Bool
  pub etag : Option String
  pub checksum : Option String
  pub mime_type : Option String
  pub item_id : Option String

-- `Option::or_else`.
abbrev or_else {ℓ} : {A : Type ℓ} → Option A → Option A → Option A
or_else none b = b
or_else (some a) b = some a

abbrev and_then {ℓ κ} : {A : Type ℓ} {B : Type κ} → Option A → (A → Option B) → Option B
and_then none f = none
and_then (some a) f = f a

unfoldable content_hash : Hashes → Option String
content_hash h =
    or_else (get "sha1" h)
      (or_else (get "SHA-1" h) (or_else (get "md5" h) (or_else (get "MD5" h) (get "quickxor" h))))

unfoldable checksum_of : Hashes → Option String
checksum_of h = or_else (get "sha256" h) (get "SHA-256" h)

-- `RemoteMetadata::try_from`; a time that does not parse is the epoch.
unfoldable pub try_from : (String → Option ℕ) → RcloneLsJsonEntry → RemoteMetadata
unfolding content_hash checksum_of
try_from parse_time e = record {
  path = e.path;
  name = e.name;
  size = max_zero e.size;
  mtime = unwrap_or (parse_time e.mod_time) 0;
  is_dir = e.is_dir;
  etag = or_else (and_then e.hashes content_hash) e.id;
  checksum = and_then e.hashes checksum_of;
  mime_type = e.mime_type;
  item_id = e.id;
}
