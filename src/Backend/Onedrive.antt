-- ===== src/Backend/Onedrive.antt =====
-- `OneDriveDelta` of crates/stratosync-core/src/backend/delta.rs: the pages of changes and the paths of
-- their items.
use Prim.Native.Char.{code}
use Prim.Native.String
use text.Mathlib.Text.{starts_with, find?}
use stratosync.Common.{
  ℕ, ◌==◌, String, Bool, true, false, not, ◌&&◌, ◌||◌, Option, none, some, List, [], ◌∷◌, ◌++◌,
  unwrap_or, str_eq, if◌then◌else◌,
}
use stratosync.Types.SyncError.{SyncError, network, fatal}
use stratosync.Types.Metadata.{RemoteMetadata, ℤ, pos}
use stratosync.Sync.World.{Outcome, done, fault, backend}
use stratosync.Poller.Delta.{RemoteChange, added, deleted}
use stratosync.Backend.Http.{Http, page, status, unsent, unread, onedrive_error}
use stratosync.Backend.Drive.{to_u64}
use stratosync.Backend.Hashes.{hash_to_hex}

-- `OneDriveHashes`
pub record OneDriveHashes : Type 0 where
  pub sha1_hash : Option String
  pub quick_xor_hash : Option String

-- `OneDriveFileInfo`
pub record OneDriveFileInfo : Type 0 where
  pub mime_type : Option String
  pub hashes : Option OneDriveHashes

-- `OneDriveItem`; of `folder` and `deleted` only their presence counts, and `parent_reference` is the path
-- that it holds, if any.
pub record OneDriveItem : Type 0 where
  pub id : String
  pub name : Option String
  pub size : Option ℤ
  pub last_modified : Option String
  pub parent_reference : Option (Option String)
  pub folder : Bool
  pub file : Option OneDriveFileInfo
  pub deleted : Bool

-- `OneDriveDeltaResponse`
pub record OneDrivePage : Type 0 where
  pub value : List OneDriveItem
  pub next_link : Option String
  pub delta_link : Option String

-- `str::strip_prefix`
abbrev pub strip_prefix : String → String → Option String
strip_prefix s p =
    if starts_with s p then some (String.slice s (String.len p) (String.len s)) else none

-- `trim_start_matches('/')`
abbrev trim_slashes : String → String
trim_slashes String.[] = ""
trim_slashes (String.◌∷◌ c s) =
    let rest = trim_slashes s in if code c == b'/' then rest else String.◌∷◌ c s

-- What follows the id of the drive, from the slash on.
abbrev pub root_form : String → Option String → Option String
root_form s (some rest) = some rest
root_form s none = if str_eq s "/root" then some "" else none

abbrev pub after_id : String → Option String
after_id s = root_form s (strip_prefix s "/root:")

abbrev pub from_slash : String → Option ℕ → Option String
from_slash s none = none
from_slash s (some i) = after_id (String.slice s i (String.len s))

abbrev pub specific_drive : Option String → Option String
specific_drive none = none
specific_drive (some s) = from_slash s (find? s "/")

abbrev pub or_other : String → Option String → Option String
or_other raw (some rest) = some rest
or_other raw none =
    let other = specific_drive (strip_prefix raw "/drives/") in
    if str_eq raw "/drive/root" then some "" else other

unfoldable pub strip_onedrive_root_prefix : String → Option String
strip_onedrive_root_prefix raw = or_other raw (strip_prefix raw "/drive/root:")

module _ (root_path : String) where
  abbrev nonempty : String → Option String
  nonempty s = if str_eq s "" then none else some s

  abbrev below : Option String → Option String
  below none = none
  below (some rest) = nonempty (trim_slashes rest)

  abbrev under_root : String → Option String
  under_root full_path =
      if str_eq root_path "" || str_eq root_path "/"
      then some full_path
      else below (strip_prefix full_path (trim_slashes root_path))

  abbrev full_path : String → String → String
  full_path parent name =
      if str_eq parent "" then name else String.◌++◌ (trim_slashes parent) (String.◌++◌ "/" name)

  abbrev pub in_folder : String → Option String → Option String
  in_folder name none = none
  in_folder name (some parent) = under_root (full_path parent name)

  abbrev pub of_parent : String → Option (Option String) → Option String
  of_parent name none = none
  of_parent name (some path) = in_folder name (strip_onedrive_root_prefix (unwrap_or path ""))

  abbrev pub of_name : Option String → Option (Option String) → Option String
  of_name none parent = none
  of_name (some name) parent = of_parent name parent

  -- `resolve_item_path`, of the item's name and parent reference.
  unfoldable pub resolve_item_path : OneDriveItem → Option String
  resolve_item_path item = of_name item.name item.parent_reference

-- `onedrive_content_etag`
module _ (decoders : List (String → Option (List ℕ))) where
  abbrev or_else : Option String → Option String → Option String
  or_else none b = b
  or_else (some a) b = some a

  abbrev normal : Option String → Option String
  normal none = none
  normal (some s) = hash_to_hex decoders s

  unfoldable pub onedrive_content_etag : OneDriveHashes → Option String
  onedrive_content_etag h = normal (or_else h.quick_xor_hash h.sha1_hash)

-- What is asked: `valid` and `refresh` are the error of `ensure_valid_token` and of `force_refresh_token`,
-- if any.
pub record Onedrive : Type 0 where
  pub root_path : String
  pub show : ℕ → String
  pub parse_time : String → Option ℕ
  pub decoders : List (String → Option (List ℕ))
  pub valid : Option SyncError
  pub refresh : Option SyncError

module _ (d : Onedrive) where
  abbrev time_of : Option String → ℕ
  time_of none = 0
  time_of (some s) = unwrap_or (d.parse_time s) 0

  abbrev etag_of : Option OneDriveFileInfo → Option String
  etag_of none = none
  etag_of (some f) = elim f.hashes [ none ↦ none | some h ↦ onedrive_content_etag d.decoders h ]

  abbrev mime_of : Option OneDriveFileInfo → Option String
  mime_of none = none
  mime_of (some f) = f.mime_type

  abbrev metadata : OneDriveItem → String → RemoteMetadata
  metadata item path = record {
    path = path;
    name = unwrap_or item.name "";
    size = to_u64 (unwrap_or item.size (pos 0));
    mtime = time_of item.last_modified;
    is_dir = item.folder;
    etag = etag_of item.file;
    checksum = none;
    mime_type = mime_of item.file;
    item_id = some item.id;
  }

  -- The nameless items and the root have no path.
  abbrev reported : OneDriveItem → Option String → Option RemoteChange
  reported item none = none
  reported item (some path) =
      some (if item.deleted then deleted path (some item.id) else added (metadata item path))

  unfoldable pub convert_item : OneDriveItem → Option RemoteChange
  convert_item item = reported item (resolve_item_path d.root_path item)

  abbrev pub items : List OneDriveItem → List RemoteChange
  items [] = []
  items (i ∷ is) = let rest = items is in elim (convert_item i) [ none ↦ rest | some r ↦ r ∷ rest ]

  abbrev Answer : Type 0
  Answer = Option (Outcome (List RemoteChange × String))

  abbrev after_refresh : Answer → Option SyncError → Answer
  after_refresh again none = again
  after_refresh again (some e) = some (fault (backend e))

  abbrev next_page : Answer → List RemoteChange → Option String → Option String → Answer
  next_page more changes (some link) next = some (done (changes, link))
  next_page more changes none (some next) = more
  next_page more changes none none = some (
      fault (
        backend (fatal "OneDrive delta response has neither @odata.deltaLink nor @odata.nextLink")))

  -- Over the answers to the requests for pages, in their order.
  abbrev collect : List (Http OneDrivePage) → Bool → List RemoteChange → Answer
  collect [] retried changes = none
  collect (unsent m ∷ rest) retried changes = some (fault (backend (network m)))
  collect (unread m ∷ rest) retried changes = some (fault (backend (fatal m)))
  collect (status code body ∷ rest) retried changes =
      let again = collect rest true changes in
      if code == 401 && not retried
      then after_refresh again d.refresh
      else some (fault (backend (onedrive_error d.show code body)))
  collect (page p ∷ rest) retried changes =
      let more = collect rest retried (changes ++ items p.value) in
      next_page more (changes ++ items p.value) p.delta_link p.next_link

  -- `none` where the answers that are given end before the call does.
  unfoldable pub onedrive_changes : List (Http OneDrivePage) → Answer
  onedrive_changes answers = after_refresh (collect answers false []) d.valid
