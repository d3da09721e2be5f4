-- ===== src/Backend/Drive.antt =====
-- `GoogleDriveDelta` of crates/stratosync-core/src/backend/delta.rs: the pages of changes, the paths that it
-- makes of the ids of parents, and the changes that it reports. The parser of RFC 3339 times is the
-- parameter `parse_time`.
use stratosync.Common.{
  ℕ, ◌-◌, ◌^◌, ◌==◌, String, Bool, true, false, not, ◌&&◌, Option, none, some, List, [], ◌∷◌, ◌++◌,
  take, is_some, has_str, unwrap_or, str_eq, lookup, store, if◌then◌else◌,
}
use stratosync.Types.SyncError.{SyncError, network, fatal}
use stratosync.Types.Metadata.{RemoteMetadata, ℤ, pos, negsuc}
use stratosync.Sync.World.{Outcome, done, fault, backend}
use stratosync.Poller.Delta.{RemoteChange, added, deleted}
use stratosync.Backend.Parents.{Entry, IdMap, resolve_path}
use stratosync.Backend.Http.{Http, page, status, unsent, unread, drive_error}

-- `GDriveFileMetadata`
pub record DriveFile : Type 0 where
  pub id : String
  pub name : String
  pub mime_type : Option String
  pub size : Option ℤ
  pub modified_time : Option String
  pub md5_checksum : Option String
  pub trashed : Bool
  pub parents : Option (List String)

-- `GDriveChange`
pub record DriveChange : Type 0 where
  pub removed : Bool
  pub file_id : String
  pub file : Option DriveFile

-- `GDriveChangesResponse`
pub record DrivePage : Type 0 where
  pub changes : List DriveChange
  pub next_page_token : Option String
  pub new_start_page_token : Option String

-- `as u64`
abbrev pub to_u64 : ℤ → ℕ
to_u64 (pos n) = n
to_u64 (negsuc n) = 2 ^ 64 - 1 - n

-- Phase 1: what a page adds to the map.
abbrev pub learn : List DriveChange → IdMap → IdMap
learn [] ids = ids
learn (c ∷ cs) ids = elim c.file [
  | none ↦ learn cs ids
  | some f ↦ learn cs (store f.id (f.name, unwrap_or f.parents []) ids)
]

module _ (root : String) where
  -- Phase 2: the parents that are not known, and those that are asked for.
  abbrev pub unknown : IdMap → List String → List String
  unknown ids [] = []
  unknown ids (p ∷ ps) =
      let rest = unknown ids ps in
      if not (str_eq p root) && not (is_some (lookup p ids)) then p ∷ rest else rest

  abbrev pub missing_parents : IdMap → List DriveChange → List String
  missing_parents ids [] = []
  missing_parents ids (c ∷ cs) = elim c.file [
    | none ↦ missing_parents ids cs
    | some f ↦ unknown ids (unwrap_or f.parents []) ++ missing_parents ids cs
  ]

-- `Vec::dedup`, which removes repetitions in a row.
abbrev pub dedup_after : Option String → List String → List String
dedup_after last [] = []
dedup_after last (s ∷ ss) =
    let rest = dedup_after (some s) ss in if has_str last s then rest else s ∷ rest

module _ (show : ℕ → String) where
  -- `get_file_metadata`, of the answer to its request.
  abbrev get_file_metadata : Http DriveFile → Outcome (Option Entry)
  get_file_metadata (unsent m) = fault (backend (network m))
  get_file_metadata (unread m) = fault (backend (fatal m))
  get_file_metadata (page f) = done (some (f.name, unwrap_or f.parents []))
  get_file_metadata (status code body) =
      if code == 404 then done none else fault (backend (drive_error show code body))

  -- An error is passed over.
  abbrev learn_parent : String → Outcome (Option Entry) → IdMap → IdMap
  learn_parent p (done (some entry)) ids = store p entry ids
  learn_parent p (done none) ids = ids
  learn_parent p (fault e) ids = ids

  abbrev pub ask : (String → Http DriveFile) → List String → IdMap → IdMap
  ask find [] ids = ids
  ask find (p ∷ ps) ids = ask find ps (learn_parent p (get_file_metadata (find p)) ids)

module _ (root : String) (parse_time : String → Option ℕ) (ids : IdMap) where
  abbrev is_folder : Option String → Bool
  is_folder m = has_str m "application/vnd.google-apps.folder"

  abbrev time_of : Option String → ℕ
  time_of none = 0
  time_of (some s) = unwrap_or (parse_time s) 0

  abbrev pub metadata : DriveFile → String → RemoteMetadata
  metadata f path = record {
    path = path;
    name = f.name;
    size = to_u64 (unwrap_or f.size (pos 0));
    mtime = time_of f.modified_time;
    is_dir = is_folder f.mime_type;
    etag = f.md5_checksum;
    checksum = none;
    mime_type = f.mime_type;
    item_id = some f.id;
  }

  abbrev pub gone : String → Option String → Option RemoteChange
  gone id none = none
  gone id (some path) = some (deleted path (some id))

  abbrev pub here : DriveFile → Option String → Option RemoteChange
  here f none = none
  here f (some path) = some (added (metadata f path))

  abbrev pub of_removed : String → Option (Entry) → Option RemoteChange
  of_removed id none = none
  of_removed id (some (name, parents)) = gone id (resolve_path root ids name parents)

  abbrev pub of_file : Option DriveFile → Option RemoteChange
  of_file none = none
  of_file (some f) =
      if f.trashed
      then gone f.id (resolve_path root ids f.name (unwrap_or f.parents []))
      else here f (resolve_path root ids f.name (unwrap_or f.parents []))

  -- Phase 3, for one change.
  unfoldable pub convert : DriveChange → Option RemoteChange
  convert c = if c.removed then of_removed c.file_id (lookup c.file_id ids) else of_file c.file

  abbrev pub converted : List DriveChange → List RemoteChange
  converted [] = []
  converted (c ∷ cs) =
      let rest = converted cs in elim (convert c) [ none ↦ rest | some r ↦ r ∷ rest ]

-- What the remote answers: `valid` and `refresh` are the error of `ensure_valid_token` and of
-- `force_refresh_token`, if any, and `find` is the answer to a request for one file.
pub record Drive : Type 0 where
  pub root_folder_id : String
  pub show : ℕ → String
  pub parse_time : String → Option ℕ
  pub valid : Option SyncError
  pub refresh : Option SyncError
  pub find : String → Http DriveFile

-- `running`: the answers that are given end before the loop does.
pub data Fetched : Type 0 where
  running : Fetched
  failed : SyncError → Fetched
  collected : List DriveChange → IdMap → String → Fetched

module _ (d : Drive) where
  abbrev pub after_refresh : Fetched → Option SyncError → Fetched
  after_refresh again none = again
  after_refresh again (some e) = failed e

  abbrev pub next_page :
      Fetched → List DriveChange → IdMap → Option String → Option String → Fetched
  next_page more raw ids (some token) next = collected raw ids token
  next_page more raw ids none (some token) = more
  next_page more raw ids none none =
      failed (fatal "changes response has neither nextPageToken nor newStartPageToken")

  -- Phase 1, over the answers to the requests for pages, in their order.
  unfoldable pub collect : List (Http DrivePage) → Bool → List DriveChange → IdMap → Fetched
  collect [] retried raw ids = running
  collect (unsent m ∷ rest) retried raw ids = failed (network m)
  collect (unread m ∷ rest) retried raw ids = failed (fatal m)
  collect (status code body ∷ rest) retried raw ids =
      let again = collect rest true raw ids in
      if code == 401 && not retried
      then after_refresh again d.refresh
      else failed (drive_error d.show code body)
  collect (page p ∷ rest) retried raw ids =
      let more = collect rest retried (raw ++ p.changes) (learn p.changes ids) in
      next_page more (raw ++ p.changes) (learn p.changes ids) p.new_start_page_token
        p.next_page_token

  -- Phase 2.
  abbrev pub asked : List DriveChange → IdMap → IdMap
  asked raw ids =
      ask d.show d.find (take 50 (dedup_after none (missing_parents d.root_folder_id ids raw))) ids

  abbrev pub finish : Fetched → Option (Outcome (List RemoteChange × String))
  finish running = none
  finish (failed e) = some (fault (backend e))
  finish (collected raw ids token) =
      some (done (converted d.root_folder_id d.parse_time (asked raw ids) raw, token))

  -- After `ensure_valid_token`.
  abbrev pub authorised : Option SyncError → Fetched → Option (Outcome (List RemoteChange × String))
  authorised none f = finish f
  authorised (some e) f = some (fault (backend e))

  -- `none` where the answers that are given end before the call does.
  unfoldable pub changes_since :
      List (Http DrivePage) → Option (Outcome (List RemoteChange × String))
  changes_since answers = authorised d.valid (collect answers false [] [])
