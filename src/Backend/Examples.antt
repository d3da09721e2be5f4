-- ===== src/Backend/Examples.antt =====
-- Tests of the providers of changes, and the theorems on concrete answers.
use Prim.Native.String.{◌++◌}
use stratosync.Common.{◌≡◌, ◌↔◌, refl, String, true, false, none, some, List, [], ◌∷◌}
use stratosync.Types.SyncError.{token_expired}
use stratosync.Types.Metadata.{pos}
use stratosync.Sync.World.{done}
use stratosync.Poller.Delta.{RemoteChange, added}
use stratosync.Backend.Http.{Http, page, status, onedrive_error}
use stratosync.Backend.Parents.{IdMap}
use stratosync.Backend.Drive.{Drive, DriveFile, DriveChange, DrivePage, convert, changes_since}
use stratosync.Backend.Pages.{IsRead, changes_since_iff}
use stratosync.Backend.Reports.{Reported, convert_iff}
use stratosync.Backend.Onedrive.{OneDriveItem, resolve_item_path, in_folder}
use stratosync.Backend.Forms.{resolve_item_path-forms}
use stratosync.Backend.Hashes.{hash_to_hex}

abbrev folder : DriveFile
folder = record {
  id = "d1";
  name = "Reports";
  mime_type = some "application/vnd.google-apps.folder";
  size = none;
  modified_time = none;
  md5_checksum = none;
  trashed = false;
  parents = some ("root" ∷ []);
}

abbrev file : DriveFile
file = record {
  id = "f1";
  name = "may.txt";
  mime_type = none;
  size = some (pos 3);
  modified_time = none;
  md5_checksum = some "ab";
  trashed = false;
  parents = some ("d1" ∷ []);
}

abbrev of_file_change : DriveFile → DriveChange
of_file_change f = record { removed = false; file_id = f.id; file = some f }

abbrev drive : Drive
drive = record {
  root_folder_id = "root";
  show = λ n. "";
  parse_time = λ s. none;
  valid = none;
  refresh = none;
  find = λ id. status 404 "";
}

-- The folder is on the page behind that of the file.
abbrev answers : List (Http DrivePage)
answers =
    status 401 "expired"
    ∷ page (record {
      changes = of_file_change file ∷ [];
      next_page_token = some "p2";
      new_start_page_token = none;
    })
    ∷ page (record {
      changes = of_file_change folder ∷ [];
      next_page_token = none;
      new_start_page_token = some "s9";
    })
    ∷ []

abbrev file_there : RemoteChange
file_there = added (record {
  path = "Reports/may.txt";
  name = "may.txt";
  size = 3;
  mtime = 0;
  is_dir = false;
  etag = some "ab";
  checksum = none;
  mime_type = none;
  item_id = some "f1";
})

abbrev folder_there : RemoteChange
folder_there = added (record {
  path = "Reports";
  name = "Reports";
  size = 0;
  mtime = 0;
  is_dir = true;
  etag = none;
  checksum = none;
  mime_type = some "application/vnd.google-apps.folder";
  item_id = some "d1";
})

two_pages : changes_since drive answers ≡ some (done (file_there ∷ folder_there ∷ [], "s9"))
unfolding changes_since stratosync.Backend.Drive.collect convert
    stratosync.Backend.Parents.resolve_path stratosync.Backend.Parents.climb
two_pages = refl

changes_since_iff_example :
    (changes_since drive answers ≡ some (done (file_there ∷ folder_there ∷ [], "s9")))
    ↔ IsRead drive answers (file_there ∷ folder_there ∷ []) "s9"
changes_since_iff_example = changes_since_iff drive answers (file_there ∷ folder_there ∷ []) "s9"

abbrev known : IdMap
known = ("d1", ("Reports", "root" ∷ [])) ∷ []

convert_iff_example :
    (convert "root" (λ s. none) known (of_file_change file) ≡ some file_there)
    ↔ Reported "root" (λ s. none) known (of_file_change file) file_there
convert_iff_example = convert_iff "root" (λ s. none) known (of_file_change file) file_there

-- A folder that is two steps from what is known hides the file.
hidden :
    convert "root" (λ s. none) (("d1", ("Reports", "d0" ∷ [])) ∷ []) (of_file_change file) ≡ none
unfolding convert stratosync.Backend.Parents.resolve_path stratosync.Backend.Parents.climb
hidden = refl

abbrev item : OneDriveItem
item = record {
  id = "i1";
  name = some "a.txt";
  size = none;
  last_modified = none;
  parent_reference = some (some "/drives/b!7/root:/Work/Sub");
  folder = false;
  file = none;
  deleted = false;
}

resolve_item_path-forms_example :
    (resolve_item_path "/Work" item ≡ in_folder "/Work" "a.txt" (some "/Work/Sub"))
    × (resolve_item_path "/Work"
          (record item { parent_reference = some (some ("/drive/root:" ++ "/Work/Sub")) })
        ≡ in_folder "/Work" "a.txt" (some "/Work/Sub"))
resolve_item_path-forms_example =
    resolve_item_path-forms "/Work" "b!7" "/Work/Sub" "a.txt" item refl refl refl

below_work : resolve_item_path "/Work" item ≡ some "Sub/a.txt"
unfolding resolve_item_path stratosync.Backend.Onedrive.strip_onedrive_root_prefix
below_work = refl

-- The root ends within a name.
beside_work :
    resolve_item_path "/Work"
      (record item { parent_reference = some (some "/drive/root:/Workshop") })
    ≡ some "shop/a.txt"
unfolding resolve_item_path stratosync.Backend.Onedrive.strip_onedrive_root_prefix
beside_work = refl

upper_hex : hash_to_hex [] " 847BFC9A\n" ≡ some "847bfc9a"
unfolding hash_to_hex
upper_hex = refl

resync : onedrive_error (λ n. "") 404 "resyncRequired" ≡ token_expired
unfolding onedrive_error stratosync.Common.contains
resync = refl
