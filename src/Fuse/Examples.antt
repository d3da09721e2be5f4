-- ===== src/Fuse/Examples.antt =====
-- Witnesses for the file system: mount 1 has its root, a directory "d" (3) and the files "f" (2) and "g"
-- (4), which are in the cache.
use Prim.Native.String
use stratosync.Common.{
  ◌+◌, ◌≡◌, ◌++◌, refl, get, put, unwrap_or, String, true, false, Option, none, some, [], ◌∷◌,
  arith, some_of, contains,
}
use stratosync.Types.SyncStatus.{cached, remote}
use stratosync.Types.FileKind.{FileKind, file, directory}
use stratosync.State.Tables.{Db, empty}
use stratosync.State.Files.{
  NewFileEntry, FileEntry, row_to_entry, new_row, insert_root, insert_file, get_by_inode,
  get_by_parent_name, delete_entry,
}
use stratosync.State.Health.{upsert_mount}
use stratosync.State.Statement.{at_path, insert_row, delete_files, cascade, clash}
use stratosync.State.Reach.{Call, Reachable, migrated, after}
use stratosync.Sync.World.{World, done, fault, backend}
use stratosync.Types.SyncError.{network}
use stratosync.Poller.Full.{poll_once}
use stratosync.Poller.Delta.{poll_once_delta}
use stratosync.Poller.Examples.{settings, listing, answers, root, rooted}
use stratosync.Fuse.Handler.{Fs, OpenFile}
use stratosync.Fuse.Names.{Os, validate_filename, safe_cache_path, trim_start_slashes}
use stratosync.Fuse.Write.{Mount}
use stratosync.Fuse.Remove.{handle_unlink}
use stratosync.Fuse.Rename.{handle_rename}
use stratosync.Fuse.Hydrate.{Hydrator, Hydrations, do_hydrate}
use stratosync.Fuse.Finished.{HasTold, do_hydrate-Settled}
use stratosync.Fuse.Written.{Written}
use stratosync.Fuse.Moved.{Renamed, handle_rename-Renamed}
use stratosync.Fuse.Deleted.{handle_unlink-poll}
use stratosync.Fuse.Created.{Created}

abbrev new : String → FileKind → Option String → NewFileEntry
new name kind path = record {
  mount_id = 1;
  parent = 1;
  name = name;
  remote_path = name;
  kind = kind;
  size = 1;
  mtime = 0;
  etag = none;
  status = cached;
  cache_path = path;
  cache_size = some 1;
}

abbrev with_f : Db
with_f = (insert_file (new "f" file (some "/c/f")) rooted).1

abbrev with_d : Db
with_d = (insert_file (new "d" directory none) with_f).1

abbrev filled : Db
filled = (insert_file (new "g" file (some "/c/g")) with_d).1

filled-Reachable : Reachable filled
filled-Reachable =
    after
      (after
        (after
          (after (after migrated (Call.upsert_mount "m" "drive:" "/m" "/c" 10 60))
            (Call.insert_root root))
          (Call.insert_file (new "f" file (some "/c/f"))))
        (Call.insert_file (new "d" directory none)))
      (Call.insert_file (new "g" file (some "/c/g")))

abbrev world : World
world = record {
  db = filled;
  files = ("/c/f", "F") ∷ ("/c/g", "G") ∷ [];
  objects = [];
  headers = [];
  denied = [];
  sealed = [];
  stuck = [];
}

abbrev os : Os
os = record {
  there = λ p. false;
  canonicalize = λ p. some p;
  join = λ a b. String.◌++◌ a (String.◌++◌ "/" b);
  parent = λ p. some "/c";
  file_name = λ p. some p;
  starts_with = λ a b. true;
  write = λ c n b. record { content = b; error = none };
  set_len = λ c n. c;
  raw_error = λ p. none;
}

abbrev mount : Mount
mount = record { mount_id = 1; cache_dir = "/c"; is_ignored = λ p. false }

abbrev handle : OpenFile
handle = record { inode = 2; cache_path = "/c/f"; remote_path = "f"; flags = 1; hydrating = false }

abbrev fs : Fs
fs = record {
  world = world;
  open_files = (5, handle) ∷ [];
  next_fh = 6;
  triggers = [];
  tasks = [];
  downloads = [];
}

abbrev entry : FileEntry
entry = record {
  inode = 2;
  mount_id = 1;
  parent = 1;
  name = "f";
  remote_path = "f";
  kind = file;
  size = 1;
  mtime = 0;
  etag = none;
  status = remote;
  cache_path = none;
  cache_size = none;
  dir_listed = none;
}

-- Another task adds a channel while the file is downloaded.
abbrev hydrator : Hydrator
hydrator = record {
  os = os;
  cache_dir = "/c";
  base_max_size = some 100;
  text_extensions = "md" ∷ [];
  sha256 = λ s. s;
  lower = λ s. s;
  extension = λ p. none;
  file_name = λ p. p;
  show = λ e. "error";
  show_error = λ e. "error";
  download = λ p w. done "new";
  stat = λ p. fault (backend (network "down"));
  meanwhile = λ w. w;
  others = λ y. record y {
    waiters = put 2 (unwrap_or (get 2 y.waiters) [] ++ y.next_channel ∷ []) y.waiters;
    next_channel = y.next_channel + 1;
  };
}

abbrev hydrations : Hydrations
hydrations = record {
  world = world;
  in_flight = [];
  first_started = [];
  attempts = [];
  waiters = (2, 0 ∷ []) ∷ [];
  next_channel = 1;
  told = [];
}

do_hydrate-Settled_example :
    HasTold hydrator 9 entry "/c/f" hydrations (do_hydrate hydrator 9 entry hydrations)
unfolding safe_cache_path trim_start_slashes
do_hydrate-Settled_example = do_hydrate-Settled hydrator 9 entry "/c/f" hydrations refl

-- "f" is moved to "d" as "g": its cache file takes the place of that of the file "g", which stays.
handle_rename-Renamed_example :
    Renamed 2 4 "/c/f" (os.join "/c" "g") "F" fs (handle_rename os mount 9 1 "f" 3 "g" fs)
unfolding empty upsert_mount insert_root insert_file insert_row clash cascade get_by_parent_name
    get_by_inode row_to_entry validate_filename contains
handle_rename-Renamed_example =
    handle_rename-Renamed os mount 9 1 "f" 3 "g" fs
      (row_to_entry (new_row 2 (some 1) (new "f" file (some "/c/f"))))
      (row_to_entry (new_row 3 (some 1) (new "d" directory none))) "/c/f" "/c" "F" 4 refl refl refl
      refl refl refl refl refl

handle_unlink-poll_example :
    let w = (handle_unlink 1 9 1 "f" fs).1.world in
    (some_of (at_path 1 "f") w.db.files ≡ false)
    × (some_of (at_path 1 "f") (poll_once settings 30 listing w).1.db.files ≡ false)
    × (some_of (at_path 1 "f") (poll_once_delta settings 30 answers w).1.db.files ≡ false)
unfolding empty upsert_mount insert_root insert_file insert_row clash cascade get_by_parent_name
    row_to_entry delete_entry delete_files
handle_unlink-poll_example =
    handle_unlink-poll settings 9 1 "f"
      (row_to_entry (new_row 2 (some 1) (new "f" file (some "/c/f")))) fs 30 listing answers
      filled-Reachable refl refl refl (omega arith)
