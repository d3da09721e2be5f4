-- ===== src/Conflict/Examples.antt =====
-- Witnesses for conflicts: the file "a.md" of mount 1 is "mine" here and "theirs" at the remote, which
-- is a map of contents by path.
use stratosync.Common.{
  String, true, false, Option, none, some, [], ◌∷◌, refl, ap, arith, Texts, lookup, store,
  lookup-store,
}
use Prim.Native.String
use stratosync.Types.SyncStatus.{dirty}
use stratosync.Types.FileKind
use stratosync.Types.SyncError.{not_found}
use stratosync.Types.Metadata.{RemoteMetadata}
use stratosync.State.Tables.{empty}
use stratosync.State.Files.{FileEntry}
use stratosync.Sync.World.{Outcome, done, fault, backend}
use stratosync.Conflict.Site.{Backend, IsFaithful, Site}
use stratosync.Conflict.Resolve.{
  Resolver, keep_both, conflict_markers, conflict_remote_path, keep_both_versions, after_merge,
  resolve,
}
use stratosync.Conflict.Kept.{
  BothKept, keep_both_versions-BothKept, after_merge-BothKept, resolve-BothKept,
}

abbrev meta : RemoteMetadata
meta = record {
  path = "a.md";
  name = "a.md";
  size = 4;
  mtime = 1;
  is_dir = false;
  etag = none;
  checksum = none;
  mime_type = none;
  item_id = none;
}

abbrev of_option : Option String → Outcome String
of_option none = fault (backend (not_found "path"))
of_option (some c) = done c

abbrev drive : Backend (Texts String)
drive = record {
  upload = λ content path r. (done meta, store path content r);
  download = λ path r. of_option (lookup path r);
  stat = λ path r. done meta;
  local_eq_remote = λ content path r. done (false, meta);
}

drive-IsFaithful : IsFaithful drive
drive-IsFaithful = record {
  upload_here = λ content path r m h. ap of_option (lookup-store path content r);
}

abbrev resolver : Resolver (Texts String)
resolver = record {
  backend = drive;
  has_git = true;
  strategy = keep_both;
  base_max_size = 100;
  text_extensions = "md" ∷ [];
  sha256 = λ s. s;
  lower = λ s. s;
  extension = λ p. some "md";
  file_name = λ p. p;
  merge_files = λ base local theirs. conflict_markers "<<<<";
  conflict_name = λ name content. "a.conflict.md";
  tmp_of = λ p. String.◌++◌ p ".tmp";
  clock = 9;
}

abbrev entry : FileEntry
entry = record {
  inode = 2;
  mount_id = 1;
  parent = 1;
  name = "a.md";
  remote_path = "a.md";
  kind = FileKind.file;
  size = 4;
  mtime = 0;
  etag = none;
  status = dirty;
  cache_path = some "/c/a";
  cache_size = some 4;
  dir_listed = none;
}

abbrev site : Site (Texts String)
site = record {
  world = record {
    db = empty;
    files = ("/c/a", "mine") ∷ [];
    objects = [];
    headers = [];
    denied = [];
    sealed = [];
    stuck = [];
  };
  remote = ("a.md", "theirs") ∷ [];
}

abbrev copy : String
copy = conflict_remote_path "a.md" "a.conflict.md"

keep_both_versions-BothKept_example :
    BothKept drive "/c/a" "mine" copy "a.md" (keep_both_versions resolver entry "/c/a" site)
keep_both_versions-BothKept_example =
    keep_both_versions-BothKept resolver entry "/c/a" "mine" site drive-IsFaithful refl

after_merge-BothKept_example :
    BothKept drive "/c/a" "<<<<" copy "a.md"
      (after_merge resolver entry "/c/a" (conflict_markers "<<<<") site)
after_merge-BothKept_example =
    after_merge-BothKept resolver entry "/c/a" "<<<<" site drive-IsFaithful refl

resolve-BothKept_example : BothKept drive "/c/a" "mine" copy "a.md" (resolve resolver entry site)
resolve-BothKept_example =
    resolve-BothKept resolver entry "/c/a" "mine" site drive-IsFaithful refl refl refl
      (λ m h. ground arith)
