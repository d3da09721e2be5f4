-- ===== src/Fuse/Serve.antt =====
-- The calls of the kernel that the daemon serves, each by its handler (`impl Filesystem for StratoFs` of
-- crates/stratosync-daemon/src/fuse/mod.rs).
use stratosync.Common.{ℕ, String, Option, List}
use stratosync.Types.Metadata.{RemoteMetadata}
use stratosync.Sync.World.{Outcome}
use stratosync.Fuse.Errno.{eio}
use stratosync.Fuse.Handler.{Handler, okay, answer, on_world, ◌>>=◌}
use stratosync.Fuse.Names.{Os}
use stratosync.Fuse.Write
use stratosync.Fuse.Write.{Mount}
use stratosync.Fuse.Remove
use stratosync.Fuse.Rename
use stratosync.Fuse.Open
use stratosync.Fuse.Directory

pub data Request : Type 0 where
  lookup : ℕ → String → Request
  getattr readdir : ℕ → Request
  getxattr : ℕ → String → ℕ → Request
  setattr : ℕ → Option ℕ → Request
  open_file : ℕ → ℕ → Request
  write : ℕ → ℕ → String → Request
  fsync release : ℕ → Request
  create mkdir unlink rmdir : ℕ → String → Request
  rename : ℕ → String → ℕ → String → Request

abbrev pub quiet : {A : Type 0} → Handler A → Handler Unit
quiet m = m >>= λ _. answer (okay tt)

-- `cap` is `auto_hydrate_max_size_bytes()`, and `list` what the backend answers to a listing.
module _ (os : Os) (m : Mount) (now : ℕ) (cap : Option ℕ)
    (list : String → Outcome (List RemoteMetadata)) where
  unfoldable pub serve : Request → Handler Unit
  serve (Request.lookup p name) = quiet (on_world eio (Directory.lookup now m.mount_id list p name))
  serve (Request.getattr i) = quiet (Open.getattr i)
  serve (Request.readdir i) = quiet (on_world eio (Directory.readdir now m.mount_id list i))
  serve (Request.getxattr i name n) = quiet (Open.getxattr i name n)
  serve (Request.setattr i size) = quiet (Open.setattr os m now i size)
  serve (Request.open_file i flags) = quiet (Open.open_file os m now cap i flags)
  serve (Request.write fh offset bytes) = quiet (Write.handle_write os fh offset bytes)
  serve (Request.fsync fh) = Write.handle_fsync fh
  serve (Request.release fh) = Write.handle_release fh
  serve (Request.create p name) = quiet (Write.handle_create os m now p name)
  serve (Request.mkdir p name) = quiet (Write.handle_mkdir os m now p name)
  serve (Request.unlink p name) = Remove.handle_unlink m.mount_id now p name
  serve (Request.rmdir p name) = Remove.handle_rmdir m.mount_id now p name
  serve (Request.rename p name new_p new_name) = Rename.handle_rename os m now p name new_p new_name
