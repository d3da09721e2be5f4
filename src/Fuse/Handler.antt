-- ===== src/Fuse/Handler.antt =====
-- The state behind the handlers of crates/stratosync-daemon/src/fuse, their answers to the kernel,
-- and their calls with early returns.
use stratosync.Common.{
  ℕ, ◌+◌, ◌%◌, ◌^◌, String, Bool, Option, none, some, List, [], ◌∷◌, ◌++◌, Map, if◌then◌else◌,
}
use stratosync.State.Tables.{Exec}
use stratosync.Sync.World.{World, Outcome, done, fault, Act, on_db}
use stratosync.Fuse.Errno.{eio}
use stratosync.Upload.Loop.{UploadTrigger}

-- `OpenFile`
pub record OpenFile : Type 0 where
  pub inode : ℕ
  pub cache_path : String
  pub remote_path : String
  pub flags : ℕ
  pub hydrating : Bool

-- The bodies of `tokio::spawn` that call the remote later.
pub data Task : Type 0 where
  make_dir delete_file delete_dir : String → Task
  move_file : Option String → Bool → String → String → Task

-- `triggers` has what was sent to the upload queue, the latest last, `tasks` what was spawned, and
-- `downloads` the inodes whose hydration was spawned.
pub record Fs : Type 0 where
  pub world : World
  pub open_files : Map OpenFile
  pub next_fh : ℕ
  pub triggers : List UploadTrigger
  pub tasks : List Task
  pub downloads : List ℕ

pub data Reply {ℓ} (A : Type ℓ) : Type ℓ where
  okay : A → Reply A
  refused : ℕ → Reply A

abbrev pub Handler : Type 0 → Type 0
Handler A = Fs → Reply A × Fs

abbrev pub bind_reply : {A B : Type 0} → Reply A → (A → Handler B) → Handler B
bind_reply (okay a) f s = f a s
bind_reply (refused e) f s = (refused e, s)

-- The `?` behind a call.
infixl 5 ◌>>=◌ ◌>>◌
abbrev pub ◌>>=◌ : {A B : Type 0} → Handler A → (A → Handler B) → Handler B
◌>>=◌ m f s = let (r, s') = m s in bind_reply r f s'

abbrev pub ◌>>◌ : {A B : Type 0} → Handler A → Handler B → Handler B
m >> k = m >>= λ _. k

abbrev pub answer : {A : Type 0} → Reply A → Handler A
answer r s = (r, s)

abbrev pub refuse_if : Bool → ℕ → Handler Unit
refuse_if b e = if b then answer (refused e) else answer (okay tt)

abbrev reply_of : {A : Type 0} → ℕ → Outcome A → Reply A
reply_of e (done a) = okay a
reply_of e (fault x) = refused e

-- A call whose error is answered by one errno.
abbrev pub on_world : {A : Type 0} → ℕ → Act A → Handler A
on_world e m s = let (r, w) = m s.world in (reply_of e r, record s { world = w })

-- `map_err(|_| libc::EIO)`
abbrev pub in_db : {A : Type 0} → Exec A → Handler A
in_db m = on_world eio (on_db m)

-- A call whose error is only logged.
abbrev pub besides : {A : Type 0} → Act A → Handler Unit
besides m s = let (r, w) = m s.world in (okay tt, record s { world = w })

abbrev pub or_refuse : {A : Type 0} → Option A → ℕ → Handler A
or_refuse none e = answer (refused e)
or_refuse (some a) e = answer (okay a)

-- `queue.enqueue`
abbrev pub trigger : UploadTrigger → Handler Unit
trigger t s = (okay tt, record s { triggers = s.triggers ++ t ∷ [] })

-- `tokio::spawn`
abbrev pub spawn : Task → Handler Unit
spawn t s = (okay tt, record s { tasks = s.tasks ++ t ∷ [] })

-- `next_fh.fetch_add(1)` and `open_files.insert`.
abbrev pub open_handle : OpenFile → Handler ℕ
open_handle f s = (
  okay s.next_fh,
  record s { open_files = (s.next_fh, f) ∷ s.open_files; next_fh = (s.next_fh + 1) % 2 ^ 64 },
)
