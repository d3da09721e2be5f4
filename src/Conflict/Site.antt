-- ===== src/Conflict/Site.antt =====
-- The daemon's state beside the remote. The remote is a type `R` of its own, with the calls of the
-- `Backend` trait that the resolver makes.
use stratosync.Common.{String, Bool, Option, ◌≡◌}
use stratosync.Types.Metadata.{RemoteMetadata}
use stratosync.Sync.World.{World, Act, Outcome, done, fault}

-- `upload` is given the content of the local file, and `download` gives that of the remote one.
-- `local_eq_remote` of crates/stratosync-core/src/content.rs is given the content of the local file.
pub record Backend (R : Type 0) : Type 0 where
  pub upload : String → String → R → Outcome RemoteMetadata × R
  pub download : String → R → Outcome String
  pub stat : String → R → Outcome RemoteMetadata
  pub local_eq_remote : Option String → String → R → Outcome (Bool × RemoteMetadata)

-- An upload that succeeds is what a download gives after it.
pub record IsFaithful {R : Type 0} (b : Backend R) : Type 0 where
  pub upload_here :
      (content path : String) (r : R) (m : RemoteMetadata)
      → (b.upload content path r).0 ≡ done m
      → b.download path (b.upload content path r).1 ≡ done content

pub record Site (R : Type 0) : Type 0 where
  pub world : World
  pub remote : R

abbrev pub Doing : Type 0 → Type 0 → Type 0
Doing R A = Site R → Outcome A × Site R

abbrev pub next : {R A B : Type 0} → Outcome A → (A → Doing R B) → Doing R B
next (done a) f s = f a s
next (fault e) f s = (fault e, s)

infixl 5 ◌>>=◌ ◌>>◌
abbrev pub ◌>>=◌ : {R A B : Type 0} → Doing R A → (A → Doing R B) → Doing R B
◌>>=◌ m f s = let (r, s') = m s in next r f s'

abbrev pub ◌>>◌ : {R A B : Type 0} → Doing R A → Doing R B → Doing R B
m >> k = m >>= λ _. k

abbrev pub finished : {R A : Type 0} → A → Doing R A
finished a s = (done a, s)

-- A call on the daemon's own state.
abbrev pub locally : {R A : Type 0} → Act A → Doing R A
locally m s = let (r, w) = m s.world in (r, record s { world = w })

-- A call whose outcome is matched on.
abbrev pub trying : {R A B : Type 0} → Doing R A → (Outcome A → Doing R B) → Doing R B
trying m f s = let (r, s') = m s in f r s'

-- A question to the remote.
abbrev pub asking : {R A : Type 0} → (R → Outcome A) → Doing R A
asking f s = (f s.remote, s)
