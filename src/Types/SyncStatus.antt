-- ===== src/Types/SyncStatus.antt =====
-- `SyncStatus` of crates/stratosync-core/src/types/mod.rs, and its column text.
use stratosync.Common.{
  String, Bool, true, false, ◌≡◌, refl, ◌↔◌, Option, none, some, arith, str_eq, eq_iff,
  if◌then◌else◌,
}

pub data SyncStatus : Type 0 where
  remote hydrating cached dirty uploading stale conflict : SyncStatus

unfoldable pub as_str : SyncStatus → String
as_str remote = "remote"
as_str hydrating = "hydrating"
as_str cached = "cached"
as_str dirty = "dirty"
as_str uploading = "uploading"
as_str stale = "stale"
as_str conflict = "conflict"

unfoldable pub from_str : String → Option SyncStatus
from_str s =
    if str_eq s "remote"
    then some remote
    else if str_eq s "hydrating"
    then some hydrating
    else if str_eq s "cached"
    then some cached
    else if str_eq s "dirty"
    then some dirty
    else if str_eq s "uploading"
    then some uploading
    else if str_eq s "stale"
    then some stale
    else if str_eq s "conflict"
    then some conflict
    else none

abbrev has_local_data : SyncStatus → Bool
has_local_data cached = true
has_local_data dirty = true
has_local_data uploading = true
has_local_data conflict = true
has_local_data _ = false

abbrev pub is_hydrating : SyncStatus → Bool
is_hydrating hydrating = true
is_hydrating _ = false

abbrev pub needs_hydration : SyncStatus → Bool
needs_hydration remote = true
needs_hydration stale = true
needs_hydration _ = false

-- `self == Self::Cached`, and so on: the derived equality at a constant.
abbrev pub is_cached : SyncStatus → Bool
is_cached cached = true
is_cached _ = false

abbrev is_conflict : SyncStatus → Bool
is_conflict conflict = true
is_conflict _ = false

-- `status IN ('dirty','uploading')`: local work that is not yet on the remote.
abbrev pub is_unsynced : SyncStatus → Bool
is_unsynced dirty = true
is_unsynced uploading = true
is_unsynced _ = false

as_str-from_str : (s : SyncStatus) → from_str (as_str s) ≡ some s
unfolding from_str as_str
as_str-from_str remote = refl
as_str-from_str hydrating = refl
as_str-from_str cached = refl
as_str-from_str dirty = refl
as_str-from_str uploading = refl
as_str-from_str stale = refl
as_str-from_str conflict = refl

from_str_inv : (s : SyncStatus) (t : String) → from_str t ≡ some s → t ≡ as_str s
unfolding from_str as_str
from_str_inv s t h = ground (
  arith,
  eq_iff t "remote",
  eq_iff t "hydrating",
  eq_iff t "cached",
  eq_iff t "dirty",
  eq_iff t "uploading",
  eq_iff t "stale",
  eq_iff t "conflict",
)

-- A text names a status exactly if it is that status's column text: what the database stores as
-- text may be read as the constructor.
pub from_str_iff : (s : SyncStatus) (t : String) → (from_str t ≡ some s) ↔ (t ≡ as_str s)
from_str_iff s t = (from_str_inv s t, λ e. rw e (as_str-from_str s))
