-- ===== src/Types/Examples.antt =====
-- Witnesses and tests for the domain types.
use stratosync.Common.{false, ◌≡◌, ◌↔◌, refl, some, none, [], ◌∷◌}
use stratosync.Types.SyncStatus.{cached, from_str, as_str, from_str_iff}
use stratosync.Types.Metadata.{RcloneLsJsonEntry, pos, try_from, get}

from_str_iff_example : (from_str "cached" ≡ some cached) ↔ ("cached" ≡ as_str cached)
from_str_iff_example = from_str_iff cached "cached"

abbrev onedrive : RcloneLsJsonEntry
onedrive = record {
  path = "f";
  name = "f";
  size = pos 1;
  mime_type = none;
  mod_time = "2024-01-01T00:00:00Z";
  is_dir = false;
  hashes = some (("quickxor", "043b02bc") ∷ []);
  id = some "4139BC84";
}

onedrive_quickxor : (try_from (λ t. none) onedrive).etag ≡ some "043b02bc"
unfolding try_from get
onedrive_quickxor = refl
