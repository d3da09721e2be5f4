-- ===== src/Poller/Diff.antt =====
-- The poller's settings, the entries of a listing that it takes, and phase 2 of `poll_once`: the
-- comparison of a listing with the index. The globs of the globset crate are the parameter
-- `is_ignored`.
use stratosync.Common.{
  ℕ, suc, String, Bool, true, false, ◌&&◌, ◌||◌, Option, none, some, List, [], ◌∷◌, ◌++◌, ◌==◌,
  str_eq, contains, nul_text, some_of, first, if◌then◌else◌,
}
use Prim.Native.String
use text.Mathlib.Text.{starts_with}
use stratosync.Types.Metadata.{RemoteMetadata}
use stratosync.State.Poll.{RemoteSnapshot}

-- `CONFLICT_PREFIX`
abbrev pub conflict_prefix : String
conflict_prefix = ".stratosync-conflicts/"

unfoldable pub is_unsafe : RemoteMetadata → Bool
is_unsafe e = contains e.path ".." || contains e.path nul_text || contains e.name "/"

unfoldable pub is_conflict : RemoteMetadata → Bool
is_conflict e = starts_with e.path conflict_prefix

-- The path of a tombstone or one below it.
unfoldable pub is_tombstoned : List String → RemoteMetadata → Bool
is_tombstoned tombstones e =
    some_of (λ t. str_eq e.path t || starts_with e.path (String.◌++◌ t "/")) tombstones

-- An entry that the polls pass over.
abbrev pub is_skipped : (String → Bool) → List String → RemoteMetadata → Bool
is_skipped is_ignored tombstones e =
    is_conflict e || is_tombstoned tombstones e || is_unsafe e || is_ignored e.path

abbrev same_etag : Option String → Option String → Bool
same_etag none none = true
same_etag (some a) (some b) = str_eq a b
same_etag _ _ = false

unfoldable pub is_same : RemoteSnapshot → RemoteMetadata → Bool
is_same s e = same_etag s.etag e.etag && s.size == e.size

abbrev pub snapshot_of : String → List RemoteSnapshot → Option RemoteSnapshot
snapshot_of path snaps = first (λ s. str_eq s.path path) snaps

-- What the loop over the listing fills.
pub record Diff : Type 0 where
  pub to_upsert : List RemoteMetadata
  pub unchanged_inodes : List ℕ
  pub skipped_tombstoned : ℕ
  pub skipped_unsafe : ℕ
  pub skipped_ignored : ℕ

abbrev pub nothing : Diff
nothing = record {
  to_upsert = [];
  unchanged_inodes = [];
  skipped_tombstoned = 0;
  skipped_unsafe = 0;
  skipped_ignored = 0;
}

abbrev pub marked : RemoteSnapshot → Diff → Diff
marked s d = record d { unchanged_inodes = d.unchanged_inodes ++ s.inode ∷ [] }

abbrev upserted : RemoteMetadata → Diff → Diff
upserted e d = record d { to_upsert = d.to_upsert ++ e ∷ [] }

module _ (is_ignored : String → Bool) (tombstones : List String) (snaps : List RemoteSnapshot) where
  abbrev pub mark_known : Option RemoteSnapshot → Diff → Diff
  mark_known none d = d
  mark_known (some s) d = marked s d

  abbrev pub compare : RemoteMetadata → Option RemoteSnapshot → Diff → Diff
  compare e none d = upserted e d
  compare e (some s) d = if is_same s e then marked s d else upserted e d

  unfoldable pub diff_one : RemoteMetadata → Diff → Diff
  diff_one e d =
      if is_unsafe e
      then record d { skipped_unsafe = suc d.skipped_unsafe }
      else if is_conflict e
      then d
      else if is_tombstoned tombstones e
      then record d { skipped_tombstoned = suc d.skipped_tombstoned }
      else if is_ignored e.path
      then (let d' = mark_known (snapshot_of e.path snaps) d in
          record d' { skipped_ignored = suc d'.skipped_ignored })
      else compare e (snapshot_of e.path snaps) d

  unfoldable pub diff : List RemoteMetadata → Diff → Diff
  diff [] d = d
  diff (e ∷ es) d = diff es (diff_one e d)
