-- ===== src/Types/FileKind.antt =====
-- `FileKind` of crates/stratosync-core/src/types/mod.rs and its column text, which is written and
-- read in crates/stratosync-core/src/state/mod.rs.
use stratosync.Common.{String, Bool, true, false, ◌≡◌, refl, str_eq, if◌then◌else◌}

pub data FileKind : Type 0 where
  file directory symlink : FileKind

unfoldable pub as_str : FileKind → String
as_str file = "file"
as_str directory = "dir"
as_str symlink = "symlink"

-- The match of `row_to_entry`.
unfoldable of_column : String → FileKind
of_column s = if str_eq s "dir" then directory else if str_eq s "symlink" then symlink else file

abbrev pub is_file : FileKind → Bool
is_file file = true
is_file _ = false

abbrev pub is_directory : FileKind → Bool
is_directory directory = true
is_directory _ = false

-- A kind is read back as it was written.
of_column-as_str : (k : FileKind) → of_column (as_str k) ≡ k
unfolding of_column as_str
of_column-as_str file = refl
of_column-as_str directory = refl
of_column-as_str symlink = refl
