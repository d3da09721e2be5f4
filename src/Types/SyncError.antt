-- ===== src/Types/SyncError.antt =====
-- `SyncError` of crates/stratosync-core/src/types/mod.rs. `Io` and `Other` wrap foreign errors, of
-- which the model keeps the text.
use stratosync.Common.{String, Bool, true, false, Option}

pub data SyncError : Type 0 where
  not_found permission_denied network transient fatal io other : String → SyncError
  conflict : Option String → Option String → SyncError
  quota_exceeded token_expired not_supported : SyncError

abbrev pub is_retryable : SyncError → Bool
is_retryable (network m) = true
is_retryable (transient m) = true
is_retryable quota_exceeded = true
is_retryable _ = false
