-- ===== src/Backend/Http.antt =====
-- Answers of the remote over HTTP, and the errors that crates/stratosync-core/src/backend/delta.rs makes of
-- them. The text of a number is the parameter `show`.
use Prim.Native.String
use stratosync.Common.{ℕ, String, ◌&&◌, ◌||◌, ◌==◌, leb, contains, if◌then◌else◌}
use stratosync.Types.SyncError.{SyncError, transient, fatal, token_expired, permission_denied}

-- `page` is a body that was parsed, `unread` one that was not, and `unsent` a request with no answer, or, of
-- a OneDrive, with a body that does not arrive. The texts are the messages of the errors.
pub data Http {ℓ} (A : Type ℓ) : Type ℓ where
  page : A → Http A
  status : ℕ → String → Http A
  unsent unread : String → Http A

module _ (show : ℕ → String) where
  abbrev in_words : ℕ → String → String
  in_words code body = String.◌++◌ "HTTP " (String.◌++◌ (show code) (String.◌++◌ ": " body))

  abbrev by_status : ℕ → String → SyncError
  by_status code body =
      if code == 410
      then token_expired
      else if code == 401 || code == 403
      then permission_denied (in_words code body)
      else if code == 429
      then transient (String.◌++◌ "rate limited: " body)
      else if leb 500 code && leb code 599
      then transient (String.◌++◌ "server error " (in_words code body))
      else fatal (in_words code body)

  -- `GoogleDriveDelta::map_http_error`
  unfoldable pub drive_error : ℕ → String → SyncError
  drive_error code body =
      if contains body "rateLimitExceeded"
        || contains body "RATE_LIMIT_EXCEEDED"
        || contains body "userRateLimitExceeded"
      then transient (String.◌++◌ "rate limited: " body)
      else by_status code body

  -- `OneDriveDelta::map_http_error`
  unfoldable pub onedrive_error : ℕ → String → SyncError
  onedrive_error code body =
      if code == 404 && contains body "resyncRequired" then token_expired else by_status code body
