-- ===== src/Failure/Sanitized.antt =====
-- What a sanitised failure may show. internal/bb/awsbrowser/query.go.
use binbox_cli.Base.{ℕ, ◌≡◌, Bool, true, not, ◌&&◌, ◌||◌, [], leb, length}
use binbox_cli.Text.{Text, ◌=?◌}
use binbox_cli.Session.State.{is_failure}
use binbox_cli.Failure.{ProviderFailure, is_safe_text, cache_terminal}

-- Empty, or a short text of the safe alphabet.
unfoldable pub is_safe_metadata : Text → ℕ → Bool
is_safe_metadata value limit = value =? [] || (leb (length value) limit && is_safe_text value)

-- The texts of a failure are safe, its state is one that `FailQuery` accepts, and it is kept only
-- in a state that answers the next subscriber.
pub record IsSanitized (r : ProviderFailure × Bool) : Type 0 where
  pub failure : is_failure r.0.state ≡ true
  pub service : is_safe_metadata r.0.service 64 ≡ true
  pub operation : is_safe_metadata r.0.operation 128 ≡ true
  pub code : is_safe_metadata r.0.code 128 ≡ true
  pub request_id : is_safe_metadata r.0.request_id 256 ≡ true
  pub kept : (not r.1 || cache_terminal r.0.state) ≡ true
