-- ===== src/Failure.antt =====
-- Provider errors, and the failure that the query coordinator records and publishes of them.
-- internal/bb/awsbrowser/query.go.
pub mod Sanitized
use binbox_cli.Base.{
  ℕ, ◌≡◌, ◌⊎◌, refl, sym, Bool, true, false, not, ◌&&◌, ◌||◌, List, [], ◌∷◌, inl, inr, arith, ltb,
  leb, ◌==◌, if◌then◌else◌, all, length, Bool-cases,
}
use binbox_cli.Errors.{
  Error, ProviderError, ProviderErrorKind, context_changed, context_canceled, deadline_exceeded,
  query_decode, invalid_query_result, incomplete_page, incomplete_observation, provider_error,
}
use binbox_cli.Text.{Text, ◌=?◌, trim_space}
use binbox_cli.Identity.{QueryKey, is_alnum}
use binbox_cli.Session.State.{LoadState, is_failure}

unfoldable pub normalize_provider_kind : ProviderErrorKind → ProviderErrorKind
normalize_provider_kind (ProviderErrorKind.other_kind s) = ProviderErrorKind.unknown
normalize_provider_kind kind = kind

-- `^[A-Za-z0-9][A-Za-z0-9_.:/-]*$`
unfoldable pub is_safe_text : Text → Bool
is_safe_text [] = false
is_safe_text (c ∷ s) =
    is_alnum c
    && all
        (λ x. is_alnum x || (x == b'_' || (x == b'.' || (x == b':' || (x == b'/' || x == b'-'))))) s

unfoldable pub safe_provider_metadata : Text → ℕ → Text
safe_provider_metadata value limit =
    let value = trim_space value in
    if value =? [] || (ltb limit (length value) || not (is_safe_text value)) then [] else value

unfoldable pub new_provider_error :
    ProviderErrorKind → (service operation code request_id : Text) → ProviderError
new_provider_error kind service operation code request_id = record {
  kind = normalize_provider_kind kind;
  service = safe_provider_metadata service 64;
  operation = safe_provider_metadata operation 128;
  code = safe_provider_metadata code 128;
  request_id = safe_provider_metadata request_id 256;
}

pub record ProviderFailure : Type 0 where
  pub state : LoadState
  pub kind : ProviderErrorKind
  pub service : Text
  pub operation : Text
  pub code : Text
  pub request_id : Text
  pub partial_pages : ℕ

unfoldable pub load_state_for_provider_kind : ProviderErrorKind → LoadState
load_state_for_provider_kind ProviderErrorKind.forbidden = LoadState.forbidden
load_state_for_provider_kind ProviderErrorKind.auth_required = LoadState.auth_required
load_state_for_provider_kind ProviderErrorKind.throttled = LoadState.throttled
load_state_for_provider_kind ProviderErrorKind.timed_out = LoadState.timed_out
load_state_for_provider_kind ProviderErrorKind.cancelled = LoadState.cancelled
load_state_for_provider_kind ProviderErrorKind.unsupported = LoadState.unsupported
load_state_for_provider_kind _ = LoadState.unknown

-- The kinds whose failure is kept in the store.
unfoldable pub keeps_kind : ProviderErrorKind → Bool
keeps_kind ProviderErrorKind.forbidden = true
keeps_kind ProviderErrorKind.auth_required = true
keeps_kind ProviderErrorKind.unsupported = true
keeps_kind _ = false

unfoldable pub cache_terminal : LoadState → Bool
cache_terminal LoadState.ready = true
cache_terminal LoadState.empty = true
cache_terminal LoadState.stale = true
cache_terminal LoadState.forbidden = true
cache_terminal LoadState.auth_required = true
cache_terminal LoadState.unsupported = true
cache_terminal _ = false

-- The failure of no particular kind.
unfoldable pub base_failure : QueryKey → ℕ → ProviderFailure
base_failure key partial_pages = record {
  state = LoadState.unknown;
  kind = ProviderErrorKind.unknown;
  service = safe_provider_metadata key.provider 64;
  operation = safe_provider_metadata key.operation 128;
  code = [];
  request_id = [];
  partial_pages = partial_pages;
}

abbrev cleaned : ProviderError → ProviderError
cleaned e = new_provider_error e.kind e.service e.operation e.code e.request_id

unfoldable pub sanitized_provider_failure : Error → QueryKey → ℕ → ProviderFailure × Bool
sanitized_provider_failure context_changed key n = (
  record (base_failure key n) { kind = ProviderErrorKind.changed_context; partial_pages = 0 },
  false,
)
sanitized_provider_failure context_canceled key n = (
  record (base_failure key n) { state = LoadState.cancelled; kind = ProviderErrorKind.cancelled },
  false,
)
sanitized_provider_failure deadline_exceeded key n = (
  record (base_failure key n) { state = LoadState.timed_out; kind = ProviderErrorKind.timed_out },
  false,
)
sanitized_provider_failure query_decode key n =
    (record (base_failure key n) { kind = ProviderErrorKind.decode }, false)
sanitized_provider_failure invalid_query_result key n =
    (record (base_failure key n) { kind = ProviderErrorKind.incomplete }, false)
sanitized_provider_failure incomplete_page key n =
    (record (base_failure key n) { kind = ProviderErrorKind.incomplete }, false)
sanitized_provider_failure incomplete_observation key n =
    (record (base_failure key n) { kind = ProviderErrorKind.incomplete }, false)
sanitized_provider_failure (provider_error e) key n = (
  record (base_failure key n) {
    state = load_state_for_provider_kind (cleaned e).kind;
    kind = (cleaned e).kind;
    service = (cleaned e).service;
    operation = (cleaned e).operation;
    code = (cleaned e).code;
    request_id = (cleaned e).request_id;
  },
  keeps_kind (cleaned e).kind,
)
sanitized_provider_failure _ key n = (base_failure key n, false)
