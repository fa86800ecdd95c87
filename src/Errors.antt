-- ===== src/Errors.antt =====
-- Error values: each is the sentinel, or the provider error, that `errors.Is` and `errors.As` find
-- in its chain. internal/bb/awsbrowser/types.go, store.go, query.go, read_retry.go, relation.go.
use binbox_cli.Base.{ℕ, ◌≡◌, refl}
use binbox_cli.Text.{Text}

-- `ProviderErrorKind`; a text outside the constants is `other_kind`.
pub data ProviderErrorKind : Type 0 where
  forbidden auth_required throttled timed_out cancelled unsupported : ProviderErrorKind
  decode incomplete changed_context unknown : ProviderErrorKind
  other_kind : Text → ProviderErrorKind

pub record ProviderError : Type 0 where
  pub kind : ProviderErrorKind
  pub service : Text
  pub operation : Text
  pub code : Text
  pub request_id : Text

pub data Error : Type 0 where
  invalid_aws_context invalid_caller_identity invalid_resource_key invalid_query_key
        invalid_mapped_fields :
      Error
  incomplete_observation incomplete_page : Error
  invalid_load_state invalid_load_transition observation_scope : Error
  invalid_relation_evidence invalid_relation_semantics invalid_context_groups : Error
  context_changed invalid_query_result query_decode : Error
  context_canceled deadline_exceeded expired_token : Error
  provider_error : ProviderError → Error
  -- an error of other code, known by a number
  other_error : ℕ → Error

-- A pair of a value and an error of which the caller reads one.
pub data Result {ℓ} (V : Type ℓ) : Type ℓ where
  err : Error → Result V
  ok : V → Result V

-- `if err != nil { return err }` between two calls.
infixl 5 ◌>>=◌
abbrev pub ◌>>=◌ {ℓ κ} : {V : Type ℓ} {W : Type κ} → Result V → (V → Result W) → Result W
result >>= next = elim result [ err cause ↦ err cause | ok value ↦ next value ]

-- Two calls in a row returned a value: both did.
pub bind_ok {ℓ κ} :
    {V : Type ℓ} {W : Type κ} {final : W} (result : Result V) (next : V → Result W)
    → (result >>= next) ≡ ok final
    → (first : V) × (result ≡ ok first) × (next first ≡ ok final)
bind_ok (err cause) next both = cc
bind_ok (ok value) next both = (value, refl, both)
