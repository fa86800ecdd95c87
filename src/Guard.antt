-- ===== src/Guard.antt =====
-- Reads guarded by the verified identity: `guardedRead` and the checks around it.
-- internal/bb/awsbrowser/read_retry.go and identity.go. The gate lets one read run at a time, so a
-- read is one function of the guard's state. What the AWS SDK answers is a parameter: functions of
-- a world that each answer may change, so a credential may be renewed between any two of them.
pub mod Stable
use binbox_cli.Base.{
  ℕ, [], Bool, true, false, not, ◌&&◌, ◌||◌, Option, none, some, ◌==◌, if◌then◌else◌, holds,
  ℕ_discrete,
}
use binbox_cli.Errors.{
  Error, Result, ok, err, context_changed, expired_token, invalid_caller_identity,
}
use binbox_cli.Text.{Text, text, text_dec, ◌=?◌, trim_space, contains_control}
use binbox_cli.Identity.{Platform, Arn, VerifiedIdentity, is_account_id, is_partition}

-- `sts.GetCallerIdentityOutput`, where a nil pointer is `none`.
pub record CallerIdentity : Type 0 where
  pub account : Option Text
  pub arn : Option Text

unfoldable pub identity_dec : Discrete VerifiedIdentity
identity_dec = hlevel (text_dec, ℕ_discrete)

pub record Sdk (W T : Type 0) : Type 0 where
  -- `credentialSource.Generation`
  pub generation : W → ℕ × W
  -- `sts.GetCallerIdentity`, whose output may be nil
  pub caller_identity : W → Result (Option CallerIdentity) × W
  -- `credentials.Invalidate` and then `credentials.Retrieve`
  pub retrieve : W → Option Error × W
  -- the read itself
  pub read : W → Result T × W

pub record GuardState : Type 0 where
  pub identity : VerifiedIdentity
  pub changed : Bool

-- `ValidateReadIdentity`; the identity bound to a read, where there is one.
unfoldable pub validate_read_identity : Option VerifiedIdentity → VerifiedIdentity → Option Error
validate_read_identity none identity = none
validate_read_identity (some expected) identity =
    if not (holds (identity_dec expected identity)) then some context_changed else none

unfoldable pub is_expired_token : Error → Bool
is_expired_token expired_token = true
is_expired_token _ = false

-- `aws.ToString`
unfoldable pub to_string : Option Text → Text
to_string none = []
to_string (some s) = s

unfoldable pub verified_identity : Platform → Option CallerIdentity → ℕ → Result VerifiedIdentity
verified_identity env none generation = err invalid_caller_identity
verified_identity env (some output) generation =
    let account_id = to_string output.account in
    let principal_arn = to_string output.arn in
    if generation == 0 || (not (is_account_id account_id) || principal_arn =? [])
    then err invalid_caller_identity
    else elim (env.parse_arn principal_arn) [
      | none ↦ err invalid_caller_identity
      | some parsed ↦
          if not (is_partition parsed.partition)
            || (not (parsed.account_id =? account_id)
                || (not (parsed.region =? [])
                    || (parsed.resource =? []
                        || (contains_control principal_arn
                            || (not (parsed.service =? text "iam")
                                && not (parsed.service =? text "sts"))))))
          then err invalid_caller_identity
          else ok (record {
            partition = parsed.partition;
            account_id = account_id;
            principal_arn = principal_arn;
            credential_generation = generation;
          })
    ]

module _ {W T : Type 0} (env : Platform) (sdk : Sdk W T) where
  -- The part of `revalidate` behind the identity that AWS reported.
  unfoldable pub accept_identity :
      VerifiedIdentity → VerifiedIdentity → GuardState → Option Error × GuardState
  accept_identity expected actual g =
      if not (actual.account_id =? expected.account_id)
        || not (actual.partition =? expected.partition)
      then (some context_changed, record g { changed = true })
      else (none, record g { identity = actual })

  unfoldable pub revalidate : VerifiedIdentity → GuardState → W → Option Error × (GuardState × W)
  revalidate expected g w =
      let (output, w) = sdk.caller_identity w in
      elim output [
        | err e ↦ (some e, (g, w))
        | ok output ↦
            let (generation, w) = sdk.generation w in
            elim (verified_identity env output generation) [
              | err e ↦ (some e, (g, w))
              | ok actual ↦ let (e, g) = accept_identity expected actual g in (e, (g, w))
            ]
      ]

  unfoldable pub ensure_current_identity : GuardState → W → Option Error × (GuardState × W)
  ensure_current_identity g w =
      if g.changed
      then (some context_changed, (g, w))
      else (let (generation, w) = sdk.generation w in
          if generation == g.identity.credential_generation
          then (none, (g, w))
          else revalidate g.identity g w)

  unfoldable pub refresh_and_revalidate :
      VerifiedIdentity → GuardState → W → Option Error × (GuardState × W)
  refresh_and_revalidate expected g w =
      let (e, w) = sdk.retrieve w in
      elim e [ some e ↦ (some e, (g, w)) | none ↦ revalidate expected g w ]

  unfoldable pub commit_stable_response :
      VerifiedIdentity → T → GuardState → W → Result T × (GuardState × W)
  commit_stable_response expected value g w =
      let (generation, w) = sdk.generation w in
      if generation == expected.credential_generation
      then (ok value, (g, w))
      else (let (e, s) = revalidate expected g w in
          elim e [ some e ↦ (err e, s) | none ↦ (err context_changed, s) ])

  -- The second read, under the identity that was just verified.
  unfoldable pub read_again : Option VerifiedIdentity → GuardState → W → Result T × (GuardState × W)
  read_again bound g w = elim (validate_read_identity bound g.identity) [
    | some e ↦ (err e, (g, w))
    | none ↦
        let (value, w) = sdk.read w in
        elim value [
          | err e ↦ (err e, (g, w))
          | ok value ↦ commit_stable_response g.identity value g w
        ]
  ]

  -- What follows a check: its error, or the second read.
  unfoldable pub then_read_again :
      Option VerifiedIdentity → Option Error × (GuardState × W) → Result T × (GuardState × W)
  then_read_again bound (some e, s) = (err e, s)
  then_read_again bound (none, (g, w)) = read_again bound g w

  -- The first read, and a second where the first failed for an expired token or crossed a
  -- credential generation.
  unfoldable pub read_once : Option VerifiedIdentity → GuardState → W → Result T × (GuardState × W)
  read_once bound g w =
      let (value, w) = sdk.read w in
      elim value [
        | err e ↦
            if not (is_expired_token e)
            then (err e, (g, w))
            else then_read_again bound (refresh_and_revalidate g.identity g w)
        | ok value ↦
            let (generation, w) = sdk.generation w in
            if generation == g.identity.credential_generation
            then (ok value, (g, w))
            else then_read_again bound (revalidate g.identity g w)
      ]

  -- `canceled` is the error of the context, where it ends the wait for the gate.
  unfoldable pub guarded_read :
      (canceled : Option Error)
      → Option VerifiedIdentity
      → GuardState
      → W
      → Result T × (GuardState × W)
  guarded_read (some e) bound g w = (err e, (g, w))
  guarded_read none bound g w =
      let (e, (g, w)) = ensure_current_identity g w in
      elim e [
        | some e ↦ (err e, (g, w))
        | none ↦ elim (validate_read_identity bound g.identity) [
          | some e ↦ (err e, (g, w))
          | none ↦ read_once bound g w
        ]
      ]
