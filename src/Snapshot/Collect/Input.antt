-- ===== src/Snapshot/Collect/Input.antt =====
-- The rows of a snapshot run and the validation of a run. internal/bb/awsbrowser/snapshot/model.go.
use binbox_cli.Base.{Bool, true, false, not, ◌&&◌, ◌||◌, List, [], ◌∷◌, any, all, ltb}
use binbox_cli.Text.{Text, ◌=?◌}
use binbox_cli.Text.Split.{join}
use binbox_cli.Identity.{is_account_id}
use binbox_cli.Observation.{Time, is_zero}
use binbox_cli.Snapshot.{ResourceRef, valid_ref, valid_text, valid_optional_text, valid_region}

pub data CoverageStatus : Type 0 where
  succeeded failed not_observed : CoverageStatus
  other_status : Text → CoverageStatus

unfoldable pub valid_status : CoverageStatus → Bool
valid_status (other_status s) = false
valid_status _ = true

abbrev pub is_succeeded : CoverageStatus → Bool
is_succeeded succeeded = true
is_succeeded _ = false

pub record Resource : Type 0 where
  pub ref : ResourceRef
  pub name : Text

unfoldable pub valid_resource : Resource → Bool
valid_resource resource = valid_ref resource.ref && valid_optional_text resource.name 1024

pub record Observation : Type 0 where
  pub resource : ResourceRef
  pub profile : Text
  pub account_id : Text
  pub region : Text
  pub observed_at : Time

unfoldable pub valid_observation : Observation → Bool
valid_observation o =
    valid_ref o.resource
    && (valid_text o.profile 256
        && (is_account_id o.account_id && (valid_region o.region && not (is_zero o.observed_at))))

pub record Coverage : Type 0 where
  pub profile : Text
  pub account_id : Text
  pub region : Text
  pub service : Text
  pub status : CoverageStatus
  pub error_kind : Text

unfoldable pub valid_coverage : Coverage → Bool
valid_coverage c =
    valid_text c.profile 256
    && ((is_account_id c.account_id || (not (is_succeeded c.status) && c.account_id =? []))
        && (valid_region c.region
            && (valid_text c.service 128
                && (valid_status c.status
                    && (valid_optional_text c.error_kind 256
                        && not (is_succeeded c.status && not (c.error_kind =? [])))))))

pub record RunInput (L : Type 0) : Type 0 where
  pub started_at : Time
  pub completed_at : Time
  pub resources : List Resource
  pub observations : List Observation
  pub relations : List L
  pub coverage : List Coverage

abbrev pub coverage_key : Coverage → Text
coverage_key c = join 0 (c.profile ∷ c.account_id ∷ c.region ∷ c.service ∷ [])

-- `RunInput.validate` on the rows of coverage, with the keys that it has seen.
unfoldable pub coverage_accepted : List Coverage → List Coverage → Bool
coverage_accepted seen [] = true
coverage_accepted seen (c ∷ rest) =
    valid_coverage c
    && (not (any (λ s. coverage_key s =? coverage_key c) seen) && coverage_accepted (c ∷ seen) rest)

abbrev pub is_empty {ℓ} : {A : Type ℓ} → List A → Bool
is_empty [] = true
is_empty (x ∷ xs) = false

module _ {L : Type 0} where
  -- `RunInput.validate`, with the validation of a relation.
  unfoldable pub run_accepted : (L → Bool) → RunInput L → Bool
  run_accepted valid_relation input =
      not (is_zero input.started_at)
      && (not (is_zero input.completed_at)
          && (not (ltb input.completed_at input.started_at)
              && (not (is_empty input.coverage)
                  && (all valid_resource input.resources
                      && (all valid_observation input.observations
                          && (all valid_relation input.relations
                              && coverage_accepted [] input.coverage))))))
