-- ===== src/Snapshot/Collect.antt =====
-- `Coordinator.Collect`: what a snapshot run collects. internal/bb/awsbrowser/snapshot/sync.go.
-- The collector's answers, the clock and the context's error are parameters.
pub mod Input
pub mod Rows
pub mod Growth
pub mod Distinct
pub mod Accepted
use binbox_cli.Base.{
  ℕ, ◌+◌, Bool, true, false, not, ◌&&◌, ◌||◌, Option, none, some, List, [], ◌∷◌, ◌++◌,
  if◌then◌else◌, any, all, holds, ltb,
}
use binbox_cli.Errors.{Error}
use binbox_cli.Text.{Text, text, text_dec, ◌=?◌, trim_space}
use binbox_cli.Text.Split.{join}
use binbox_cli.Identity.{is_account_id}
use binbox_cli.Observation.{Time, is_zero}
use binbox_cli.Snapshot.{ResourceRef, valid_ref, valid_text, valid_optional_text, valid_region}
pub use binbox_cli.Snapshot.Collect.Input.{
  CoverageStatus, succeeded, failed, not_observed, other_status, is_succeeded, Resource,
  Observation, Coverage, RunInput, coverage_key, is_empty,
}
unfoldable pub use binbox_cli.Snapshot.Collect.Input.{
  valid_status, valid_resource, valid_observation, valid_coverage, coverage_accepted, run_accepted,
}

pub record Scope : Type 0 where
  pub profile : Text
  pub account_id : Text
  pub region : Text
  pub service : Text
  pub not_observed : Bool
  pub reason : Text

unfoldable pub valid_scope : Scope → Bool
valid_scope s =
    valid_text s.profile 256
    && ((s.account_id =? [] || is_account_id s.account_id)
        && (valid_region s.region
            && (valid_text s.service 128
                && (valid_optional_text s.reason 256
                    && (if s.not_observed then not (s.reason =? []) else s.reason =? [])))))

-- Relations are of a type of their own, whose observer `Collect` writes.
pub record Collection (L : Type 0) : Type 0 where
  pub account_id : Text
  pub resources : List Resource
  pub relations : List L
  pub coverage : List Coverage

pub data CollectFailure : Type 0 where
  invalid_input : CollectFailure
  context_error : Error → CollectFailure

pub data Attempt {ℓ} (A : Type ℓ) : Type ℓ where
  stopped : CollectFailure → Attempt A
  going : A → Attempt A

infixl 5 ◌>>=◌
abbrev pub ◌>>=◌ {ℓ κ} : {A : Type ℓ} {B : Type κ} → Attempt A → (A → Attempt B) → Attempt B
attempt >>= next = elim attempt [ stopped failure ↦ stopped failure | going a ↦ next a ]

-- `collectionErrorKind`, on the kind of the CollectionError in the chain, if there is one.
unfoldable pub collection_error_kind : Option Text → Text
collection_error_kind none = text "unknown"
collection_error_kind (some kind) =
    if valid_optional_text (trim_space kind) 256 && not (trim_space kind =? [])
    then trim_space kind
    else text "unknown"

abbrev pub scope_coverage : Scope → Text → CoverageStatus → Text → Coverage
scope_coverage scope account_id status error_kind = record {
  profile = scope.profile;
  account_id = account_id;
  region = scope.region;
  service = scope.service;
  status = status;
  error_kind = error_kind;
}

-- The account of a collection is no account, or another than the scope's.
unfoldable pub wrong_account : Scope → Text → Bool
wrong_account scope account_id =
    not (is_account_id account_id)
    || (not (scope.account_id =? []) && not (scope.account_id =? account_id))

unfoldable pub wrong_supplement : Scope → Coverage → Bool
wrong_supplement scope c =
    not (c.profile =? scope.profile) || (c.service =? scope.service || not (valid_coverage c))

unfoldable pub observe : Scope → Text → Time → List Resource → List Observation
observe scope account_id t [] = []
observe scope account_id t (r ∷ rs) =
    record {
      resource = r.ref;
      profile = scope.profile;
      account_id = account_id;
      region = scope.region;
      observed_at = t;
    }
    ∷ observe scope account_id t rs

-- The second loop's state: the input so far, and how often the clock was read.
pub record Progress (L : Type 0) : Type 0 where
  pub input : RunInput L
  pub readings : ℕ

module _ {L : Type 0} (observed_by : Scope → Text → List L → List L) (now : ℕ → Time) where
  abbrev with_coverage : Progress L → Coverage → Progress L
  with_coverage p c = record p {
    input = record p.input { coverage = p.input.coverage ++ (c ∷ []) };
  }

  -- A scope whose collector failed.
  unfoldable pub add_failed :
      Option Error → Scope → Text → Option Text → Progress L → Attempt (Progress L)
  add_failed ctx scope account_id kind p = elim ctx [
    | some e ↦ stopped (context_error e)
    | none ↦
        if not (account_id =? []) && wrong_account scope account_id
        then stopped invalid_input
        else going (
            with_coverage p (
              scope_coverage scope (if account_id =? [] then scope.account_id else account_id)
                failed (collection_error_kind kind)))
  ]

  unfoldable pub add_collected : Scope → Collection L → Progress L → Attempt (Progress L)
  add_collected scope collection p =
      if wrong_account scope collection.account_id
      then stopped invalid_input
      else if any (wrong_supplement scope) collection.coverage
      then stopped invalid_input
      else going (record {
        input = record p.input {
          coverage =
              p.input.coverage
              ++ (scope_coverage scope collection.account_id succeeded [] ∷ collection.coverage);
          resources = p.input.resources ++ collection.resources;
          relations =
              p.input.relations ++ observed_by scope collection.account_id collection.relations;
          observations =
              p.input.observations
              ++ observe scope collection.account_id (now p.readings) collection.resources;
        };
        readings = p.readings + 1;
      })

  -- One turn of the loop over the scopes; a failure of the collector carries its kind.
  unfoldable pub add_scope :
      Option Error → Scope → Collection L → Option (Option Text) → Progress L → Attempt (Progress L)
  add_scope ctx scope collection failure p = elim scope.not_observed [
    | true ↦
        going (with_coverage p (scope_coverage scope scope.account_id not_observed scope.reason))
    | false ↦ elim failure [
      | some kind ↦ add_failed ctx scope collection.account_id kind p
      | none ↦ add_collected scope collection p
    ]
  ]

  -- The loop: a scope with what its collector answered, and the context's error at its turn.
  unfoldable pub add_scopes :
      List (Scope × Collection L × Option (Option Text) × Option Error)
      → Progress L
      → Attempt (Progress L)
  add_scopes [] p = going p
  add_scopes ((scope, collection, failure, ctx) ∷ rest) p =
      add_scope ctx scope collection failure p >>= λ p. add_scopes rest p

unfoldable pub coverage_dec : Discrete Coverage
coverage_dec = hlevel text_dec

unfoldable pub scope_dec : Discrete Scope
scope_dec = hlevel text_dec

-- Scopes are valid and distinct.
unfoldable pub valid_scopes : List Scope → List Scope → Bool
valid_scopes seen [] = true
valid_scopes seen (s ∷ rest) =
    valid_scope s && (not (any (λ t. holds (scope_dec t s)) seen) && valid_scopes (s ∷ seen) rest)

unfoldable pub find_key : Text → List Coverage → Option Coverage
find_key key [] = none
find_key key (c ∷ rest) = if coverage_key c =? key then some c else find_key key rest

-- The last loop: each key stands once, and a key with two rows that differ stops.
unfoldable pub distinct_coverage : List Coverage → List Coverage → Attempt (List Coverage)
distinct_coverage seen [] = going []
distinct_coverage seen (c ∷ rest) = elim (find_key (coverage_key c) seen) [
  | some previous ↦ elim (holds (coverage_dec previous c)) [
    | true ↦ distinct_coverage seen rest
    | false ↦ stopped invalid_input
  ]
  | none ↦ distinct_coverage (c ∷ seen) rest >>= λ kept. going (c ∷ kept)
]

abbrev pub new_input : {L : Type 0} → Time → RunInput L
new_input t = record {
  started_at = t;
  completed_at = 0;
  resources = [];
  observations = [];
  relations = [];
  coverage = [];
}

module _ {L : Type 0} where
  abbrev pub scopes_of :
      List (Scope × Collection L × Option (Option Text) × Option Error) → List Scope
  scopes_of [] = []
  scopes_of ((scope, collection, failure, ctx) ∷ rest) = scope ∷ scopes_of rest

  -- `Collect`, with the context's error behind the wait.
  unfoldable pub collect :
      (Scope → Text → List L → List L)
      → (ℕ → Time)
      → Option Error
      → List (Scope × Collection L × Option (Option Text) × Option Error)
      → Attempt (RunInput L)
  collect observed_by now ctx rows =
      if is_empty rows || not (valid_scopes [] (scopes_of rows))
      then stopped invalid_input
      else elim ctx [
        | some e ↦ stopped (context_error e)
        | none ↦
            add_scopes observed_by now rows (record { input = new_input (now 0); readings = 1 })
            >>= λ p. distinct_coverage [] p.input.coverage >>= λ coverage.
                going (record p.input { coverage = coverage; completed_at = now p.readings })
      ]
