-- ===== src/Tests/Snapshot.antt =====
-- A stored reference, a key that storage refuses, and a run over three scopes.
use binbox_cli.Relation.{
  new_relation_semantics, new_relation_evidence, validate_semantics, validate_evidence, valid_type,
  valid_kind,
}
use binbox_cli.Snapshot.Relations.{StoredRelation, observe_relations, valid_parts, valid_relation}
use binbox_cli.Base.{ℕ, ◌+◌, ◌≡◌, refl, true, false, Option, none, some, List, [], ◌∷◌, all, arith}
use binbox_cli.Errors.{Error}
use binbox_cli.Text.{Text, text}
use binbox_cli.Identity.{ResourceKey, resource_seal, validate_resource_key, is_region_name}
use binbox_cli.Snapshot.{
  ResourceRef, matches_partition, ends_in_digits, region_rest, matches_region, valid_text,
  valid_optional_text, valid_region, valid_ref, ref_key, ref_from_key, parse_resource_ref_key,
}
use binbox_cli.Snapshot.RefKey.{parse_resource_ref_key-ref_key}
use binbox_cli.Snapshot.Regions.{valid_region_iff, starts_with_letters}
use binbox_cli.Text.Split.{split}
use binbox_cli.Snapshot.Collect.{
  Scope, Collection, RunInput, Attempt, going, stopped, valid_resource, valid_status,
  valid_coverage, valid_scope, collection_error_kind, wrong_account, wrong_supplement, observe,
  add_failed, add_collected, add_scope, add_scopes, coverage_dec, scope_dec, valid_scopes, find_key,
  distinct_coverage, run_accepted, collect, new_input,
}
use binbox_cli.Snapshot.Collect.Accepted.{collect_accepted}
use binbox_cli.Tests.Data.{program, account, instance_key}

unfoldable snapshot_program : Unit {0}
unfolding program matches_partition ends_in_digits region_rest matches_region valid_text
    valid_optional_text valid_region valid_ref valid_resource valid_status valid_coverage
    valid_scope collection_error_kind wrong_account wrong_supplement observe add_failed
    add_collected add_scope add_scopes coverage_dec scope_dec valid_scopes find_key
    distinct_coverage collect observe_relations valid_parts valid_relation new_relation_semantics
    new_relation_evidence validate_semantics validate_evidence valid_type valid_kind
snapshot_program = tt

abbrev instance_ref : ResourceRef
instance_ref = record {
  partition = text "aws";
  account_id = account;
  region = text "eu-west-1";
  type = text "instance";
  id = text "i-1 & co";
}

instance_ref_valid : valid_ref instance_ref ≡ true
unfolding snapshot_program
instance_ref_valid = refl

parse_resource_ref_key-ref_key_example :
    (key : Text) × (ref_key instance_ref ≡ some key)
    × (parse_resource_ref_key key ≡ some instance_ref)
parse_resource_ref_key-ref_key_example =
    parse_resource_ref_key-ref_key instance_ref
      (omega arith, omega arith, omega arith, omega arith, omega arith) instance_ref_valid

abbrev unsealed_key : ResourceKey
unsealed_key = record instance_key {
  partition = text "aws-eusc";
  region = text "eusc-de-east-1";
  seal = [];
}

abbrev sovereign_key : ResourceKey
sovereign_key = record unsealed_key { seal = resource_seal unsealed_key }

sovereign_valid : validate_resource_key sovereign_key ≡ none
unfolding program
sovereign_valid = refl

-- A valid key of a sovereign cloud: its region is the browser's, its reference has no key.
sovereign_refused :
    (ref : ResourceRef) × (ref_from_key sovereign_key ≡ some ref)
    × (valid_ref ref ≡ false)
    × (ref_key ref ≡ none)
unfolding snapshot_program ref_from_key ref_key
sovereign_refused = (
  record {
    partition = text "aws-eusc";
    account_id = account;
    region = text "eusc-de-east-1";
    type = sovereign_key.type;
    id = sovereign_key.id;
  },
  refl,
  refl,
  refl,
)

sovereign_region : is_region_name (text "eusc-de-east-1") ≡ true
unfolding program
sovereign_region = refl

valid_region_iff_example :
    valid_region (text "eusc-de-east-1") ≡ starts_with_letters (split b'-' (text "eusc-de-east-1"))
valid_region_iff_example = valid_region_iff (text "eusc-de-east-1") sovereign_region

abbrev scope_of : Text → Scope
scope_of service = record {
  profile = text "dev";
  account_id = [];
  region = text "eu-west-1";
  service = service;
  not_observed = false;
  reason = [];
}

abbrev skipped : Scope
skipped = record (scope_of (text "iam")) { not_observed = true; reason = text "disabled" }

abbrev nothing : Collection StoredRelation
nothing = record { account_id = []; resources = []; relations = []; coverage = [] }

abbrev uses : StoredRelation
uses = record {
  source = instance_ref;
  target = record instance_ref { id = text "i-2" };
  type = text "uses";
  direction = text "outgoing";
  confidence = text "id-exact";
  condition = [];
  reason = text "launch";
  operation = text "DescribeInstances";
  scope = text "eu-west-1";
  observed_at = 3;
  profile = [];
  account_id = [];
  region = [];
}

abbrev found : Collection StoredRelation
found = record nothing {
  account_id = account;
  resources = record { ref = instance_ref; name = text "web" } ∷ [];
  relations = uses ∷ [];
}

abbrev rows : List (Scope × Collection StoredRelation × Option (Option Text) × Option Error)
rows =
    (scope_of (text "ec2"), found, none, none)
    ∷ (scope_of (text "elbv2"), nothing, some (some (text " throttled ")), none)
    ∷ (skipped, nothing, none, none)
    ∷ []

abbrev clock : ℕ → ℕ
clock k = k + 7

abbrev reached : Attempt (RunInput StoredRelation) → RunInput StoredRelation
reached (going input) = input
reached (stopped failure) = new_input 0

abbrev input : RunInput StoredRelation
unfolding snapshot_program
input = reached (collect observe_relations clock none rows)

collects : collect observe_relations clock none rows ≡ going input
unfolding snapshot_program
collects = refl

input_resources : all valid_resource input.resources ≡ true
unfolding snapshot_program
input_resources = refl

input_relations : all valid_relation input.relations ≡ true
unfolding snapshot_program
input_relations = refl

collect_accepted_example : run_accepted valid_relation input ≡ true
collect_accepted_example =
    collect_accepted clock none rows input (λ k e. absurd (omega arith)) (λ k. omega arith) collects
      input_resources input_relations
