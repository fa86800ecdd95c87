-- ===== src/Tests/Parts.antt =====
-- Constructors, region sets and relations at concrete values.
use binbox_cli.Base.{◌≡◌, refl, [], ◌∷◌, List, none, arith, All, length, ◌≤◌}
use binbox_cli.Errors.{ok, err, Result, invalid_context_groups}
use binbox_cli.Text.{Text, text}
use binbox_cli.Identity.{
  ContextSpec, VerifiedIdentity, new_aws_context, validate_context, new_canonical_resource_key,
  new_resource_key, validate_resource_key, named_profile,
}
use binbox_cli.Identity.Made.{
  new_aws_context_valid, new_canonical_resource_key_valid, new_resource_key_valid,
}
use binbox_cli.Groups.Bounds.{parse_region_set_bounded}
use binbox_cli.Groups.{
  validate_context_selection, contains_string, distinct_regions, canonical_region_set,
  parse_region_set, max_group_regions,
}
use binbox_cli.Groups.Regions.{parse_region_set-canonical_region_set, IsRegion}
use binbox_cli.Observation.{
  MappedFields, no_fields, field, string, key, time, array, object, item, done,
}
use binbox_cli.Relation.{
  Relation, RelationSemantics, RelationEvidence, valid_type, valid_kind, validate_semantics,
  validate_evidence, validate_all_evidence, insert_evidence, sort_evidence, new_relation,
  new_relation_semantics, new_relation_evidence, field_of, text_field, key_field, time_field,
  mapped_relation, mapped_relations, listed_values, single_value, append_items,
  relations_from_mapped_fields,
}
use binbox_cli.Relation.Order.{
  IsRelation, at_time, new_relation-IsRelation, relations_from_mapped_fields-IsRelation,
}
use binbox_cli.Tests.Data.{program, platform, account, principal, dev_context, instance_key}

abbrev pub spec : ContextSpec
spec = record { mode = named_profile; profile = text "dev"; region = text "eu-west-1" }

abbrev pub identity : VerifiedIdentity
identity = record {
  partition = text "aws";
  account_id = account;
  principal_arn = principal;
  credential_generation = 1;
}

context_made : new_aws_context platform spec identity [] ≡ ok dev_context
unfolding program new_aws_context
context_made = refl

new_aws_context_valid_example : validate_context platform dev_context ≡ none
new_aws_context_valid_example =
    new_aws_context_valid platform spec identity [] dev_context context_made

key_made :
    new_canonical_resource_key
      (text "aws")
      account
      (text " eu-west-1")
      (text "instance")
      (text "i-1 ")
    ≡ ok instance_key
unfolding program new_canonical_resource_key
key_made = refl

new_canonical_resource_key_valid_example : validate_resource_key instance_key ≡ none
new_canonical_resource_key_valid_example =
    new_canonical_resource_key_valid (text "aws") account (text " eu-west-1") (text "instance")
      (text "i-1 ") instance_key key_made

regional_made :
    new_resource_key platform dev_context (text "eu-west-1") (text "instance") (text "i-1")
    ≡ ok instance_key
unfolding program new_resource_key
regional_made = refl

new_resource_key_valid_example :
    (validate_resource_key instance_key ≡ none)
    × (instance_key.partition ≡ dev_context.partition)
    × (instance_key.account_id ≡ dev_context.account_id)
new_resource_key_valid_example =
    new_resource_key_valid platform dev_context (text "eu-west-1") (text "instance") (text "i-1")
      instance_key regional_made

abbrev regions : List Text
regions = text "us-east-1" ∷ text "eu-west-1" ∷ text "us-east-1" ∷ []

abbrev region_set : List Text
region_set = text "eu-west-1" ∷ text "us-east-1" ∷ []

set_written : canonical_region_set regions (text "eu-west-1") ≡ ok (text "eu-west-1,us-east-1")
unfolding program validate_context_selection contains_string distinct_regions canonical_region_set
set_written = refl

set_distinct : distinct_regions [] (text "eu-west-1" ∷ regions) ≡ ok region_set
unfolding program validate_context_selection contains_string distinct_regions
set_distinct = refl

parse_region_set-canonical_region_set_example :
    parse_region_set (text "eu-west-1,us-east-1") (text "eu-west-1") ≡ ok region_set
parse_region_set-canonical_region_set_example =
    parse_region_set-canonical_region_set regions (text "eu-west-1") (text "eu-west-1,us-east-1")
      region_set set_written set_distinct (omega arith)

parse_region_set_bounded_example : (length region_set ≤ max_group_regions) × All IsRegion region_set
parse_region_set_bounded_example =
    parse_region_set_bounded (text "eu-west-1,us-east-1") (text "eu-west-1") region_set
      parse_region_set-canonical_region_set_example

-- Sixteen regions without the current one: the value written is not read back.
abbrev sixteen : List Text
sixteen =
    text "a-a-1"
    ∷ text "a-a-2"
    ∷ text "a-a-3"
    ∷ text "a-a-4"
    ∷ text "a-a-5"
    ∷ text "a-a-6"
    ∷ text "a-a-7"
    ∷ text "a-a-8"
    ∷ text "b-b-1"
    ∷ text "b-b-2"
    ∷ text "b-b-3"
    ∷ text "b-b-4"
    ∷ text "b-b-5"
    ∷ text "b-b-6"
    ∷ text "b-b-7"
    ∷ text "b-b-8"
    ∷ []

abbrev reread : Result Text → Text → Result (List Text)
reread (ok value) current = parse_region_set value current
reread (err e) current = ok []

seventeen_refused :
    reread (canonical_region_set sixteen (text "c-c-1")) (text "c-c-1") ≡ err invalid_context_groups
unfolding program validate_context_selection contains_string distinct_regions canonical_region_set
    parse_region_set
seventeen_refused = refl

abbrev semantics : RelationSemantics
semantics = record { type = text "uses"; direction = text "outgoing"; condition = [] }

abbrev seen : RelationEvidence
seen = record {
  kind = text "id-exact";
  reason = text "direct";
  operation = text "DescribeInstances";
  scope = text "eu-west-1";
  observed_at = 9;
}

abbrev earlier : RelationEvidence
earlier = record seen { observed_at = 4 }

abbrev uses : Relation
uses = record {
  source = instance_key;
  target = instance_key;
  semantics = semantics;
  evidence = earlier ∷ seen ∷ [];
}

relation_made : new_relation instance_key instance_key semantics (seen ∷ earlier ∷ []) ≡ ok uses
unfolding program valid_type valid_kind validate_semantics validate_evidence validate_all_evidence
    insert_evidence sort_evidence new_relation
relation_made = refl

new_relation-IsRelation_example :
    IsRelation uses × (at_time 4 uses.evidence ≡ at_time 4 (seen ∷ earlier ∷ []))
new_relation-IsRelation_example =
    new_relation-IsRelation instance_key instance_key semantics (seen ∷ earlier ∷ []) uses 4
      relation_made

abbrev mapped : MappedFields
mapped = field (text "source") (key instance_key) (
    field (text "target") (key instance_key) (
      field (text "relation_type") (string (text "uses")) (
        field (text "direction") (string (text "outgoing")) (
          field (text "condition") (string []) (
            field (text "kind") (string (text "id-exact")) (
              field (text "reason") (string (text "direct")) (
                field (text "operation") (string (text "DescribeInstances")) (
                  field (text "scope") (string (text "eu-west-1"))
                    (field (text "observed_at") (time 9) no_fields)))))))))

abbrev fields : MappedFields
fields = field (text "relations") (array (item (object mapped) done)) no_fields

abbrev seen_once : Relation
seen_once = record uses { evidence = seen ∷ [] }

relations_mapped : relations_from_mapped_fields fields ≡ ok (seen_once ∷ [])
unfolding program valid_type valid_kind validate_semantics validate_evidence validate_all_evidence
    insert_evidence sort_evidence new_relation new_relation_semantics new_relation_evidence field_of
    text_field key_field time_field mapped_relation mapped_relations listed_values single_value
    append_items relations_from_mapped_fields
relations_mapped = refl

relations_from_mapped_fields-IsRelation_example : All IsRelation (seen_once ∷ [])
relations_from_mapped_fields-IsRelation_example =
    relations_from_mapped_fields-IsRelation fields (seen_once ∷ []) relations_mapped
