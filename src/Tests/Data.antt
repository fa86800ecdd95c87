-- ===== src/Tests/Data.antt =====
-- A platform, a verified context, a query key, and a page with one instance.
use binbox_cli.Base.{
  ◌+◌, ◌≡◌, refl, true, none, some, [], ◌∷◌, if◌then◌else◌, any, all, leb, ◌&&◌, ℕ_discrete,
}
use mathlib.Core.Option
use binbox_cli.Text.{
  Text, text, text_dec, ◌=?◌, is_control, contains_control, drop_spaces, trim_space, decimal_digits,
  decimal, join_identity_parts,
}
use binbox_cli.Text.Split.{split, push_front, join, cut}
use binbox_cli.Url.{
  is_unreserved, hex_digit, is_hex, unhex, escape_byte, query_escape, query_unescape, encode_pair,
  encode_pairs, encode, parse_pair, parse_segments, parse_query,
}
use binbox_cli.Identity.{
  Platform, is_account_id, dashed_words, is_partition, region_words, is_region_name,
  is_profile_name, validate_context_spec, valid_identifier, valid_resource_id, AwsContext,
  context_seal, ResourceKey, resource_seal, QueryKey, query_seal, valid_region_scope,
  validate_resource_key, valid_verified_identity, validate_context, named_profile,
}
use binbox_cli.Identity.Keys.{
  strip_marks, starts_with, contains, text_lt, insert_sorted, sort_params, repeats, bad_value,
  sensitive_param_name, bad_name, normalize_query_params, validate_params, validate_query_key,
}
use binbox_cli.Observation.{
  no_fields, field, string, valid_keys, clone_mapped_value, ResourceObservation, QueryPage,
  observation_seal, observation_provenance, validate_complete, clone_observation, cloned_fields,
}

-- All that a run of the validation computes with.
unfoldable pub program : Unit {0}
unfolding any all text_dec is_control contains_control drop_spaces trim_space decimal_digits decimal
    join_identity_parts split push_front join cut is_unreserved hex_digit is_hex unhex escape_byte
    query_escape query_unescape encode_pair encode_pairs encode parse_pair parse_segments
    parse_query is_account_id dashed_words is_partition region_words is_region_name is_profile_name
    validate_context_spec valid_identifier valid_resource_id context_seal resource_seal query_seal
    valid_region_scope validate_resource_key valid_verified_identity validate_context strip_marks
    starts_with contains text_lt insert_sorted sort_params repeats bad_value sensitive_param_name
    bad_name normalize_query_params validate_params validate_query_key valid_keys clone_mapped_value
    observation_seal observation_provenance validate_complete clone_observation cloned_fields
    ℕ_discrete Option.bind
program = tt

abbrev pub account : Text
account = text "123456789012"

abbrev pub principal : Text
principal = text "arn:aws:iam::123456789012:user/dev"

abbrev lower : Text → Text
lower [] = []
lower (c ∷ s) = (if leb b'A' c && leb c b'Z' then c + 32 else c) ∷ lower s

abbrev pub platform : Platform
platform = record {
  parse_arn = λ s.
      if s =? principal
      then some (record {
        partition = text "aws";
        service = text "iam";
        region = [];
        account_id = account;
        resource = text "user/dev";
      })
      else none;
  to_lower = lower;
}

abbrev unsealed_context : AwsContext
unsealed_context = record {
  profile = text "dev";
  partition = text "aws";
  account_id = account;
  principal_arn = principal;
  role_name = [];
  region = text "eu-west-1";
  mode = named_profile;
  credential_gen = 1;
  seal = [];
}

abbrev pub dev_context : AwsContext
dev_context = record unsealed_context { seal = context_seal unsealed_context }

pub dev_context_valid : validate_context platform dev_context ≡ none
unfolding program
dev_context_valid = refl

abbrev unsealed_query : QueryKey
unsealed_query = record {
  context = dev_context;
  provider = text "ec2";
  operation = text "DescribeInstances";
  params_key = text "filter=a+b";
  seal = [];
}

abbrev pub instances : QueryKey
instances = record unsealed_query { seal = query_seal unsealed_query }

pub instances_valid : validate_query_key platform instances ≡ none
unfolding program
instances_valid = refl

abbrev unsealed_resource : ResourceKey
unsealed_resource = record {
  partition = text "aws";
  account_id = account;
  region = text "eu-west-1";
  type = text "instance";
  id = text "i-1";
  seal = [];
}

abbrev pub instance_key : ResourceKey
instance_key = record unsealed_resource { seal = resource_seal unsealed_resource }

abbrev unsealed_observation : ResourceObservation
unsealed_observation = record {
  context = dev_context;
  operation = text "DescribeInstances";
  fetched_at = 7;
  complete = true;
  fields = field (text "name") (string (text "web")) no_fields;
  operation_seal = [];
}

abbrev pub instance_seen : ResourceObservation
instance_seen = record unsealed_observation {
  operation_seal = observation_seal unsealed_observation;
}

abbrev pub page_one : QueryPage
page_one = record {
  number = 1;
  fetched_at = 7;
  complete = true;
  resources = record { key = instance_key; observation = instance_seen } ∷ [];
}

abbrev pub page_two : QueryPage
page_two = record page_one { number = 2; resources = [] }

-- The next credential generation.
abbrev pub other_context : AwsContext
other_context = record dev_context { credential_gen = 2; seal = [] }

abbrev pub other_instances : QueryKey
other_instances = record instances { context = other_context; seal = [] }

abbrev pub other_key : ResourceKey
other_key = record instance_key { id = text "i-2"; seal = [] }
