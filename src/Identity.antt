-- ===== src/Identity.antt =====
-- Verified AWS contexts and the keys of resources and queries.
-- internal/bb/awsbrowser/contract.go, identity.go, runtime_factory.go, credentials.go, types.go.
pub mod Seal
pub mod Made
pub mod Keys
use binbox_cli.Base.{
  ℕ, ◌+◌, Bool, true, false, not, ◌&&◌, ◌||◌, Option, none, some, List, [], ◌∷◌, leb, ltb, ◌==◌,
  if◌then◌else◌, length, any, all, holds, ℕ_discrete,
}
use binbox_cli.Errors.{
  Error, Result, ok, err, invalid_aws_context, invalid_resource_key, invalid_query_key, ◌>>=◌,
}
use binbox_cli.Text.{
  Text, text, text_dec, ◌=?◌, trim_space, contains_control, join_identity_parts, decimal,
}
use binbox_cli.Text.Split.{split}
use binbox_cli.Url.{Values, within, encode, parse_query}

-- What the code takes from elsewhere: `arn.Parse` of the AWS SDK, and the Unicode tables behind
-- `strings.ToLower`.
pub record Arn : Type 0 where
  pub partition : Text
  pub service : Text
  pub region : Text
  pub account_id : Text
  pub resource : Text

pub record Platform : Type 0 where
  pub parse_arn : Text → Option Arn
  pub to_lower : Text → Text

abbrev pub is_digit : ℕ → Bool
is_digit = within b'0' b'9'

abbrev pub is_word : ℕ → Bool
is_word c = within b'a' b'z' c || is_digit c

-- `^[0-9]{12}$`
unfoldable pub is_account_id : Text → Bool
is_account_id s = length s == 12 && all is_digit s

-- Behind `aws`: words of `[a-z0-9]+`, a dash before each; the flag is that a word may end here.
unfoldable pub dashed_words : Bool → Text → Bool
dashed_words ready [] = ready
dashed_words ready (c ∷ s) = (is_word c || (c == b'-' && ready)) && dashed_words (is_word c) s

-- `^aws(?:-[a-z0-9]+)*$`
unfoldable pub is_partition : Text → Bool
is_partition (a ∷ b ∷ c ∷ []) = a == b'a' && (b == b'w' && c == b's')
is_partition (a ∷ b ∷ c ∷ d ∷ s) =
    a == b'a' && (b == b'w' && (c == b's' && (d == b'-' && dashed_words false s)))
is_partition _ = false

-- Words between dashes, the last of digits; `dashes` counts those before.
unfoldable pub region_words : ℕ → List Text → Bool
region_words dashes [] = false
region_words dashes (w ∷ []) = leb 2 dashes && (leb 1 (length w) && all is_digit w)
region_words dashes (w ∷ v ∷ ws) =
    leb 1 (length w) && (all is_word w && region_words (dashes + 1) (v ∷ ws))

-- `^[a-z0-9]+(?:-[a-z0-9]+)+-[0-9]+$`
unfoldable pub is_region_name : Text → Bool
is_region_name s = region_words 0 (split b'-' s)

abbrev pub is_alnum : ℕ → Bool
is_alnum c = within b'A' b'Z' c || is_word c

-- `^[A-Za-z0-9][A-Za-z0-9._/-]*$`
unfoldable pub is_profile_name : Text → Bool
is_profile_name [] = false
is_profile_name (c ∷ s) =
    is_alnum c && all (λ x. is_alnum x || (x == b'.' || (x == b'_' || (x == b'/' || x == b'-')))) s

abbrev pub global_region : Text
global_region = text "global"

abbrev pub ambient : Text
ambient = text "ambient"

abbrev pub named_profile : Text
named_profile = text "named-profile"

pub record ContextSpec : Type 0 where
  pub mode : Text
  pub profile : Text
  pub region : Text

pub record VerifiedIdentity : Type 0 where
  pub partition : Text
  pub account_id : Text
  pub principal_arn : Text
  pub credential_generation : ℕ

-- The errors of `validateContextSpec`.
pub data SpecError : Type 0 where
  invalid_region ambient_names_profile invalid_profile_name invalid_mode : SpecError

unfoldable pub validate_context_spec : ContextSpec → Option SpecError
validate_context_spec spec =
    if spec.region =? [] || (ltb 64 (length spec.region) || not (is_region_name spec.region))
    then some invalid_region
    else if spec.mode =? ambient
    then (if not (spec.profile =? []) then some ambient_names_profile else none)
    else if spec.mode =? named_profile
    then (if not (is_profile_name spec.profile) then some invalid_profile_name else none)
    else some invalid_mode

abbrev pub is_none {ℓ} : {A : Type ℓ} → Option A → Bool
is_none none = true
is_none (some _) = false

unfoldable pub valid_identifier : Text → Bool
valid_identifier value =
    let value = trim_space value in
    not (value =? []) && (leb (length value) 256 && not (contains_control value))

unfoldable pub valid_resource_id : Text → Bool
valid_resource_id value =
    let value = trim_space value in
    not (value =? []) && (leb (length value) 2048 && not (contains_control value))

pub record AwsContext : Type 0 where
  pub profile : Text
  pub partition : Text
  pub account_id : Text
  pub principal_arn : Text
  pub role_name : Text
  pub region : Text
  pub mode : Text
  pub credential_gen : ℕ
  pub seal : Text

unfoldable pub context_seal : AwsContext → Text
context_seal c = join_identity_parts (
    c.mode
    ∷ c.profile
    ∷ c.partition
    ∷ c.account_id
    ∷ c.principal_arn
    ∷ c.role_name
    ∷ c.region
    ∷ decimal c.credential_gen
    ∷ [])

pub record ContextProvenance : Type 0 where
  pub mode : Text
  pub profile : Text
  pub partition : Text
  pub account_id : Text
  pub principal_arn : Text
  pub role_name : Text
  pub region : Text
  pub credential_gen : ℕ

-- The provenance of the fields, which `Provenance` gives beside a nil error.
abbrev pub context_provenance : AwsContext → ContextProvenance
context_provenance c = record {
  mode = c.mode;
  profile = c.profile;
  partition = c.partition;
  account_id = c.account_id;
  principal_arn = c.principal_arn;
  role_name = c.role_name;
  region = c.region;
  credential_gen = c.credential_gen;
}

pub record ResourceKey : Type 0 where
  pub partition : Text
  pub account_id : Text
  pub region : Text
  pub type : Text
  pub id : Text
  pub seal : Text

unfoldable pub resource_seal : ResourceKey → Text
resource_seal k = join_identity_parts (k.partition ∷ k.account_id ∷ k.region ∷ k.type ∷ k.id ∷ [])

pub record QueryKey : Type 0 where
  pub context : AwsContext
  pub provider : Text
  pub operation : Text
  pub params_key : Text
  pub seal : Text

unfoldable pub query_seal : QueryKey → Text
query_seal k =
    join_identity_parts (context_seal k.context ∷ k.provider ∷ k.operation ∷ k.params_key ∷ [])

unfoldable pub valid_region_scope : Text → Bool
valid_region_scope region = region =? global_region || is_region_name region

unfoldable pub validate_resource_key : ResourceKey → Option Error
validate_resource_key k =
    if k.seal =? []
      || (not (k.seal =? resource_seal k)
          || (not (is_partition k.partition)
              || (not (is_account_id k.account_id)
                  || (not (valid_region_scope k.region)
                      || (not (valid_identifier k.type) || not (valid_resource_id k.id))))))
    then some invalid_resource_key
    else none

-- `NewCanonicalResourceKey`
unfoldable pub new_canonical_resource_key :
    (partition account_id region type id : Text) → Result ResourceKey
new_canonical_resource_key partition account_id region type id =
    let key : ResourceKey = record {
      partition = trim_space partition;
      account_id = trim_space account_id;
      region = trim_space region;
      type = trim_space type;
      id = trim_space id;
      seal = [];
    } in
    if not (is_partition key.partition)
      || (not (is_account_id key.account_id)
          || (not (valid_region_scope key.region)
              || (not (valid_identifier key.type) || not (valid_resource_id key.id))))
    then err invalid_resource_key
    else ok (record key { seal = resource_seal key })

module _ (env : Platform) where
  unfoldable pub valid_verified_identity : VerifiedIdentity → Bool
  valid_verified_identity identity =
      not (identity.credential_generation == 0)
      && (is_account_id identity.account_id
          && (is_partition identity.partition
              && (not (identity.principal_arn =? [])
                  && (not (contains_control identity.principal_arn)
                      && elim (env.parse_arn identity.principal_arn) [
                        | none ↦ false
                        | some arn ↦
                            arn.partition =? identity.partition
                            && (arn.account_id =? identity.account_id
                                && (arn.region =? []
                                    && (not (arn.resource =? [])
                                        && (arn.service =? text "iam"
                                            || arn.service =? text "sts"))))
                      ]))))

  unfoldable pub new_aws_context : ContextSpec → VerifiedIdentity → Text → Result AwsContext
  new_aws_context spec identity role_name =
      if not (is_none (validate_context_spec spec))
        || (not (valid_verified_identity identity) || contains_control role_name)
      then err invalid_aws_context
      else (let context : AwsContext = record {
        profile = spec.profile;
        partition = identity.partition;
        account_id = identity.account_id;
        principal_arn = identity.principal_arn;
        role_name = role_name;
        region = spec.region;
        mode = spec.mode;
        credential_gen = identity.credential_generation;
        seal = [];
      } in
          ok (record context { seal = context_seal context }))

  unfoldable pub validate_context : AwsContext → Option Error
  validate_context c =
      let identity : VerifiedIdentity = record {
        partition = c.partition;
        account_id = c.account_id;
        principal_arn = c.principal_arn;
        credential_generation = c.credential_gen;
      } in
      let spec : ContextSpec = record { mode = c.mode; profile = c.profile; region = c.region } in
      if c.seal =? [] || not (c.seal =? context_seal c)
      then some invalid_aws_context
      else if not (is_none (validate_context_spec spec))
          || (not (valid_verified_identity identity) || contains_control c.role_name)
      then some invalid_aws_context
      else none

  unfoldable pub provenance : AwsContext → Result ContextProvenance
  provenance c = elim (validate_context c) [ some e ↦ err e | none ↦ ok (context_provenance c) ]

  unfoldable pub new_resource_key : AwsContext → (region type id : Text) → Result ResourceKey
  new_resource_key c region type id =
      if not (is_none (validate_context c))
        || (not (valid_identifier type)
            || (not (valid_resource_id id)
                || (not (region =? global_region) && not (region =? c.region))))
      then err invalid_resource_key
      else (let key : ResourceKey = record {
        partition = c.partition;
        account_id = c.account_id;
        region = region;
        type = trim_space type;
        id = trim_space id;
        seal = [];
      } in
          ok (record key { seal = resource_seal key }))

  unfoldable pub new_regional_resource_key : AwsContext → (type id : Text) → Result ResourceKey
  new_regional_resource_key c type id = new_resource_key c c.region type id

  unfoldable pub new_global_resource_key : AwsContext → (type id : Text) → Result ResourceKey
  new_global_resource_key c type id = new_resource_key c global_region type id
