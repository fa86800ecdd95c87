-- ===== src/Observation.antt =====
-- Mapped observations of resources, and pages of them. internal/bb/awsbrowser/types.go.
pub mod Clone
use binbox_cli.Base.{
  ℕ, Bool, true, false, not, ◌&&◌, ◌||◌, Option, none, some, List, [], ◌∷◌, ◌==◌, if◌then◌else◌,
}
use binbox_cli.Errors.{
  Error, Result, ok, err, incomplete_observation, incomplete_page, invalid_mapped_fields, ◌>>=◌,
}
use binbox_cli.Text.{Text, text, ◌=?◌, trim_space, join_identity_parts}
use binbox_cli.Identity.{
  Platform, AwsContext, ContextProvenance, ResourceKey, context_seal, context_provenance, is_none,
  valid_identifier, validate_context, validate_resource_key,
}
use binbox_cli.Identity.Keys.{bad_name}

-- An instant in nanoseconds since the zero time. `UTC` changes the zone in which an instant is
-- shown, and not the instant.
abbrev pub Time : Type 0
Time = ℕ

abbrev pub is_zero : Time → Bool
is_zero t = t == 0

abbrev pub utc : Time → Time
utc t = t

-- The values that `any` holds. A number of any width and a time are scalars; `foreign` is a value
-- of a type that the mapping boundary refuses.
mutual
  pub data MappedValue : Type 0 where
    null : MappedValue
    boolean : Bool → MappedValue
    string : Text → MappedValue
    scalar : ℕ → MappedValue
    time : Time → MappedValue
    key : ResourceKey → MappedValue
    strings : List Text → MappedValue
    keys : List ResourceKey → MappedValue
    string_map : List (Text × Text) → MappedValue
    array : MappedItems → MappedValue
    object : MappedFields → MappedValue
    foreign : MappedValue

  pub data MappedItems : Type 0 where
    done : MappedItems
    item : MappedValue → MappedItems → MappedItems

  pub data MappedFields : Type 0 where
    no_fields : MappedFields
    field : Text → MappedValue → MappedFields → MappedFields

unfoldable pub valid_keys : List ResourceKey → Bool
valid_keys [] = true
valid_keys (k ∷ ks) = is_none (validate_resource_key k) && valid_keys ks

module _ (env : Platform) where
  -- `cloneMappedValue` and `cloneMappedFields`: a value is copied, and the copy is equal to it; the
  -- loops return the first error.
  unfoldable mutual
    pub clone_mapped_value : MappedValue → Result MappedValue
    clone_mapped_value (key k) =
        if is_none (validate_resource_key k) then ok (key k) else err invalid_mapped_fields
    clone_mapped_value (keys ks) = if valid_keys ks then ok (keys ks) else err invalid_mapped_fields
    clone_mapped_value (array xs) = do copy ← clone_mapped_items xs; ok (array copy)
    clone_mapped_value (object fs) = do copy ← clone_mapped_fields fs; ok (object copy)
    clone_mapped_value foreign = err invalid_mapped_fields
    clone_mapped_value value = ok value

    pub clone_mapped_items : MappedItems → Result MappedItems
    clone_mapped_items done = ok done
    clone_mapped_items (item x xs) = do
      copy ← clone_mapped_value x
      rest ← clone_mapped_items xs
      ok (item copy rest)

    pub clone_mapped_fields : MappedFields → Result MappedFields
    clone_mapped_fields no_fields = ok no_fields
    clone_mapped_fields (field name value fs) =
        if bad_name env name then err invalid_mapped_fields else (do
          copy ← clone_mapped_value value
          rest ← clone_mapped_fields fs
          ok (field name copy rest))

pub record ObservationProvenance : Type 0 where
  pub context_provenance : ContextProvenance
  pub operation : Text

pub record ResourceObservation : Type 0 where
  pub context : AwsContext
  pub operation : Text
  pub fetched_at : Time
  pub complete : Bool
  pub fields : MappedFields
  pub operation_seal : Text

pub record ObservedResource : Type 0 where
  pub key : ResourceKey
  pub observation : ResourceObservation

pub record QueryPage : Type 0 where
  pub number : ℕ
  pub fetched_at : Time
  pub complete : Bool
  pub resources : List ObservedResource

abbrev pub unspecified_operation : Text
unspecified_operation = text "unspecified"

-- `identitySeal` of an observation.
unfoldable pub observation_seal : ResourceObservation → Text
observation_seal o = join_identity_parts (context_seal o.context ∷ o.operation ∷ [])

abbrev pub zero_provenance : ObservationProvenance
zero_provenance = record {
  context_provenance = record {
    mode = [];
    profile = [];
    partition = [];
    account_id = [];
    principal_arn = [];
    role_name = [];
    region = [];
    credential_gen = 0;
  };
  operation = [];
}

-- The provenance of the fields, which `Provenance` gives beside a nil error.
abbrev pub provenance_of : ResourceObservation → ObservationProvenance
provenance_of o = record {
  context_provenance = context_provenance o.context;
  operation = o.operation;
}

module _ (env : Platform) where
  unfoldable pub new_observation_for_operation :
      AwsContext → (operation : Text) → MappedFields → Time → Bool → Result ResourceObservation
  new_observation_for_operation c operation fields fetched_at complete =
      let operation = trim_space operation in
      if not (is_none (validate_context env c)) || is_zero fetched_at
      then err incomplete_observation
      else if not (valid_identifier operation)
      then err incomplete_observation
      else (do
        cloned ← clone_mapped_fields env fields
        let observation : ResourceObservation = record {
          context = c;
          operation = operation;
          fetched_at = utc fetched_at;
          complete = complete;
          fields = cloned;
          operation_seal = [];
        }
        ok (record observation { operation_seal = observation_seal observation }))

  unfoldable pub new_observation :
      AwsContext → MappedFields → Time → Bool → Result ResourceObservation
  new_observation c fields fetched_at complete =
      new_observation_for_operation c unspecified_operation fields fetched_at complete

  -- A copy whose fields did not pass has none.
  unfoldable pub cloned_fields : MappedFields → MappedFields
  cloned_fields fields = elim (clone_mapped_fields env fields) [
    | ok copy ↦ copy
    | err e ↦ no_fields
  ]

  unfoldable pub clone_observation : ResourceObservation → ResourceObservation
  clone_observation o = record o { fields = cloned_fields o.fields }

  -- `Provenance` of an observation.
  unfoldable pub observation_provenance : ResourceObservation → Result ObservationProvenance
  observation_provenance o =
      if not (is_none (validate_context env o.context))
        || (o.operation_seal =? []
            || (not (o.operation_seal =? observation_seal o) || not (valid_identifier o.operation)))
      then err incomplete_observation
      else ok (provenance_of o)

  -- The provenance under which an observation is kept: the zero one where `Provenance` fails.
  unfoldable pub stored_provenance : ResourceObservation → ObservationProvenance
  stored_provenance o = elim (observation_provenance o) [ ok p ↦ p | err e ↦ zero_provenance ]

  unfoldable pub validate_complete : ResourceObservation → Option Error
  validate_complete o =
      if not o.complete || is_zero o.fetched_at
      then some incomplete_observation
      else elim (observation_provenance o) [
        | err e ↦ some e
        | ok p ↦ elim (clone_mapped_fields env o.fields) [ err e ↦ some e | ok copy ↦ none ]
      ]

  unfoldable pub clone_resources : List ObservedResource → List ObservedResource
  clone_resources [] = []
  clone_resources (r ∷ rs) =
      record { key = r.key; observation = clone_observation r.observation } ∷ clone_resources rs

  unfoldable pub clone_page : QueryPage → QueryPage
  clone_page page = record page { resources = clone_resources page.resources }

  unfoldable pub new_query_page : ℕ → List ObservedResource → Time → Bool → Result QueryPage
  new_query_page number resources fetched_at complete =
      if is_zero fetched_at
      then err incomplete_page
      else ok (record {
        number = number;
        fetched_at = utc fetched_at;
        complete = complete;
        resources = clone_resources resources;
      })
