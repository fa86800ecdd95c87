-- ===== src/Relation.antt =====
-- Relations between resources, and their projection from mapped fields.
-- internal/bb/awsbrowser/relation.go and relation_fields.go. A Go string that stands for one of a
-- few constants is a text, as the code compares it.
pub mod Order
use binbox_cli.Base.{
  Bool, true, false, not, ◌&&◌, ◌||◌, Option, none, some, List, [], ◌∷◌, ltb, ◌++◌, if◌then◌else◌,
  any, length,
}
use binbox_cli.Errors.{
  Error, Result, ok, err, ◌>>=◌, invalid_relation_evidence, invalid_relation_semantics,
  invalid_mapped_fields,
}
use binbox_cli.Text.{Text, text, ◌=?◌, trim_space}
use binbox_cli.Identity.{
  ResourceKey, is_none, valid_identifier, valid_region_scope, validate_resource_key,
}
use binbox_cli.Observation.{
  Time, is_zero, utc, MappedValue, MappedItems, MappedFields, string, time, key, array, object,
  done, item, no_fields, field,
}

abbrev pub relation_types : List Text
relation_types =
    text "attached-to"
    ∷ text "associated-with"
    ∷ text "contains"
    ∷ text "has-version"
    ∷ text "member-of"
    ∷ text "references"
    ∷ text "uses"
    ∷ text "alias-to"
    ∷ text "routes-to"
    ∷ []

abbrev pub relation_kinds : List Text
relation_kinds =
    text "id-exact"
    ∷ text "api-exact"
    ∷ text "correlated"
    ∷ text "inferred"
    ∷ text "ambiguous"
    ∷ text "unsupported"
    ∷ []

unfoldable pub valid_type : Text → Bool
valid_type relation_type = any (λ t. relation_type =? t) relation_types

unfoldable pub valid_kind : Text → Bool
valid_kind kind = any (λ k. kind =? k) relation_kinds

pub record RelationSemantics : Type 0 where
  pub type : Text
  pub direction : Text
  pub condition : Text

unfoldable pub validate_semantics : RelationSemantics → Option Error
validate_semantics semantics =
    if not (valid_type semantics.type)
      || (not (semantics.direction =? text "outgoing")
          && not (semantics.direction =? text "incoming"))
    then some invalid_relation_semantics
    else none

unfoldable pub new_relation_semantics :
    (relation_type direction condition : Text) → Result RelationSemantics
new_relation_semantics relation_type direction condition =
    let semantics : RelationSemantics = record {
      type = relation_type;
      direction = direction;
      condition = trim_space condition;
    } in
    elim (validate_semantics semantics) [ some e ↦ err e | none ↦ ok semantics ]

pub record RelationEvidence : Type 0 where
  pub kind : Text
  pub reason : Text
  pub operation : Text
  pub scope : Text
  pub observed_at : Time

unfoldable pub validate_evidence : RelationEvidence → Option Error
validate_evidence evidence =
    if not (valid_kind evidence.kind)
      || (not (valid_identifier evidence.reason)
          || (not (valid_identifier evidence.operation)
              || (not (valid_region_scope evidence.scope) || is_zero evidence.observed_at)))
    then some invalid_relation_evidence
    else none

unfoldable pub new_relation_evidence :
    (kind reason operation scope : Text) → Time → Result RelationEvidence
new_relation_evidence kind reason operation scope observed_at =
    let evidence : RelationEvidence = record {
      kind = kind;
      reason = trim_space reason;
      operation = trim_space operation;
      scope = trim_space scope;
      observed_at = utc observed_at;
    } in
    elim (validate_evidence evidence) [ some e ↦ err e | none ↦ ok evidence ]

pub record Relation : Type 0 where
  pub source : ResourceKey
  pub target : ResourceKey
  pub semantics : RelationSemantics
  pub evidence : List RelationEvidence

-- The first error of the items.
unfoldable pub validate_all_evidence : List RelationEvidence → Option Error
validate_all_evidence [] = none
validate_all_evidence (e ∷ es) =
    let rest = validate_all_evidence es in
    elim (validate_evidence e) [ some x ↦ some x | none ↦ rest ]

-- `sort.SliceStable` by the time of observation: an item goes behind those that are earlier.
unfoldable pub insert_evidence : RelationEvidence → List RelationEvidence → List RelationEvidence
insert_evidence e [] = e ∷ []
insert_evidence e (x ∷ xs) =
    let rest = insert_evidence e xs in
    if ltb x.observed_at e.observed_at then x ∷ rest else e ∷ x ∷ xs

unfoldable pub sort_evidence : List RelationEvidence → List RelationEvidence
sort_evidence [] = []
sort_evidence (e ∷ es) = insert_evidence e (sort_evidence es)

abbrev is_empty {ℓ} : {A : Type ℓ} → List A → Bool
is_empty [] = true
is_empty (x ∷ xs) = false

unfoldable pub new_relation :
    (source target : ResourceKey) → RelationSemantics → List RelationEvidence → Result Relation
new_relation source target semantics evidence = elim (validate_semantics semantics) [
  | some e ↦ err e
  | none ↦
      if not (is_none (validate_resource_key source))
        || (not (is_none (validate_resource_key target)) || is_empty evidence)
      then err invalid_relation_evidence
      else elim (validate_all_evidence evidence) [
        | some e ↦ err e
        | none ↦ ok (record {
          source = source;
          target = target;
          semantics = semantics;
          evidence = sort_evidence evidence;
        })
      ]
]

-- A lookup in a map of fields.
unfoldable pub field_of : MappedFields → Text → Option MappedValue
field_of no_fields name = none
field_of (field n value fs) name =
    let rest = field_of fs name in if n =? name then some value else rest

-- A type assertion on a looked-up value, whose failure refuses the relation.
unfoldable pub text_field : MappedFields → Text → Result Text
text_field fs name = elim (field_of fs name) [
  | some (string s) ↦ ok s
  | _ ↦ err invalid_mapped_fields
]

unfoldable pub key_field : MappedFields → Text → Result ResourceKey
key_field fs name = elim (field_of fs name) [ some (key k) ↦ ok k | _ ↦ err invalid_mapped_fields ]

unfoldable pub time_field : MappedFields → Text → Result Time
time_field fs name = elim (field_of fs name) [
  | some (time t) ↦ ok t
  | _ ↦ err invalid_mapped_fields
]

abbrev pub mapped_error {ℓ} : {A : Type ℓ} → Result A → Result A
mapped_error (ok a) = ok a
mapped_error (err e) = err invalid_mapped_fields

-- One turn of the loop over the values.
unfoldable pub mapped_relation : MappedFields → Result Relation
mapped_relation mapped = do
  source ← key_field mapped (text "source")
  target ← key_field mapped (text "target")
  relation_type ← text_field mapped (text "relation_type")
  direction ← text_field mapped (text "direction")
  condition ← text_field mapped (text "condition")
  kind ← text_field mapped (text "kind")
  reason ← text_field mapped (text "reason")
  operation ← text_field mapped (text "operation")
  scope ← text_field mapped (text "scope")
  observed_at ← time_field mapped (text "observed_at")
  semantics ← mapped_error (new_relation_semantics relation_type direction condition)
  evidence ← mapped_error (new_relation_evidence kind reason operation scope observed_at)
  mapped_error (new_relation source target semantics (evidence ∷ []))

-- The values of the loop, each an object.
unfoldable pub mapped_relations : MappedItems → Result (List Relation)
mapped_relations done = ok []
mapped_relations (item (object mapped) xs) = do
  relation ← mapped_relation mapped
  rest ← mapped_relations xs
  ok (relation ∷ rest)
mapped_relations (item other xs) = err invalid_mapped_fields

-- The field "relations", where it is an array.
unfoldable pub listed_values : MappedFields → Result MappedItems
listed_values fields = elim (field_of fields (text "relations")) [
  | none ↦ ok done
  | some (array xs) ↦ ok xs
  | some _ ↦ err invalid_mapped_fields
]

-- The field of a name, where it is an object.
unfoldable pub single_value : MappedFields → Text → Result MappedItems
single_value fields name = elim (field_of fields name) [
  | none ↦ ok done
  | some (object mapped) ↦ ok (item (object mapped) done)
  | some _ ↦ err invalid_mapped_fields
]

unfoldable pub append_items : MappedItems → MappedItems → MappedItems
append_items done ys = ys
append_items (item x xs) ys = item x (append_items xs ys)

unfoldable pub relations_from_mapped_fields : MappedFields → Result (List Relation)
relations_from_mapped_fields fields = do
  listed ← listed_values fields
  alias ← single_value fields (text "alias_relation")
  zone ← single_value fields (text "zone_relation")
  mapped_relations (append_items listed (append_items alias zone))
