-- ===== src/Snapshot.antt =====
-- The data of stored snapshots and their validation. internal/bb/awsbrowser/snapshot/model.go.
pub mod RefKey
pub mod Regions
pub mod Collect
pub mod Relations
use binbox_cli.Base.{
  ℕ, ◌+◌, ◌≡◌, refl, Bool, true, false, not, ◌&&◌, ◌||◌, Option, none, some, List, [], ◌∷◌, leb,
  ltb, ◌==◌, if◌then◌else◌, length, all, any,
}
use binbox_cli.Errors.{Error, Result, ok, err}
use binbox_cli.Text.{Text, text, ◌=?◌, trim_space, contains_control}
use binbox_cli.Text.Split.{split, join}
use binbox_cli.Url.{Values, within, encode, parse_query}
use binbox_cli.Identity.{
  is_none, is_digit, is_word, is_account_id, global_region, ResourceKey, validate_resource_key,
}
use binbox_cli.Observation.{Time, is_zero}
use binbox_cli.Relation.{
  new_relation_semantics, new_relation_evidence, RelationSemantics, RelationEvidence,
}

abbrev pub is_lower : ℕ → Bool
is_lower c = within b'a' b'z' c

-- `^aws(?:-[a-z0-9-]+)?$`
unfoldable pub matches_partition : Text → Bool
matches_partition (a ∷ b ∷ c ∷ []) = a == b'a' && (b == b'w' && c == b's')
matches_partition (a ∷ b ∷ c ∷ d ∷ s) =
    a == b'a'
    && (b == b'w'
        && (c == b's' && (d == b'-' && (leb 1 (length s) && all (λ x. is_word x || x == b'-') s))))
matches_partition _ = false

-- Words between dashes, of which the last has a digit and nothing else.
unfoldable pub ends_in_digits : List Text → Bool
ends_in_digits [] = false
ends_in_digits (w ∷ []) = leb 1 (length w) && all is_digit w
ends_in_digits (w ∷ v ∷ ws) = all is_word w && ends_in_digits (v ∷ ws)

-- `[a-z0-9-]+-[0-9]+`
unfoldable pub region_rest : List Text → Bool
region_rest [] = false
region_rest (w ∷ []) = false
region_rest (w ∷ v ∷ []) = leb 1 (length w) && ends_in_digits (w ∷ v ∷ [])
region_rest (w ∷ v ∷ u ∷ ws) = ends_in_digits (w ∷ v ∷ u ∷ ws)

-- `^[a-z]{2}(?:-gov)?-[a-z0-9-]+-[0-9]+$`; what `-gov` takes, the next part takes too.
unfoldable pub matches_region : Text → Bool
matches_region (a ∷ b ∷ c ∷ s) =
    is_lower a && (is_lower b && (c == b'-' && region_rest (split b'-' s)))
matches_region _ = false

unfoldable pub valid_text : Text → ℕ → Bool
valid_text value limit =
    trim_space value =? value
    && (not (value =? []) && (leb (length value) limit && not (contains_control value)))

unfoldable pub valid_optional_text : Text → ℕ → Bool
valid_optional_text value limit = value =? [] || valid_text value limit

unfoldable pub valid_region : Text → Bool
valid_region region = region =? global_region || matches_region region

pub record ResourceRef : Type 0 where
  pub partition : Text
  pub account_id : Text
  pub region : Text
  pub type : Text
  pub id : Text

-- `ResourceRef.Validate`; the error is ErrInvalidInput.
unfoldable pub valid_ref : ResourceRef → Bool
valid_ref ref =
    matches_partition ref.partition
    && (is_account_id ref.account_id
        && (valid_region ref.region && (valid_text ref.type 256 && valid_text ref.id 2048)))

-- `RefFromKey`
unfoldable pub ref_from_key : ResourceKey → Option ResourceRef
ref_from_key key =
    if not (is_none (validate_resource_key key))
    then none
    else some (record {
      partition = key.partition;
      account_id = key.account_id;
      region = key.region;
      type = key.type;
      id = key.id;
    })

abbrev pub ref_values : ResourceRef → Values
ref_values ref =
    (text "account", ref.account_id)
    ∷ (text "id", ref.id)
    ∷ (text "partition", ref.partition)
    ∷ (text "region", ref.region)
    ∷ (text "type", ref.type)
    ∷ []

-- `ResourceRef.Key`
unfoldable pub ref_key : ResourceRef → Option Text
ref_key ref = if valid_ref ref then some (encode (ref_values ref)) else none

-- How many names a parsed query has.
unfoldable pub name_count : Values → ℕ
name_count [] = 0
name_count (p ∷ ps) = (if any (λ q. q.0 =? p.0) ps then 0 else 1) + name_count ps

unfoldable pub values_of : Text → Values → List Text
values_of name [] = []
values_of name (p ∷ ps) = if p.0 =? name then p.1 ∷ values_of name ps else values_of name ps

abbrev pub only : List Text → Option Text
only (v ∷ []) = some v
only _ = none

-- The function `read` of `ParseResourceRefKey`.
abbrev pub read_value : Values → Text → Option Text
read_value values name = only (values_of name values)

infixl 5 ◌>>=◌
abbrev ◌>>=◌ {ℓ κ} : {A : Type ℓ} {B : Type κ} → Option A → (A → Option B) → Option B
o >>= next = elim o [ none ↦ none | some a ↦ next a ]

unfoldable pub read_ref : Values → Option ResourceRef
read_ref values = do
  account_id ← read_value values (text "account")
  id ← read_value values (text "id")
  partition ← read_value values (text "partition")
  region ← read_value values (text "region")
  type ← read_value values (text "type")
  some (record {
    partition = partition;
    account_id = account_id;
    region = region;
    type = type;
    id = id;
  })

-- The reference, where its own key is the text.
unfoldable pub if_canonical : Text → ResourceRef → Option ResourceRef
if_canonical value ref = do canonical ← ref_key ref; if canonical =? value then some ref else none

unfoldable pub parse_resource_ref_key : Text → Option ResourceRef
parse_resource_ref_key value = do
  values ← parse_query value
  if name_count values == 5 then (read_ref values >>= if_canonical value) else none
