-- ===== src/Snapshot/Relations.antt =====
-- Stored relations. internal/bb/awsbrowser/snapshot/model.go, sync.go.
use binbox_cli.Base.{Bool, true, false, not, ◌&&◌, Option, none, some, List, [], ◌∷◌, if◌then◌else◌}
use binbox_cli.Errors.{ok, err}
use binbox_cli.Text.{Text, text, ◌=?◌}
use binbox_cli.Identity.{is_account_id}
use binbox_cli.Observation.{Time, is_zero}
use binbox_cli.Relation.{
  Relation, RelationSemantics, RelationEvidence, new_relation_semantics, new_relation_evidence,
}
use binbox_cli.Snapshot.{
  ResourceRef, valid_ref, ref_from_key, valid_text, valid_optional_text, valid_region,
}
use binbox_cli.Snapshot.Collect.{Scope}

pub record StoredRelation : Type 0 where
  pub source : ResourceRef
  pub target : ResourceRef
  pub type : Text
  pub direction : Text
  pub confidence : Text
  pub condition : Text
  pub reason : Text
  pub operation : Text
  pub scope : Text
  pub observed_at : Time
  pub profile : Text
  pub account_id : Text
  pub region : Text

-- The first condition of `Relation.validate`.
unfoldable pub valid_parts : StoredRelation → Bool
valid_parts r =
    valid_ref r.source
    && (valid_ref r.target
        && (not (is_zero r.observed_at)
            && (valid_optional_text r.condition 4096
                && (valid_text r.reason 1024
                    && (valid_text r.operation 256
                        && (valid_text r.scope 128
                            && (valid_text r.profile 256
                                && (is_account_id r.account_id && valid_region r.region))))))))

-- `Relation.validate`
unfoldable pub valid_relation : StoredRelation → Bool
valid_relation r = valid_parts r && (elim (new_relation_semantics r.type r.direction r.condition) [
  | err e ↦ false
  | ok semantics ↦
      elim (new_relation_evidence r.confidence r.reason r.operation r.scope r.observed_at) [
        | err e ↦ false
        | ok evidence ↦
            semantics.direction =? text "outgoing" && not (evidence.kind =? text "unsupported")
      ]
])

-- What `Collect` writes into the relations of a collection.
unfoldable pub observe_relations : Scope → Text → List StoredRelation → List StoredRelation
observe_relations scope account_id [] = []
observe_relations scope account_id (r ∷ rs) =
    record r { profile = scope.profile; account_id = account_id; region = scope.region }
    ∷ observe_relations scope account_id rs

-- The loop of `RelationsFromBrowser`.
unfoldable pub stored_relations :
    (source target : ResourceRef)
    → RelationSemantics
    → Text
    → List RelationEvidence
    → List StoredRelation
stored_relations source target semantics profile [] = []
stored_relations source target semantics profile (item ∷ rest) =
    record {
      source = source;
      target = target;
      type = semantics.type;
      direction = semantics.direction;
      confidence = item.kind;
      condition = semantics.condition;
      reason = item.reason;
      operation = item.operation;
      scope = item.scope;
      observed_at = item.observed_at;
      profile = profile;
      account_id = source.account_id;
      region = source.region;
    }
    ∷ stored_relations source target semantics profile rest

abbrev is_nil {ℓ} : {A : Type ℓ} → List A → Bool
is_nil [] = true
is_nil (x ∷ xs) = false

-- `RelationsFromBrowser`
unfoldable pub relations_from_browser : Relation → Text → Option (List StoredRelation)
relations_from_browser relation profile = elim (ref_from_key relation.source) [
  | none ↦ none
  | some source ↦ elim (ref_from_key relation.target) [
    | none ↦ none
    | some target ↦
        if is_nil relation.evidence
        then none
        else some (stored_relations source target relation.semantics profile relation.evidence)
  ]
]
