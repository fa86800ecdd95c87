-- ===== src/Relation/Order.antt =====
-- What a relation that the constructors return holds: valid parts, and its evidence in a stable
-- order of observation.
use binbox_cli.Base.{
  ◌≡◌, ◌≤◌, refl, ◌∙◌, ap, subst, Bool, false, not, ◌||◌, Option, none, some, List, [], ◌∷◌, inl,
  inr, arith, Bool-cases, Option-cases, if◌then◌else◌, ltb, ◌==◌, All,
}
use binbox_cli.Errors.{Error, Result, ok, err, bind_ok}
use binbox_cli.Text.{text}
use binbox_cli.Identity.{ResourceKey, is_none, validate_resource_key}
use binbox_cli.Observation.{Time, MappedItems, MappedFields, done, item, object}
use binbox_cli.Relation.{
  Relation, RelationSemantics, RelationEvidence, validate_semantics, validate_evidence,
  validate_all_evidence, insert_evidence, sort_evidence, new_relation, is_empty, mapped_relation,
  mapped_relations, relations_from_mapped_fields, mapped_error, text_field, key_field, time_field,
  listed_values, single_value, append_items, new_relation_semantics, new_relation_evidence,
}

-- No item is later than one behind it.
pub Ordered : List RelationEvidence → Type 0
Ordered [] = Unit
Ordered (e ∷ es) = All (λ x. e.observed_at ≤ x.observed_at) es × Ordered es

-- The items observed at a time.
pub at_time : Time → List RelationEvidence → List RelationEvidence
at_time t [] = []
at_time t (e ∷ es) = if e.observed_at == t then e ∷ at_time t es else at_time t es

All-insert :
    (P : RelationEvidence → Type 0) (e : RelationEvidence) (es : List RelationEvidence)
    → P e
    → All P es
    → All P (insert_evidence e es)
unfolding insert_evidence
All-insert P e [] p h = (p, tt)
All-insert P e (x ∷ xs) p h = elim (Bool-cases (ltb x.observed_at e.observed_at)) [
  | inl b ↦ rw b (h.0, All-insert P e xs p h.1)
  | inr b ↦ rw b (p, h)
]

All-weaken :
    {P Q : RelationEvidence → Type 0}
    → ((e : RelationEvidence) → P e → Q e)
    → (es : List RelationEvidence) → All P es
    → All Q es
All-weaken f [] h = tt
All-weaken f (e ∷ es) h = (f e h.0, All-weaken f es h.1)

insert_evidence-Ordered :
    (e : RelationEvidence) (es : List RelationEvidence)
    → Ordered es
    → Ordered (insert_evidence e es)
unfolding insert_evidence Ordered
insert_evidence-Ordered e [] h = (tt, tt)
insert_evidence-Ordered e (x ∷ xs) h = elim (Bool-cases (ltb x.observed_at e.observed_at)) [
  | inl b ↦ rw b (
    All-insert (λ y. x.observed_at ≤ y.observed_at) e xs (ground arith) h.0,
    insert_evidence-Ordered e xs h.1,
  )
  | inr b ↦
      let le : e.observed_at ≤ x.observed_at = ground arith in
      rw b ((le, All-weaken (λ y (q : x.observed_at ≤ y.observed_at). omega arith) xs h.0), h)
]

sort_evidence-Ordered : (es : List RelationEvidence) → Ordered (sort_evidence es)
unfolding sort_evidence Ordered
sort_evidence-Ordered [] = tt
sort_evidence-Ordered (e ∷ es) =
    insert_evidence-Ordered e (sort_evidence es) (sort_evidence-Ordered es)

at_time-insert_evidence :
    (t : Time) (e : RelationEvidence) (es : List RelationEvidence)
    → at_time t (insert_evidence e es) ≡ at_time t (e ∷ es)
unfolding insert_evidence at_time
at_time-insert_evidence t e [] = refl
at_time-insert_evidence t e (x ∷ xs) = ground (arith, at_time-insert_evidence t e xs)

at_time-sort_evidence :
    (t : Time) (es : List RelationEvidence) → at_time t (sort_evidence es) ≡ at_time t es
unfolding sort_evidence at_time
at_time-sort_evidence t [] = refl
at_time-sort_evidence t (e ∷ es) =
    at_time-insert_evidence t e (sort_evidence es) ∙ ground (arith, at_time-sort_evidence t es)

-- Every item is valid.
pub AllValid : List RelationEvidence → Type 0
AllValid = All (λ e. validate_evidence e ≡ none)

validate_all-AllValid : (es : List RelationEvidence) → validate_all_evidence es ≡ none → AllValid es
unfolding AllValid validate_all_evidence
validate_all-AllValid [] h = tt
validate_all-AllValid (e ∷ es) h = elim (Option-cases (validate_evidence e)) [
  | inl n ↦ (n, validate_all-AllValid es (rw (n, validate_all_evidence) at h))
  | inr (x, s) ↦ absurd (cc (rw (s, validate_all_evidence) at h))
]

sort_evidence-AllValid : (es : List RelationEvidence) → AllValid es → AllValid (sort_evidence es)
unfolding AllValid sort_evidence
sort_evidence-AllValid [] h = tt
sort_evidence-AllValid (e ∷ es) h =
    All-insert (λ x. validate_evidence x ≡ none) e (sort_evidence es) h.0
      (sort_evidence-AllValid es h.1)

-- A relation whose parts are valid, with evidence in order.
pub record IsRelation (r : Relation) : Type 0 where
  pub source : validate_resource_key r.source ≡ none
  pub target : validate_resource_key r.target ≡ none
  pub semantics : validate_semantics r.semantics ≡ none
  pub evidence : AllValid r.evidence
  pub order : Ordered r.evidence

none_of_tests :
    (x y : Option Error) (b : Bool)
    → (not (is_none x) || (not (is_none y) || b)) ≡ false
    → (x ≡ none) × (y ≡ none)
none_of_tests none none b h = (refl, refl)
none_of_tests none (some y) b h = absurd (ground arith)
none_of_tests (some x) y b h = absurd (ground arith)

of_parts :
    (source target : ResourceKey) (semantics : RelationSemantics) (evidence : List RelationEvidence)
    (r : Relation)
    → validate_semantics semantics ≡ none
    → validate_resource_key source ≡ none
    → validate_resource_key target ≡ none
    → validate_all_evidence evidence ≡ none
    → ◌≡◌ {A = Result Relation}
        (ok (record {
          source = source;
          target = target;
          semantics = semantics;
          evidence = sort_evidence evidence;
        }))
        (ok r)
    → IsRelation r × (r.evidence ≡ sort_evidence evidence)
of_parts source target semantics evidence r n k j v h =
    subst (λ (r : Relation). IsRelation r × (r.evidence ≡ sort_evidence evidence)) (same h)
      ((
        record {
          source = k;
          target = j;
          semantics = n;
          evidence = sort_evidence-AllValid evidence (validate_all-AllValid evidence v);
          order = sort_evidence-Ordered evidence;
        },
        refl,
      ))
  where
    same : {a b : Relation} → ◌≡◌ {A = Result Relation} (ok a) (ok b) → a ≡ b
    same e = cc

made :
    (source target : ResourceKey) (semantics : RelationSemantics) (evidence : List RelationEvidence)
    (r : Relation)
    → new_relation source target semantics evidence ≡ ok r
    → IsRelation r × (r.evidence ≡ sort_evidence evidence)
unfolding new_relation
made source target semantics evidence r h = elim (Option-cases (validate_semantics semantics)) [
  | inr (x, s) ↦ absurd (cc (rw (s, new_relation) at h))
  | inl n ↦
      elim (Bool-cases (
        not (is_none (validate_resource_key source))
        || (not (is_none (validate_resource_key target)) || is_empty evidence))) [
          | inl b ↦ absurd (cc (rw (n, new_relation, b) at h))
          | inr b ↦ elim (Option-cases (validate_all_evidence evidence)) [
            | inr (x, s) ↦ absurd (cc (rw (n, new_relation, b, s) at h))
            | inl v ↦
                let (k, j) = none_of_tests _ _ _ b in
                of_parts source target semantics evidence r n k j v
                  (rw (n, new_relation, b, v) at h)
          ]
        ]
]

-- A relation that `NewRelation` returns has valid keys and semantics, its evidence is what was
-- given, each item valid, by time of observation, and items of one time are in the order given.
pub new_relation-IsRelation :
    (source target : ResourceKey) (semantics : RelationSemantics) (evidence : List RelationEvidence)
    (r : Relation) (t : Time)
    → new_relation source target semantics evidence ≡ ok r
    → IsRelation r × (at_time t r.evidence ≡ at_time t evidence)
new_relation-IsRelation source target semantics evidence r t h =
    let (i, e) = made source target semantics evidence r h in
    (i, ap (at_time t) e ∙ at_time-sort_evidence t evidence)

mapped_error_ok {ℓ} : {A : Type ℓ} (r : Result A) (a : A) → mapped_error r ≡ ok a → r ≡ ok a
mapped_error_ok (ok b) a h = h
mapped_error_ok (err e) a h = cc

mapped_relation-IsRelation :
    (mapped : MappedFields) (r : Relation) → mapped_relation mapped ≡ ok r → IsRelation r
unfolding mapped_relation
mapped_relation-IsRelation mapped r h0 =
    let (source, d1, h1) = bind_ok (key_field mapped (text "source")) _ h0 in
    let (target, d2, h2) = bind_ok (key_field mapped (text "target")) _ h1 in
    let (relation_type, d3, h3) = bind_ok (text_field mapped (text "relation_type")) _ h2 in
    let (direction, d4, h4) = bind_ok (text_field mapped (text "direction")) _ h3 in
    let (condition, d5, h5) = bind_ok (text_field mapped (text "condition")) _ h4 in
    let (kind, d6, h6) = bind_ok (text_field mapped (text "kind")) _ h5 in
    let (reason, d7, h7) = bind_ok (text_field mapped (text "reason")) _ h6 in
    let (operation, d8, h8) = bind_ok (text_field mapped (text "operation")) _ h7 in
    let (scope, d9, h9) = bind_ok (text_field mapped (text "scope")) _ h8 in
    let (observed_at, d10, h10) = bind_ok (time_field mapped (text "observed_at")) _ h9 in
    let (semantics, d11, h11) =
      bind_ok (mapped_error (new_relation_semantics relation_type direction condition)) _ h10 in
    let (evidence, d12, h12) =
      bind_ok (mapped_error (new_relation_evidence kind reason operation scope observed_at)) _
        h11 in
    (made source target semantics (evidence ∷ []) r (mapped_error_ok _ r h12)).0

mapped_relations-IsRelation :
    (xs : MappedItems) (rs : List Relation) → mapped_relations xs ≡ ok rs → All IsRelation rs
unfolding mapped_relations
mapped_relations-IsRelation done [] h = tt
mapped_relations-IsRelation done (r ∷ rs) h = absurd cc
mapped_relations-IsRelation (item (object mapped) xs) rs h =
    let (r, d, h1) = bind_ok (mapped_relation mapped) _ h in
    let (rest, d2, h2) = bind_ok (mapped_relations xs) _ h1 in
    let whole : r ∷ rest ≡ rs = cc in
    subst (All IsRelation) whole
      ((mapped_relation-IsRelation mapped r d, mapped_relations-IsRelation xs rest d2))
mapped_relations-IsRelation (item _ xs) rs h = absurd cc

-- Every relation that `RelationsFromMappedFields` returns has valid keys, semantics and evidence.
pub relations_from_mapped_fields-IsRelation :
    (fields : MappedFields) (rs : List Relation)
    → relations_from_mapped_fields fields ≡ ok rs
    → All IsRelation rs
unfolding relations_from_mapped_fields
relations_from_mapped_fields-IsRelation fields rs h =
    let (listed, d1, h1) = bind_ok (listed_values fields) _ h in
    let (alias, d2, h2) = bind_ok (single_value fields (text "alias_relation")) _ h1 in
    let (zone, d3, h3) = bind_ok (single_value fields (text "zone_relation")) _ h2 in
    mapped_relations-IsRelation (append_items listed (append_items alias zone)) rs h3
