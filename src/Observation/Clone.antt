-- ===== src/Observation/Clone.antt =====
-- A copy that passes the mapping boundary is equal to what was copied.
use binbox_cli.Base.{
  ◌≡◌, ◌≢◌, refl, ap, Bool, true, false, none, some, inl, inr, arith, Bool-cases, if◌then◌else◌,
  not, ◌||◌,
}
use binbox_cli.Errors.{Error, Result, ok, err, incomplete_observation, bind_ok}
use binbox_cli.Identity.{Platform, is_none, validate_resource_key}
use binbox_cli.Identity.Keys.{bad_name}
use binbox_cli.Observation.{
  MappedValue, MappedItems, MappedFields, null, boolean, string, scalar, time, key, strings, keys,
  string_map, array, object, foreign, done, item, no_fields, field, clone_mapped_value,
  clone_mapped_items, clone_mapped_fields, valid_keys, ResourceObservation, cloned_fields,
  clone_observation, validate_complete, is_zero, ObservationProvenance, observation_provenance,
}

guarded-eq-ok :
    {A : Type 0} (b : Bool) (a : A) (e : Error) {w : A} → (if b then ok a else err e) ≡ ok w → w ≡ a
guarded-eq-ok true a e h = cc
guarded-eq-ok false a e h = cc

module _ (env : Platform) where
  mutual
    unfolding clone_mapped_value clone_mapped_items clone_mapped_fields

    copied_value : (v : MappedValue) {w : MappedValue} → clone_mapped_value env v ≡ ok w → w ≡ v
    copied_value (key k) h = guarded-eq-ok (is_none (validate_resource_key k)) (key k) _ h
    copied_value (keys ks) h = guarded-eq-ok (valid_keys ks) (keys ks) _ h
    copied_value (array xs) h =
        let (copy, c, e) = bind_ok (clone_mapped_items env xs) (λ copy. ok (array copy)) h in
        cc (copied_items xs c)
    copied_value (object fs) h =
        let (copy, c, e) = bind_ok (clone_mapped_fields env fs) (λ copy. ok (object copy)) h in
        cc (copied_fields fs c)
    copied_value foreign h = cc
    copied_value null h = cc
    copied_value (boolean b) h = cc
    copied_value (string s) h = cc
    copied_value (scalar n) h = cc
    copied_value (time t) h = cc
    copied_value (strings s) h = cc
    copied_value (string_map s) h = cc

    copied_items :
        (xs : MappedItems) {ys : MappedItems} → clone_mapped_items env xs ≡ ok ys → ys ≡ xs
    copied_items done h = cc
    copied_items (item x xs) h =
        let (a, ca, h1) = bind_ok (clone_mapped_value env x) _ h in
        let (b, cb, h2) = bind_ok (clone_mapped_items env xs) _ h1 in
        cc (copied_value x ca, copied_items xs cb)

    copied_fields :
        (fs : MappedFields) {gs : MappedFields} → clone_mapped_fields env fs ≡ ok gs → gs ≡ fs
    copied_fields no_fields h = cc
    copied_fields (field name v fs) h = elim (Bool-cases (bad_name env name)) [
      | inl b ↦ cc (rw b at h)
      | inr b ↦
          let (a, ca, h1) = bind_ok (clone_mapped_value env v) _ (rw b at h) in
          let (g, cg, h2) = bind_ok (clone_mapped_fields env fs) _ h1 in
          cc (copied_value v ca, copied_fields fs cg)
    ]

-- The chain of tests in `validateComplete` passes only where the fields were copied.
passed_tests :
    (b : Bool) (p : Result ObservationProvenance) (r : Result MappedFields)
    → (if b
        then some incomplete_observation
        else elim p [ err e ↦ some e | ok _ ↦ elim r [ err e ↦ some e | ok copy ↦ none ] ])
      ≡ none
    → (b ≡ false)
      × ((q : ObservationProvenance) × (p ≡ ok q))
      × ((copy : MappedFields) × (r ≡ ok copy))
passed_tests true p r h = cc
passed_tests false (err e) r h = cc
passed_tests false (ok q) (err e) h = cc
passed_tests false (ok q) (ok copy) h = (refl, (q, refl), (copy, refl))

module _ (env : Platform) (o : ResourceObservation) where
  -- What `validateComplete` checks.
  pub validate_complete_parts :
      validate_complete env o ≡ none
      → (o.complete ≡ true)
        × (o.fetched_at ≢ 0)
        × ((q : ObservationProvenance) × (observation_provenance env o ≡ ok q))
        × ((copy : MappedFields) × (clone_mapped_fields env o.fields ≡ ok copy))
  unfolding validate_complete
  validate_complete_parts h =
      let (t, q, c) =
        passed_tests (not o.complete || is_zero o.fetched_at) (observation_provenance env o)
          (clone_mapped_fields env o.fields) h in
      (ground arith, ground arith, q, c)

  -- An observation that `validateComplete` accepts is equal to its copy.
  pub clone_observation_complete : validate_complete env o ≡ none → clone_observation env o ≡ o
  unfolding clone_observation cloned_fields
  clone_observation_complete h =
      let (copy, e) = (validate_complete_parts h).3 in
      rw (e, cloned_fields)
        (ap (λ (f : MappedFields). record o { fields = f }) (copied_fields env o.fields e))
