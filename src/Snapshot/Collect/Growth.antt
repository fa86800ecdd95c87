-- ===== src/Snapshot/Collect/Growth.antt =====
-- The loop over the scopes keeps the input sound. internal/bb/awsbrowser/snapshot/sync.go.
use binbox_cli.Base.{
  ℕ, ◌≡◌, ◌≢◌, refl, sym, ◌∙◌, Bool, true, false, not, ◌&&◌, Option, none, some, List, [], ◌∷◌,
  ◌++◌, any, all, arith,
}
use binbox_cli.Errors.{Error}
use binbox_cli.Text.{Text, ◌=?◌}
use binbox_cli.Observation.{Time}
use binbox_cli.Snapshot.Collect.{
  not_observed, valid_resource, valid_observation, Coverage, valid_coverage, Scope, valid_scope,
  Collection, going, invalid_input, context_error, scope_coverage, wrong_account, wrong_supplement,
  Progress, add_failed, add_collected, add_scope, add_scopes, valid_scopes, is_empty, scopes_of,
}
use binbox_cli.Snapshot.Collect.Rows.{
  Gives, Gives-bind, Gives-if, all-append, not_observed_valid, failed_valid, collected_valid,
  supplements_valid, observe_valid, stops, gives,
}

module _ {L : Type 0} (observed_by : Scope → Text → List L → List L) (now : ℕ → Time)
    (ticks : (k : ℕ) → now k ≢ 0) where
  -- What holds of the input so far.
  pub record IsSound (p : Progress L) : Type 0 where
    pub coverage : all valid_coverage p.input.coverage ≡ true
    pub observations :
        all valid_resource p.input.resources ≡ true
        → all valid_observation p.input.observations ≡ true
    pub started : p.input.started_at ≡ now 0

  -- So far, or with a row of coverage.
  pub record IsGrown (p : Progress L) : Type 0 where
    pub sound : IsSound p
    pub rows : is_empty p.input.coverage ≡ false

  pub appended : {A : Type 0} (xs : List A) (y : A) (ys : List A) → is_empty (xs ++ y ∷ ys) ≡ false
  appended [] y ys = refl
  appended (x ∷ xs) y ys = refl

  pub and_true : (a b : Bool) → a ≡ true → b ≡ true → a && b ≡ true
  and_true a b h k = rw (h, k) refl

  pub and_parts : (a b : Bool) → a && b ≡ true → (a ≡ true) × (b ≡ true)
  and_parts a b h = ground arith

  pub row-IsGrown :
      (p : Progress L) (c : Coverage)
      → IsSound p
      → valid_coverage c ≡ true
      → IsGrown (record p { input = record p.input { coverage = p.input.coverage ++ (c ∷ []) } })
  unfolding all
  row-IsGrown p c h v = record {
    sound = record {
      coverage =
          all-append valid_coverage p.input.coverage (c ∷ []) ∙ and_true _ _ h.coverage (rw v refl);
      observations = h.observations;
      started = h.started;
    };
    rows = appended p.input.coverage c [];
  }

  pub add_collected-IsGrown :
      (s : Scope) (collection : Collection L) (p : Progress L)
      → valid_scope s ≡ true
      → IsSound p
      → Gives IsGrown (add_collected observed_by now s collection p)
  unfolding add_collected all
  add_collected-IsGrown s collection p v h =
      Gives-if (wrong_account s collection.account_id) _ _ (λ b. stops invalid_input)
        (λ b.
          Gives-if (any (wrong_supplement s) collection.coverage) _ _ (λ d. stops invalid_input)
            (λ d. gives _ (record {
              sound = record {
                coverage =
                    all-append valid_coverage p.input.coverage _
                    ∙ and_true _ _ h.coverage (
                        and_true _ _ (collected_valid s collection.account_id v b)
                          (supplements_valid s collection.coverage d));
                observations = λ r.
                    let (old, new) = and_parts _ _ (
                      sym (all-append valid_resource p.input.resources collection.resources) ∙ r) in
                    all-append valid_observation p.input.observations _
                    ∙ and_true _ _ (h.observations old) (
                        observe_valid s collection.account_id (now p.readings) collection.resources
                          v b (ticks p.readings) new);
                started = h.started;
              };
              rows = appended p.input.coverage _ collection.coverage;
            })))

  pub add_failed-IsGrown :
      (ctx : Option Error) (s : Scope) (account : Text) (kind : Option Text) (p : Progress L)
      → valid_scope s ≡ true
      → IsSound p
      → Gives IsGrown (add_failed observed_by now ctx s account kind p)
  unfolding add_failed
  add_failed-IsGrown (some e) s account kind p v h = stops (context_error e)
  add_failed-IsGrown none s account kind p v h =
      Gives-if (not (account =? []) && wrong_account s account) _ _ (λ b. stops invalid_input)
        (λ b. gives _ (row-IsGrown p _ h (failed_valid s account kind v b)))

  pub add_scope-IsGrown :
      (ctx : Option Error) (s : Scope) (collection : Collection L) (failure : Option (Option Text))
      (p : Progress L) (skipped : Bool)
      → s.not_observed ≡ skipped
      → valid_scope s ≡ true
      → IsSound p
      → Gives IsGrown (elim skipped [
        | true ↦ going (record p {
          input = record p.input {
            coverage =
                p.input.coverage ++ (scope_coverage s s.account_id not_observed s.reason ∷ []);
          };
        })
        | false ↦ elim failure [
          | some kind ↦ add_failed observed_by now ctx s collection.account_id kind p
          | none ↦ add_collected observed_by now s collection p
        ]
      ])
  add_scope-IsGrown ctx s collection failure p true e v h =
      gives _ (row-IsGrown p _ h (not_observed_valid s v e))
  add_scope-IsGrown ctx s collection none p false e v h = add_collected-IsGrown s collection p v h
  add_scope-IsGrown ctx s collection (some kind) p false e v h =
      add_failed-IsGrown ctx s collection.account_id kind p v h

  pub add_scopes-IsGrown :
      (seen : List Scope) (rows : List (Scope × Collection L × Option (Option Text) × Option Error))
      (p : Progress L)
      → valid_scopes seen (scopes_of rows) ≡ true
      → IsGrown p
      → Gives IsGrown (add_scopes observed_by now rows p)
  unfolding add_scopes add_scope valid_scopes
  add_scopes-IsGrown seen [] p v h = gives p h
  add_scopes-IsGrown seen ((s, collection, failure, ctx) ∷ rows) p v h =
      let (valid, rest) = and_parts (valid_scope s) _ v in
      Gives-bind _ (add_scope-IsGrown ctx s collection failure p s.not_observed refl valid h.sound)
        (λ p' g. add_scopes-IsGrown (s ∷ seen) rows p' (and_parts _ _ rest).1 g)

  pub first_scopes-IsGrown :
      (rows : List (Scope × Collection L × Option (Option Text) × Option Error)) (p : Progress L)
      → is_empty rows ≡ false
      → valid_scopes [] (scopes_of rows) ≡ true
      → IsSound p
      → Gives IsGrown (add_scopes observed_by now rows p)
  unfolding add_scopes add_scope valid_scopes
  first_scopes-IsGrown [] p n v h = absurd (cc n)
  first_scopes-IsGrown ((s, collection, failure, ctx) ∷ rows) p n v h =
      let (valid, rest) = and_parts (valid_scope s) _ v in
      Gives-bind _ (add_scope-IsGrown ctx s collection failure p s.not_observed refl valid h)
        (λ p' g. add_scopes-IsGrown (s ∷ []) rows p' (and_parts _ _ rest).1 g)
