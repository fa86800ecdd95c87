-- ===== src/Snapshot/Collect/Accepted.antt =====
-- What `Collect` returns passes the validation of a run. internal/bb/awsbrowser/snapshot/sync.go.
use binbox_cli.Snapshot.Relations.{StoredRelation, observe_relations, valid_relation}
use binbox_cli.Base.{
  ℕ, ◌≡◌, ◌≢◌, ◌≤◌, refl, sym, ◌∙◌, Bool, true, false, not, ◌||◌, Option, none, some, List, [], all,
  ltb, arith, subst,
}
use binbox_cli.Errors.{Error}
use binbox_cli.Text.{Text}
use binbox_cli.Observation.{Time, is_zero}
use binbox_cli.Snapshot.Collect.{
  valid_resource, Coverage, Scope, Collection, RunInput, stopped, going, ◌>>=◌, invalid_input,
  context_error, Progress, add_scopes, valid_scopes, distinct_coverage, coverage_accepted, is_empty,
  new_input, run_accepted, scopes_of, collect,
}
use binbox_cli.Snapshot.Collect.Rows.{
  Gives, Gives-bind, Gives-if, Gives-going, Gives-both, stops, gives,
}
use binbox_cli.Snapshot.Collect.Growth.{IsSound, IsGrown, first_scopes-IsGrown}
use binbox_cli.Snapshot.Collect.Distinct.{distinct_coverage-accepted, distinct_coverage_grown}

not_zero : (t : Time) → t ≢ 0 → is_zero t ≡ false
not_zero t n = ground arith

not_before : (t u : Time) → u ≤ t → ltb t u ≡ false
not_before t u h = ground arith

module _ {L : Type 0} (observed_by : Scope → Text → List L → List L) (now : ℕ → Time)
    (ticks : (k : ℕ) → now k ≢ 0) (later : (k : ℕ) → now 0 ≤ now k)
    (valid_relation : L → Bool) where
  abbrev IsAccepted : RunInput L → Type 0
  IsAccepted input =
      all valid_resource input.resources ≡ true
      → all valid_relation input.relations ≡ true
      → run_accepted valid_relation input ≡ true

  last-IsAccepted :
      (p : Progress L) (kept : List Coverage)
      → IsGrown observed_by now ticks p
      → (coverage_accepted [] kept ≡ true) × (is_empty kept ≡ false)
      → IsAccepted (record p.input { coverage = kept; completed_at = now p.readings })
  unfolding run_accepted
  last-IsAccepted p kept g k resources relations =
      let started : p.input.started_at ≢ 0 = λ z. ticks 0 (sym g.sound.started ∙ z) in
      let ordered : p.input.started_at ≤ now p.readings =
        subst (λ t. t ≤ now p.readings) (sym g.sound.started) (later p.readings) in
      rw
        (
          not_zero p.input.started_at started,
          not_zero (now p.readings) (ticks p.readings),
          not_before (now p.readings) p.input.started_at ordered,
          k.1,
          resources,
          g.sound.observations resources,
          relations,
          k.0,
        )
        refl

  empty_progress-IsSound :
      IsSound observed_by now ticks (record { input = new_input (now 0); readings = 1 })
  unfolding all
  empty_progress-IsSound = record { coverage = refl; observations = λ r. refl; started = refl }

  collect-IsAccepted :
      (ctx : Option Error)
      (rows : List (Scope × Collection L × Option (Option Text) × Option Error))
      → Gives IsAccepted (collect observed_by now ctx rows)
  unfolding collect
  collect-IsAccepted ctx rows =
      Gives-if (is_empty rows || not (valid_scopes [] (scopes_of rows))) _ _
        (λ b. stops invalid_input) (λ b. after ctx (given (is_empty rows) _ b))
    where
      given : (a b : Bool) → a || not b ≡ false → (a ≡ false) × (b ≡ true)
      given a b h = ground arith

      after :
          (ctx : Option Error)
          → (is_empty rows ≡ false) × (valid_scopes [] (scopes_of rows) ≡ true)
          → Gives IsAccepted (elim ctx [
            | some e ↦ stopped (context_error e)
            | none ↦
                add_scopes observed_by now rows (record { input = new_input (now 0); readings = 1 })
                >>= λ p. distinct_coverage [] p.input.coverage >>= λ coverage.
                    going (record p.input { coverage = coverage; completed_at = now p.readings })
          ])
      after (some e) h = stops (context_error e)
      after none h =
          Gives-bind _
            (first_scopes-IsGrown observed_by now ticks rows _ h.0 h.1 empty_progress-IsSound)
            (λ p g.
              Gives-bind _
                (Gives-both (distinct_coverage-accepted [] p.input.coverage g.sound.coverage)
                  (distinct_coverage_grown p.input.coverage g.rows))
                (λ kept k. gives _ (last-IsAccepted p kept g k)))

-- Where the clock is never at the zero time and never before its first reading, a run that `Collect`
-- returns passes the validation of `CommitRun`, if the resources in it are valid and so are its
-- relations: each row of coverage is valid, no two rows have the same key, there is a row, every
-- observation is valid, and the run does not end before it starts.
pub collect_accepted :
    (now : ℕ → Time) (ctx : Option Error)
    (rows : List (Scope × Collection StoredRelation × Option (Option Text) × Option Error))
    (input : RunInput StoredRelation)
    → ((k : ℕ) → now k ≢ 0)
    → ((k : ℕ) → now 0 ≤ now k)
    → collect observe_relations now ctx rows ≡ going input
    → all valid_resource input.resources ≡ true
    → all valid_relation input.relations ≡ true
    → run_accepted valid_relation input ≡ true
collect_accepted now ctx rows input ticks later e =
    Gives-going (collect-IsAccepted observe_relations now ticks later valid_relation ctx rows) input
      e
