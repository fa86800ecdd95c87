-- ===== src/Snapshot/Collect/Distinct.antt =====
-- The last loop of `Collect` keeps rows that are accepted. internal/bb/awsbrowser/snapshot/sync.go.
use binbox_cli.Base.{
  ◌≡◌, refl, Bool, true, false, ◌&&◌, Option, none, some, List, [], ◌∷◌, any, all, holds, arith,
  Bool-cases, inl, inr,
}
use binbox_cli.Text.{Text, ◌=?◌}
use binbox_cli.Snapshot.Collect.{
  Coverage, valid_coverage, Attempt, stopped, going, ◌>>=◌, invalid_input, coverage_key,
  coverage_dec, find_key, distinct_coverage, coverage_accepted, is_empty,
}
use binbox_cli.Snapshot.Collect.Rows.{Gives, Gives-bind, stops, gives}

pub any_found :
    (key : Text) (seen : List Coverage)
    → find_key key seen ≡ none
    → any (λ s. coverage_key s =? key) seen ≡ false
unfolding any find_key
any_found key [] h = refl
any_found key (c ∷ seen) h = elim (Bool-cases (coverage_key c =? key)) [
  | inl b ↦ absurd (cc (rw (b, find_key) at h))
  | inr b ↦ rw (b, any) (any_found key seen (rw (b, find_key) at h))
]

pub row-accepted :
    (seen rows : List Coverage) (c : Coverage) (found : Option Coverage)
    → find_key (coverage_key c) seen ≡ found
    → valid_coverage c ≡ true
    → Gives (λ kept. coverage_accepted seen kept ≡ true) (distinct_coverage seen rows)
    → Gives (λ kept. coverage_accepted (c ∷ seen) kept ≡ true) (distinct_coverage (c ∷ seen) rows)
    → Gives
        (λ kept. coverage_accepted seen kept ≡ true)
        (elim found [
          | some previous ↦ elim (holds (coverage_dec previous c)) [
            | true ↦ distinct_coverage seen rows
            | false ↦ stopped invalid_input
          ]
          | none ↦ distinct_coverage (c ∷ seen) rows >>= λ kept. going (c ∷ kept)
        ])
unfolding coverage_accepted
row-accepted seen rows c none e v same new =
    Gives-bind _ new (λ kept h. gives _ (rw (v, any_found (coverage_key c) seen e, h) refl))
row-accepted seen rows c (some previous) e v same new =
    elim (holds (coverage_dec previous c))
      as (λ b.
        Gives (λ kept. coverage_accepted seen kept ≡ true)
          (elim b [ true ↦ distinct_coverage seen rows | false ↦ stopped invalid_input ])) [
            | true ↦ same
            | false ↦ stops invalid_input
          ]

pub all_parts :
    (c : Coverage) (rows : List Coverage)
    → all valid_coverage (c ∷ rows) ≡ true
    → (valid_coverage c ≡ true) × (all valid_coverage rows ≡ true)
unfolding all
all_parts c rows h = parts (valid_coverage c) (all valid_coverage rows) h
  where
    parts : (a b : Bool) → a && b ≡ true → (a ≡ true) × (b ≡ true)
    parts a b h = ground arith

-- The rows that the last loop keeps are accepted.
pub distinct_coverage-accepted :
    (seen rows : List Coverage)
    → all valid_coverage rows ≡ true
    → Gives (λ kept. coverage_accepted seen kept ≡ true) (distinct_coverage seen rows)
unfolding distinct_coverage
distinct_coverage-accepted seen [] v = gives [] (unfold coverage_accepted in refl)
distinct_coverage-accepted seen (c ∷ rows) v =
    let (valid, rest) = all_parts c rows v in
    row-accepted seen rows c _ refl valid (distinct_coverage-accepted seen rows rest)
      (distinct_coverage-accepted (c ∷ seen) rows rest)

-- The first row is kept.
pub distinct_coverage_grown :
    (rows : List Coverage)
    → is_empty rows ≡ false
    → Gives (λ kept. is_empty kept ≡ false) (distinct_coverage [] rows)
unfolding distinct_coverage find_key
distinct_coverage_grown [] n = absurd (cc n)
distinct_coverage_grown (c ∷ rows) n = first (distinct_coverage (c ∷ []) rows)
  where
    first :
        (m : Attempt (List Coverage))
        → Gives (λ kept. is_empty kept ≡ false) (m >>= λ kept. going (c ∷ kept))
    first (stopped failure) = stops failure
    first (going kept) = gives _ refl
