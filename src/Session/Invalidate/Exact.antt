-- ===== src/Session/Invalidate/Exact.antt =====
-- Invalidation removes what its tests name, keeps all else, and counts what it removed.
use binbox_cli.Base.{
  ℕ, ◌+◌, ◌≡◌, ◌≢◌, refl, sym, ◌∙◌, ap, Bool, ◌||◌, Option, none, some, [], ◌∷◌, inl, inr, arith,
  if◌then◌else◌, length, Map, Distinct, Fresh, lookup, lookup-Fresh, lookup-keep, length-keep, keep,
  Bool-cases,
}
use binbox_cli.Identity.{QueryKey, ResourceKey}
use binbox_cli.Observation.{ObservationProvenance, ResourceObservation}
use binbox_cli.Session.State.{SessionStore, query_dec, resource_dec, provenance_dec}
use binbox_cli.Session.{Observations}
use binbox_cli.Session.Invalidate.{Scope, prune, put_unless_empty, invalidate}

-- The observation under a key and a provenance.
abbrev pub find :
    Map ResourceKey Observations → ResourceKey → ObservationProvenance → Option ResourceObservation
find m k p = elim (lookup resource_dec k m) [ none ↦ none | some os ↦ lookup provenance_dec p os ]

-- The number of observations.
pub total : Map ResourceKey Observations → ℕ
total [] = 0
total ((k, os) ∷ m) = length os + total m

find-cons_self :
    (k : ResourceKey) (os : Observations) (m : Map ResourceKey Observations)
    (p : ObservationProvenance)
    → find ((k, os) ∷ m) k p ≡ lookup provenance_dec p os
unfolding lookup
find-cons_self k os m p = elim (resource_dec k k) [ yes e ↦ ground arith | no e ↦ absurd (e refl) ]

find-cons_ne :
    (j k : ResourceKey) (os : Observations) (m : Map ResourceKey Observations)
    (p : ObservationProvenance)
    → j ≢ k
    → find ((j, os) ∷ m) k p ≡ find m k p
unfolding lookup
find-cons_ne j k os m p h = elim (resource_dec j k) [ yes e ↦ absurd (h e) | no e ↦ ground arith ]

find-put_self :
    (k : ResourceKey) (os : Observations) (m : Map ResourceKey Observations)
    (p : ObservationProvenance)
    → find m k p ≡ none
    → find (put_unless_empty k os m) k p ≡ lookup provenance_dec p os
unfolding put_unless_empty lookup
find-put_self k [] m p h = h
find-put_self k (o ∷ os) m p h = elim (resource_dec k k) [
  | yes e ↦ ground arith
  | no e ↦ absurd (e refl)
]

find-put_ne :
    (j k : ResourceKey) (os : Observations) (m : Map ResourceKey Observations)
    (p : ObservationProvenance)
    → j ≢ k
    → find (put_unless_empty j os m) k p ≡ find m k p
unfolding put_unless_empty
find-put_ne j k [] m p h = refl
find-put_ne j k (o ∷ os) m p h = find-cons_ne j k (o ∷ os) m p h

find-Fresh :
    (k : ResourceKey) (m : Map ResourceKey Observations) (p : ObservationProvenance)
    → Fresh resource_dec k m
    → find m k p ≡ none
find-Fresh k m p f = rw (lookup-Fresh resource_dec k m f, find)

total-put :
    (k : ResourceKey) (os : Observations) (m : Map ResourceKey Observations)
    → total (put_unless_empty k os m) ≡ length os + total m
unfolding put_unless_empty total
total-put k [] m = omega arith
total-put k (o ∷ os) m = refl

-- The queries and the observations of a store.
pub size : SessionStore → ℕ
size store = length store.queries + total store.resources

module _ (scope : Scope) where
  abbrev gone : ResourceKey → ObservationProvenance → Bool
  gone k p = scope.resource_matches k || scope.observation_matches p

  find-prune_self :
      (j : ResourceKey) (os : Observations) (m : Map ResourceKey Observations)
      (p : ObservationProvenance)
      → find (prune scope m).1 j p ≡ none
      → find (prune scope ((j, os) ∷ m)).1 j p
        ≡ (if gone j p then none else lookup provenance_dec p os)
  unfolding prune
  find-prune_self j os m p h = elim (Bool-cases (scope.resource_matches j)) [
    | inl b ↦ rw b h
    | inr b ↦
        rw b (find-put_self j _ _ p h ∙ lookup-keep provenance_dec scope.observation_matches p os)
  ]

  find-prune_ne :
      (j k : ResourceKey) (os : Observations) (m : Map ResourceKey Observations)
      (p : ObservationProvenance)
      → j ≢ k
      → find (prune scope ((j, os) ∷ m)).1 k p ≡ find (prune scope m).1 k p
  unfolding prune
  find-prune_ne j k os m p h = elim (Bool-cases (scope.resource_matches j)) [
    | inl b ↦ rw b
    | inr b ↦ rw b (find-put_ne j k _ _ p h)
  ]

  find-prune :
      (m : Map ResourceKey Observations) (k : ResourceKey) (p : ObservationProvenance)
      → Distinct m
      → find (prune scope m).1 k p ≡ (if gone k p then none else find m k p)
  find-prune [] k p d = unfold prune lookup in ground arith
  find-prune ((j, os) ∷ m) k p d =
      let ih = find-prune m k p d.1 in
      elim (resource_dec j k) [
        | yes e ↦
            let f : find m k p ≡ none = find-Fresh k m p (rw e at d.0) in
            let r : find (prune scope m).1 k p ≡ none = ground (arith, ih) in
            rw (← e) (
              find-prune_self j os m p (rw (← e) at r)
              ∙ ap (λ x. if gone j p then none else x) (sym (find-cons_self j os m p)))
        | no e ↦
            find-prune_ne j k os m p e
            ∙ ih
            ∙ ap (λ x. if gone k p then none else x) (sym (find-cons_ne j k os m p e))
      ]

  total-prune :
      (m : Map ResourceKey Observations) → (prune scope m).0 + total (prune scope m).1 ≡ total m
  unfolding prune total
  total-prune [] = refl
  total-prune ((j, os) ∷ m) = elim (Bool-cases (scope.resource_matches j)) [
    | inl b ↦ rw b (omega (arith, total-prune m))
    | inr b ↦ rw b (
        omega (
          arith,
          total-prune m,
          length-keep scope.observation_matches os,
          total-put j (keep scope.observation_matches os) (prune scope m).1,
        ))
  ]

  pub lookup-invalidate :
      (store : SessionStore) (k : QueryKey)
      → lookup query_dec k (invalidate scope store).0.queries
        ≡ (if scope.query_matches k then none else lookup query_dec k store.queries)
  unfolding invalidate
  lookup-invalidate store k = lookup-keep query_dec scope.query_matches k store.queries

  pub find-invalidate :
      (store : SessionStore) (k : ResourceKey) (p : ObservationProvenance)
      → Distinct store.resources
      → find (invalidate scope store).0.resources k p
        ≡ (if gone k p then none else find store.resources k p)
  unfolding invalidate
  find-invalidate store k p d = find-prune store.resources k p d

  pub size-invalidate :
      (store : SessionStore)
      → (invalidate scope store).1 + size (invalidate scope store).0 ≡ size store
  unfolding invalidate size
  size-invalidate store =
      omega (arith, total-prune store.resources, length-keep scope.query_matches store.queries)
