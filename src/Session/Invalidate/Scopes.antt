-- ===== src/Session/Invalidate/Scopes.antt =====
-- What the three invalidations remove and keep, said of the fields of keys and provenances.
use binbox_cli.Base.{
  ℕ, ◌+◌, ◌≡◌, ◌≢◌, refl, Bool, true, false, ◌||◌, Option, none, some, arith, if◌then◌else◌,
  Distinct, lookup, ◌⊎◌, ◌↔◌, &&_iff, ||_iff, holds_iff,
}
use binbox_cli.Text.{Text, ◌=?◌}
use binbox_cli.Identity.{
  Platform, AwsContext, QueryKey, ResourceKey, is_partition, is_account_id, validate_context,
  context_provenance,
}
use binbox_cli.Observation.{ObservationProvenance, ResourceObservation}
use binbox_cli.Session.State.{
  QueryEntry, SessionStore, query_dec, context_dec, context_provenance_dec,
}
use binbox_cli.Session.Invalidate.{
  Scope, invalidate, account_scope, context_scope, generation_scope, lineage_matches,
  invalidate_account, invalidate_context, invalidate_generation,
}
use binbox_cli.Session.Invalidate.Exact.{
  find, size, lookup-invalidate, find-invalidate, size-invalidate,
}

-- The query is of the account, or the resource is, or the observer was.
pub OfAccount : Text → Text → ResourceKey → ObservationProvenance → Type 0
OfAccount partition account k p =
    ((k.partition ≡ partition) × (k.account_id ≡ account))
    ⊎ ((p.context_provenance.partition ≡ partition) × (p.context_provenance.account_id ≡ account))

-- Same mode, profile and region, and another generation.
abbrev pub OtherGeneration : AwsContext → (mode profile region : Text) → ℕ → Type 0
OtherGeneration c mode profile region generation =
    (mode ≡ c.mode) × (profile ≡ c.profile) × (region ≡ c.region) × (generation ≢ c.credential_gen)

-- The effect of one invalidation, by a predicate on queries and one on observations: what is left
-- is exactly what was there and does not match, and the count is of what went.
pub record Removes (before : SessionStore) (after : SessionStore × ℕ) (Q : QueryKey → Type 0)
    (O : ResourceKey → ObservationProvenance → Type 0) : Type 0 where
  pub query_left :
      (k : QueryKey) (e : QueryEntry)
      → (lookup query_dec k after.0.queries ≡ some e)
        ↔ ((¬ Q k) × (lookup query_dec k before.queries ≡ some e))
  pub observation_left :
      (k : ResourceKey) (p : ObservationProvenance) (o : ResourceObservation)
      → (find after.0.resources k p ≡ some o) ↔ ((¬ O k p) × (find before.resources k p ≡ some o))
  pub counted : after.1 + size after.0 ≡ size before

-- Where a test removes what it accepts, what is left was there and fails the predicate tested.
left_iff {ℓ} :
    {A : Type ℓ} {P : Type 0} (test : Bool) (before : Option A) (x : A)
    → (test ≡ true) ↔ P
    → ((if test then none else before) ≡ some x) ↔ ((¬ P) × (before ≡ some x))
left_iff true before x h = (λ e. absurd cc, λ (n, e). absurd (n (h.0 refl)))
left_iff false before x h = (λ e. (λ p. absurd (ground (arith, h.1 p)), e), λ (n, e). e)

-- A scope whose tests decide the predicates.
scope-Removes :
    (scope : Scope) (store : SessionStore) {Q : QueryKey → Type 0}
    {O : ResourceKey → ObservationProvenance → Type 0}
    → ((k : QueryKey) → (scope.query_matches k ≡ true) ↔ Q k)
    → ((k : ResourceKey) (p : ObservationProvenance)
        → ((scope.resource_matches k || scope.observation_matches p) ≡ true) ↔ O k p)
    → Distinct store.resources
    → Removes store (invalidate scope store) Q O
scope-Removes scope store q o d = record {
  query_left = λ k e. rw lookup-invalidate (left_iff (scope.query_matches k) _ e (q k));
  observation_left = λ k p v.
      rw (find-invalidate scope store k p d)
        (left_iff (scope.resource_matches k || scope.observation_matches p) _ v (o k p));
  counted = size-invalidate scope store;
}

=?_iff : (a b : Text) → ((a =? b) ≡ true) ↔ (a ≡ b)
=?_iff a b = ground arith

-- `InvalidateAccount` on a well-formed partition and account, in a store with one entry for each
-- resource, removes exactly the queries of that
-- account, the observations of its resources and those that its contexts made, and returns how
-- many it removed.
pub invalidate_account-Removes :
    (store : SessionStore) (partition account : Text)
    → is_partition partition ≡ true
    → is_account_id account ≡ true
    → Distinct store.resources
    → Removes store
        (invalidate_account store partition account)
        (λ k. (k.context.partition ≡ partition) × (k.context.account_id ≡ account))
        (OfAccount partition account)
unfolding invalidate_account OfAccount
invalidate_account-Removes store partition account p a d =
    rw (p, invalidate_account, a)
      (scope-Removes (account_scope partition account) store
        (unfold account_scope in λ k. &&_iff _ _ (=?_iff _ _) (=?_iff _ _))
        (unfold account_scope in
          λ k q.
            ||_iff _ _ (&&_iff _ _ (=?_iff _ _) (=?_iff _ _))
              (&&_iff _ _ (=?_iff _ _) (=?_iff _ _)))
        d)

lineage_iff :
    (c : AwsContext) (mode profile region : Text) (generation : ℕ)
    → (lineage_matches c mode profile region generation ≡ true)
      ↔ OtherGeneration c mode profile region generation
lineage_iff c mode profile region generation = ground arith

-- `InvalidateGeneration` for a valid context, in a store with one entry for each resource, removes exactly the queries and the observations of
-- the same mode, profile and region with another credential generation, older or newer, whatever
-- their account and principal, and returns how many it removed.
pub invalidate_generation-Removes :
    (env : Platform) (store : SessionStore) (c : AwsContext)
    → validate_context env c ≡ none
    → Distinct store.resources
    → Removes store
        (invalidate_generation env store c)
        (λ k.
          OtherGeneration c k.context.mode k.context.profile k.context.region
            k.context.credential_gen)
        (λ k p.
          OtherGeneration c p.context_provenance.mode p.context_provenance.profile
            p.context_provenance.region p.context_provenance.credential_gen)
unfolding invalidate_generation
invalidate_generation-Removes env store c v d =
    rw (v, invalidate_generation)
      (scope-Removes (generation_scope c) store
        (unfold generation_scope in λ k. lineage_iff c _ _ _ _)
        (unfold generation_scope in λ k p. lineage_iff c _ _ _ _) d)

-- `InvalidateContext` for a valid context, in a store with one entry for each resource, removes exactly the queries under that context and the
-- observations with its provenance, and returns how many it removed.
pub invalidate_context-Removes :
    (env : Platform) (store : SessionStore) (c : AwsContext)
    → validate_context env c ≡ none
    → Distinct store.resources
    → Removes store
        (invalidate_context env store c)
        (λ k. k.context ≡ c)
        (λ k p. p.context_provenance ≡ context_provenance c)
unfolding invalidate_context
invalidate_context-Removes env store c v d =
    rw (v, invalidate_context)
      (scope-Removes (context_scope c) store
        (unfold context_scope in λ k. holds_iff (context_dec k.context c))
        (unfold context_scope in
          λ k p. holds_iff (context_provenance_dec p.context_provenance (context_provenance c)))
        d)
