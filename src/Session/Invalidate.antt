-- ===== src/Session/Invalidate.antt =====
-- Invalidation of a context, an account or a line of generations.
-- internal/bb/awsbrowser/store.go.
pub mod Exact
pub mod Scopes
use binbox_cli.Base.{
  ℕ, ◌+◌, Bool, true, false, not, ◌&&◌, ◌||◌, List, [], ◌∷◌, if◌then◌else◌, ◌==◌, holds, length,
  Map, keep, dropped,
}
use binbox_cli.Text.{Text, ◌=?◌}
use binbox_cli.Identity.{
  Platform, AwsContext, ContextProvenance, ResourceKey, QueryKey, is_none, context_provenance,
  validate_context, is_partition, is_account_id,
}
use binbox_cli.Observation.{ObservationProvenance, ResourceObservation}
use binbox_cli.Session.State.{QueryEntry, SessionStore, context_dec, context_provenance_dec}
use binbox_cli.Session.{Observations}

-- The three tests of `invalidateLocked`.
pub record Scope : Type 0 where
  pub query_matches : QueryKey → Bool
  pub observation_matches : ObservationProvenance → Bool
  pub resource_matches : ResourceKey → Bool

-- A key whose observations are all gone goes too.
unfoldable pub put_unless_empty :
    ResourceKey → Observations → Map ResourceKey Observations → Map ResourceKey Observations
put_unless_empty k [] m = m
put_unless_empty k (o ∷ os) m = (k, o ∷ os) ∷ m

-- The loop over the resources: how many observations went, and what is left.
unfoldable pub prune : Scope → Map ResourceKey Observations → ℕ × Map ResourceKey Observations
prune scope [] = (0, [])
prune scope ((key, observations) ∷ rest) =
    let (removed, left) = prune scope rest in
    if scope.resource_matches key then (length observations + removed, left) else (
      dropped scope.observation_matches observations + removed,
      put_unless_empty key (keep scope.observation_matches observations) left,
    )

unfoldable pub invalidate : Scope → SessionStore → SessionStore × ℕ
invalidate scope store =
    let (removed, resources) = prune scope store.resources in
    (
      record { queries = keep scope.query_matches store.queries; resources = resources },
      dropped scope.query_matches store.queries + removed,
    )

unfoldable pub context_scope : AwsContext → Scope
context_scope c = record {
  query_matches = λ key. holds (context_dec key.context c);
  observation_matches =
      λ p. holds (context_provenance_dec p.context_provenance (context_provenance c));
  resource_matches = λ key. false;
}

unfoldable pub account_scope : Text → Text → Scope
account_scope partition account_id = record {
  query_matches = λ key. key.context.partition =? partition && key.context.account_id =? account_id;
  observation_matches = λ p.
      p.context_provenance.partition =? partition && p.context_provenance.account_id =? account_id;
  resource_matches = λ key. key.partition =? partition && key.account_id =? account_id;
}

-- The fields of a context or of a provenance that a generation's lineage compares.
abbrev pub lineage_matches : AwsContext → (mode profile region : Text) → ℕ → Bool
lineage_matches current mode profile region generation =
    mode =? current.mode
    && (profile =? current.profile
        && (region =? current.region && not (generation == current.credential_gen)))

unfoldable pub generation_scope : AwsContext → Scope
generation_scope current = record {
  query_matches = λ key.
      lineage_matches current key.context.mode key.context.profile key.context.region
        key.context.credential_gen;
  observation_matches = λ p.
      lineage_matches current p.context_provenance.mode p.context_provenance.profile
        p.context_provenance.region p.context_provenance.credential_gen;
  resource_matches = λ key. false;
}

module _ (env : Platform) where
  unfoldable pub invalidate_context : SessionStore → AwsContext → SessionStore × ℕ
  invalidate_context store c =
      if not (is_none (validate_context env c))
      then (store, 0)
      else invalidate (context_scope c) store

  unfoldable pub invalidate_generation : SessionStore → AwsContext → SessionStore × ℕ
  invalidate_generation store current =
      if not (is_none (validate_context env current))
      then (store, 0)
      else invalidate (generation_scope current) store

unfoldable pub invalidate_account : SessionStore → (partition account_id : Text) → SessionStore × ℕ
invalidate_account store partition account_id =
    if not (is_partition partition) || not (is_account_id account_id)
    then (store, 0)
    else invalidate (account_scope partition account_id) store
