-- ===== src/Session/Reads.antt =====
-- What the store shows: snapshots of queries and canonical resources.
-- internal/bb/awsbrowser/store.go.
pub mod Shown
use binbox_cli.Base.{
  ℕ, ◌+◌, Bool, true, false, not, ◌&&◌, ◌||◌, Option, none, some, List, [], ◌∷◌, ltb, ◌==◌,
  if◌then◌else◌, holds, length, Map, lookup,
}
use binbox_cli.Text.{Text, join_identity_parts, decimal}
use binbox_cli.Identity.{
  Platform, ContextProvenance, ResourceKey, QueryKey, is_none, validate_resource_key,
}
use binbox_cli.Identity.Keys.{text_lt, validate_query_key}
use binbox_cli.Observation.{
  Time, ObservationProvenance, ResourceObservation, QueryPage, clone_observation, clone_page,
}
use binbox_cli.Session.State.{
  LoadState, not_loaded, RefreshFailure, QueryEntry, SessionStore, query_dec, resource_dec,
  provenance_dec, context_provenance_dec,
}
use binbox_cli.Session.{Observations}

pub record QuerySnapshot : Type 0 where
  pub state : LoadState
  pub fetched_at : Time
  pub refresh_failure : Option RefreshFailure
  pub pages : List QueryPage

pub record CanonicalResource : Type 0 where
  pub key : ResourceKey
  pub observations : Observations

-- The sum of `ResourceCount`.
unfoldable pub page_resources : List QueryPage → ℕ
page_resources [] = 0
page_resources (page ∷ pages) = length page.resources + page_resources pages

-- `QuerySnapshot.ResourceCount`
unfoldable pub resource_count : QuerySnapshot → ℕ
resource_count snapshot = page_resources snapshot.pages

unfoldable pub insert_page : ℕ × QueryPage → Map ℕ QueryPage → Map ℕ QueryPage
insert_page p [] = p ∷ []
insert_page p (q ∷ qs) = let rest = insert_page p qs in if ltb q.0 p.0 then q ∷ rest else p ∷ q ∷ qs

-- The pages in the order of their numbers.
unfoldable pub sort_pages : Map ℕ QueryPage → Map ℕ QueryPage
sort_pages [] = []
sort_pages (p ∷ ps) = insert_page p (sort_pages ps)

-- `observationProvenanceSortKey`
unfoldable pub provenance_sort_key : ObservationProvenance → Text
provenance_sort_key p =
    let c = p.context_provenance in
    join_identity_parts (
      join_identity_parts (
        c.mode
        ∷ c.profile
        ∷ c.partition
        ∷ c.account_id
        ∷ c.principal_arn
        ∷ c.role_name
        ∷ c.region
        ∷ decimal c.credential_gen
        ∷ [])
      ∷ p.operation
      ∷ [])

unfoldable pub insert_observation :
    ObservationProvenance × ResourceObservation → Observations → Observations
insert_observation p [] = p ∷ []
insert_observation p (q ∷ qs) =
    let rest = insert_observation p qs in
    if text_lt (provenance_sort_key q.0) (provenance_sort_key p.0) then q ∷ rest else p ∷ q ∷ qs

unfoldable pub sort_observations : Observations → Observations
sort_observations [] = []
sort_observations (p ∷ ps) = insert_observation p (sort_observations ps)

-- The test of `Observation` by which a later turn of the loop replaces the selection.
unfoldable pub better : Option ResourceObservation → ResourceObservation → Bool
better none o = true
better (some selected) o =
    ltb selected.fetched_at o.fetched_at
    || (o.fetched_at == selected.fetched_at && text_lt o.operation selected.operation)

-- The loop of `Observation`.
unfoldable pub select :
    ContextProvenance → Observations → Option ResourceObservation → Option ResourceObservation
select provenance [] selected = selected
select provenance ((identity, o) ∷ rest) selected = select provenance rest (
    if holds (context_provenance_dec identity.context_provenance provenance) && better selected o
    then some o
    else selected)

module _ (env : Platform) where
  unfoldable pub clone_pages : List QueryPage → List QueryPage
  clone_pages [] = []
  clone_pages (page ∷ pages) = clone_page env page ∷ clone_pages pages

  unfoldable pub values : Map ℕ QueryPage → List QueryPage
  values [] = []
  values ((number, page) ∷ rest) = clone_page env page ∷ values rest

  unfoldable pub sorted_pages : Map ℕ QueryPage → List QueryPage
  sorted_pages pages = values (sort_pages pages)

  -- `QuerySnapshot.Pages`
  unfoldable pub snapshot_pages : QuerySnapshot → List QueryPage
  snapshot_pages snapshot = clone_pages snapshot.pages

  -- The snapshot and whether it was found; the snapshot without a state is `none`.
  unfoldable pub snapshot : SessionStore → QueryKey → Option QuerySnapshot × Bool
  snapshot store key =
      if not (is_none (validate_query_key env key))
      then (none, false)
      else elim (lookup query_dec key store.queries) [
        | none ↦ (
          some (record { state = not_loaded; fetched_at = 0; refresh_failure = none; pages = [] }),
          false,
        )
        | some entry ↦ (
          some (record {
            state = entry.state;
            fetched_at = entry.fetched_at;
            refresh_failure = entry.refresh_failure;
            pages = sorted_pages entry.pages;
          }),
          true,
        )
      ]

  unfoldable pub clone_observations : Observations → Observations
  clone_observations [] = []
  clone_observations ((p, o) ∷ rest) = (p, clone_observation env o) ∷ clone_observations rest

  unfoldable pub canonical : SessionStore → ResourceKey → Option CanonicalResource
  canonical store key =
      if not (is_none (validate_resource_key key))
      then none
      else elim (lookup resource_dec key store.resources) [
        | none ↦ none
        | some observations ↦
            some (record { key = key; observations = clone_observations observations })
      ]

  -- `CanonicalResource.Observation`
  unfoldable pub observation : CanonicalResource → ContextProvenance → Option ResourceObservation
  observation resource provenance = elim (select provenance resource.observations none) [
    | none ↦ none
    | some o ↦ some (clone_observation env o)
  ]

  unfoldable pub observation_for_operation :
      CanonicalResource → ObservationProvenance → Option ResourceObservation
  observation_for_operation resource provenance =
      elim (lookup provenance_dec provenance resource.observations) [
        | none ↦ none
        | some o ↦ some (clone_observation env o)
      ]

  unfoldable pub observation_values : Observations → List ResourceObservation
  observation_values [] = []
  observation_values ((p, o) ∷ rest) = clone_observation env o ∷ observation_values rest

  -- `CanonicalResource.Observations`
  unfoldable pub observations : CanonicalResource → List ResourceObservation
  observations resource = observation_values (sort_observations resource.observations)

unfoldable pub observation_count : CanonicalResource → ℕ
observation_count resource = length resource.observations
