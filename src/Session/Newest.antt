-- ===== src/Session/Newest.antt =====
-- The times of the observations that `upsertObservationLocked` keeps.
-- internal/bb/awsbrowser/store.go.
use binbox_cli.Base.{
  ◌≡◌, ap, none, some, List, [], ◌∷◌, ite, arith, lookup, insert, lookup-insert, if◌then◌else◌,
  holds, max, ◌&&◌,
}
use binbox_cli.Identity.{Platform, ResourceKey}
use binbox_cli.Observation.{
  Time, ObservationProvenance, ResourceObservation, ObservedResource, stored_provenance,
  clone_observation,
}
use binbox_cli.Session.State.{SessionStore, resource_dec, provenance_dec}
use binbox_cli.Session.{Observations, observations_of, is_newest, upsert_observation, upsert_all}

-- The time of the observation under a provenance, 0 where there is none.
abbrev time_of : ObservationProvenance → Observations → Time
time_of p m = elim (lookup provenance_dec p m) [ none ↦ 0 | some o ↦ o.fetched_at ]

-- The time of the observation kept under a key and a provenance, 0 where there is none.
unfoldable pub kept_time : SessionStore → ResourceKey → ObservationProvenance → Time
kept_time store k p = time_of p (observations_of store k)

-- The newest time among those observations of a list that are of this key and provenance.
unfoldable pub newest_time :
    Platform → ResourceKey → ObservationProvenance → List ObservedResource → Time
newest_time env k p [] = 0
newest_time env k p (r ∷ rs) =
    max
      (if holds (resource_dec r.key k)
          && holds (provenance_dec (stored_provenance env r.observation) p)
        then r.observation.fetched_at
        else 0)
      (newest_time env k p rs)

observations-insert :
    (store : SessionStore) (k j : ResourceKey) (v : Observations)
    → observations_of (record store { resources = insert resource_dec k v store.resources }) j
      ≡ ite (resource_dec k j) v (observations_of store j)
unfolding observations_of
observations-insert store k j v = elim (resource_dec k j) [
  | yes e ↦ ground (arith, lookup-insert resource_dec k j v store.resources)
  | no e ↦ ground (arith, lookup-insert resource_dec k j v store.resources)
]

module _ (env : Platform) where
  pub observations-upsert :
      (store : SessionStore) (k j : ResourceKey) (o : ResourceObservation)
      → observations_of (upsert_observation store env k o) j
        ≡ ite
            (resource_dec k j)
            (if is_newest (observations_of store k) (stored_provenance env o) o
              then insert provenance_dec
                  (stored_provenance env o)
                  (clone_observation env o)
                  (observations_of store k)
              else observations_of store k)
            (observations_of store j)
  unfolding upsert_observation
  observations-upsert store k j o = observations-insert store k j _

  time_of-upsert :
      (m : Observations) (p : ObservationProvenance) (o : ResourceObservation)
      → time_of p (
          if is_newest m (stored_provenance env o) o
          then insert provenance_dec (stored_provenance env o) (clone_observation env o) m
          else m)
        ≡ max
            (if holds (provenance_dec (stored_provenance env o) p) then o.fetched_at else 0)
            (time_of p m)
  unfolding is_newest clone_observation
  time_of-upsert m p o = elim (provenance_dec (stored_provenance env o) p) [
    | yes e ↦ rw (← e) (
        ground (
          arith,
          lookup-insert provenance_dec (stored_provenance env o) (stored_provenance env o)
              (clone_observation env o) m,
        ))
    | no e ↦ ground (
      arith,
      lookup-insert provenance_dec (stored_provenance env o) p (clone_observation env o) m,
    )
  ]

  -- One upsert keeps the later of the two times.
  kept_time-upsert :
      (store : SessionStore) (k j : ResourceKey) (p : ObservationProvenance)
      (o : ResourceObservation)
      → kept_time (upsert_observation store env k o) j p
        ≡ max
            (if holds (resource_dec k j) && holds (provenance_dec (stored_provenance env o) p)
              then o.fetched_at
              else 0)
            (kept_time store j p)
  unfolding kept_time
  kept_time-upsert store k j p o = elim (resource_dec k j) [
    | yes e ↦ ground (
      arith,
      observations-upsert store k j o,
      time_of-upsert (observations_of store k) p o,
      ap (observations_of store) e,
    )
    | no e ↦ ground (arith, observations-upsert store k j o)
  ]

  -- After the observations of a list, each key and provenance has the time of a newest of them, or
  -- the time that it had if that is later: no observation is replaced by an older one.
  pub kept_time-upsert_all :
      (rs : List ObservedResource) (store : SessionStore) (k : ResourceKey)
      (p : ObservationProvenance)
      → kept_time (upsert_all store env rs) k p ≡ max (newest_time env k p rs) (kept_time store k p)
  unfolding upsert_all newest_time
  kept_time-upsert_all [] store k p = omega arith
  kept_time-upsert_all (r ∷ rs) store k p = omega (
    arith,
    kept_time-upsert_all rs (upsert_observation store env r.key r.observation) k p,
    kept_time-upsert store r.key k p r.observation,
  )
