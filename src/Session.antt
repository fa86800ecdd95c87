-- ===== src/Session.antt =====
-- `SessionStore`: the query cache and the observations of resources.
-- internal/bb/awsbrowser/store.go. A method runs under the store's lock, so it is one function from
-- the store to the new store and its result; an entry of `queries` is reached only through the
-- map, so the pointer is its value.
pub mod State
pub mod Entries
pub mod Commit
pub mod Finish
pub mod Refresh
pub mod Newest
pub mod Merge
pub mod Invalidate
pub mod Trace
pub mod Reads
use binbox_cli.Base.{
  ℕ, ◌+◌, ◌≡◌, refl, Bool, true, false, not, ◌&&◌, ◌||◌, Option, none, some, List, [], ◌∷◌, ltb,
  ◌==◌, if◌then◌else◌, holds, length, ℕ_discrete, Map, lookup, insert, keep, dropped,
}
use binbox_cli.Errors.{
  Error, Result, ok, err, incomplete_page, invalid_load_state, invalid_load_transition,
  observation_scope,
}
use binbox_cli.Text.{Text, ◌=?◌}
use binbox_cli.Identity.{
  Platform, AwsContext, ContextProvenance, ResourceKey, QueryKey, global_region, is_none,
  context_provenance, validate_context, validate_resource_key, is_partition, is_account_id,
}
use binbox_cli.Identity.Keys.{validate_query_key}
use binbox_cli.Observation.{
  Time, is_zero, utc, ObservationProvenance, ResourceObservation, ObservedResource, QueryPage,
  stored_provenance, clone_observation, clone_page, validate_complete,
}
use State.{
  LoadState, not_loaded, queued, loading, refreshing, ready, empty, stale, is_failure, is_busy,
  is_complete_state, RefreshFailure, QueryEntry, SessionStore, query_dec, resource_dec,
  provenance_dec, context_dec, context_provenance_dec, fresh_load, refresh_of, entry_locked,
  set_entry, query_resource_count, PageOrder,
}

-- A method that may write to a nil map, which panics.
pub data Run {ℓ} (A : Type ℓ) : Type ℓ where
  returned : A → Run A
  panicked : Run A

abbrev pub Reply : Type 0
Reply = SessionStore × Option Error

abbrev pub Observations : Type 0
Observations = Map ObservationProvenance ResourceObservation

-- `store.resources[key]`, where a missing map reads as an empty one.
unfoldable pub observations_of : SessionStore → ResourceKey → Observations
observations_of store key = elim (lookup resource_dec key store.resources) [
  | none ↦ []
  | some m ↦ m
]

-- No observation of this provenance is newer.
unfoldable pub is_newest : Observations → ObservationProvenance → ResourceObservation → Bool
is_newest observations provenance o = elim (lookup provenance_dec provenance observations) [
  | none ↦ true
  | some existing ↦ not (ltb o.fetched_at existing.fetched_at)
]

unfoldable pub upsert_observation :
    SessionStore → Platform → ResourceKey → ResourceObservation → SessionStore
upsert_observation store env key o =
    let provenance = stored_provenance env o in
    let observations = observations_of store key in
    record store {
      resources =
          insert resource_dec key
            (if is_newest observations provenance o
              then insert provenance_dec provenance (clone_observation env o) observations
              else observations)
            store.resources;
    }

unfoldable pub upsert_all : SessionStore → Platform → List ObservedResource → SessionStore
upsert_all store env [] = store
upsert_all store env (r ∷ rs) = upsert_all (upsert_observation store env r.key r.observation) env rs

unfoldable pub upsert_pages : SessionStore → Platform → Map ℕ QueryPage → SessionStore
upsert_pages store env [] = store
upsert_pages store env ((n, page) ∷ pages) =
    upsert_pages (upsert_all store env page.resources) env pages

abbrev pub staged_of : QueryEntry → Map ℕ QueryPage
staged_of entry = elim entry.staged_pages [ none ↦ [] | some staged ↦ staged ]

abbrev pub completed : QueryEntry → Time → QueryEntry
completed entry fetched_at = record entry {
  fetched_at = fetched_at;
  refresh_failure = none;
  state = if query_resource_count entry.pages == 0 then empty else ready;
}

abbrev pub failed : QueryEntry → LoadState → QueryEntry
failed entry state = record entry { state = state; staged_pages = none; refresh_failure = none }

-- The test of `validateObservedResource` and of `StoreObservation` on a key and a context.
unfoldable pub in_scope : ResourceKey → AwsContext → Bool
in_scope key c =
    key.partition =? c.partition
    && (key.account_id =? c.account_id && (key.region =? global_region || key.region =? c.region))

module _ (env : Platform) where
  unfoldable pub validate_observed : AwsContext → ObservedResource → Option Error
  validate_observed c r = elim (validate_resource_key r.key) [
    | some e ↦ some e
    | none ↦ elim (validate_complete env r.observation) [
      | some e ↦ some e
      | none ↦
          if not (holds (context_dec r.observation.context c)) || not (in_scope r.key c)
          then some observation_scope
          else none
    ]
  ]

  -- The loop of `CommitPage`: the first error.
  unfoldable pub validate_all_observed : AwsContext → List ObservedResource → Option Error
  validate_all_observed c [] = none
  validate_all_observed c (r ∷ rs) =
      let rest = validate_all_observed c rs in
      elim (validate_observed c r) [ some e ↦ some e | none ↦ rest ]

  unfoldable pub queue : SessionStore → QueryKey → Reply
  queue store key = elim (validate_query_key env key) [
    | some e ↦ (store, some e)
    | none ↦
        let (entry, store) = entry_locked store key in
        if is_busy entry.state
        then (store, some invalid_load_transition)
        else (set_entry store key (record entry { state = queued; refresh_failure = none }), none)
  ]

  unfoldable pub begin_load : SessionStore → QueryKey → Reply
  begin_load store key = elim (validate_query_key env key) [
    | some e ↦ (store, some e)
    | none ↦
        let (entry, store) = entry_locked store key in
        if is_busy entry.state
        then (store, some invalid_load_transition)
        else (set_entry store key fresh_load, none)
  ]

  unfoldable pub begin_refresh : SessionStore → QueryKey → Reply
  begin_refresh store key = elim (validate_query_key env key) [
    | some e ↦ (store, some e)
    | none ↦
        let (entry, store) = entry_locked store key in
        if is_busy entry.state
        then (store, some invalid_load_transition)
        else if is_zero entry.fetched_at || not (is_complete_state entry.state)
        then (set_entry store key fresh_load, none)
        else (set_entry store key (refresh_of entry), none)
  ]

  -- The part of `CommitPage` under the lock, on the entry.
  unfoldable pub commit_to : SessionStore → QueryKey → QueryPage → QueryEntry → Run Reply
  commit_to store key page entry = elim entry.state [
    | refreshing ↦ elim entry.staged_pages [
      | none ↦ panicked
      | some staged ↦ returned (
        set_entry store key
            (record entry { staged_pages = some (insert ℕ_discrete page.number page staged) }),
        none,
      )
    ]
    | loading ↦ returned (
      upsert_all
          (set_entry store key
            (record entry { pages = insert ℕ_discrete page.number page entry.pages }))
          env page.resources,
      none,
    )
    | _ ↦ returned (store, some invalid_load_transition)
  ]

  unfoldable pub commit_page : SessionStore → QueryKey → QueryPage → Run Reply
  commit_page store key page = elim (validate_query_key env key) [
    | some e ↦ returned (store, some e)
    | none ↦
        if not page.complete || is_zero page.fetched_at
        then returned (store, some incomplete_page)
        else elim (validate_all_observed key.context page.resources) [
          | some e ↦ returned (store, some e)
          | none ↦ elim (lookup query_dec key store.queries) [
            | none ↦ returned (store, some invalid_load_transition)
            | some entry ↦ commit_to store key (clone_page env page) entry
          ]
        ]
  ]

  -- The part of `CompleteQuery` under the lock, on the entry. `order` is the order in which the
  -- loop visits the pages.
  unfoldable pub complete_entry : PageOrder → SessionStore → QueryKey → Time → QueryEntry → Reply
  complete_entry order store key fetched_at entry = elim entry.state [
    | refreshing ↦
        let pages = staged_of entry in
        let entry = record entry { pages = pages; staged_pages = none } in
        (
          set_entry (upsert_pages store env (order.visit pages)) key
              (completed entry (utc fetched_at)),
          none,
        )
    | loading ↦ (set_entry store key (completed entry (utc fetched_at)), none)
    | _ ↦ (store, some invalid_load_transition)
  ]

  unfoldable pub complete_query : PageOrder → SessionStore → QueryKey → Time → Reply
  complete_query order store key fetched_at = elim (validate_query_key env key) [
    | some e ↦ (store, some e)
    | none ↦
        if is_zero fetched_at
        then (store, some invalid_load_transition)
        else elim (lookup query_dec key store.queries) [
          | none ↦ (store, some invalid_load_transition)
          | some entry ↦ complete_entry order store key fetched_at entry
        ]
  ]

  -- The part of `FailQuery` under the lock, on the entry.
  unfoldable pub fail_entry : SessionStore → QueryKey → LoadState → Time → QueryEntry → Reply
  fail_entry store key state observed_at entry = elim entry.state [
    | refreshing ↦ (
      set_entry store key (record entry {
        state = stale;
        staged_pages = none;
        refresh_failure = some (record { state = state; observed_at = utc observed_at });
      }),
      none,
    )
    | loading ↦ (set_entry store key (failed entry state), none)
    | queued ↦ (set_entry store key (failed entry state), none)
    | _ ↦ (store, some invalid_load_transition)
  ]

  unfoldable pub fail_query : SessionStore → QueryKey → LoadState → Time → Reply
  fail_query store key state observed_at = elim (validate_query_key env key) [
    | some e ↦ (store, some e)
    | none ↦
        if not (is_failure state) || is_zero observed_at
        then (store, some invalid_load_state)
        else elim (lookup query_dec key store.queries) [
          | none ↦ (store, some invalid_load_transition)
          | some entry ↦ fail_entry store key state observed_at entry
        ]
  ]

  unfoldable pub store_observation : SessionStore → ResourceKey → ResourceObservation → Reply
  store_observation store key observation = elim (validate_resource_key key) [
    | some e ↦ (store, some e)
    | none ↦ elim (validate_complete env observation) [
      | some e ↦ (store, some e)
      | none ↦
          if not (in_scope key observation.context)
          then (store, some observation_scope)
          else (upsert_observation store env key (clone_observation env observation), none)
    ]
  ]
