-- ===== src/Coordinator/Flight.antt =====
-- The sections of `run`, of the sink, and of `complete`, `fail` and `finish`.
-- internal/bb/awsbrowser/query.go.
use binbox_cli.Base.{
  ℕ, ◌+◌, Bool, true, false, not, ◌&&◌, ◌||◌, Option, none, some, ltb, ◌==◌, if◌then◌else◌, delete,
}
use binbox_cli.Errors.{Error, context_canceled, invalid_query_result, incomplete_page}
use binbox_cli.Identity.{Platform, QueryKey, is_none}
use binbox_cli.Observation.{Time, is_zero, utc, QueryPage}
use binbox_cli.Session.{
  Run, returned, begin_load, begin_refresh, commit_page, complete_query, validate_all_observed,
}
use binbox_cli.Session.State.{LoadState, SessionStore, query_dec, PageOrder}
use binbox_cli.Session.Reads.{QuerySnapshot, snapshot}
use binbox_cli.Coordinator.Channel.{Outcome, done, ◌>>=◌}
use binbox_cli.Coordinator.{
  QueryUpdate, QuerySink, new_sink, Phase, holding, executing, completing, failing, completed,
  finishing, QueryFlight, QueryCoordinator, publish_flight, set_flight, can_commit, state_update,
  snapshot_of_state,
}

abbrev pub at_phase : QueryFlight → Phase → QueryFlight
at_phase flight phase = record flight { phase = phase }

-- The error of the sink, which it keeps.
abbrev pub with_error : QueryFlight → QuerySink → Error → QueryFlight
with_error flight sink e = record flight { sink = some (record sink { protocol_err = some e }) }

abbrev shows_complete : LoadState → Bool
shows_complete LoadState.ready = true
shows_complete LoadState.empty = true
shows_complete LoadState.stale = true
shows_complete _ = false

-- The executor returned: what `run` does next.
unfoldable pub executed : QuerySink → Option Error → Phase
executed sink (some e) = failing e
executed sink none =
    if not (is_none sink.protocol_err) || not (sink.terminal == 1)
    then failing invalid_query_result
    else completing sink.fetched_at

module _ (env : Platform) where
  unfoldable pub snapshot_or : SessionStore → QueryKey → LoadState → QuerySnapshot
  snapshot_or store key fallback =
      let (found, cached) = snapshot env store key in
      elim found [
        | none ↦ snapshot_of_state fallback
        | some shown ↦ if cached then shown else snapshot_of_state fallback
      ]

  -- The store has a complete result to refresh.
  unfoldable pub can_refresh : SessionStore → QueryKey → Bool
  can_refresh store key =
      let (found, cached) = snapshot env store key in
      elim found [ none ↦ false | some shown ↦ cached && shows_complete shown.state ]

  -- The flight and the store after the attempt to refresh.
  unfoldable pub try_refresh : SessionStore → QueryFlight → QueryFlight × SessionStore
  try_refresh store flight =
      if flight.refresh && can_refresh store flight.key
      then (let (store, e) = begin_refresh env store flight.key in
          (if is_none e then record flight { began_store = true } else flight, store))
      else (flight, store)

  -- The store with a load of the flight's query under way, or the error of `BeginLoad`.
  unfoldable pub ensure_begun : SessionStore → QueryFlight → SessionStore × Option Error
  ensure_begun store flight =
      if flight.began_store then (store, none) else begin_load env store flight.key

module _ {R : Type 0} where
  -- A send to `limit` that does not wait.
  unfoldable pub acquire : QueryCoordinator R → ℕ → QueryFlight → Outcome (QueryCoordinator R)
  acquire c id flight =
      if ltb c.slots c.max_concurrent
      then done (record (set_flight c id (at_phase flight holding)) { slots = c.slots + 1 })
      else done c

  -- The other branch of the first `select`.
  unfoldable pub give_up : QueryCoordinator R → ℕ → QueryFlight → Outcome (QueryCoordinator R)
  give_up c id flight =
      if flight.canceled
      then done (
          set_flight c id
            (at_phase flight (finishing false (state_update flight.key LoadState.cancelled))))
      else done c

  -- `querySink.Complete`
  unfoldable pub sink_complete :
      QueryCoordinator R → ℕ → QueryFlight → QuerySink → Time → Outcome (QueryCoordinator R)
  sink_complete c id flight sink fetched_at = elim sink.protocol_err [
    | some e ↦ done c
    | none ↦
        if not (sink.terminal == 0) || (is_zero fetched_at || not (can_commit c id flight))
        then done (set_flight c id (with_error flight sink invalid_query_result))
        else done (
            set_flight c id (record flight {
              sink = some (record sink { terminal = 1; fetched_at = utc fetched_at });
            }))
  ]

module _ {R : Type 0} (env : Platform) where
  -- The first section of `run`.
  unfoldable pub begin : QueryCoordinator R → ℕ → QueryFlight → Outcome (QueryCoordinator R)
  begin c id flight = elim (can_commit c id flight) [
    | false ↦ done (
        set_flight c id
          (at_phase flight (finishing true (state_update flight.key LoadState.cancelled))))
    | true ↦
        let (flight, store) = try_refresh env c.store flight in
        let fallback =
          if flight.began_store && flight.refresh
          then LoadState.refreshing
          else LoadState.loading in
        let update : QueryUpdate = record {
          key = flight.key;
          snapshot = snapshot_or env store flight.key fallback;
          failure = none;
        } in
        publish_flight update flight >>= λ flight. done (
          set_flight (record c { store = store }) id
            (record flight { sink = some new_sink; phase = executing }))
  ]

  -- The end of `querySink.Page`, where the page is committed.
  unfoldable pub page_committed :
      QueryCoordinator R → ℕ → QueryFlight → SessionStore → Outcome (QueryCoordinator R)
  page_committed c id flight store =
      let flight = record flight { partial_pages = flight.partial_pages + 1 } in
      let update : QueryUpdate = record {
        key = flight.key;
        snapshot = snapshot_or env store flight.key LoadState.loading;
        failure = none;
      } in
      publish_flight update flight >>= λ flight.
      done (set_flight (record c { store = store }) id flight)

  -- The part of `querySink.Page` that reaches the store.
  unfoldable pub store_page :
      QueryCoordinator R → ℕ → QueryFlight → QuerySink → QueryPage → Outcome (QueryCoordinator R)
  store_page c id flight sink page =
      let (store, e) = ensure_begun env c.store flight in
      elim e [
        | some e ↦ done (set_flight (record c { store = store }) id (with_error flight sink e))
        | none ↦
            let flight = record flight { began_store = true } in
            elim (commit_page env store flight.key page) [
              | Run.panicked ↦ Outcome.panicked
              | returned (store, some e) ↦
                  done (set_flight (record c { store = store }) id (with_error flight sink e))
              | returned (store, none) ↦ page_committed c id flight store
            ]
      ]

  -- `querySink.Page`; its reply is the error that the sink then holds.
  unfoldable pub sink_page :
      QueryCoordinator R → ℕ → QueryFlight → QuerySink → QueryPage → Outcome (QueryCoordinator R)
  sink_page c id flight sink page = elim sink.protocol_err [
    | some e ↦ done c
    | none ↦ elim (not (sink.terminal == 0) || not (can_commit c id flight)) [
      | true ↦ done (set_flight c id (with_error flight sink invalid_query_result))
      | false ↦
          elim (not page.complete
            || (is_zero page.fetched_at
                || not (is_none (validate_all_observed env flight.key.context page.resources)))) [
                  | true ↦ done (set_flight c id (with_error flight sink incomplete_page))
                  | false ↦ store_page c id flight sink page
                ]
    ]
  ]

  -- `complete`
  unfoldable pub complete :
      PageOrder → QueryCoordinator R → ℕ → QueryFlight → Time → Outcome (QueryCoordinator R)
  complete order c id flight fetched_at = elim (can_commit c id flight) [
    | false ↦ done (set_flight c id (at_phase flight (failing context_canceled)))
    | true ↦
        let (store, e) = ensure_begun env c.store flight in
        elim e [
          | some e ↦ done (set_flight (record c { store = store }) id (at_phase flight (failing e)))
          | none ↦
              let flight = record flight { began_store = true } in
              let (store, e) = complete_query env order store flight.key fetched_at in
              elim e [
                | some e ↦
                    done (set_flight (record c { store = store }) id (at_phase flight (failing e)))
                | none ↦ done (
                    set_flight
                      (record c {
                        store = store;
                        failures = delete query_dec flight.key c.failures;
                      })
                      id (at_phase flight completed))
              ]
        ]
  ]

  -- The last snapshot of `run`.
  unfoldable pub conclude : QueryCoordinator R → ℕ → QueryFlight → Outcome (QueryCoordinator R)
  conclude c id flight =
      let found = (snapshot env c.store flight.key).0 in
      let shown : QuerySnapshot = elim found [
        | none ↦ snapshot_of_state LoadState.not_loaded
        | some s ↦ s
      ] in
      done (
        set_flight c id (
          at_phase flight
            (finishing true (record { key = flight.key; snapshot = shown; failure = none }))))
