-- ===== src/Tests/Coordinator.antt =====
-- The coordinator with concrete subscribers and sections.
use binbox_cli.Session.Invalidate.{invalidate_generation}
use binbox_cli.Base.{
  ℕ, ◌≡◌, ◌≢◌, inl, refl, true, false, none, some, List, [], ◌∷◌, ◌++◌, lookup, delete, keep,
  ℕ_discrete, Map, sym, ◌∙◌,
}
use binbox_cli.Errors.{context_changed}
use binbox_cli.Identity.{VerifiedIdentity}
use binbox_cli.Session.State.{new_session_store, query_dec, ready, in_order}
use binbox_cli.Session.Reads.{insert_page, sort_pages, values, sorted_pages, snapshot}
use binbox_cli.Coordinator.Channel.{
  Outcome, done, Ends, Ends-done, Subscriber, send, drain, close, deliver, publish,
  close_subscriber, close_all, new_subscriber,
}
use binbox_cli.Coordinator.{
  executing, finishing, stopped, failing, QueryFlight, QueryUpdate, QuerySink, new_flight,
  QueryCoordinator, lineage_dec, latest_of, publish_flight, retire, add_subscriber, is_older,
  retire_older, forgotten, immediate_subscription, can_commit, join_flight, start_flight,
  subscribers_of,
}
use binbox_cli.Coordinator.Subscribe.{
  cached_update, renew_lineage, open_flight, subscribe_locked, abandon, unsubscribe,
}
use binbox_cli.Coordinator.Flight.{
  executed, snapshot_or, can_refresh, try_refresh, ensure_begun, acquire, give_up, sink_complete,
  begin, page_committed, store_page, sink_page, complete, conclude,
}
use binbox_cli.Coordinator.Finish.{
  is_context_change, last_update, release, store_failure, invalidate_registry, record_failure, fail,
  finish,
}
use binbox_cli.Coordinator.Run.{
  Event, subscribes, unsubscribes, reads, moves, acquires, begins, pages, reports, returns,
  completes, concludes, finishes, fails, drained, drained_in, move_in, move, step, run,
  empty_coordinator,
}
use binbox_cli.Coordinator.Invariant.{IsCoordinated}
use binbox_cli.Coordinator.Safety.{run_safe, single_flight}
use binbox_cli.Coordinator.Fence.{fenced}
use binbox_cli.Coordinator.Delivery.{finish_delivers, closed_with}
use binbox_cli.Coordinator.Settles.{executed_flight_stops}
use binbox_cli.Tests.Data.{platform, instances, page_one}
use binbox_cli.Tests.Store.{store_program}

abbrev pub start : QueryCoordinator VerifiedIdentity
start = empty_coordinator new_session_store none 2

unfoldable pub run_program : Unit {0}
unfolding store_program invalidate_generation insert_page sort_pages values sorted_pages snapshot
    send drain close deliver publish close_subscriber close_all lineage_dec latest_of publish_flight
    retire add_subscriber is_older retire_older forgotten immediate_subscription can_commit
    join_flight start_flight cached_update renew_lineage open_flight subscribe_locked abandon
    unsubscribe executed snapshot_or can_refresh try_refresh ensure_begun acquire give_up
    sink_complete begin page_committed store_page sink_page complete conclude is_context_change
    last_update release store_failure invalidate_registry record_failure fail finish drained
    drained_in move_in step run delete keep
run_program = tt

abbrev reached : Outcome (QueryCoordinator VerifiedIdentity) → QueryCoordinator VerifiedIdentity
reached (done c) = c
reached Outcome.panicked = start
reached Outcome.blocked = start

abbrev flight_zero : QueryCoordinator VerifiedIdentity → QueryFlight
unfolding run_program
flight_zero c = elim (lookup ℕ_discrete 0 c.heap) [ none ↦ new_flight instances false | some f ↦ f ]

-- Two readers of one query, whose executor delivers a page and reports a completion.
abbrev loading_events : List Event
loading_events =
    subscribes instances false
    ∷ subscribes instances false
    ∷ moves 0 acquires
    ∷ moves 0 begins
    ∷ reads 0 1
    ∷ moves 0 (pages page_one)
    ∷ moves 0 (reports 5)
    ∷ []

abbrev ending_events : List Event
ending_events = moves 0 (returns none) ∷ moves 0 (completes in_order) ∷ moves 0 concludes ∷ []

run_safe_example :
    Ends
      (IsCoordinated platform)
      (run platform start (loading_events ++ ending_events ++ moves 0 finishes ∷ []))
run_safe_example =
    run_safe platform none 2 (loading_events ++ ending_events ++ moves 0 finishes ∷ [])

abbrev loading : QueryCoordinator VerifiedIdentity
unfolding run_program
loading = reached (run platform start loading_events)

loading_runs : run platform start loading_events ≡ done loading
unfolding run_program
loading_runs = refl

loading-IsCoordinated : IsCoordinated platform loading
loading-IsCoordinated = Ends-done (run_safe platform none 2 loading_events) loading loading_runs

abbrev reported : QuerySink
reported = record { terminal = 1; fetched_at = 5; protocol_err = none }

loading_there : lookup ℕ_discrete 0 loading.heap ≡ some (flight_zero loading)
unfolding run_program
loading_there = refl

loading_live : (flight_zero loading).retired ≡ false
unfolding run_program
loading_live = refl

loading_phase : (flight_zero loading).phase ≡ executing
unfolding run_program
loading_phase = refl

loading_sink : (flight_zero loading).sink ≡ some reported
unfolding run_program
loading_sink = refl

executed_flight_stops_example :
    Ends
      (λ c'. (g : QueryFlight) × (lookup ℕ_discrete 0 c'.heap ≡ some g) × (g.phase ≡ stopped))
      (run platform loading (
        moves 0 (returns none)
        ∷ moves 0 (completes in_order)
        ∷ moves 0 (fails 9)
        ∷ moves 0 concludes
        ∷ moves 0 finishes
        ∷ []))
executed_flight_stops_example =
    executed_flight_stops platform loading 0 (flight_zero loading) reported none in_order 9
      loading-IsCoordinated loading_there loading_phase loading_sink

-- Behind the last snapshot, before `finish`.
abbrev ending : QueryCoordinator VerifiedIdentity
unfolding run_program
ending = reached (run platform start (loading_events ++ ending_events))

ending_runs : run platform start (loading_events ++ ending_events) ≡ done ending
unfolding run_program
ending_runs = refl

ending-IsCoordinated : IsCoordinated platform ending
ending-IsCoordinated =
    Ends-done (run_safe platform none 2 (loading_events ++ ending_events)) ending ending_runs

ending_there : lookup ℕ_discrete 0 ending.heap ≡ some (flight_zero ending)
unfolding run_program
ending_there = refl

abbrev last_shown : QueryUpdate
last_shown = record {
  key = instances;
  snapshot = record {
    state = ready;
    fetched_at = 5;
    refresh_failure = none;
    pages = page_one ∷ [];
  };
  failure = none;
}

ending_phase : (flight_zero ending).phase ≡ finishing true last_shown
unfolding run_program
ending_phase = refl

abbrev readers : Map ℕ (Subscriber QueryUpdate)
unfolding run_program
readers = subscribers_of (flight_zero ending)

abbrev first_reader : Subscriber QueryUpdate
unfolding run_program
first_reader = elim (lookup ℕ_discrete 1 readers) [ none ↦ new_subscriber | some s ↦ s ]

readers_there : (flight_zero ending).subscribers ≡ some readers
unfolding run_program
readers_there = refl

ending_live : (flight_zero ending).retired ≡ false
unfolding run_program
ending_live = refl

first_reader_there : lookup ℕ_discrete 1 readers ≡ some first_reader
unfolding run_program
first_reader_there = refl

finish_delivers_example :
    Ends
      (λ c'.
        ((g : QueryFlight) × (lookup ℕ_discrete 0 c'.heap ≡ some g)
          × (g.phase ≡ stopped)
          × (lookup ℕ_discrete 1 g.left ≡ some (closed_with last_shown)))
        × (lookup query_dec (flight_zero ending).key c'.flights ≢ some 0))
      (finish platform ending 0 (flight_zero ending) true last_shown)
finish_delivers_example =
    finish_delivers platform ending 0 (flight_zero ending) ending-IsCoordinated ending_there true
      last_shown readers 1 first_reader ending_phase ending_live readers_there first_reader_there

-- Both readers left while the executor still runs.
abbrev abandoned_events : List Event
abandoned_events = loading_events ++ unsubscribes 0 1 6 ∷ unsubscribes 0 2 7 ∷ []

abbrev abandoned : QueryCoordinator VerifiedIdentity
unfolding run_program
abandoned = reached (run platform start abandoned_events)

abandoned_runs : run platform start abandoned_events ≡ done abandoned
unfolding run_program
abandoned_runs = refl

abandoned_there : lookup ℕ_discrete 0 abandoned.heap ≡ some (flight_zero abandoned)
unfolding run_program
abandoned_there = refl

abandoned_retired : (flight_zero abandoned).retired ≡ true
unfolding run_program
abandoned_retired = refl

abandoned_phase : (flight_zero abandoned).phase ≡ executing
unfolding run_program
abandoned_phase = refl

fenced_example :
    Ends
      (λ c'. c'.store ≡ abandoned.store)
      (move platform abandoned 0 (flight_zero abandoned) (pages page_one))
fenced_example =
    fenced platform abandoned 0 (flight_zero abandoned) (pages page_one)
      (Ends-done (run_safe platform none 2 abandoned_events) abandoned abandoned_runs)
      abandoned_there (inl abandoned_retired) (λ e. still_running (sym abandoned_phase ∙ e))
  where
    still_running : executing ≡ failing context_changed → ⊥
    still_running e = absurd (cc e)

single_flight_example : ◌≡◌ {A = ℕ} 0 0
single_flight_example =
    single_flight platform none 2 loading_events loading 0 0 (flight_zero loading)
      (flight_zero loading) loading_runs loading_there loading_there loading_live loading_live refl
