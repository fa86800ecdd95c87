-- ===== src/Coordinator/Subscribe.antt =====
-- Subscribing and unsubscribing. internal/bb/awsbrowser/query.go.
use binbox_cli.Base.{
  ℕ, Bool, true, false, not, ◌&&◌, Option, none, some, ltb, ◌==◌, if◌then◌else◌, ℕ_discrete, lookup,
  insert, delete, keep, length,
}
use binbox_cli.Errors.{Result, ok, err, context_canceled}
use binbox_cli.Identity.{Platform, QueryKey}
use binbox_cli.Identity.Keys.{validate_query_key}
use binbox_cli.Observation.{Time, utc}
use binbox_cli.Session.{fail_query}
use binbox_cli.Session.State.{LoadState, query_dec}
use binbox_cli.Session.Reads.{snapshot}
use binbox_cli.Session.Invalidate.{invalidate_generation}
use binbox_cli.Failure.{sanitized_provider_failure, cache_terminal}
use binbox_cli.Coordinator.Channel.{Outcome, done, ◌>>=◌, close_subscriber}
use binbox_cli.Coordinator.{
  QueryUpdate, QueryFlight, QueryCoordinator, Subscription, immediate_subscription, latest_of,
  lineage_dec, lineage_for, is_older, retire_older, set_flight, forget, join_flight, start_flight,
  state_update,
}

module _ {R : Type 0} (env : Platform) where
  -- The part of `subscribe` without the lock, which changes nothing: an update from the store.
  unfoldable pub cached_update : QueryCoordinator R → QueryKey → Option QueryUpdate
  cached_update c key =
      let (found, cached) = snapshot env c.store key in
      elim found [
        | none ↦ none
        | some shown ↦
            if cached && cache_terminal shown.state
            then some
                (record { key = key; snapshot = shown; failure = lookup query_dec key c.failures })
            else none
      ]

  -- `subscribe` for a newer generation: older results, flights and failures of the lineage go.
  unfoldable pub renew_lineage : QueryCoordinator R → QueryKey → Outcome (QueryCoordinator R)
  renew_lineage c key = retire_older key c.flights c.heap >>= λ heap. done (record c {
    latest = insert lineage_dec (lineage_for key) key.context.credential_gen c.latest;
    store = (invalidate_generation env c.store key.context).0;
    heap = heap;
    flights = keep (is_older key) c.flights;
    failures = keep (is_older key) c.failures;
  })

  unfoldable pub open_flight :
      QueryCoordinator R → QueryKey → Bool → Outcome (QueryCoordinator R × Subscription)
  open_flight c key refresh =
      let generation = latest_of c.latest (lineage_for key) in
      elim (ltb generation key.context.credential_gen) [
        | true ↦ renew_lineage c key >>= λ c. start_flight c key refresh
        | false ↦ elim (ltb key.context.credential_gen generation) [
          | true ↦ immediate_subscription (state_update key LoadState.cancelled) >>= λ subscription.
              done (c, subscription)
          | false ↦ start_flight c key refresh
        ]
      ]

  -- The part of `subscribe` under the lock.
  unfoldable pub subscribe_locked :
      QueryCoordinator R → QueryKey → Bool → Outcome (QueryCoordinator R × Subscription)
  subscribe_locked c key refresh = elim (lookup query_dec key c.flights) [
    | none ↦ open_flight c key refresh
    | some id ↦ elim (lookup ℕ_discrete id c.heap) [
      | none ↦ open_flight c key refresh
      | some flight ↦ elim flight.retired [
        | true ↦ open_flight c key refresh
        | false ↦ join_flight c id flight
      ]
    ]
  ]

  -- `subscribe` where nothing happens between its two parts.
  unfoldable pub subscribe :
      QueryCoordinator R → QueryKey → Bool → Outcome (QueryCoordinator R × Result Subscription)
  subscribe c key refresh = elim (validate_query_key env key) [
    | some e ↦ done (c, err e)
    | none ↦ elim (if refresh then none else cached_update c key) [
      | some update ↦ immediate_subscription update >>= λ subscription. done (c, ok subscription)
      | none ↦ subscribe_locked c key refresh >>= λ r. done (r.0, ok r.1)
    ]
  ]

  -- The end of `unsubscribe` for the last subscriber, at a time. The code cancels the flight after
  -- Unlock; `canceled` only permits `give_up`, which may come at any time later.
  unfoldable pub abandon : QueryCoordinator R → ℕ → QueryFlight → Time → QueryCoordinator R
  abandon c id flight now =
      let c =
        forget (set_flight c id (record flight { retired = true; canceled = true })) id
          flight.key in
      if flight.began_store
      then record c {
        store = (fail_query env c.store flight.key LoadState.cancelled (utc now)).0;
        failures =
            insert query_dec flight.key
              (sanitized_provider_failure context_canceled flight.key flight.partial_pages).0
              c.failures;
      }
      else c

  unfoldable pub unsubscribe : QueryCoordinator R → ℕ → ℕ → Time → Outcome (QueryCoordinator R)
  unsubscribe c id sub now = elim (lookup ℕ_discrete id c.heap) [
    | none ↦ done c
    | some flight ↦ elim flight.subscribers [
      | none ↦ done c
      | some m ↦ elim (lookup ℕ_discrete sub m) [
        | none ↦ done c
        | some subscriber ↦ close_subscriber subscriber >>= λ closed.
            let rest = delete ℕ_discrete sub m in
            let flight = record flight {
              subscribers = some rest;
              left = insert ℕ_discrete sub closed flight.left;
            } in
            done (
              if length rest == 0 && not flight.retired
              then abandon c id flight now
              else set_flight c id flight)
      ]
    ]
  ]
