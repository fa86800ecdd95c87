-- ===== src/Coordinator/Finish.antt =====
-- `fail` and `finish`: how a flight ends. internal/bb/awsbrowser/query.go.
use binbox_cli.Base.{
  ℕ, ◌-◌, Bool, true, false, ◌||◌, Option, none, some, ◌==◌, if◌then◌else◌, insert, delete, ◌++◌,
}
use binbox_cli.Errors.{Error, context_changed}
use binbox_cli.Identity.{Platform, QueryKey, is_none}
use binbox_cli.Observation.{Time, utc}
use binbox_cli.Session.{fail_query, queue}
use binbox_cli.Session.State.{SessionStore, query_dec}
use binbox_cli.Session.Invalidate.{invalidate_context}
use binbox_cli.Registry
use binbox_cli.Registry.{ContextRegistry}
use binbox_cli.Failure.{ProviderFailure, sanitized_provider_failure}
use binbox_cli.Coordinator.Channel.{Outcome, done, ◌>>=◌, close_all}
use binbox_cli.Coordinator.{
  QueryUpdate, finishing, stopped, QueryFlight, QueryCoordinator, publish_flight, set_flight,
  forget, can_commit, subscribers_of, context_spec_for,
}
use binbox_cli.Coordinator.Flight.{at_phase, snapshot_or}

unfoldable pub is_context_change : Error → Bool
is_context_change context_changed = true
is_context_change _ = false

-- The first part of `finish`, where the flight is not retired.
unfoldable pub last_update : QueryUpdate → QueryFlight → Outcome QueryFlight
last_update update flight = elim flight.retired [
  | true ↦ done flight
  | false ↦ publish_flight update (record flight { retired = true })
]

-- The receive from `limit` behind a flight that holds a slot.
unfoldable pub release : Bool → ℕ → Outcome ℕ
release false slots = done slots
release true slots = if slots == 0 then Outcome.blocked else done (slots - 1)

module _ (env : Platform) where
  -- The store of `fail` in a flight that can commit, at a time.
  unfoldable pub store_failure :
      SessionStore → QueryFlight → ProviderFailure → Bool → Time → SessionStore
  store_failure store flight failure cache now =
      if flight.began_store
      then (fail_query env store flight.key failure.state (utc now)).0
      else if cache
      then (let (store, e) = queue env store flight.key in
          if is_none e then (fail_query env store flight.key failure.state (utc now)).0 else store)
      else store

module _ {R : Type 0} (env : Platform) where
  -- `registry.Invalidate` for a changed context.
  unfoldable pub invalidate_registry :
      Option (ContextRegistry R) → QueryKey → Option (ContextRegistry R)
  invalidate_registry none key = none
  invalidate_registry (some registry) key =
      some (Registry.invalidate registry (context_spec_for key.context) context_changed).1

  -- The section of `fail`, before the last snapshot.
  unfoldable pub record_failure :
      QueryCoordinator R → ℕ → QueryFlight → Error → Time → QueryFlight × QueryCoordinator R
  record_failure c id flight e now =
      let (failure, cache) = sanitized_provider_failure e flight.key flight.partial_pages in
      if is_context_change e
      then (
        record flight { began_store = false },
        record c {
          registry = invalidate_registry c.registry flight.key;
          store = (invalidate_context env c.store flight.key.context).0;
          failures = delete query_dec flight.key c.failures;
        },
      )
      else if can_commit c id flight
      then (
        flight,
        record c {
          store = store_failure env c.store flight failure cache now;
          failures =
              if flight.began_store || cache
              then insert query_dec flight.key failure c.failures
              else c.failures;
        },
      )
      else (flight, c)

  -- `fail`, up to `finish`.
  unfoldable pub fail :
      QueryCoordinator R → ℕ → QueryFlight → Error → Time → Outcome (QueryCoordinator R)
  fail c id flight e now =
      let failure = (sanitized_provider_failure e flight.key flight.partial_pages).0 in
      let (flight, c) = record_failure c id flight e now in
      let update : QueryUpdate = record {
        key = flight.key;
        snapshot = snapshot_or env c.store flight.key failure.state;
        failure = some failure;
      } in
      done (set_flight c id (at_phase flight (finishing true update)))

  -- `finish`, and the end of `run`, which gives a slot back. The code cancels the flight and gives the
  -- slot back after Unlock; here both are in the section. `canceled` only permits `give_up` and a free
  -- slot only permits `acquire`, and nothing has to happen at once, so every order of the code's
  -- sections is an order of these.
  unfoldable pub finish :
      QueryCoordinator R → ℕ → QueryFlight → Bool → QueryUpdate → Outcome (QueryCoordinator R)
  finish c id flight slot update = last_update update flight >>= λ last.
      close_all (subscribers_of last) >>= λ closed. release slot c.slots >>= λ slots.
      let c = if flight.retired then c else forget c id flight.key in
      done
        (record (set_flight c id (record last {
          subscribers = none;
          left = closed ++ last.left;
          canceled = true;
          phase = stopped;
        })) { slots = slots })
