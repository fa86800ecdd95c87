-- ===== src/Coordinator/Run.antt =====
-- The coordinator with all its goroutines, interleaved in any order of their sections.
-- internal/bb/awsbrowser/query.go.
use binbox_cli.Base.{
  ℕ, Bool, Option, none, some, List, [], ◌∷◌, ℕ_discrete, Map, lookup, insert, if◌then◌else◌, ltb,
}
use binbox_cli.Errors.{Error}
use binbox_cli.Identity.{Platform, QueryKey}
use binbox_cli.Observation.{Time, QueryPage}
use binbox_cli.Session.State.{SessionStore, PageOrder}
use binbox_cli.Registry.{ContextRegistry}
use binbox_cli.Coordinator.Channel.{Outcome, done, ◌>>=◌, drain, Subscriber}
use binbox_cli.Coordinator.{
  QueryUpdate, QuerySink, Phase, waiting, holding, executing, completing, failing, completed,
  finishing, QueryFlight, QueryCoordinator, set_flight,
}
use binbox_cli.Coordinator.Subscribe.{subscribe_locked, unsubscribe}
use binbox_cli.Coordinator.Flight.{
  at_phase, acquire, give_up, begin, sink_page, sink_complete, executed, complete, conclude,
}
use binbox_cli.Coordinator.Finish.{fail, finish}

-- A section of a flight's goroutine, or of the executor's calls of its sink. The executor may call
-- the sink at any time, and return any error.
pub data Move : Type 0 where
  acquires gives_up begins concludes finishes : Move
  pages : QueryPage → Move
  reports : Time → Move
  returns : Option Error → Move
  completes : PageOrder → Move
  fails : Time → Move

-- What happens next: a `subscribe` that reaches the lock, an `unsubscribe`, a reader that takes an
-- update, or a move of a flight.
pub data Event : Type 0 where
  subscribes : QueryKey → Bool → Event
  unsubscribes : ℕ → ℕ → Time → Event
  reads : ℕ → ℕ → Event
  moves : ℕ → Move → Event

-- The reader of a subscriber of the flight takes the update that its channel holds.
unfoldable pub drained :
    ℕ → QueryFlight → Map ℕ (Subscriber QueryUpdate) → Option (Subscriber QueryUpdate) → QueryFlight
drained sub flight m none = flight
drained sub flight m (some s) = record flight {
  subscribers = some (insert ℕ_discrete sub (record s { updates = drain s.updates }) m);
}

unfoldable pub drained_in : ℕ → QueryFlight → Option (Map ℕ (Subscriber QueryUpdate)) → QueryFlight
drained_in sub flight none = flight
drained_in sub flight (some m) = drained sub flight m (lookup ℕ_discrete sub m)

abbrev pub drain_subscriber : ℕ → QueryFlight → QueryFlight
drain_subscriber sub flight = drained_in sub flight flight.subscribers

module _ {R : Type 0} (env : Platform) where
  -- A move that the phase does not allow does not happen.
  unfoldable pub move_in :
      QueryCoordinator R
      → ℕ
      → QueryFlight
      → Move
      → Phase
      → Option QuerySink
      → Outcome (QueryCoordinator R)
  move_in c id flight acquires waiting sink = acquire c id flight
  move_in c id flight gives_up waiting sink = give_up c id flight
  move_in c id flight begins holding sink = begin env c id flight
  move_in c id flight (pages page) phase (some sink) = sink_page env c id flight sink page
  move_in c id flight (reports t) phase (some sink) = sink_complete c id flight sink t
  move_in c id flight (returns e) executing (some sink) =
      done (set_flight c id (at_phase flight (executed sink e)))
  move_in c id flight (completes order) (completing t) sink = complete env order c id flight t
  move_in c id flight (fails now) (failing e) sink = fail env c id flight e now
  move_in c id flight concludes completed sink = conclude env c id flight
  move_in c id flight finishes (finishing slot update) sink = finish env c id flight slot update
  move_in c id flight _ _ _ = done c

  abbrev pub move : QueryCoordinator R → ℕ → QueryFlight → Move → Outcome (QueryCoordinator R)
  move c id flight m = move_in c id flight m flight.phase flight.sink

  unfoldable pub step : QueryCoordinator R → Event → Outcome (QueryCoordinator R)
  step c (subscribes key refresh) = subscribe_locked env c key refresh >>= λ r. done r.0
  step c (unsubscribes id sub now) = unsubscribe env c id sub now
  step c (reads id sub) = elim (lookup ℕ_discrete id c.heap) [
    | none ↦ done c
    | some flight ↦ done (set_flight c id (drain_subscriber sub flight))
  ]
  step c (moves id m) = elim (lookup ℕ_discrete id c.heap) [
    | none ↦ done c
    | some flight ↦ move c id flight m
  ]

  unfoldable pub run : QueryCoordinator R → List Event → Outcome (QueryCoordinator R)
  run c [] = done c
  run c (e ∷ es) = step c e >>= λ c. run c es

abbrev pub empty_coordinator :
    {R : Type 0} → SessionStore → Option (ContextRegistry R) → ℕ → QueryCoordinator R
empty_coordinator store registry max_concurrent = record {
  store = store;
  registry = registry;
  max_concurrent = max_concurrent;
  slots = 0;
  heap = [];
  flights = [];
  latest = [];
  failures = [];
  next_id = 0;
  next_flight = 0;
}

-- `NewQueryCoordinator`, whose error is `none`; a store and an executor are given.
unfoldable pub new_query_coordinator :
    {R : Type 0} → SessionStore → Option (ContextRegistry R) → ℕ → Option (QueryCoordinator R)
new_query_coordinator store registry max_concurrent =
    if ltb max_concurrent 1 then none else some (empty_coordinator store registry max_concurrent)
