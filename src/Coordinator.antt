-- ===== src/Coordinator.antt =====
-- The query coordinator: flights that run a query for all its subscribers.
-- internal/bb/awsbrowser/query.go. Every section under the coordinator's lock is one function. A
-- flight is reached by pointers, so it has a number and stands in a heap; `phase` is where the
-- goroutine of its `run` stands between two such sections.
pub mod Channel
pub mod Subscribe
pub mod Flight
pub mod Finish
pub mod Run
pub mod Invariant
pub mod Sections
pub mod Writes
pub mod Forget
pub mod Leaves
pub mod Fails
pub mod Renew
pub mod Joins
pub mod Safety
pub mod Fence
pub mod Delivery
pub mod Settles
use mathlib.Core.Option
use binbox_cli.Base.{
  ℕ, ◌+◌, ◌-◌, Bool, true, false, not, ◌&&◌, ◌||◌, Option, none, some, List, [], ◌∷◌, leb, ltb,
  ◌==◌, if◌then◌else◌, holds, ℕ_discrete, Map, lookup, insert, delete, keep, length, ◌++◌,
}
use binbox_cli.Errors.{
  Error, Result, ok, err, context_canceled, context_changed, invalid_query_result, incomplete_page,
}
use binbox_cli.Text.{Text, text_dec}
use binbox_cli.Identity.{Platform, AwsContext, ContextSpec, QueryKey, is_none}
use binbox_cli.Observation.{Time, is_zero, utc, QueryPage}
use binbox_cli.Session.{
  returned, panicked, begin_load, begin_refresh, commit_page, complete_query, fail_query, queue,
  validate_all_observed,
}
use binbox_cli.Session.State.{LoadState, SessionStore, query_dec}
use binbox_cli.Session.Reads.{QuerySnapshot, snapshot}
use binbox_cli.Session.Invalidate.{invalidate_context, invalidate_generation}
use binbox_cli.Registry.{ContextRegistry}
use binbox_cli.Registry
use binbox_cli.Failure.{ProviderFailure, sanitized_provider_failure, cache_terminal}
use Channel.{
  Outcome, done, blocked, ◌>>=◌, Channel as UpdateChannel, send, close, new_channel, Subscriber,
  new_subscriber, publish, close_subscriber, close_all,
}

pub record QueryUpdate : Type 0 where
  pub key : QueryKey
  pub snapshot : QuerySnapshot
  pub failure : Option ProviderFailure

-- `Partial`
unfoldable pub partial : QueryUpdate → Bool
partial update = elim update.failure [ none ↦ false | some f ↦ not (f.partial_pages == 0) ]

-- `queryLineage`
pub record QueryLineage : Type 0 where
  pub mode : Text
  pub profile : Text
  pub region : Text
  pub provider : Text
  pub operation : Text
  pub params : Text

unfoldable pub lineage_dec : Discrete QueryLineage
lineage_dec = hlevel text_dec

abbrev pub lineage_for : QueryKey → QueryLineage
lineage_for key = record {
  mode = key.context.mode;
  profile = key.context.profile;
  region = key.context.region;
  provider = key.provider;
  operation = key.operation;
  params = key.params_key;
}

abbrev pub context_spec_for : AwsContext → ContextSpec
context_spec_for c = record { mode = c.mode; profile = c.profile; region = c.region }

-- `querySink`, without its pointers
pub record QuerySink : Type 0 where
  pub terminal : ℕ
  pub fetched_at : Time
  pub protocol_err : Option Error

abbrev pub new_sink : QuerySink
new_sink = record { terminal = 0; fetched_at = 0; protocol_err = none }

-- Where `run` stands: before the limit, before its first section, in the executor, before
-- `complete`, before `fail`, before the last snapshot, before `finish` (with a slot of the limit or
-- without), and behind it.
pub data Phase : Type 0 where
  waiting holding executing : Phase
  completing : Time → Phase
  failing : Error → Phase
  completed : Phase
  finishing : Bool → QueryUpdate → Phase
  stopped : Phase

-- `queryFlight`. A nil map of subscribers is `none`: a write to it panics. `left` has the
-- subscribers that the flight closed and forgot, whose channels their readers still hold.
pub record QueryFlight : Type 0 where
  pub key : QueryKey
  pub canceled : Bool
  pub subscribers : Option (Map ℕ (Subscriber QueryUpdate))
  pub retired : Bool
  pub refresh : Bool
  pub began_store : Bool
  pub partial_pages : ℕ
  pub sink : Option QuerySink
  pub phase : Phase
  pub left : Map ℕ (Subscriber QueryUpdate)

-- `QueryCoordinator`; `slots` is how many values the channel `limit` holds.
pub record QueryCoordinator (R : Type 0) : Type 0 where
  pub store : SessionStore
  pub registry : Option (ContextRegistry R)
  pub max_concurrent : ℕ
  pub slots : ℕ
  pub heap : Map ℕ QueryFlight
  pub flights : Map QueryKey ℕ
  pub latest : Map QueryLineage ℕ
  pub failures : Map QueryKey ProviderFailure
  pub next_id : ℕ
  pub next_flight : ℕ

-- A subscription: a channel with one update that is closed already, or a subscriber of a flight.
pub data Subscription : Type 0 where
  immediate : UpdateChannel QueryUpdate → Subscription
  joined : ℕ → ℕ → Subscription

abbrev pub snapshot_of_state : LoadState → QuerySnapshot
snapshot_of_state state = record {
  state = state;
  fetched_at = 0;
  refresh_failure = none;
  pages = [];
}

abbrev pub state_update : QueryKey → LoadState → QueryUpdate
state_update key state = record { key = key; snapshot = snapshot_of_state state; failure = none }

abbrev pub subscribers_of : QueryFlight → Map ℕ (Subscriber QueryUpdate)
subscribers_of flight = elim flight.subscribers [ none ↦ [] | some m ↦ m ]

unfoldable pub latest_of : Map QueryLineage ℕ → QueryLineage → ℕ
latest_of latest lineage = elim (lookup lineage_dec lineage latest) [ none ↦ 0 | some g ↦ g ]

-- `publishLocked` on the flight; a nil map has no turn.
unfoldable pub publish_flight : QueryUpdate → QueryFlight → Outcome QueryFlight
publish_flight update flight = elim flight.subscribers [
  | none ↦ done flight
  | some m ↦ publish update m >>= λ m. done (record flight { subscribers = some m })
]

-- `retireLocked`
unfoldable pub retire : QueryFlight → Outcome QueryFlight
retire flight = close_all (subscribers_of flight) >>= λ closed.
    done (record flight { retired = true; subscribers = none; left = closed ++ flight.left })

-- `addSubscriberLocked`
unfoldable pub add_subscriber : ℕ → QueryFlight → Outcome QueryFlight
add_subscriber id flight = elim flight.subscribers [
  | none ↦ Outcome.panicked
  | some m ↦ done (record flight { subscribers = some (insert ℕ_discrete id new_subscriber m) })
]

-- A flight of the same lineage with an older generation.
unfoldable pub is_older : QueryKey → QueryKey → Bool
is_older key old =
    holds (lineage_dec (lineage_for old) (lineage_for key))
    && ltb old.context.credential_gen key.context.credential_gen

-- The loop of `subscribe` over the flights, on the heap.
unfoldable pub retire_older :
    QueryKey → Map QueryKey ℕ → Map ℕ QueryFlight → Outcome (Map ℕ QueryFlight)
retire_older key [] heap = done heap
retire_older key ((old, id) ∷ rest) heap = elim (is_older key old) [
  | false ↦ retire_older key rest heap
  | true ↦ elim (lookup ℕ_discrete id heap) [
    | none ↦ Outcome.panicked
    | some flight ↦ retire flight >>= λ flight.
        retire_older key rest (insert ℕ_discrete id (record flight { canceled = true }) heap)
  ]
]

-- `if coordinator.flights[flight.key] == flight { delete(...) }`
unfoldable pub forgotten : Map QueryKey ℕ → ℕ → QueryKey → Map QueryKey ℕ
forgotten flights id key = elim (lookup query_dec key flights) [
  | none ↦ flights
  | some j ↦ if j == id then delete query_dec key flights else flights
]

abbrev pub new_flight : QueryKey → Bool → QueryFlight
new_flight key refresh = record {
  key = key;
  canceled = false;
  subscribers = some [];
  retired = false;
  refresh = refresh;
  began_store = false;
  partial_pages = 0;
  sink = none;
  phase = waiting;
  left = [];
}

unfoldable pub immediate_subscription : QueryUpdate → Outcome Subscription
immediate_subscription update =
    send update new_channel >>= λ channel. close channel >>= λ channel. done (immediate channel)

-- `coordinator.flights[flight.key] == flight`
abbrev pub holds_id : Option ℕ → ℕ → Bool
holds_id none id = false
holds_id (some j) id = j == id

module _ {R : Type 0} where
  abbrev pub set_flight : QueryCoordinator R → ℕ → QueryFlight → QueryCoordinator R
  set_flight c id flight = record c { heap = insert ℕ_discrete id flight c.heap }

  -- `canCommitLocked`
  unfoldable pub can_commit : QueryCoordinator R → ℕ → QueryFlight → Bool
  can_commit c id flight =
      not flight.retired
      && (not (length (subscribers_of flight) == 0)
          && (holds_id (lookup query_dec flight.key c.flights) id
              && leb (latest_of c.latest (lineage_for flight.key))
                  flight.key.context.credential_gen))

  abbrev pub forget : QueryCoordinator R → ℕ → QueryKey → QueryCoordinator R
  forget c id key = record c { flights = forgotten c.flights id key }

  -- A new subscriber of a flight in the heap.
  unfoldable pub join_flight :
      QueryCoordinator R → ℕ → QueryFlight → Outcome (QueryCoordinator R × Subscription)
  join_flight c id flight = add_subscriber (c.next_id + 1) flight >>= λ flight.
      done (record (set_flight c id flight) { next_id = c.next_id + 1 }, joined id (c.next_id + 1))

  -- The end of `subscribe`: a new flight with its first subscriber.
  unfoldable pub start_flight :
      QueryCoordinator R → QueryKey → Bool → Outcome (QueryCoordinator R × Subscription)
  start_flight c key refresh =
      let id = c.next_flight in
      add_subscriber (c.next_id + 1) (new_flight key refresh) >>= λ flight.
      publish_flight (state_update key LoadState.queued) flight >>= λ flight. done (
        record c {
          heap = insert ℕ_discrete id flight c.heap;
          flights = insert query_dec key id c.flights;
          next_id = c.next_id + 1;
          next_flight = id + 1;
        },
        joined id (c.next_id + 1),
      )
