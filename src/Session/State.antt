-- ===== src/Session/State.antt =====
-- The data of the session store. internal/bb/awsbrowser/store.go.
use mathlib.Core.List.Permᴰ
use mathlib.Core.List.{Permᴰ}
use binbox_cli.Base.{
  ℕ, ◌+◌, Bool, true, false, Option, none, some, [], ◌∷◌, length, Map, lookup, insert, ℕ_discrete,
}
use binbox_cli.Text.{text_dec}
use binbox_cli.Identity.{AwsContext, ContextProvenance, ResourceKey, QueryKey}
use binbox_cli.Observation.{Time, ObservationProvenance, ResourceObservation, QueryPage}

pub data LoadState : Type 0 where
  not_loaded queued loading refreshing ready empty stale : LoadState
  forbidden auth_required throttled timed_out cancelled unsupported unknown : LoadState

unfoldable pub is_failure : LoadState → Bool
is_failure not_loaded = false
is_failure queued = false
is_failure loading = false
is_failure refreshing = false
is_failure ready = false
is_failure empty = false
is_failure stale = false
is_failure _ = true

-- The test `state == LoadLoading || state == LoadRefreshing`.
abbrev pub is_busy : LoadState → Bool
is_busy loading = true
is_busy refreshing = true
is_busy _ = false

-- The test on ready, empty and stale.
abbrev pub is_complete_state : LoadState → Bool
is_complete_state ready = true
is_complete_state empty = true
is_complete_state stale = true
is_complete_state _ = false

pub record RefreshFailure : Type 0 where
  pub state : LoadState
  pub observed_at : Time

-- A nil map of staged pages is `none`: a write to it panics.
pub record QueryEntry : Type 0 where
  pub state : LoadState
  pub fetched_at : Time
  pub refresh_failure : Option RefreshFailure
  pub pages : Map ℕ QueryPage
  pub staged_pages : Option (Map ℕ QueryPage)

pub record SessionStore : Type 0 where
  pub queries : Map QueryKey QueryEntry
  pub resources : Map ResourceKey (Map ObservationProvenance ResourceObservation)

-- The order in which a loop over a map of pages visits them: each page once.
pub record PageOrder : Type 0 where
  pub visit : Map ℕ QueryPage → Map ℕ QueryPage
  pub each_once : (pages : Map ℕ QueryPage) → Permᴰ (visit pages) pages

abbrev pub in_order : PageOrder
in_order = record { visit = λ pages. pages; each_once = Permᴰ.refl }

abbrev pub new_session_store : SessionStore
new_session_store = record { queries = []; resources = [] }

unfoldable pub context_dec : Discrete AwsContext
context_dec = hlevel (text_dec, ℕ_discrete)

unfoldable pub context_provenance_dec : Discrete ContextProvenance
context_provenance_dec = hlevel (text_dec, ℕ_discrete)

unfoldable pub query_dec : Discrete QueryKey
query_dec = hlevel (text_dec, context_dec)

unfoldable pub resource_dec : Discrete ResourceKey
resource_dec = hlevel text_dec

unfoldable pub provenance_dec : Discrete ObservationProvenance
provenance_dec = hlevel (text_dec, context_provenance_dec)

abbrev pub new_entry : QueryEntry
new_entry = record {
  state = not_loaded;
  fetched_at = 0;
  refresh_failure = none;
  pages = [];
  staged_pages = none;
}

-- The entry of a load that starts with nothing.
abbrev pub fresh_load : QueryEntry
fresh_load = record {
  state = loading;
  fetched_at = 0;
  refresh_failure = none;
  pages = [];
  staged_pages = none;
}

-- The entry of a refresh: the result stays, and new pages have an empty map.
abbrev pub refresh_of : QueryEntry → QueryEntry
refresh_of entry = record entry {
  state = refreshing;
  staged_pages = some [];
  refresh_failure = none;
}

-- A write through the entry's pointer.
unfoldable pub set_entry : SessionStore → QueryKey → QueryEntry → SessionStore
set_entry store key entry = record store { queries = insert query_dec key entry store.queries }

-- `entryLocked`: a missing entry is made and put into the map.
unfoldable pub entry_locked : SessionStore → QueryKey → QueryEntry × SessionStore
entry_locked store key = elim (lookup query_dec key store.queries) [
  | some entry ↦ (entry, store)
  | none ↦ (new_entry, set_entry store key new_entry)
]

unfoldable pub query_resource_count : Map ℕ QueryPage → ℕ
query_resource_count [] = 0
query_resource_count ((n, page) ∷ pages) = length page.resources + query_resource_count pages
