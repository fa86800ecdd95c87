-- ===== src/Session/Entries.antt =====
-- What holds of every entry of the cache, whatever methods ran: a refresh has a map for its pages,
-- a completed query has a time, and its state says whether it found resources.
use binbox_cli.Base.{
  ℕ, subst, ◌≡◌, ◌≢◌, refl, Bool, true, false, not, ◌||◌, ◌∙◌, Option, none, some, List, [], ◌∷◌,
  inl, inr, arith, Map, lookup, lookup-insert, Bool-cases, Option-cases, if◌then◌else◌,
}
use binbox_cli.Identity.{Platform, QueryKey}
use binbox_cli.Identity.Keys.{validate_query_key}
use binbox_cli.Observation.{QueryPage, ObservedResource, is_zero}
use binbox_cli.Session.State.{
  LoadState, queued, loading, refreshing, ready, empty, stale, QueryEntry, SessionStore, query_dec,
  new_session_store, new_entry, fresh_load, refresh_of, is_complete_state, entry_locked, set_entry,
  query_resource_count, is_busy,
}
use binbox_cli.Session.{
  queue, begin_load, begin_refresh, upsert_observation, upsert_all, upsert_pages,
}

abbrev pub is_some {ℓ} : {A : Type ℓ} → Option A → Bool
is_some none = false
is_some (some _) = true

abbrev is_refreshing : LoadState → Bool
is_refreshing refreshing = true
is_refreshing _ = false

abbrev pub is_stale : LoadState → Bool
is_stale stale = true
is_stale _ = false

-- The states in which a result is shown.
abbrev shows_result : LoadState → Bool
shows_result refreshing = true
shows_result ready = true
shows_result empty = true
shows_result stale = true
shows_result _ = false

pub record IsEntry (e : QueryEntry) : Type 0 where
  pub staged : is_refreshing e.state ≡ is_some e.staged_pages
  pub failure : is_stale e.state ≡ is_some e.refresh_failure
  pub fetched : shows_result e.state ≡ true → e.fetched_at ≢ 0
  pub unfetched : e.state ≡ loading → e.fetched_at ≡ 0
  pub found : e.state ≡ ready → query_resource_count e.pages ≢ 0
  pub missed : e.state ≡ empty → query_resource_count e.pages ≡ 0

-- Every entry is well-formed, and its key is a valid one.
pub record IsCache (env : Platform) (store : SessionStore) : Type 0 where
  pub entry :
      (k : QueryKey) (e : QueryEntry) → lookup query_dec k store.queries ≡ some e → IsEntry e
  pub valid_key :
      (k : QueryKey) (e : QueryEntry)
      → lookup query_dec k store.queries ≡ some e
      → validate_query_key env k ≡ none

module _ (env : Platform) where
  pub new_session_store-IsCache : IsCache env new_session_store
  unfolding lookup
  new_session_store-IsCache = record { entry = λ k e h. cc; valid_key = λ k e h. cc }

  new_entry-IsEntry : IsEntry new_entry
  new_entry-IsEntry = record {
    staged = refl;
    failure = refl;
    fetched = λ h. cc;
    unfetched = λ h. cc;
    found = λ h. cc;
    missed = λ h. cc;
  }

  pub set_entry-IsCache :
      {store : SessionStore} (k : QueryKey) (e : QueryEntry)
      → validate_query_key env k ≡ none
      → IsEntry e
      → IsCache env store
      → IsCache env (set_entry store k e)
  unfolding set_entry
  set_entry-IsCache {store} k e valid ok_entry c = record {
    entry = λ j f h. elim (query_dec k j) [
      | yes same ↦
          subst IsEntry (ground (arith, lookup-insert query_dec k j e store.queries)) ok_entry
      | no other ↦ c.entry j f (ground (arith, lookup-insert query_dec k j e store.queries))
    ];
    valid_key = λ j f h. elim (query_dec k j) [
      | yes same ↦ rw same at valid
      | no other ↦ c.valid_key j f (ground (arith, lookup-insert query_dec k j e store.queries))
    ];
  }

  entry_locked-IsCache :
      {store : SessionStore} (k : QueryKey)
      → validate_query_key env k ≡ none
      → IsCache env store
      → IsEntry (entry_locked store k).0 × IsCache env (entry_locked store k).1
  unfolding entry_locked
  entry_locked-IsCache {store} k valid c = elim (Option-cases (lookup query_dec k store.queries)) [
    | inl e ↦
        rw (e, entry_locked)
          (new_entry-IsEntry, set_entry-IsCache k new_entry valid new_entry-IsEntry c)
    | inr (x, e) ↦ rw (e, entry_locked) (c.entry k x e, c)
  ]

  queued-IsEntry :
      (e : QueryEntry)
      → is_busy e.state ≡ false
      → IsEntry e
      → IsEntry (record e { state = queued; refresh_failure = none })
  queued-IsEntry e b h = record {
    staged = ground arith;
    failure = refl;
    fetched = λ h. cc;
    unfetched = λ h. cc;
    found = λ h. cc;
    missed = λ h. cc;
  }

  -- `Queue` keeps a well-formed cache.
  pub queue-IsCache :
      {store : SessionStore} (k : QueryKey) → IsCache env store → IsCache env (queue env store k).0
  unfolding queue
  queue-IsCache {store} k c = elim (Option-cases (validate_query_key env k)) [
    | inr (x, e) ↦ rw (e, queue) c
    | inl e ↦
        let (h, c') = entry_locked-IsCache k e c in
        elim (Bool-cases (is_busy (entry_locked store k).0.state)) [
          | inl b ↦ rw (e, queue, b) c'
          | inr b ↦ rw (e, queue, b) (set_entry-IsCache k _ e (queued-IsEntry _ b h) c')
        ]
  ]

  fresh_load-IsEntry : IsEntry fresh_load
  fresh_load-IsEntry = record {
    staged = refl;
    failure = refl;
    fetched = λ h. cc;
    unfetched = λ h. refl;
    found = λ h. cc;
    missed = λ h. cc;
  }

  -- `BeginLoad` keeps a well-formed cache.
  pub begin_load-IsCache :
      {store : SessionStore} (k : QueryKey)
      → IsCache env store
      → IsCache env (begin_load env store k).0
  unfolding begin_load
  begin_load-IsCache {store} k c = elim (Option-cases (validate_query_key env k)) [
    | inr (x, e) ↦ rw (e, begin_load) c
    | inl e ↦
        let (h, c') = entry_locked-IsCache k e c in
        elim (Bool-cases (is_busy (entry_locked store k).0.state)) [
          | inl b ↦ rw (e, begin_load, b) c'
          | inr b ↦ rw (e, begin_load, b) (set_entry-IsCache k _ e fresh_load-IsEntry c')
        ]
  ]

  -- `BeginRefresh` on an entry: a new load, or a refresh beside the result.
  pub begin_refresh_entry : QueryEntry → QueryEntry
  begin_refresh_entry e =
      if is_zero e.fetched_at || not (is_complete_state e.state) then fresh_load else refresh_of e

  begin_refresh_entry-IsEntry : (e : QueryEntry) → IsEntry (begin_refresh_entry e)
  unfolding begin_refresh_entry
  begin_refresh_entry-IsEntry e =
      elim (Bool-cases (is_zero e.fetched_at || not (is_complete_state e.state))) [
        | inl b ↦ rw b fresh_load-IsEntry
        | inr b ↦ rw b (record {
          staged = refl;
          failure = refl;
          fetched = λ h. ground arith;
          unfetched = λ h. cc;
          found = λ h. cc;
          missed = λ h. cc;
        })
      ]

  begin_refresh-cases :
      (store : SessionStore) (k : QueryKey)
      → validate_query_key env k ≡ none
      → is_busy (entry_locked store k).0.state ≡ false
      → begin_refresh env store k ≡ (
        set_entry (entry_locked store k).1 k (begin_refresh_entry (entry_locked store k).0),
        none,
      )
  unfolding begin_refresh begin_refresh_entry
  begin_refresh-cases store k e b =
      elim (Bool-cases (
        is_zero (entry_locked store k).0.fetched_at
        || not (is_complete_state (entry_locked store k).0.state))) [
          | inl t ↦ rw (e, begin_refresh, b, t)
          | inr t ↦ rw (e, begin_refresh, b, t)
        ]

  -- `BeginRefresh` keeps a well-formed cache.
  pub begin_refresh-IsCache :
      {store : SessionStore} (k : QueryKey)
      → IsCache env store
      → IsCache env (begin_refresh env store k).0
  begin_refresh-IsCache {store} k c = elim (Option-cases (validate_query_key env k)) [
    | inr (x, e) ↦ unfold begin_refresh in rw (e, begin_refresh) c
    | inl e ↦
        let (h, c') = entry_locked-IsCache k e c in
        elim (Bool-cases (is_busy (entry_locked store k).0.state)) [
          | inl b ↦ unfold begin_refresh in rw (e, begin_refresh, b) c'
          | inr b ↦
              rw (begin_refresh-cases store k e b)
                (set_entry-IsCache k _ e (begin_refresh_entry-IsEntry _) c')
        ]
  ]

  pub queries-upsert_all :
      (store : SessionStore) (rs : List ObservedResource)
      → (upsert_all store env rs).queries ≡ store.queries
  unfolding upsert_all upsert_observation
  queries-upsert_all store [] = refl
  queries-upsert_all store (r ∷ rs) =
      queries-upsert_all (upsert_observation store env r.key r.observation) rs

  pub queries-upsert_pages :
      (store : SessionStore) (pages : Map ℕ QueryPage)
      → (upsert_pages store env pages).queries ≡ store.queries
  unfolding upsert_pages
  queries-upsert_pages store [] = refl
  queries-upsert_pages store ((n, page) ∷ pages) =
      queries-upsert_pages (upsert_all store env page.resources) pages
      ∙ queries-upsert_all store page.resources

  pub same_queries-IsCache :
      (store store' : SessionStore)
      → store'.queries ≡ store.queries
      → IsCache env store
      → IsCache env store'
  same_queries-IsCache store store' same c = record {
    entry = λ k e h. c.entry k e (rw same at h);
    valid_key = λ k e h. c.valid_key k e (rw same at h);
  }
