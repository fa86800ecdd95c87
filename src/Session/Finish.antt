-- ===== src/Session/Finish.antt =====
-- Completion and failure keep a well-formed cache.
use binbox_cli.Base.{
  ◌≡◌, ◌≢◌, refl, true, not, ◌||◌, none, inl, inr, arith, lookup, Bool-cases, Option-cases, ◌==◌,
}
use binbox_cli.Identity.{Platform, QueryKey}
use binbox_cli.Identity.Keys.{validate_query_key}
use binbox_cli.Observation.{Time, is_zero}
use binbox_cli.Session.State.{
  LoadState, not_loaded, queued, loading, refreshing, ready, empty, stale, QueryEntry, SessionStore,
  query_dec, query_resource_count, is_failure, PageOrder,
}
use binbox_cli.Session.{
  complete_query, fail_query, upsert_pages, complete_entry, fail_entry, staged_of, completed,
  failed,
}
use binbox_cli.Session.Entries.{
  IsEntry, IsCache, set_entry-IsCache, same_queries-IsCache, queries-upsert_pages,
}

-- A load in progress has no staged pages.
unstaged_loading : (e : QueryEntry) → IsEntry e → e.state ≡ loading → e.staged_pages ≡ none
unstaged_loading e h p = elim (Option-cases e.staged_pages) [
  | inl q ↦ q
  | inr (m, q) ↦ absurd (ground arith)
]

module _ (env : Platform) where
  completed-IsEntry :
      (e : QueryEntry) (t : Time) → e.staged_pages ≡ none → t ≢ 0 → IsEntry (completed e t)
  unfolding query_resource_count
  completed-IsEntry e t q z = elim (Bool-cases (query_resource_count e.pages == 0)) [
    | inl b ↦ rw b (record {
      staged = rw q refl;
      failure = refl;
      fetched = λ h. z;
      unfetched = λ h. cc;
      found = λ h. cc;
      missed = λ h. ground arith;
    })
    | inr b ↦ rw b (record {
      staged = rw q refl;
      failure = refl;
      fetched = λ h. z;
      unfetched = λ h. cc;
      found = λ h. ground arith;
      missed = λ h. cc;
    })
  ]

  module _ (order : PageOrder) where
    complete_entry-IsCache :
        (store : SessionStore) (k : QueryKey) (t : Time) (e : QueryEntry)
        → validate_query_key env k ≡ none
        → t ≢ 0
        → IsEntry e
        → IsCache env store
        → IsCache env (complete_entry env order store k t e).0
    unfolding complete_entry
    complete_entry-IsCache store k t e valid z h c = go e.state refl
      where
        swapped : QueryEntry
        swapped = record e { pages = staged_of e; staged_pages = none }

        go : (st : LoadState) → e.state ≡ st → IsCache env (complete_entry env order store k t e).0
        go refreshing p =
            rw (p, complete_entry)
              (set_entry-IsCache env k (completed swapped t) valid
                (completed-IsEntry swapped t refl z)
                (same_queries-IsCache env store (upsert_pages store env (order.visit (staged_of e)))
                  (queries-upsert_pages env store (order.visit (staged_of e))) c))
        go loading p =
            rw (p, complete_entry)
              (set_entry-IsCache env k _ valid (completed-IsEntry e t (unstaged_loading e h p) z) c)
        go _ p = rw (p, complete_entry) c

    -- `CompleteQuery` keeps a well-formed cache.
    pub complete_query-IsCache :
        (store : SessionStore) (k : QueryKey) (t : Time)
        → IsCache env store
        → IsCache env (complete_query env order store k t).0
    unfolding complete_query
    complete_query-IsCache store k t c = elim (Option-cases (validate_query_key env k)) [
      | inr (x, e) ↦ rw (e, complete_query) c
      | inl e ↦ elim (Bool-cases (is_zero t)) [
        | inl z ↦ rw (e, complete_query, z) c
        | inr z ↦ elim (Option-cases (lookup query_dec k store.queries)) [
          | inl l ↦ rw (e, complete_query, z, l) c
          | inr (entry, l) ↦
              rw (e, complete_query, z, l)
                (complete_entry-IsCache store k t entry e (ground arith) (c.entry k entry l) c)
        ]
      ]
    ]

  failed-IsEntry :
      (e : QueryEntry) (state : LoadState) → is_failure state ≡ true → IsEntry (failed e state)
  unfolding is_failure
  failed-IsEntry e not_loaded f = cc
  failed-IsEntry e queued f = cc
  failed-IsEntry e loading f = cc
  failed-IsEntry e refreshing f = cc
  failed-IsEntry e ready f = cc
  failed-IsEntry e empty f = cc
  failed-IsEntry e stale f = cc
  failed-IsEntry e _ f = record {
    staged = refl;
    failure = refl;
    fetched = λ h. cc;
    unfetched = λ h. cc;
    found = λ h. cc;
    missed = λ h. cc;
  }

  fail_entry-IsCache :
      (store : SessionStore) (k : QueryKey) (state : LoadState) (t : Time) (e : QueryEntry)
      → validate_query_key env k ≡ none
      → is_failure state ≡ true
      → IsEntry e
      → IsCache env store
      → IsCache env (fail_entry env store k state t e).0
  unfolding fail_entry
  fail_entry-IsCache store k state t e valid f h c = go e.state refl
    where
      go : (st : LoadState) → e.state ≡ st → IsCache env (fail_entry env store k state t e).0
      go refreshing p =
          rw (p, fail_entry)
            (set_entry-IsCache env k _ valid
              (record {
                staged = refl;
                failure = refl;
                fetched = λ q. h.fetched (rw p refl);
                unfetched = λ q. cc;
                found = λ q. cc;
                missed = λ q. cc;
              })
              c)
      go loading p =
          rw (p, fail_entry) (set_entry-IsCache env k _ valid (failed-IsEntry e state f) c)
      go queued p =
          rw (p, fail_entry) (set_entry-IsCache env k _ valid (failed-IsEntry e state f) c)
      go _ p = rw (p, fail_entry) c

  -- `FailQuery` keeps a well-formed cache.
  pub fail_query-IsCache :
      (store : SessionStore) (k : QueryKey) (state : LoadState) (t : Time)
      → IsCache env store
      → IsCache env (fail_query env store k state t).0
  unfolding fail_query
  fail_query-IsCache store k state t c = elim (Option-cases (validate_query_key env k)) [
    | inr (x, e) ↦ rw (e, fail_query) c
    | inl e ↦ elim (Bool-cases (not (is_failure state) || is_zero t)) [
      | inl z ↦ rw (e, fail_query, z) c
      | inr z ↦ elim (Option-cases (lookup query_dec k store.queries)) [
        | inl l ↦ rw (e, fail_query, z, l) c
        | inr (entry, l) ↦
            rw (e, fail_query, z, l)
              (fail_entry-IsCache store k state t entry e (ground arith) (c.entry k entry l) c)
      ]
    ]
  ]
