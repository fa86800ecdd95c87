-- ===== src/Session/Commit.antt =====
-- Pages, completion and failure keep a well-formed cache, and no method panics on one.
use binbox_cli.Base.{
  ℕ, ◌≡◌, refl, not, ◌||◌, Option, none, some, inl, inr, arith, Map, lookup, Bool-cases,
  Option-cases,
}
use binbox_cli.Identity.{Platform, QueryKey, ResourceKey, validate_resource_key}
use binbox_cli.Identity.Keys.{validate_query_key}
use binbox_cli.Observation.{QueryPage, ResourceObservation, is_zero, clone_page, validate_complete}
use binbox_cli.Session.State.{LoadState, loading, refreshing, QueryEntry, SessionStore, query_dec}
use binbox_cli.Session.{
  Run, returned, panicked, Reply, commit_to, commit_page, validate_all_observed, store_observation,
  upsert_observation, in_scope,
}
use binbox_cli.Session.Entries.{
  IsEntry, IsCache, set_entry-IsCache, same_queries-IsCache, queries-upsert_all,
}

-- The method returned, and the store that it left satisfies `P`.
abbrev pub Returns : (SessionStore → Type 0) → Run Reply → Type 0
Returns P (returned r) = P r.0
Returns P panicked = ⊥

module _ (env : Platform) where
  commit_to-IsCache :
      (store : SessionStore) (k : QueryKey) (page : QueryPage) (e : QueryEntry)
      → validate_query_key env k ≡ none
      → IsEntry e
      → IsCache env store
      → Returns (IsCache env) (commit_to env store k page e)
  unfolding commit_to
  commit_to-IsCache store k page e valid h c = go e.state refl e.staged_pages refl
    where
      go :
          (st : LoadState)
          → e.state ≡ st
          → (sp : Option (Map ℕ QueryPage)) → e.staged_pages ≡ sp
          → Returns (IsCache env) (commit_to env store k page e)
      go refreshing p none q = absurd (ground arith)
      go refreshing p (some staged) q =
          rw (p, commit_to, q)
            (set_entry-IsCache env k _ valid
              (record {
                staged = rw p refl;
                failure = h.failure;
                fetched = h.fetched;
                unfetched = h.unfetched;
                found = h.found;
                missed = h.missed;
              })
              c)
      go loading p sp q =
          rw (p, commit_to)
            (same_queries-IsCache env _ _ (queries-upsert_all env _ page.resources) (
              set_entry-IsCache env k _ valid
                (record {
                  staged = h.staged;
                  failure = h.failure;
                  fetched = h.fetched;
                  unfetched = h.unfetched;
                  found = λ r. absurd (ground arith);
                  missed = λ r. absurd (ground arith);
                })
                c))
      go _ p sp q = rw (p, commit_to) c

  -- `CommitPage` returns, and keeps a well-formed cache: it never writes to a nil map.
  pub commit_page-IsCache :
      (store : SessionStore) (k : QueryKey) (page : QueryPage)
      → IsCache env store
      → Returns (IsCache env) (commit_page env store k page)
  unfolding commit_page
  commit_page-IsCache store k page c = elim (Option-cases (validate_query_key env k)) [
    | inr (x, e) ↦ rw (e, commit_page) c
    | inl e ↦ elim (Bool-cases (not page.complete || is_zero page.fetched_at)) [
      | inl t ↦ rw (e, commit_page, t) c
      | inr t ↦ elim (Option-cases (validate_all_observed env k.context page.resources)) [
        | inr (x, v) ↦ rw (e, commit_page, t, v) c
        | inl v ↦ elim (Option-cases (lookup query_dec k store.queries)) [
          | inl l ↦ rw (e, commit_page, t, v, l) c
          | inr (entry, l) ↦
              rw (e, commit_page, t, v, l)
                (commit_to-IsCache store k (clone_page env page) entry e (c.entry k entry l) c)
        ]
      ]
    ]
  ]

  -- `StoreObservation` does not touch the cache.
  pub store_observation-IsCache :
      (store : SessionStore) (k : ResourceKey) (o : ResourceObservation)
      → IsCache env store
      → IsCache env (store_observation env store k o).0
  unfolding store_observation
  store_observation-IsCache store k o c = elim (Option-cases (validate_resource_key k)) [
    | inr (x, e) ↦ rw (e, store_observation) c
    | inl e ↦ elim (Option-cases (validate_complete env o)) [
      | inr (x, v) ↦ rw (e, store_observation, v) c
      | inl v ↦ elim (Bool-cases (not (in_scope k o.context))) [
        | inl z ↦ rw (e, store_observation, v, z) c
        | inr z ↦
            rw (e, store_observation, v, z)
              (same_queries-IsCache env store _ (unfold upsert_observation in refl) c)
      ]
    ]
  ]
