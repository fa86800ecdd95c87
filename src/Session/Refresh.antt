-- ===== src/Session/Refresh.antt =====
-- A whole refresh of a result: `BeginRefresh`, the pages, and `FailQuery` or `CompleteQuery`.
-- internal/bb/awsbrowser/store.go.
use binbox_cli.Base.{
  ℕ, ◌≡◌, ◌≢◌, refl, sym, ◌∙◌, ap, ite, Bool, true, false, not, ◌||◌, ◌&&◌, none, some, List, [],
  ◌∷◌, inl, inr, arith, Map, lookup, insert, lookup-insert, Bool-cases, Option-cases, if◌then◌else◌,
  ◌==◌, ℕ_discrete, max,
}
use binbox_cli.Errors.{incomplete_page}
use binbox_cli.Identity.{Platform, QueryKey, is_none, ResourceKey}
use binbox_cli.Identity.Keys.{validate_query_key}
use binbox_cli.Observation.{Time, QueryPage, is_zero, clone_page, ObservationProvenance}
use binbox_cli.Session.State.{
  LoadState, ready, empty, stale, refreshing, QueryEntry, SessionStore, query_dec, set_entry,
  entry_locked, is_complete_state, is_busy, is_failure, query_resource_count, PageOrder,
}
use binbox_cli.Session.{
  Run, returned, panicked, Reply, begin_refresh, commit_to, commit_page, validate_all_observed,
  complete_query, complete_entry, fail_query, fail_entry, upsert_pages,
}
use binbox_cli.Session.Newest.{kept_time}
use binbox_cli.Session.Merge.{
  newest_page_time, FromPages, kept_time_same, same-FromPages, kept_time_visited, visited-FromPages,
}
use binbox_cli.Session.Entries.{queries-upsert_pages}

-- The tests of `CommitPage` on a page.
unfoldable pub accepts : Platform → QueryKey → QueryPage → Bool
accepts env k page =
    page.complete
    && (not (is_zero page.fetched_at)
        && is_none (validate_all_observed env k.context page.resources))

-- The pages with those of a list that pass, by their numbers; a later page replaces an earlier one.
unfoldable pub staged_after :
    Platform → QueryKey → Map ℕ QueryPage → List QueryPage → Map ℕ QueryPage
staged_after env k m [] = m
staged_after env k m (page ∷ pages) =
    staged_after env k
      (if accepts env k page then insert ℕ_discrete page.number (clone_page env page) m else m)
      pages

-- `CommitPage` for each page of a list, whatever its replies.
unfoldable pub commit_all : Platform → SessionStore → QueryKey → List QueryPage → Run SessionStore
commit_all env store k [] = returned store
commit_all env store k (page ∷ pages) = elim (commit_page env store k page) [
  | panicked ↦ panicked
  | returned r ↦ commit_all env r.0 k pages
]

abbrev staging : QueryEntry → Map ℕ QueryPage → QueryEntry
staging e m = record e { state = refreshing; staged_pages = some m; refresh_failure = none }

-- `now` is `start` with a refresh of `k` under way, whose pages are `m`.
record Refreshing (start : SessionStore) (k : QueryKey) (e : QueryEntry) (m : Map ℕ QueryPage)
    (now : SessionStore) : Type 0 where
  resources : now.resources ≡ start.resources
  entry : lookup query_dec k now.queries ≡ some (staging e m)
  others :
      (j : QueryKey) → j ≢ k → lookup query_dec j now.queries ≡ lookup query_dec j start.queries

lookup-set_entry :
    (store : SessionStore) (k j : QueryKey) (e : QueryEntry)
    → j ≢ k
    → lookup query_dec j (set_entry store k e).queries ≡ lookup query_dec j store.queries
unfolding set_entry
lookup-set_entry store k j e ne = elim (query_dec k j) [
  | yes same ↦ absurd (ne (sym same))
  | no other ↦ ground (arith, lookup-insert query_dec k j e store.queries)
]

lookup_written_self :
    (store : SessionStore) (k : QueryKey) (e : QueryEntry)
    → lookup query_dec k (set_entry store k e).queries ≡ some e
unfolding set_entry
lookup_written_self store k e = ground (arith, lookup-insert query_dec k k e store.queries)

-- The lookup in a written map, where the other keys were looked up in `before`.
lookup_written :
    (store before : SessionStore) (k j : QueryKey) (e : QueryEntry)
    → (j ≢ k → lookup query_dec j store.queries ≡ lookup query_dec j before.queries)
    → lookup query_dec j (set_entry store k e).queries
      ≡ ite (query_dec k j) (some e) (lookup query_dec j before.queries)
lookup_written store before k j e others =
    elim (query_dec k j)
      as (λ d.
        lookup query_dec j (set_entry store k e).queries
        ≡ ite d (some e) (lookup query_dec j before.queries)) [
          | yes same ↦
              ap (λ i. lookup query_dec i (set_entry store k e).queries) (sym same)
              ∙ lookup_written_self store k e
          | no other ↦
              lookup-set_entry store k j e (λ q. other (sym q)) ∙ others (λ q. other (sym q))
        ]

idle_of_complete : (state : LoadState) → is_complete_state state ≡ true → is_busy state ≡ false
idle_of_complete ready h = refl
idle_of_complete _ h = ground arith

-- The entry of a completed query with these pages.
abbrev pub result_entry : Map ℕ QueryPage → Time → QueryEntry
result_entry m t = record {
  state = if query_resource_count m == 0 then empty else ready;
  fetched_at = t;
  refresh_failure = none;
  pages = m;
  staged_pages = none;
}

module _ (env : Platform) (start : SessionStore) (k : QueryKey) (e : QueryEntry)
    (valid : validate_query_key env k ≡ none) where
  set_staging :
      {m : Map ℕ QueryPage} (m' : Map ℕ QueryPage) {now : SessionStore}
      → Refreshing start k e m now
      → Refreshing start k e m' (set_entry now k (staging e m'))
  set_staging m' {now} r = record {
    resources = unfold set_entry in r.resources;
    entry = lookup_written_self now k (staging e m');
    others = λ j ne. lookup-set_entry now k j _ ne ∙ r.others j ne;
  }

  begin_refresh-Refreshing :
      lookup query_dec k start.queries ≡ some e
      → e.fetched_at ≢ 0
      → is_complete_state e.state ≡ true
      → is_busy e.state ≡ false
      → Refreshing start k e [] (begin_refresh env start k).0
  unfolding begin_refresh entry_locked
  begin_refresh-Refreshing here time complete idle =
      let t : is_zero e.fetched_at ≡ false = ground arith in
      rw (valid, begin_refresh, here, entry_locked, idle, t, complete)
        (record {
          resources = unfold set_entry in refl;
          entry = lookup_written_self start k _;
          others = λ j ne. lookup-set_entry start k j _ ne;
        })

  commit_page-Refreshing :
      (m : Map ℕ QueryPage) (now : SessionStore) (page : QueryPage)
      → Refreshing start k e m now
      → (r : Reply) × (commit_page env now k page ≡ returned r)
        × Refreshing start k e (staged_after env k m (page ∷ [])) r.0
  unfolding commit_page commit_to clone_page staged_after accepts
  commit_page-Refreshing m now page h =
      elim (Bool-cases (not page.complete || is_zero page.fetched_at)) [
        | inl t ↦
            let a : accepts env k page ≡ false = ground arith in
            ((now, some incomplete_page), rw (valid, commit_page, t), rw (a, staged_after) h)
        | inr t ↦ elim (Option-cases (validate_all_observed env k.context page.resources)) [
          | inr (x, v) ↦
              let a : accepts env k page ≡ false = ground arith in
              ((now, some x), rw (valid, commit_page, t, v), rw (a, staged_after) h)
          | inl v ↦
              let a : accepts env k page ≡ true = ground arith in
              let m' = insert ℕ_discrete page.number (clone_page env page) m in
              (
                (set_entry now k (staging e m'), none),
                rw (valid, commit_page, t, v, h.entry),
                rw (a, staged_after) (set_staging m' h),
              )
        ]
      ]

  commit_all-Refreshing :
      (m : Map ℕ QueryPage) (now : SessionStore) (pages : List QueryPage)
      → Refreshing start k e m now
      → (s : SessionStore) × (commit_all env now k pages ≡ returned s)
        × Refreshing start k e (staged_after env k m pages) s
  unfolding commit_all staged_after
  commit_all-Refreshing m now [] h = (now, refl, h)
  commit_all-Refreshing m now (page ∷ pages) h =
      let (r, done, h') = commit_page-Refreshing m now page h in
      let (s, rest, h'') = commit_all-Refreshing (staged_after env k m (page ∷ [])) r.0 pages h' in
      (s, rw (done, commit_all) rest, h'')

  fail_query-Refreshing :
      (m : Map ℕ QueryPage) (now : SessionStore) (s : LoadState) (t : Time)
      → is_failure s ≡ true
      → t ≢ 0
      → Refreshing start k e m now
      → fail_query env now k s t ≡ (
        set_entry now k (record e {
          state = stale;
          staged_pages = none;
          refresh_failure = some (record { state = s; observed_at = t });
        }),
        none,
      )
  unfolding fail_query fail_entry
  fail_query-Refreshing m now s t f z h =
      let b : is_zero t ≡ false = ground arith in rw (valid, fail_query, f, b, h.entry)

  complete_query-Refreshing :
      (order : PageOrder) (m : Map ℕ QueryPage) (now : SessionStore) (t : Time)
      → t ≢ 0
      → Refreshing start k e m now
      → complete_query env order now k t
        ≡ (set_entry (upsert_pages now env (order.visit m)) k (result_entry m t), none)
  unfolding complete_query complete_entry
  complete_query-Refreshing order m now t z h =
      let b : is_zero t ≡ false = ground arith in rw (valid, complete_query, b, h.entry)

-- An entry before a refresh of it: a completed result.
pub record HasResult (env : Platform) (store : SessionStore) (k : QueryKey) (e : QueryEntry)
    : Type 0 where
  pub valid : validate_query_key env k ≡ none
  pub here : lookup query_dec k store.queries ≡ some e
  pub fetched : e.fetched_at ≢ 0
  pub complete : is_complete_state e.state ≡ true

module _ (env : Platform) (store : SessionStore) (k : QueryKey) (e : QueryEntry)
    (has : HasResult env store k e) (pages : List QueryPage) where
  refreshed :
      (s : SessionStore) × (commit_all env (begin_refresh env store k).0 k pages ≡ returned s)
      × Refreshing store k e (staged_after env k [] pages) s
  refreshed = commit_all-Refreshing env store k e has.valid [] _ pages (
      begin_refresh-Refreshing env store k e has.valid has.here has.fetched has.complete
        (idle_of_complete e.state has.complete))

  -- A refresh of a completed result, with whatever pages, that fails: no page panics, the failure
  -- is recorded, the entry is stale with its old pages and time, the observations of all resources
  -- are as before, and so is every other entry.
  pub failed_refresh :
      (state : LoadState) (t : Time) (j : QueryKey)
      → is_failure state ≡ true
      → t ≢ 0
      → (s : SessionStore) × (commit_all env (begin_refresh env store k).0 k pages ≡ returned s)
        × ((fail_query env s k state t).1 ≡ none)
        × ((fail_query env s k state t).0.resources ≡ store.resources)
        × (lookup query_dec j (fail_query env s k state t).0.queries
            ≡ ite
                (query_dec k j)
                (some (record e {
                  state = stale;
                  staged_pages = none;
                  refresh_failure = some (record { state = state; observed_at = t });
                }))
                (lookup query_dec j store.queries))
  failed_refresh state t j f z =
      let (s, done, r) = refreshed in
      let e' = fail_query-Refreshing env store k e has.valid _ s state t f z r in
      (
        s,
        done,
        ap (λ (x : Reply). x.1) e',
        rw e' (unfold set_entry in r.resources),
        rw e' (lookup_written s store k j _ (r.others j)),
      )

  -- A refresh of a completed result that completes, at a time that is not zero and in whatever order
  -- the pages are visited: the entry shows exactly the pages that passed, by number, with the time of
  -- completion, and is ready or empty by whether they hold a resource; every other entry is as
  -- before. Under each resource key and provenance the store keeps a newest one of the observations
  -- on those pages and the one that it kept before the refresh: its time is the latest of them, and it
  -- is the one kept before or the copy of one on those pages under this key and provenance.
  pub completed_refresh :
      (order : PageOrder) (t : Time) (j : QueryKey) (i : ResourceKey) (p : ObservationProvenance)
      → t ≢ 0
      → (s : SessionStore) × (commit_all env (begin_refresh env store k).0 k pages ≡ returned s)
        × ((complete_query env order s k t).1 ≡ none)
        × (kept_time (complete_query env order s k t).0 i p
            ≡ max (newest_page_time env i p (staged_after env k [] pages)) (kept_time store i p))
        × FromPages env store (complete_query env order s k t).0 i p (staged_after env k [] pages)
        × (lookup query_dec j (complete_query env order s k t).0.queries
            ≡ ite
                (query_dec k j)
                (some (result_entry (staged_after env k [] pages) t))
                (lookup query_dec j store.queries))
  completed_refresh order t j i p z =
      let (s, done, r) = refreshed in
      let m = staged_after env k [] pages in
      let e' = complete_query-Refreshing env store k e has.valid order m s t z r in
      let now = upsert_pages s env (order.visit m) in
      let now' = (complete_query env order s k t).0 in
      let same : now'.resources ≡ now.resources = rw e' (unfold set_entry in refl) in
      (
        s,
        done,
        ap (λ (x : Reply). x.1) e',
        kept_time_same now' now same i p
            ∙ kept_time_visited env order m s i p
            ∙ ap (max (newest_page_time env i p m)) (kept_time_same s store r.resources i p),
        same-FromPages env m i p (sym r.resources) (sym same) (visited-FromPages env order m s i p),
        rw e' (
            lookup_written _ store k j _
              (λ ne. rw (queries-upsert_pages env s (order.visit m)) (r.others j ne))),
      )
