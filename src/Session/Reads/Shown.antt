-- ===== src/Session/Reads/Shown.antt =====
-- A snapshot of a reachable store agrees with itself: its state, its failure and its resources.
use binbox_cli.Base.{
  ℕ, ◌≡◌, ◌≢◌, refl, sym, ◌∙◌, subst, Bool, true, not, Option, some, List, [], ◌∷◌, inl, inr, arith,
  Bool-cases, Option-cases, ltb, length, Map, lookup,
}
use binbox_cli.Identity.{Platform, QueryKey, is_none}
use binbox_cli.Identity.Keys.{validate_query_key}
use binbox_cli.Observation.{QueryPage, ObservedResource, clone_page, clone_resources}
use binbox_cli.Session.State.{
  LoadState, ready, empty, QueryEntry, SessionStore, query_dec, query_resource_count,
  new_session_store,
}
use binbox_cli.Session.{returned}
use binbox_cli.Session.Entries.{IsEntry, IsCache, is_stale, is_some}
use binbox_cli.Session.Trace.{StoreCall, run_calls, Leaves, reachable-IsCache}
use binbox_cli.Session.Reads.{
  QuerySnapshot, resource_count, page_resources, insert_page, sort_pages, values, sorted_pages,
  snapshot,
}

length-clone_resources :
    (env : Platform) (rs : List ObservedResource) → length (clone_resources env rs) ≡ length rs
unfolding clone_resources
length-clone_resources env [] = refl
length-clone_resources env (r ∷ rs) = omega (arith, length-clone_resources env rs)

count-insert_page :
    (p : ℕ × QueryPage) (m : Map ℕ QueryPage)
    → query_resource_count (insert_page p m) ≡ query_resource_count (p ∷ m)
unfolding insert_page query_resource_count
count-insert_page p [] = refl
count-insert_page p (q ∷ qs) = elim (Bool-cases (ltb q.0 p.0)) [
  | inl b ↦ rw b (omega (arith, count-insert_page p qs))
  | inr b ↦ rw b refl
]

count-sort_pages :
    (m : Map ℕ QueryPage) → query_resource_count (sort_pages m) ≡ query_resource_count m
unfolding sort_pages query_resource_count
count-sort_pages [] = refl
count-sort_pages (p ∷ m) = omega (arith, count-insert_page p (sort_pages m), count-sort_pages m)

count-values :
    (env : Platform) (m : Map ℕ QueryPage) → page_resources (values env m) ≡ query_resource_count m
unfolding values page_resources query_resource_count clone_page
count-values env [] = refl
count-values env ((n, page) ∷ m) =
    omega (arith, length-clone_resources env page.resources, count-values env m)

-- What a state says of the number of resources shown.
pub ResultOf : LoadState → ℕ → Type 0
ResultOf ready n = n ≢ 0
ResultOf empty n = n ≡ 0
ResultOf _ n = Unit

-- A failure is recorded exactly while the state is stale, and the state fits the resources.
pub Agrees : QuerySnapshot → Type 0
Agrees s = (is_stale s.state ≡ is_some s.refresh_failure) × ResultOf s.state (resource_count s)

result_of :
    (state : LoadState) (n : ℕ)
    → (state ≡ ready → n ≢ 0)
    → (state ≡ empty → n ≡ 0)
    → ResultOf state n
unfolding ResultOf
result_of ready n f m = f refl
result_of empty n f m = m refl
result_of _ n f m = tt

entry-Agrees :
    (env : Platform) (e : QueryEntry)
    → IsEntry e
    → Agrees (record {
      state = e.state;
      fetched_at = e.fetched_at;
      refresh_failure = e.refresh_failure;
      pages = sorted_pages env e.pages;
    })
unfolding Agrees resource_count sorted_pages
entry-Agrees env e i =
    let n = count-values env (sort_pages e.pages) ∙ count-sort_pages e.pages in
    (i.failure, result_of e.state _ (λ h z. i.found h (sym n ∙ z)) (λ h. n ∙ i.missed h))

-- Whatever calls were made on a new store, a snapshot that it gives of a query has a recorded
-- failure exactly while it is stale, has a resource where it is ready, and none where it is empty.
pub snapshot-Agrees :
    (env : Platform) (cs : List StoreCall) (store : SessionStore) (key : QueryKey)
    (s : QuerySnapshot)
    → run_calls env new_session_store cs ≡ returned store
    → snapshot env store key ≡ (some s, true)
    → Agrees s
unfolding snapshot
snapshot-Agrees env cs store key s r h =
    let c : IsCache env store = subst (Leaves (IsCache env)) r (reachable-IsCache env cs) in
    elim (Bool-cases (not (is_none (validate_query_key env key)))) [
      | inl b ↦ absurd (cc (rw (b, snapshot) at h))
      | inr b ↦ elim (Option-cases (lookup query_dec key store.queries)) [
        | inl n ↦ absurd (cc (rw (b, snapshot, n) at h))
        | inr (e, l) ↦
            subst Agrees (same (rw (b, snapshot, l) at h)) (entry-Agrees env e (c.entry key e l))
      ]
    ]
  where
    same :
        {a b : QuerySnapshot}
        → ◌≡◌ {A = Option QuerySnapshot × Bool} (some a, true) (some b, true)
        → a ≡ b
    same e = cc
