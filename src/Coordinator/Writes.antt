-- ===== src/Coordinator/Writes.antt =====
-- The sections that write to the store keep what holds between sections.
use binbox_cli.Base.{
  ℕ, ◌≡◌, refl, sym, ◌∙◌, ap, Bool, true, false, not, ◌&&◌, ◌||◌, none, some, Bool-cases,
  if◌then◌else◌, inl, inr, ◌==◌, ℕ_discrete, lookup, Map, ◌+◌,
}
use binbox_cli.Identity.{Platform, QueryKey, is_none}
use binbox_cli.Observation.{Time, QueryPage, is_zero}
use binbox_cli.Session.{Run, Reply, returned, complete_query, validate_all_observed}
use binbox_cli.Session.State.{SessionStore, PageOrder}
use binbox_cli.Session.Entries.{IsCache, begin_load-IsCache}
use binbox_cli.Session.Commit.{Returns, commit_page-IsCache}
use binbox_cli.Session.Finish.{complete_query-IsCache}
use binbox_cli.Coordinator.Channel.{Outcome, done, Ends, ends, Ends-bind, Ends-option, Ends-test}
use binbox_cli.Coordinator.{
  QuerySink, holding, completing, QueryFlight, QueryCoordinator, can_commit, set_flight,
}
use binbox_cli.Coordinator.Flight.{
  with_error, begin, try_refresh, can_refresh, ensure_begun, sink_page, store_page, page_committed,
  complete,
}
use binbox_cli.Coordinator.Invariant.{held_by, IsCoordinated}
use binbox_cli.Coordinator.Sections.{
  publish_flight-Published, still-IsFlight, still-Kept, Published-Kept, own-IsCoordinated,
  phase-IsCoordinated, try_refresh-IsCache,
}

module _ (env : Platform) (store : SessionStore) (f : QueryFlight) where
  -- What the attempt to refresh leaves of the flight.
  record Tried (g : QueryFlight) : Type 0 where
    subscribers : g.subscribers ≡ f.subscribers
    retired : g.retired ≡ f.retired
    key : g.key ≡ f.key
    phase : g.phase ≡ f.phase

  marked-Tried : (b : Bool) → Tried (if b then record f { began_store = true } else f)
  marked-Tried true = record { subscribers = refl; retired = refl; key = refl; phase = refl }
  marked-Tried false = record { subscribers = refl; retired = refl; key = refl; phase = refl }

  try_refresh-Tried : Tried (try_refresh env store f).0
  unfolding try_refresh
  try_refresh-Tried = elim (Bool-cases (f.refresh && can_refresh env store f.key)) [
    | inl b ↦ rw (b, try_refresh) (marked-Tried _)
    | inr b ↦ rw (b, try_refresh) (marked-Tried false)
  ]

  ensure_begun-IsCache : IsCache env store → IsCache env (ensure_begun env store f).0
  unfolding ensure_begun
  ensure_begun-IsCache c = elim (Bool-cases f.began_store) [
    | inl b ↦ rw (b, ensure_begun) c
    | inr b ↦ rw (b, ensure_begun) (begin_load-IsCache env f.key c)
  ]

module _ {R : Type 0} (env : Platform) (c : QueryCoordinator R) (id : ℕ) (f : QueryFlight)
    (i : IsCoordinated env c) (there : lookup ℕ_discrete id c.heap ≡ some f) where
  pub begin-IsCoordinated : f.phase ≡ holding → Ends (IsCoordinated env) (begin env c id f)
  unfolding begin
  begin-IsCoordinated p =
      let tried = try_refresh-Tried env c.store f in
      Ends-test (can_commit c id f) _ _
        (λ b.
          Ends-bind _
            (publish_flight-Published _ (try_refresh env c.store f).0
              (still-IsFlight env c id f i there _ tried.subscribers tried.retired))
            (λ g h. ends _ (
              own-IsCoordinated env c id f i there _ (try_refresh env c.store f).1 c.registry
                c.failures
                (Published-Kept env c id f i there _ g _ h.ok h tried.key tried.retired refl refl
                  refl)
                (ap held_by (sym p)) (try_refresh-IsCache env c id f i there))))
        (λ b. ends _ (phase-IsCoordinated env c id f i there _ refl refl refl (ap held_by (sym p))))

  page_committed-IsCoordinated :
      (g : QueryFlight) (store : SessionStore)
      → g.subscribers ≡ f.subscribers
      → g.retired ≡ f.retired
      → g.key ≡ f.key
      → g.phase ≡ f.phase
      → IsCache env store
      → Ends (IsCoordinated env) (page_committed env c id g store)
  unfolding page_committed
  page_committed-IsCoordinated g store s r k p cache =
      Ends-bind _
        (publish_flight-Published _ (record g { partial_pages = g.partial_pages + 1 })
          (still-IsFlight env c id f i there _ s r))
        (λ g' h. ends _ (
          own-IsCoordinated env c id f i there _ store c.registry c.failures
            (Published-Kept env c id f i there _ g' _ h.ok h k r refl refl refl)
            (ap held_by (h.phase ∙ p)) cache))

  committed-IsCoordinated :
      (sink : QuerySink) (r : Run Reply)
      → Returns (IsCache env) r
      → Ends (IsCoordinated env) (elim r [
        | Run.panicked ↦ Outcome.panicked
        | returned (store, some e) ↦ done (
            set_flight
              (record c { store = store })
              id
              (with_error (record f { began_store = true }) sink e))
        | returned (store, none) ↦ page_committed env c id (record f { began_store = true }) store
      ])
  committed-IsCoordinated sink Run.panicked h = absurd h
  committed-IsCoordinated sink (returned (store, some e)) h = ends _ (
      own-IsCoordinated env c id f i there _ store c.registry c.failures
        (still-Kept env c id f i there _ refl refl refl) refl h)
  committed-IsCoordinated sink (returned (store, none)) h =
      page_committed-IsCoordinated _ store refl refl refl refl h

  store_page-IsCoordinated :
      (sink : QuerySink) (page : QueryPage)
      → Ends (IsCoordinated env) (store_page env c id f sink page)
  unfolding store_page
  store_page-IsCoordinated sink page =
      let cache = ensure_begun-IsCache env c.store f i.cache in
      Ends-option (ensure_begun env c.store f).1 _ _
        (λ n.
          committed-IsCoordinated sink _
            (commit_page-IsCache env (ensure_begun env c.store f).0 f.key page cache))
        (λ e h. ends _ (
          own-IsCoordinated env c id f i there _ _ c.registry c.failures
            (still-Kept env c id f i there _ refl refl refl) refl cache))

  pub sink_page-IsCoordinated :
      (sink : QuerySink) (page : QueryPage)
      → Ends (IsCoordinated env) (sink_page env c id f sink page)
  unfolding sink_page
  sink_page-IsCoordinated sink page =
      Ends-option sink.protocol_err _ _
        (λ n.
          Ends-test (not (sink.terminal == 0) || not (can_commit c id f)) _ _
            (λ b. ends _ (phase-IsCoordinated env c id f i there _ refl refl refl refl))
            (λ b.
              Ends-test
                (not page.complete
                  || (is_zero page.fetched_at
                      || not (is_none (validate_all_observed env f.key.context page.resources))))
                _ _ (λ d. ends _ (phase-IsCoordinated env c id f i there _ refl refl refl refl))
                (λ d. store_page-IsCoordinated sink page)))
        (λ e h. ends _ i)

  completed-IsCoordinated :
      (store : SessionStore) (failures : Map QueryKey _) (g : QueryFlight)
      → g.subscribers ≡ f.subscribers
      → g.retired ≡ f.retired
      → g.key ≡ f.key
      → held_by g.phase ≡ held_by f.phase
      → IsCache env store
      → Ends
          (IsCoordinated env)
          (done (set_flight (record c { store = store; failures = failures }) id g))
  completed-IsCoordinated store failures g s r k p cache = ends _ (
      own-IsCoordinated env c id f i there g store c.registry failures
        (still-Kept env c id f i there g s r k) p cache)

  pub complete-IsCoordinated :
      (order : PageOrder) (t u : Time)
      → f.phase ≡ completing u
      → Ends (IsCoordinated env) (complete env order c id f t)
  unfolding complete
  complete-IsCoordinated order t u p =
      let cache = ensure_begun-IsCache env c.store f i.cache in
      let last = complete_query-IsCache env order (ensure_begun env c.store f).0 f.key t cache in
      Ends-test (can_commit c id f) _ _
        (λ b.
          Ends-option (ensure_begun env c.store f).1 _ _
            (λ n.
              Ends-option (complete_query env order (ensure_begun env c.store f).0 f.key t).1 _ _
                (λ n. completed-IsCoordinated _ _ _ refl refl refl (ap held_by (sym p)) last)
                (λ e h. completed-IsCoordinated _ _ _ refl refl refl (ap held_by (sym p)) last))
            (λ e h. completed-IsCoordinated _ _ _ refl refl refl (ap held_by (sym p)) cache))
        (λ b. completed-IsCoordinated _ _ _ refl refl refl (ap held_by (sym p)) i.cache)
