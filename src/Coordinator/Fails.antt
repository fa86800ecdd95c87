-- ===== src/Coordinator/Fails.antt =====
-- `fail`, and the end of `unsubscribe`, keep what holds between sections.
use binbox_cli.Coordinator.Leaves.{leaves-IsCoordinated}
use binbox_cli.Base.{
  ℕ, ◌≡◌, refl, sym, ap, subst, Bool, true, some, ℕ_discrete, lookup, insert, ◌+◌, if-ind,
}
use binbox_cli.Errors.{Error, context_canceled}
use binbox_cli.Identity.{Platform, QueryKey, is_none}
use binbox_cli.Observation.{Time, utc}
use binbox_cli.Session.{fail_query, queue}
use binbox_cli.Session.State.{LoadState, query_dec}
use binbox_cli.Session.Entries.{IsCache, queue-IsCache}
use binbox_cli.Session.Finish.{fail_query-IsCache}
use binbox_cli.Session.Trace.{invalidate_context-IsCache}
use binbox_cli.Failure.{ProviderFailure, sanitized_provider_failure}
use binbox_cli.Coordinator.Channel.{Ends, ends, AllOpen}
use binbox_cli.Coordinator.{
  QueryUpdate, Phase, failing, finishing, QueryFlight, QueryCoordinator, can_commit, set_flight,
  forgotten, subscribers_of,
}
use binbox_cli.Coordinator.Flight.{at_phase, snapshot_or}
use binbox_cli.Coordinator.Finish.{fail, record_failure, store_failure, is_context_change}
use binbox_cli.Coordinator.Subscribe.{abandon}
use binbox_cli.Coordinator.Invariant.{held_by, IsFlight, IsCoordinated}
use binbox_cli.Coordinator.Sections.{still-Kept, own-IsCoordinated}

module _ {R : Type 0} (env : Platform) (c : QueryCoordinator R) (id : ℕ) (f : QueryFlight)
    (i : IsCoordinated env c) (there : lookup ℕ_discrete id c.heap ≡ some f) where
  store_failure-IsCache :
      (failure : ProviderFailure) (cache : Bool) (now : Time)
      → IsCache env (store_failure env c.store f failure cache now)
  unfolding store_failure
  store_failure-IsCache failure cache now =
      let queued = queue-IsCache env f.key i.cache in
      if-ind (IsCache env) f.began_store _ _
        (λ b. fail_query-IsCache env c.store f.key failure.state (utc now) i.cache)
        (λ b.
          if-ind (IsCache env) cache _ _
            (λ d.
              if-ind (IsCache env) (is_none (queue env c.store f.key).1) _ _
                (λ e. fail_query-IsCache env _ f.key failure.state (utc now) queued) (λ e. queued))
            (λ d. i.cache))

  pub fail-IsCoordinated :
      (e e' : Error) (now : Time)
      → f.phase ≡ failing e'
      → Ends (IsCoordinated env) (fail env c id f e now)
  unfolding fail record_failure
  fail-IsCoordinated e e' now p =
      let h : held_by f.phase ≡ 1 = ap held_by p in
      ends _ (
        if-ind
          (λ (x : QueryFlight × QueryCoordinator R).
            IsCoordinated env (set_flight x.1 id (at_phase x.0 (finishing true (update x)))))
          (is_context_change e) _ _
          (λ b.
            own-IsCoordinated env c id f i there _ _ _ _
              (still-Kept env c id f i there _ refl refl refl) (sym h)
              (invalidate_context-IsCache env c.store f.key.context i.cache))
          (λ b.
            if-ind
              (λ (x : QueryFlight × QueryCoordinator R).
                IsCoordinated env (set_flight x.1 id (at_phase x.0 (finishing true (update x)))))
              (can_commit c id f) _ _
              (λ d.
                own-IsCoordinated env c id f i there _ _ c.registry _
                  (still-Kept env c id f i there _ refl refl refl) (sym h)
                  (store_failure-IsCache _ _ now))
              (λ d.
                own-IsCoordinated env c id f i there _ c.store c.registry c.failures
                  (still-Kept env c id f i there _ refl refl refl) (sym h) i.cache)))
    where
      update : QueryFlight × QueryCoordinator R → QueryUpdate
      update (f', c') =
          let failure = (sanitized_provider_failure e f.key f.partial_pages).0 in
          record {
            key = f'.key;
            snapshot = snapshot_or env c'.store f'.key failure.state;
            failure = some failure;
          }

  pub abandon-IsCoordinated :
      (g : QueryFlight) (now : Time)
      → g.key ≡ f.key
      → g.phase ≡ f.phase
      → AllOpen (subscribers_of g)
      → IsCoordinated env (abandon env c id g now)
  unfolding abandon
  abandon-IsCoordinated g now k p o =
      let gone : IsFlight (record g { retired = true; canceled = true }) = record {
        open_ = o;
        nil = λ n. refl;
      } in
      let balance : c.slots + held_by f.phase ≡ c.slots + held_by g.phase =
        ap (λ (x : Phase). c.slots + held_by x) (sym p) in
      if-ind (IsCoordinated env) g.began_store _ _
        (λ b.
          subst
            (λ (x : QueryKey).
              IsCoordinated env
                (record (set_flight c id (record g { retired = true; canceled = true })) {
                  store = (fail_query env c.store g.key LoadState.cancelled (utc now)).0;
                  flights = forgotten c.flights id x;
                  failures =
                      insert query_dec g.key
                        (sanitized_provider_failure context_canceled g.key g.partial_pages).0
                        c.failures;
                }))
            (sym k)
            (leaves-IsCoordinated env c id f i there _ c.slots _ _ gone refl k balance i.bounded
              (fail_query-IsCache env c.store g.key LoadState.cancelled (utc now) i.cache)))
        (λ b.
          subst
            (λ (x : QueryKey).
              IsCoordinated env
                (record (set_flight c id (record g { retired = true; canceled = true })) {
                  flights = forgotten c.flights id x;
                }))
            (sym k)
            (leaves-IsCoordinated env c id f i there _ c.slots c.store c.failures gone refl k
              balance i.bounded i.cache))
