-- ===== src/Coordinator/Sections.antt =====
-- The sections of `run`, of the sink, and of `complete` and `fail` keep what holds between sections.
use binbox_cli.Failure.{ProviderFailure}
use binbox_cli.Registry.{ContextRegistry}
use binbox_cli.Base.{
  ℕ, ◌+◌, ◌≡◌, refl, sym, ◌∙◌, ap, subst, not, ◌&&◌, ◌||◌, Option, none, some, [], arith,
  Bool-cases, inl, inr, ltb, ◌==◌, ℕ_discrete, lookup, Map,
}
use binbox_cli.Identity.{Platform, QueryKey}
use binbox_cli.Observation.{Time, is_zero}
use binbox_cli.Session.State.{SessionStore}
use binbox_cli.Session.Entries.{IsCache, begin_refresh-IsCache}
use binbox_cli.Coordinator.Channel.{
  Ends, Ends-if, publish_open, each_holding-AllOpen, Subscriber, AllOpen, ends, Ends-option,
}
use binbox_cli.Coordinator.{
  QueryUpdate, QuerySink, Phase, waiting, holding, completed, QueryFlight, QueryCoordinator,
  publish_flight, can_commit, set_flight,
}
use binbox_cli.Coordinator.Flight.{
  at_phase, acquire, give_up, try_refresh, can_refresh, sink_complete, conclude,
}
use binbox_cli.Coordinator.Invariant.{
  held_by, IsFlight, IsCoordinated, Kept, Kept-IsCoordinated, stays-IsCoordinated,
}

-- What a publication keeps of a flight.
pub record Published (f g : QueryFlight) : Type 0 where
  pub ok : IsFlight g
  pub key : g.key ≡ f.key
  pub retired : g.retired ≡ f.retired
  pub phase : g.phase ≡ f.phase

pub publish_flight-Published :
    (update : QueryUpdate) (f : QueryFlight)
    → IsFlight f
    → Ends (Published f) (publish_flight update f)
unfolding publish_flight
publish_flight-Published update f h =
    Ends-option f.subscribers _ _
      (λ n. ends f (record { ok = h; key = refl; retired = refl; phase = refl }))
      (λ m e. rw (publish_open update m (open_at m e)) (
        ends _ (record {
          ok = record { open_ = each_holding-AllOpen update m; nil = λ p. absurd (cc p) };
          key = refl;
          retired = refl;
          phase = refl;
        })))
  where
    open_at : (m : Map ℕ (Subscriber QueryUpdate)) → f.subscribers ≡ some m → AllOpen m
    open_at m e =
        subst
          (λ (o : Option (Map ℕ (Subscriber QueryUpdate))).
            AllOpen (elim o [ none ↦ [] | some m ↦ m ]))
          e h.open_

module _ {R : Type 0} (env : Platform) (c : QueryCoordinator R) (id : ℕ) (f : QueryFlight)
    (i : IsCoordinated env c) (there : lookup ℕ_discrete id c.heap ≡ some f) where
  pub still-IsFlight :
      (g : QueryFlight) → g.subscribers ≡ f.subscribers → g.retired ≡ f.retired → IsFlight g
  still-IsFlight g e r =
      let h = i.flights id f there in
      record {
        open_ =
            subst
              (λ (m : Option (Map ℕ (Subscriber QueryUpdate))).
                AllOpen (elim m [ none ↦ [] | some m ↦ m ]))
              (sym e) h.open_;
        nil = λ n. r ∙ h.nil (sym e ∙ n);
      }

  -- A flight whose subscribers stay.
  pub still-Kept :
      (g : QueryFlight)
      → g.subscribers ≡ f.subscribers
      → g.retired ≡ f.retired
      → g.key ≡ f.key
      → Kept env c id f g
  still-Kept g e r k = record { there = there; ok = still-IsFlight g e r; key = k; retired = r }

  -- A section that changes its flight's own fields, the store and the failures.
  pub own-IsCoordinated :
      (g : QueryFlight) (store : SessionStore) (registry : Option (ContextRegistry R))
      (failures : Map QueryKey ProviderFailure)
      → Kept env c id f g
      → held_by g.phase ≡ held_by f.phase
      → IsCache env store
      → IsCoordinated env
          (set_flight (record c { store = store; registry = registry; failures = failures }) id g)
  own-IsCoordinated g store registry failures h p cache =
      stays-IsCoordinated env c id f g store registry failures c.next_id i h p cache

  pub phase-IsCoordinated :
      (g : QueryFlight)
      → g.subscribers ≡ f.subscribers
      → g.retired ≡ f.retired
      → g.key ≡ f.key
      → held_by g.phase ≡ held_by f.phase
      → IsCoordinated env (set_flight c id g)
  phase-IsCoordinated g e r k p =
      own-IsCoordinated g c.store c.registry c.failures (still-Kept g e r k) p i.cache

  pub acquire-IsCoordinated : f.phase ≡ waiting → Ends (IsCoordinated env) (acquire c id f)
  unfolding acquire
  acquire-IsCoordinated p =
      Ends-if (ltb c.slots c.max_concurrent) _ _
        (λ b. ends _ (
          Kept-IsCoordinated env c id f (at_phase f holding) (c.slots + 1) c.store c.registry
            c.failures c.next_id i (still-Kept _ refl refl refl)
            (ap (λ (x : Phase). c.slots + 1 + held_by x) p ∙ omega arith) (ground arith) i.cache))
        (λ b. ends _ i)

  pub give_up-IsCoordinated : f.phase ≡ waiting → Ends (IsCoordinated env) (give_up c id f)
  unfolding give_up
  give_up-IsCoordinated p =
      Ends-if f.canceled _ _
        (λ b. ends _ (phase-IsCoordinated _ refl refl refl (sym (ap held_by p)))) (λ b. ends _ i)

  pub sink_complete-IsCoordinated :
      (sink : QuerySink) (t : Time) → Ends (IsCoordinated env) (sink_complete c id f sink t)
  unfolding sink_complete
  sink_complete-IsCoordinated sink t =
      Ends-option sink.protocol_err _ _
        (λ n.
          Ends-if (not (sink.terminal == 0) || (is_zero t || not (can_commit c id f))) _ _
            (λ b. ends _ (phase-IsCoordinated _ refl refl refl refl))
            (λ b. ends _ (phase-IsCoordinated _ refl refl refl refl)))
        (λ e h. ends _ i)

  pub conclude-IsCoordinated : f.phase ≡ completed → Ends (IsCoordinated env) (conclude env c id f)
  unfolding conclude
  conclude-IsCoordinated p = ends _ (phase-IsCoordinated _ refl refl refl (sym (ap held_by p)))

  -- A flight that a publication leaves, and whose fields but the subscribers then change.
  pub Published-Kept :
      (f' g h : QueryFlight)
      → IsFlight g
      → Published f' g
      → f'.key ≡ f.key
      → f'.retired ≡ f.retired
      → h.subscribers ≡ g.subscribers
      → h.retired ≡ g.retired
      → h.key ≡ g.key
      → Kept env c id f h
  Published-Kept f' g h o p k r hs hr hk = record {
    there = there;
    ok = record {
      open_ =
          subst
            (λ (o : Option (Map ℕ (Subscriber QueryUpdate))).
              AllOpen (elim o [ none ↦ [] | some m ↦ m ]))
            (sym hs) o.open_;
      nil = λ n. hr ∙ o.nil (sym hs ∙ n);
    };
    key = hk ∙ p.key ∙ k;
    retired = hr ∙ p.retired ∙ r;
  }

  pub try_refresh-IsCache : IsCache env (try_refresh env c.store f).1
  unfolding try_refresh
  try_refresh-IsCache = elim (Bool-cases (f.refresh && can_refresh env c.store f.key)) [
    | inl b ↦ rw (b, try_refresh) (begin_refresh-IsCache env f.key i.cache)
    | inr b ↦ rw (b, try_refresh) i.cache
  ]
