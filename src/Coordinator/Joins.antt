-- ===== src/Coordinator/Joins.antt =====
-- Every branch of `subscribe` keeps what holds between sections.
use binbox_cli.Base.{
  ℕ, ◌≡◌, ◌≢◌, refl, sym, ◌∙◌, ap, subst, Bool, false, ◌&&◌, Option, none, some, [], arith,
  Bool-cases, Option-cases, inl, inr, ℕ_discrete, lookup, Map, insert, ◌+◌, ◌≤◌, All-weaken, keep,
  keep-Distinct, lookup-keep, lookup_entries, lookup-insert_same, lookup-insert_other,
  insert-Distinct, ltb, holds, All-lookup,
}
use binbox_cli.Identity.{Platform, QueryKey}
use binbox_cli.Session.State.{LoadState, query_dec}
use binbox_cli.Session.Invalidate.{invalidate_generation}
use binbox_cli.Session.Trace.{invalidate_generation-IsCache}
use binbox_cli.Coordinator.Channel.{
  Ends, ends, Ends-bind, Ends-option, Ends-test, insert-AllOpen, new_subscriber, Subscriber,
  AllOpen, send, close,
}
use binbox_cli.Coordinator.{
  QueryFlight, QueryCoordinator, QueryLineage, lineage_dec, lineage_for, latest_of, is_older,
  add_subscriber, join_flight, start_flight, new_flight, state_update, immediate_subscription,
  QueryUpdate,
}
use binbox_cli.Coordinator.Subscribe.{renew_lineage, open_flight, subscribe_locked}
use binbox_cli.Coordinator.Invariant.{
  held_by, held-insert_new, IsFlight, IsCoordinated, stays-IsCoordinated,
}
use binbox_cli.Coordinator.Renew.{Renewed, retire_older-Renewed, Stands, Cleared}
use binbox_cli.Coordinator.Sections.{publish_flight-Published, Published}

latest_of-insert :
    (key k : QueryKey) (latest : Map QueryLineage ℕ)
    → is_older key k ≡ false
    → latest_of latest (lineage_for k) ≤ k.context.credential_gen
    → latest_of
        (insert lineage_dec (lineage_for key) key.context.credential_gen latest)
        (lineage_for k)
      ≤ k.context.credential_gen
unfolding latest_of is_older
latest_of-insert key k latest o h = elim (lineage_dec (lineage_for key) (lineage_for k)) [
  | no n ↦
      rw
        (
          latest_of,
          lookup-insert_other lineage_dec (lineage_for key) (lineage_for k)
              key.context.credential_gen latest n,
        )
        h
  | yes e ↦
      let found =
        subst
          (λ x.
            lookup lineage_dec x
              (insert lineage_dec (lineage_for key) key.context.credential_gen latest)
            ≡ some key.context.credential_gen)
          e (lookup-insert_same lineage_dec (lineage_for key) key.context.credential_gen latest) in
      elim (lineage_dec (lineage_for k) (lineage_for key))
          as (λ d.
            holds d && ltb k.context.credential_gen key.context.credential_gen ≡ false
            → latest_of (insert lineage_dec (lineage_for key) key.context.credential_gen latest)
                (lineage_for k)
              ≤ k.context.credential_gen) [
                | yes same ↦ λ q. rw (latest_of, found) (ground (arith, q))
                | no other ↦ λ q. absurd (other (sym e))
              ]
        o
]

-- No flight of the key goes on.
abbrev IsVacant : QueryKey → Map ℕ QueryFlight → Type 0
IsVacant key heap =
    (id : ℕ) (f : QueryFlight)
    → lookup ℕ_discrete id heap ≡ some f
    → f.retired ≡ false
    → f.key ≢ key

module _ {R : Type 0} (env : Platform) (c : QueryCoordinator R) (key : QueryKey)
    (i : IsCoordinated env c) where
  -- The coordinator, whose newest generation of the key's lineage is not newer than the key.
  record IsRenewed (c' : QueryCoordinator R) : Type 0 where
    ok : IsCoordinated env c'
    newest : latest_of c'.latest (lineage_for key) ≤ key.context.credential_gen
    vacant : IsVacant key c'.heap

  Renewed-IsCoordinated :
      (heap : Map ℕ QueryFlight)
      → Renewed key c.heap heap
      → Cleared key c.flights heap
      → IsCoordinated env (record c {
        latest = insert lineage_dec (lineage_for key) key.context.credential_gen c.latest;
        store = (invalidate_generation env c.store key.context).0;
        heap = heap;
        flights = keep (is_older key) c.flights;
        failures = keep (is_older key) c.failures;
      })
  Renewed-IsCoordinated heap r clear = record {
    flights = r.flights;
    current = λ k id l. elim (Bool-cases (is_older key k)) [
      | inl b ↦ absurd (cc (sym (lookup-keep query_dec (is_older key) k c.flights) ∙ l, b))
      | inr b ↦
          (let was =
              i.current k id
                (sym (rw b at (lookup-keep query_dec (is_older key) k c.flights)) ∙ l) in
            record {
              flight = was.flight;
              there = r.kept id was.flight was.there (ap (is_older key) was.key ∙ b);
              key = was.key;
              live = was.live;
              newest = latest_of-insert key k c.latest b was.newest;
            })
    ];
    entered = λ id g l live.
        let there = r.alive id g l live in
        let was = i.entered id g there live in
        elim (Bool-cases (is_older key g.key)) [
          | inl b ↦ absurd (cc (live, All-lookup query_dec _ g.key id c.flights clear was b g l))
          | inr b ↦ lookup-keep query_dec (is_older key) g.key c.flights ∙ rw b was
        ];
    distinct = keep-Distinct query_dec (is_older key) c.flights i.distinct;
    older = λ id f l. (let (g, h) = r.there id f l in i.older id g h);
    slots = i.slots ∙ sym r.slots;
    bounded = i.bounded;
    cache = invalidate_generation-IsCache env c.store key.context i.cache;
  }

  renew_lineage-IsRenewed : IsVacant key c.heap → Ends IsRenewed (renew_lineage env c key)
  unfolding renew_lineage latest_of
  renew_lineage-IsRenewed v =
      Ends-bind _
        (retire_older-Renewed key c.flights c.heap
          (All-weaken _ (Stands c.heap)
            (λ e l. (let was = i.current e.0 e.1 l in (was.flight, was.there, was.key))) c.flights
            (lookup_entries query_dec c.flights i.distinct))
          i.flights)
        (λ heap r. ends _ (record {
          ok = Renewed-IsCoordinated heap r.0 r.1;
          vacant = λ id f l live. v id f (r.0.alive id f l live) live;
          newest =
              rw
                (
                  latest_of,
                  lookup-insert_same lineage_dec (lineage_for key) key.context.credential_gen
                      c.latest,
                )
                (omega arith);
        }))

  pub join_flight-IsCoordinated :
      (id : ℕ) (f : QueryFlight)
      → lookup ℕ_discrete id c.heap ≡ some f
      → f.retired ≡ false
      → Ends (λ r. IsCoordinated env r.0) (join_flight c id f)
  unfolding join_flight add_subscriber
  join_flight-IsCoordinated id f l live =
      let h = i.flights id f l in
      Ends-bind _ (joined h) (λ g k. ends _ (
        stays-IsCoordinated env c id f g c.store c.registry c.failures (c.next_id + 1) i
          (record { there = l; ok = k.ok; key = k.key; retired = k.retired }) (ap held_by k.phase)
          i.cache))
    where
      joined : IsFlight f → Ends (Published f) (add_subscriber (c.next_id + 1) f)
      joined h =
          Ends-option f.subscribers _ _ (λ n. absurd (cc (h.nil n, live)))
            (λ m e. ends _ (record {
              ok = record {
                open_ =
                    insert-AllOpen (c.next_id + 1) new_subscriber m
                      (record { flag = refl; channel = refl })
                      (subst
                        (λ (o : Option (Map ℕ (Subscriber QueryUpdate))).
                          AllOpen (elim o [ none ↦ [] | some m ↦ m ]))
                        e h.open_);
                nil = λ n. absurd (cc n);
              };
              key = refl;
              retired = refl;
              phase = refl;
            }))

  -- A heap with a new flight, which the key's entry points to.
  started-IsCoordinated :
      (g : QueryFlight) (next_id : ℕ)
      → latest_of c.latest (lineage_for key) ≤ key.context.credential_gen
      → IsVacant key c.heap
      → IsFlight g
      → g.key ≡ key
      → g.retired ≡ false
      → held_by g.phase ≡ 0
      → IsCoordinated env (record c {
        heap = insert ℕ_discrete c.next_flight g c.heap;
        flights = insert query_dec key c.next_flight c.flights;
        next_id = next_id;
        next_flight = c.next_flight + 1;
      })
  started-IsCoordinated g next_id newest v ok k live zero_ = record {
    flights = λ j t l. elim (ℕ_discrete c.next_flight j) [
      | yes e ↦
          (let same : g ≡ t = cc (lookup-insert_same ℕ_discrete c.next_flight g c.heap) in
            subst IsFlight same ok)
      | no n ↦ i.flights j t (sym (lookup-insert_other ℕ_discrete c.next_flight j g c.heap n) ∙ l)
    ];
    current = λ q j l. elim (query_dec key q) [
      | yes e ↦
          (let mine : c.next_flight ≡ j = option_value (
              sym (
                subst
                  (λ x.
                    lookup query_dec x (insert query_dec key c.next_flight c.flights)
                    ≡ some c.next_flight)
                  e (lookup-insert_same query_dec key c.next_flight c.flights))
              ∙ l) in
            record {
              flight = g;
              there =
                  subst
                    (λ n. lookup ℕ_discrete n (insert ℕ_discrete c.next_flight g c.heap) ≡ some g)
                    mine (lookup-insert_same ℕ_discrete c.next_flight g c.heap);
              key = k ∙ e;
              live = live;
              newest =
                  subst
                    (λ (x : QueryKey).
                      latest_of c.latest (lineage_for x) ≤ x.context.credential_gen)
                    e newest;
            })
      | no n ↦
          (let was =
              i.current q j
                (sym (lookup-insert_other query_dec key q c.next_flight c.flights n) ∙ l) in
            record {
              flight = was.flight;
              there =
                  lookup-insert_other ℕ_discrete c.next_flight j g c.heap
                    (λ e. absurd (omega (arith, i.older j was.flight was.there, e)))
                  ∙ was.there;
              key = was.key;
              live = was.live;
              newest = was.newest;
            })
    ];
    entered = λ j t l alive. elim (ℕ_discrete c.next_flight j) [
      | yes e ↦
          (let same : g ≡ t = cc (lookup-insert_same ℕ_discrete c.next_flight g c.heap) in
            let mine : key ≡ t.key = sym k ∙ ap (λ (x : QueryFlight). x.key) same in
            subst (λ x. lookup query_dec x (insert query_dec key c.next_flight c.flights) ≡ some j)
              mine (lookup-insert_same query_dec key c.next_flight c.flights ∙ ap some e))
      | no n ↦
          (let there = sym (lookup-insert_other ℕ_discrete c.next_flight j g c.heap n) ∙ l in
            lookup-insert_other query_dec key t.key c.next_flight c.flights
              (λ e. v j t there alive (sym e))
            ∙ i.entered j t there alive)
    ];
    distinct = insert-Distinct query_dec key c.next_flight c.flights i.distinct;
    older = λ j t l. elim (ℕ_discrete c.next_flight j) [
      | yes e ↦ omega (arith, e)
      | no n ↦
          omega (
            arith,
            i.older j t (sym (lookup-insert_other ℕ_discrete c.next_flight j g c.heap n) ∙ l),
          )
    ];
    slots = omega (arith, i.slots, zero_, held-insert_new c.next_flight g c.heap fresh);
    bounded = i.bounded;
    cache = i.cache;
  }
    where
      option_value : {a b : ℕ} → some a ≡ some b → a ≡ b
      option_value e = ground (arith, e)

      fresh : lookup ℕ_discrete c.next_flight c.heap ≡ none
      fresh = elim (Option-cases (lookup ℕ_discrete c.next_flight c.heap)) [
        | inl n ↦ n
        | inr (f, e) ↦ absurd (omega (arith, i.older c.next_flight f e))
      ]

  start_flight-IsCoordinated :
      (refresh : Bool)
      → IsVacant key c.heap
      → latest_of c.latest (lineage_for key) ≤ key.context.credential_gen
      → Ends (λ r. IsCoordinated env r.0) (start_flight c key refresh)
  unfolding start_flight add_subscriber
  start_flight-IsCoordinated refresh v newest =
      let first : QueryFlight = record (new_flight key refresh) {
        subscribers = some (insert ℕ_discrete (c.next_id + 1) new_subscriber []);
      } in
      let h : IsFlight first = record {
        open_ =
            insert-AllOpen (c.next_id + 1) new_subscriber []
              (record { flag = refl; channel = refl }) tt;
        nil = λ n. absurd (cc n);
      } in
      Ends-bind _ (publish_flight-Published (state_update key LoadState.queued) first h) (λ g p.
        ends _ (
          started-IsCoordinated g (c.next_id + 1) newest v p.ok p.key p.retired
            (ap held_by p.phase)))

immediate_subscription-Ends :
    (update : QueryUpdate) → Ends (λ s. Unit {0}) (immediate_subscription update)
unfolding immediate_subscription send close
immediate_subscription-Ends update = ends _ tt

module _ {R : Type 0} (env : Platform) (c : QueryCoordinator R) (key : QueryKey) (refresh : Bool)
    (i : IsCoordinated env c) where
  open_flight-IsCoordinated :
      IsVacant key c.heap → Ends (λ r. IsCoordinated env r.0) (open_flight env c key refresh)
  unfolding open_flight
  open_flight-IsCoordinated v =
      Ends-test (ltb (latest_of c.latest (lineage_for key)) key.context.credential_gen) _ _
        (λ b.
          Ends-bind _ (renew_lineage-IsRenewed env c key i v)
            (λ c' r. start_flight-IsCoordinated env c' key r.ok refresh r.vacant r.newest))
        (λ b.
          Ends-test (ltb key.context.credential_gen (latest_of c.latest (lineage_for key))) _ _
            (λ d. Ends-bind _ (immediate_subscription-Ends _) (λ s t. ends _ i))
            (λ d. start_flight-IsCoordinated env c key i refresh v (ground arith)))

  pub subscribe_locked-IsCoordinated :
      Ends (λ r. IsCoordinated env r.0) (subscribe_locked env c key refresh)
  unfolding subscribe_locked
  subscribe_locked-IsCoordinated =
      Ends-option (lookup query_dec key c.flights) _ _
        (λ n. open_flight-IsCoordinated (λ j t l live e.
          absurd
            (cc (n, subst (λ x. lookup query_dec x c.flights ≡ some j) e (i.entered j t l live)))))
        (λ id l.
          let was = i.current key id l in
          Ends-option (lookup ℕ_discrete id c.heap) _ _ (λ n. absurd (cc (n, was.there)))
            (λ f h.
              let same : was.flight ≡ f = cc (was.there, h) in
              let live = subst (λ (x : QueryFlight). x.retired ≡ false) same was.live in
              Ends-test f.retired _ _ (λ b. absurd (cc (b, live)))
                (λ b. join_flight-IsCoordinated env c key i id f h b)))
