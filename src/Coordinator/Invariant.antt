-- ===== src/Coordinator/Invariant.antt =====
-- What holds of the coordinator between any two sections.
use binbox_cli.Base.{
  ℕ, ◌+◌, ◌≤◌, ◌<◌, ◌≡◌, ◌≢◌, sym, ◌∙◌, ap, subst, true, false, Option, none, some, [], ◌∷◌, arith,
  if◌then◌else◌, ℕ_discrete, Map, lookup, insert, lookup-insert_same, lookup-insert_other, Distinct,
  if_pos, if_neg,
}
use binbox_cli.Identity.{Platform, QueryKey}
use binbox_cli.Session.State.{SessionStore, query_dec}
use binbox_cli.Session.Entries.{IsCache}
use binbox_cli.Registry.{ContextRegistry}
use binbox_cli.Failure.{ProviderFailure}
use binbox_cli.Coordinator.Channel.{AllOpen}
use binbox_cli.Coordinator.{
  Phase, waiting, finishing, stopped, QueryFlight, QueryCoordinator, latest_of, lineage_for,
  subscribers_of,
}

-- How many slots of the limit a goroutine in a phase holds.
abbrev pub held_by : Phase → ℕ
held_by waiting = 0
held_by stopped = 0
held_by (finishing slot update) = if slot then 1 else 0
held_by _ = 1

unfoldable pub held : Map ℕ QueryFlight → ℕ
held [] = 0
held ((id, flight) ∷ heap) = held_by flight.phase + held heap

pub held-insert :
    (id : ℕ) (f g : QueryFlight) (heap : Map ℕ QueryFlight)
    → lookup ℕ_discrete id heap ≡ some f
    → held (insert ℕ_discrete id g heap) + held_by f.phase ≡ held heap + held_by g.phase
unfolding held lookup insert
held-insert id f g [] h = absurd cc
held-insert id f g ((j, t) ∷ heap) h = elim (ℕ_discrete j id) [
  | yes e ↦
      let same : t ≡ f = cc (rw (if_pos _ e) at h) in
      let p : held_by t.phase ≡ held_by f.phase = ap (λ (x : QueryFlight). held_by x.phase) same in
      rw (if_pos _ e) (omega (arith, p))
  | no e ↦ rw (if_neg _ e) (omega (arith, held-insert id f g heap (rw (if_neg _ e) at h)))
]

pub held-insert_new :
    (id : ℕ) (g : QueryFlight) (heap : Map ℕ QueryFlight)
    → lookup ℕ_discrete id heap ≡ none
    → held (insert ℕ_discrete id g heap) ≡ held heap + held_by g.phase
unfolding held lookup insert
held-insert_new id g [] h = omega arith
held-insert_new id g ((j, t) ∷ heap) h = elim (ℕ_discrete j id) [
  | yes e ↦ absurd (cc (rw (if_pos _ e) at h))
  | no e ↦ rw (if_neg _ e) (omega (arith, held-insert_new id g heap (rw (if_neg _ e) at h)))
]

-- Every subscriber that a flight has is open, and its map is nil only when it is retired.
pub record IsFlight (f : QueryFlight) : Type 0 where
  pub open_ : AllOpen (subscribers_of f)
  pub nil : f.subscribers ≡ none → f.retired ≡ true

module _ {R : Type 0} (env : Platform) where
  -- The flight that a query's entry points to: of that query, not retired, and of no older
  -- generation than the newest of its lineage.
  pub record IsCurrent (c : QueryCoordinator R) (k : QueryKey) (id : ℕ) : Type 0 where
    pub flight : QueryFlight
    pub there : lookup ℕ_discrete id c.heap ≡ some flight
    pub key : flight.key ≡ k
    pub live : flight.retired ≡ false
    pub newest : latest_of c.latest (lineage_for k) ≤ k.context.credential_gen

  pub record IsCoordinated (c : QueryCoordinator R) : Type 0 where
    pub flights : (id : ℕ) (f : QueryFlight) → lookup ℕ_discrete id c.heap ≡ some f → IsFlight f
    pub current :
        (k : QueryKey) (id : ℕ) → lookup query_dec k c.flights ≡ some id → IsCurrent c k id
    pub entered :
        (id : ℕ) (f : QueryFlight)
        → lookup ℕ_discrete id c.heap ≡ some f
        → f.retired ≡ false
        → lookup query_dec f.key c.flights ≡ some id
    pub distinct : Distinct c.flights
    pub older :
        (id : ℕ) (f : QueryFlight) → lookup ℕ_discrete id c.heap ≡ some f → id < c.next_flight
    pub slots : c.slots ≡ held c.heap
    pub bounded : c.slots ≤ c.max_concurrent
    pub cache : IsCache env c.store

  -- What a section may change: a flight, which keeps its key, and all that is not about flights.
  pub record Change (c : QueryCoordinator R) (id : ℕ) (f g : QueryFlight) (flights : Map QueryKey ℕ)
      (slots : ℕ) (store : SessionStore) : Type 0 where
    pub there : lookup ℕ_discrete id c.heap ≡ some f
    pub ok : IsFlight g
    pub key : g.key ≡ f.key
    pub kept :
        (k : QueryKey) (j : ℕ)
        → lookup query_dec k flights ≡ some j
        → lookup query_dec k c.flights ≡ some j
    pub live : (k : QueryKey) → lookup query_dec k flights ≡ some id → g.retired ≡ false
    pub mine : g.retired ≡ false → lookup query_dec f.key flights ≡ some id
    pub others :
        (k : QueryKey) (j : ℕ)
        → lookup query_dec k c.flights ≡ some j
        → j ≢ id
        → lookup query_dec k flights ≡ some j
    pub distinct : Distinct flights
    pub balance : slots + held_by f.phase ≡ c.slots + held_by g.phase
    pub bounded : slots ≤ c.max_concurrent
    pub cache : IsCache env store

  pub Change-IsCoordinated :
      (c : QueryCoordinator R) (id : ℕ) (f g : QueryFlight) (flights : Map QueryKey ℕ) (slots : ℕ)
      (store : SessionStore) (registry : Option (ContextRegistry R))
      (failures : Map QueryKey ProviderFailure) (next_id : ℕ)
      → IsCoordinated c
      → Change c id f g flights slots store
      → IsCoordinated (record {
        store = store;
        registry = registry;
        max_concurrent = c.max_concurrent;
        slots = slots;
        heap = insert ℕ_discrete id g c.heap;
        flights = flights;
        latest = c.latest;
        failures = failures;
        next_id = next_id;
        next_flight = c.next_flight;
      })
  Change-IsCoordinated c id f g flights slots store registry failures next_id i h = record {
    flights = λ j t l. elim (ℕ_discrete id j) [
      | yes e ↦
          (let same : g ≡ t = cc (lookup-insert_same ℕ_discrete id g c.heap) in
            subst IsFlight same h.ok)
      | no n ↦ i.flights j t (sym (lookup-insert_other ℕ_discrete id j g c.heap n) ∙ l)
    ];
    current = λ k j l.
        let was = i.current k j (h.kept k j l) in
        elim (ℕ_discrete id j) [
          | yes e ↦ record {
            flight = g;
            there =
                subst (λ n. lookup ℕ_discrete n (insert ℕ_discrete id g c.heap) ≡ some g) e
                  (lookup-insert_same ℕ_discrete id g c.heap);
            key =
                h.key
                ∙ (let same : f ≡ was.flight = cc (h.there, was.there) in
                    ap (λ (x : QueryFlight). x.key) same)
                ∙ was.key;
            live = h.live k (l ∙ ap some (sym e));
            newest = was.newest;
          }
          | no n ↦ record {
            flight = was.flight;
            there = lookup-insert_other ℕ_discrete id j g c.heap n ∙ was.there;
            key = was.key;
            live = was.live;
            newest = was.newest;
          }
        ];
    entered = λ j t l r. elim (ℕ_discrete id j) [
      | yes e ↦
          (let same : g ≡ t = cc (lookup-insert_same ℕ_discrete id g c.heap) in
            let key : t.key ≡ f.key = subst (λ (x : QueryFlight). x.key ≡ f.key) same h.key in
            ap (λ k. lookup query_dec k flights) key
            ∙ h.mine (subst (λ (x : QueryFlight). x.retired ≡ false) (sym same) r)
            ∙ ap some e)
      | no n ↦
          h.others t.key j
            (i.entered j t (sym (lookup-insert_other ℕ_discrete id j g c.heap n) ∙ l) r)
            (λ e. n (sym e))
    ];
    distinct = h.distinct;
    older = λ j t l. elim (ℕ_discrete id j) [
      | yes e ↦ subst (λ n. n < c.next_flight) e (i.older id f h.there)
      | no n ↦ i.older j t (sym (lookup-insert_other ℕ_discrete id j g c.heap n) ∙ l)
    ];
    slots = omega (arith, i.slots, h.balance, held-insert id f g c.heap h.there);
    bounded = h.bounded;
    cache = h.cache;
  }

  -- The slots that a flight holds are among those taken.
  pub held_by-le :
      (c : QueryCoordinator R) (id : ℕ) (f : QueryFlight)
      → IsCoordinated c
      → lookup ℕ_discrete id c.heap ≡ some f
      → held_by f.phase ≤ c.slots
  held_by-le c id f i h =
      omega (arith, i.slots, held-insert id f (record f { phase = stopped }) c.heap h)

  -- What a section keeps of its flight, where the entries of the flights stay.
  pub record Kept (c : QueryCoordinator R) (id : ℕ) (f g : QueryFlight) : Type 0 where
    pub there : lookup ℕ_discrete id c.heap ≡ some f
    pub ok : IsFlight g
    pub key : g.key ≡ f.key
    pub retired : g.retired ≡ f.retired

  -- A flight with an entry is not retired.
  pub entry_live :
      (c : QueryCoordinator R) (id : ℕ) (f : QueryFlight) (k : QueryKey)
      → IsCoordinated c
      → lookup ℕ_discrete id c.heap ≡ some f
      → lookup query_dec k c.flights ≡ some id
      → (f.retired ≡ false) × (f.key ≡ k)
  entry_live c id f k i h l =
      let was = i.current k id l in
      let same : was.flight ≡ f = cc (was.there, h) in
      (
        subst (λ (x : QueryFlight). x.retired ≡ false) same was.live,
        subst (λ (x : QueryFlight). x.key ≡ k) same was.key,
      )

  pub Kept-IsCoordinated :
      (c : QueryCoordinator R) (id : ℕ) (f g : QueryFlight) (slots : ℕ) (store : SessionStore)
      (registry : Option (ContextRegistry R)) (failures : Map QueryKey ProviderFailure)
      (next_id : ℕ)
      → IsCoordinated c
      → Kept c id f g
      → slots + held_by f.phase ≡ c.slots + held_by g.phase
      → slots ≤ c.max_concurrent
      → IsCache env store
      → IsCoordinated (record {
        store = store;
        registry = registry;
        max_concurrent = c.max_concurrent;
        slots = slots;
        heap = insert ℕ_discrete id g c.heap;
        flights = c.flights;
        latest = c.latest;
        failures = failures;
        next_id = next_id;
        next_flight = c.next_flight;
      })
  Kept-IsCoordinated c id f g slots store registry failures next_id i h balance bounded cache =
      Change-IsCoordinated c id f g c.flights slots store registry failures next_id i (record {
        there = h.there;
        ok = h.ok;
        key = h.key;
        kept = λ k j l. l;
        live = λ k l. h.retired ∙ (entry_live c id f k i h.there l).0;
        mine = λ r. i.entered id f h.there (sym h.retired ∙ r);
        others = λ k j l n. l;
        distinct = i.distinct;
        balance = balance;
        bounded = bounded;
        cache = cache;
      })

  -- A section that keeps how many slots its flight holds.
  pub stays-IsCoordinated :
      (c : QueryCoordinator R) (id : ℕ) (f g : QueryFlight) (store : SessionStore)
      (registry : Option (ContextRegistry R)) (failures : Map QueryKey ProviderFailure)
      (next_id : ℕ)
      → IsCoordinated c
      → Kept c id f g
      → held_by g.phase ≡ held_by f.phase
      → IsCache env store
      → IsCoordinated (record {
        store = store;
        registry = registry;
        max_concurrent = c.max_concurrent;
        slots = c.slots;
        heap = insert ℕ_discrete id g c.heap;
        flights = c.flights;
        latest = c.latest;
        failures = failures;
        next_id = next_id;
        next_flight = c.next_flight;
      })
  stays-IsCoordinated c id f g store registry failures next_id i h p cache =
      Kept-IsCoordinated c id f g c.slots store registry failures next_id i h
        (ap (λ (n : ℕ). c.slots + n) (sym p)) i.bounded cache
