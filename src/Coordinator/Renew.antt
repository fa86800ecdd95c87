-- ===== src/Coordinator/Renew.antt =====
-- A newer generation retires the older flights of its lineage, and keeps what holds between sections.
use binbox_cli.Base.{
  ℕ, ◌≡◌, refl, sym, ◌∙◌, ap, subst, true, false, some, [], ◌∷◌, arith, Bool-cases, inl, inr,
  ℕ_discrete, lookup, Map, insert, All, All-weaken, lookup-insert_same, lookup-insert_other,
}
use binbox_cli.Identity.{QueryKey}
use binbox_cli.Coordinator.Channel.{
  Ends, ends, Ends-bind, Ends-option, Ends-test, Ends-weaken, close_all_open,
}
use binbox_cli.Coordinator.{QueryFlight, is_older, retire, retire_older, subscribers_of}
use binbox_cli.Coordinator.Invariant.{held, held_by, held-insert, IsFlight}

-- What `retireLocked` leaves of a flight.
record IsRetired (f g : QueryFlight) : Type 0 where
  ok : IsFlight g
  key : g.key ≡ f.key
  phase : g.phase ≡ f.phase
  retired : g.retired ≡ true

retire-IsRetired : (f : QueryFlight) → IsFlight f → Ends (IsRetired f) (retire f)
unfolding retire
retire-IsRetired f h = rw (close_all_open (subscribers_of f) h.open_) (
    ends _ (record {
      ok = record { open_ = tt; nil = λ n. refl };
      key = refl;
      phase = refl;
      retired = refl;
    }))

abbrev AllFlights : Map ℕ QueryFlight → Type 0
AllFlights heap = (id : ℕ) (f : QueryFlight) → lookup ℕ_discrete id heap ≡ some f → IsFlight f

-- A heap in which flights of older generations of a lineage may be retired, and no other changed.
pub record Renewed (key : QueryKey) (heap heap' : Map ℕ QueryFlight) : Type 0 where
  pub flights : AllFlights heap'
  pub there :
      (id : ℕ) (g : QueryFlight)
      → lookup ℕ_discrete id heap' ≡ some g
      → (f : QueryFlight) × (lookup ℕ_discrete id heap ≡ some f)
  pub kept :
      (id : ℕ) (f : QueryFlight)
      → lookup ℕ_discrete id heap ≡ some f
      → is_older key f.key ≡ false
      → lookup ℕ_discrete id heap' ≡ some f
  pub alive :
      (id : ℕ) (g : QueryFlight)
      → lookup ℕ_discrete id heap' ≡ some g
      → g.retired ≡ false
      → lookup ℕ_discrete id heap ≡ some g
  pub slots : held heap' ≡ held heap

-- Of the flights that these entries point to, those of older generations are retired.
abbrev pub Cleared : QueryKey → Map QueryKey ℕ → Map ℕ QueryFlight → Type 0
Cleared key l heap' =
    All
      (λ e.
        is_older key e.0 ≡ true
        → (g : QueryFlight) → lookup ℕ_discrete e.1 heap' ≡ some g
        → g.retired ≡ true)
      l

-- The flight that an entry of the loop points to.
abbrev pub Stands : Map ℕ QueryFlight → QueryKey × ℕ → Type 0
Stands heap e = (f : QueryFlight) × (lookup ℕ_discrete e.1 heap ≡ some f) × (f.key ≡ e.0)

Stands-insert :
    (id : ℕ) (f g : QueryFlight) (heap : Map ℕ QueryFlight) (e : QueryKey × ℕ)
    → lookup ℕ_discrete id heap ≡ some f
    → g.key ≡ f.key
    → Stands heap e
    → Stands (insert ℕ_discrete id g heap) e
Stands-insert id f g heap e l k s = elim (ℕ_discrete id e.1) [
  | yes p ↦
      let same : f ≡ s.0 = cc (l, s.1, p) in
      (
        g,
        subst (λ n. lookup ℕ_discrete n (insert ℕ_discrete id g heap) ≡ some g) p
            (lookup-insert_same ℕ_discrete id g heap),
        k ∙ ap (λ (x : QueryFlight). x.key) same ∙ s.2,
      )
  | no p ↦ (s.0, lookup-insert_other ℕ_discrete id e.1 g heap p ∙ s.1, s.2)
]

module _ (key : QueryKey) (id : ℕ) (f g : QueryFlight) (heap : Map ℕ QueryFlight)
    (l : lookup ℕ_discrete id heap ≡ some f) (r : IsRetired f g) (all : AllFlights heap) where
  one_retired : is_older key f.key ≡ true → Renewed key heap (insert ℕ_discrete id g heap)
  one_retired old = record {
    flights = λ j t h. elim (ℕ_discrete id j) [
      | yes p ↦
          (let same : g ≡ t = cc (lookup-insert_same ℕ_discrete id g heap) in
            subst IsFlight same r.ok)
      | no p ↦ all j t (sym (lookup-insert_other ℕ_discrete id j g heap p) ∙ h)
    ];
    there = λ j t h. elim (ℕ_discrete id j) [
      | yes p ↦ (f, subst (λ n. lookup ℕ_discrete n heap ≡ some f) p l)
      | no p ↦ (t, sym (lookup-insert_other ℕ_discrete id j g heap p) ∙ h)
    ];
    kept = λ j t h n. elim (ℕ_discrete id j) [
      | yes p ↦
          (let same : f ≡ t = cc (l, h, p) in
            absurd (cc (old, subst (λ (x : QueryFlight). is_older key x.key ≡ false) (sym same) n)))
      | no p ↦ lookup-insert_other ℕ_discrete id j g heap p ∙ h
    ];
    alive = λ j t h live. elim (ℕ_discrete id j) [
      | yes p ↦
          (let same : g ≡ t = cc (lookup-insert_same ℕ_discrete id g heap) in
            absurd (cc (live, subst (λ (x : QueryFlight). x.retired ≡ true) same r.retired)))
      | no p ↦ sym (lookup-insert_other ℕ_discrete id j g heap p) ∙ h
    ];
    slots =
        (let even : held_by g.phase ≡ held_by f.phase = ap held_by r.phase in
          omega (arith, held-insert id f g heap l, even));
  }

Renewed-trans :
    (key : QueryKey) (a b c : Map ℕ QueryFlight)
    → Renewed key a b
    → Renewed key b c
    → Renewed key a c
Renewed-trans key a b c r s = record {
  flights = s.flights;
  there = λ id g h. (let (f, l) = s.there id g h in r.there id f l);
  kept = λ id f h n. s.kept id f (r.kept id f h n) n;
  alive = λ id g h live. r.alive id g (s.alive id g h live) live;
  slots = s.slots ∙ r.slots;
}

-- A flight that a turn retired stays retired.
cleared :
    (id : ℕ) (g t : QueryFlight) (heap heap' : Map ℕ QueryFlight) (key : QueryKey)
    → g.retired ≡ true
    → Renewed key (insert ℕ_discrete id g heap) heap'
    → lookup ℕ_discrete id heap' ≡ some t
    → t.retired ≡ true
cleared id g t heap heap' key gone r at = elim (Bool-cases t.retired) [
  | inl b ↦ b
  | inr b ↦
      let same : g ≡ t = cc (lookup-insert_same ℕ_discrete id g heap, r.alive id t at b) in
      subst (λ (x : QueryFlight). x.retired ≡ true) same gone
]

pub retire_older-Renewed :
    (key : QueryKey) (l : Map QueryKey ℕ) (heap : Map ℕ QueryFlight)
    → All (Stands heap) l
    → AllFlights heap
    → Ends (λ heap'. Renewed key heap heap' × Cleared key l heap') (retire_older key l heap)
unfolding retire_older
retire_older-Renewed key [] heap s all = ends heap (
  record {
    flights = all;
    there = λ id g h. (g, h);
    kept = λ id f h n. h;
    alive = λ id g h live. h;
    slots = refl;
  },
  tt,
)
retire_older-Renewed key ((old, id) ∷ l) heap s all =
    Ends-test (is_older key old) _ _
      (λ b.
        Ends-option (lookup ℕ_discrete id heap) _ _ (λ n. absurd (cc (n, s.0.1)))
          (λ f h.
            let same : s.0.0 ≡ f = cc (s.0.1, h) in
            let k : f.key ≡ old = subst (λ (x : QueryFlight). x.key ≡ old) same s.0.2 in
            Ends-bind _ (retire-IsRetired f (all id f h)) (λ g r.
              let g' : QueryFlight = record g { canceled = true } in
              let r' : IsRetired f g' = record {
                ok = record { open_ = r.ok.open_; nil = r.ok.nil };
                key = r.key;
                phase = r.phase;
                retired = r.retired;
              } in
              let one = one_retired key id f g' heap h r' all (ap (is_older key) k ∙ b) in
              Ends-weaken
                (λ heap' more. (
                  Renewed-trans key heap _ heap' one more.0,
                  (λ q t at. cleared id g' t heap heap' key r.retired more.0 at, more.1),
                ))
                (retire_older-Renewed key l _
                  (All-weaken _ _ (λ e. Stands-insert id f g' heap e h r.key) l s.1) one.flights))))
      (λ b.
        Ends-weaken (λ heap' more. (more.0, (λ q. absurd (cc (b, q)), more.1)))
          (retire_older-Renewed key l heap s.1 all))
