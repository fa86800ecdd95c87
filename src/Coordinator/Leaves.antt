-- ===== src/Coordinator/Leaves.antt =====
-- `finish` keeps what holds between sections.
use binbox_cli.Coordinator.Forget.{forgotten-Distinct, forgotten_found, forgotten_others}
use binbox_cli.Base.{
  ℕ, ◌≡◌, refl, ap, Bool, true, false, none, some, arith, if◌then◌else◌, ◌==◌, ℕ_discrete, lookup,
  Map, ◌+◌, ◌≤◌, if-ind, ◌++◌,
}
use binbox_cli.Identity.{Platform, QueryKey}
use binbox_cli.Session.State.{SessionStore}
use binbox_cli.Session.Entries.{IsCache}
use binbox_cli.Failure.{ProviderFailure}
use binbox_cli.Coordinator.Channel.{
  Ends, ends, Ends-bind, Ends-test, Ends-if, AllOpen, Subscriber, close_all, close_all_open,
  each_closed, Ends-weaken,
}
use binbox_cli.Coordinator.{
  QueryUpdate, finishing, stopped, QueryFlight, QueryCoordinator, set_flight, forgotten,
  subscribers_of,
}
use binbox_cli.Coordinator.Finish.{finish, last_update, release}
use binbox_cli.Coordinator.Invariant.{
  held_by, IsFlight, IsCoordinated, Change-IsCoordinated, entry_live, held_by-le,
}
use binbox_cli.Coordinator.Sections.{publish_flight-Published}

-- How the flight stands when `finish` closes its subscribers.
pub record IsLast (f g : QueryFlight) : Type 0 where
  pub ok : IsFlight g
  pub key : g.key ≡ f.key
  pub retired : g.retired ≡ true

pub last_update-IsLast :
    (update : QueryUpdate) (f : QueryFlight) → IsFlight f → Ends (IsLast f) (last_update update f)
unfolding last_update
last_update-IsLast update f h =
    Ends-test f.retired _ _ (λ b. ends f (record { ok = h; key = refl; retired = b }))
      (λ b.
        Ends-weaken (λ g p. record { ok = p.ok; key = p.key; retired = p.retired })
          (publish_flight-Published update (record f { retired = true })
            (record { open_ = h.open_; nil = λ n. refl })))

pub close_all-Ends :
    {A : Type 0} (m : Map ℕ (Subscriber A))
    → AllOpen m
    → Ends (λ closed. closed ≡ each_closed m) (close_all m)
close_all-Ends m o = rw (close_all_open m o) (ends _ refl)

pub release-Ends :
    (slot : Bool) (slots : ℕ)
    → (if slot then 1 else 0) ≤ slots
    → Ends (λ rest. rest + (if slot then 1 else 0) ≡ slots) (release slot slots)
unfolding release
release-Ends false slots h = ends _ (omega arith)
release-Ends true slots h =
    Ends-if (slots == 0) _ _ (λ b. absurd (ground arith)) (λ b. ends _ (omega (arith, h)))

module _ {R : Type 0} (env : Platform) (c : QueryCoordinator R) (id : ℕ) (f : QueryFlight)
    (i : IsCoordinated env c) (there : lookup ℕ_discrete id c.heap ≡ some f) where
  -- A flight that leaves its entry, whether it is retired or not.
  pub leaves-IsCoordinated :
      (g : QueryFlight) (slots : ℕ) (store : SessionStore) (failures : Map QueryKey ProviderFailure)
      → IsFlight g
      → g.retired ≡ true
      → g.key ≡ f.key
      → slots + held_by f.phase ≡ c.slots + held_by g.phase
      → slots ≤ c.max_concurrent
      → IsCache env store
      → IsCoordinated env (record (set_flight c id g) {
        store = store;
        slots = slots;
        flights = forgotten c.flights id f.key;
        failures = failures;
      })
  leaves-IsCoordinated g slots store failures ok gone key balance bounded cache =
      Change-IsCoordinated env c id f g (forgotten c.flights id f.key) slots store c.registry
        failures c.next_id i
        (record {
          there = there;
          ok = ok;
          key = key;
          kept = λ k j l. (forgotten_found c.flights id f.key k j l).0;
          live = λ k l.
              let (was, other) = forgotten_found c.flights id f.key k id l in
              absurd (other refl (entry_live env c id f k i there was).1);
          mine = λ r. absurd (cc (gone, r));
          others = forgotten_others c.flights id f.key;
          distinct = forgotten-Distinct c.flights id f.key i.distinct;
          balance = balance;
          bounded = bounded;
          cache = cache;
        })

  -- A retired flight has no entry.
  stops-IsCoordinated :
      (g : QueryFlight) (slots : ℕ)
      → f.retired ≡ true
      → IsFlight g
      → g.retired ≡ true
      → g.key ≡ f.key
      → slots + held_by f.phase ≡ c.slots + held_by g.phase
      → slots ≤ c.max_concurrent
      → IsCoordinated env (record (set_flight c id g) { slots = slots })
  stops-IsCoordinated g slots r ok gone key balance bounded =
      Change-IsCoordinated env c id f g c.flights slots c.store c.registry c.failures c.next_id i
        (record {
          there = there;
          ok = ok;
          key = key;
          kept = λ k j l. l;
          live = λ k l. absurd (cc (r, (entry_live env c id f k i there l).0));
          mine = λ r. absurd (cc (gone, r));
          others = λ k j l n. l;
          distinct = i.distinct;
          balance = balance;
          bounded = bounded;
          cache = i.cache;
        })

  pub finish-IsCoordinated :
      (slot : Bool) (update : QueryUpdate)
      → f.phase ≡ finishing slot update
      → Ends (IsCoordinated env) (finish env c id f slot update)
  unfolding finish
  finish-IsCoordinated slot update p =
      let n : held_by f.phase ≡ (if slot then 1 else 0) = ap held_by p in
      let enough = held_by-le env c id f i there in
      Ends-bind _ (last_update-IsLast update f (i.flights id f there)) (λ last h.
        Ends-bind _ (close_all-Ends (subscribers_of last) h.ok.open_) (λ closed e.
          Ends-bind _ (release-Ends slot c.slots (omega (arith, n, enough))) (λ slots rest.
            let g : QueryFlight = record last {
              subscribers = none;
              left = closed ++ last.left;
              canceled = true;
              phase = stopped;
            } in
            ends _ (
              if-ind
                (λ (x : QueryCoordinator R).
                  IsCoordinated env (record (set_flight x id g) { slots = slots }))
                f.retired _ _
                (λ b.
                  stops-IsCoordinated g slots b (record { open_ = tt; nil = λ n. h.retired })
                    h.retired h.key (omega (arith, n, rest)) (omega (arith, rest, i.bounded)))
                (λ b.
                  leaves-IsCoordinated g slots c.store c.failures
                    (record { open_ = tt; nil = λ n. h.retired }) h.retired h.key
                    (omega (arith, n, rest)) (omega (arith, rest, i.bounded)) i.cache)))))
