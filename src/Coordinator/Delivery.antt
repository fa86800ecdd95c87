-- ===== src/Coordinator/Delivery.antt =====
-- The end of a flight: it stops, and its subscribers have its last update.
use binbox_cli.Coordinator.Safety.{open_at}
use binbox_cli.Session.State.{query_dec}
use binbox_cli.Base.{
  ℕ, ◌≡◌, ◌≢◌, refl, sym, ap, subst, Bool, true, false, some, [], ◌∷◌, ◌++◌, arith, if◌then◌else◌,
  if_pos, if_neg, if-ind, lookup, Map, lookup-insert_same, ℕ_discrete,
}
use binbox_cli.Identity.{Platform}
use binbox_cli.Coordinator.Channel.{
  done, Ends, ends, Ends-bind, Subscriber, AllOpen, each_closed, each_holding, each_holding-AllOpen,
  publish_open, close_all,
}
use binbox_cli.Coordinator.{
  finishing, stopped, QueryFlight, QueryUpdate, QueryCoordinator, subscribers_of, publish_flight,
}
use binbox_cli.Coordinator.Finish.{finish, last_update}
use binbox_cli.Coordinator.Invariant.{held_by, held_by-le, IsCoordinated}
use binbox_cli.Coordinator.Leaves.{release-Ends, close_all-Ends}
use binbox_cli.Coordinator.Forget.{forgotten_found}

module _ {A : Type 0} where
  lookup-each_closed :
      (sub : ℕ) (update : A) (m : Map ℕ (Subscriber A)) (s : Subscriber A)
      → lookup ℕ_discrete sub m ≡ some s
      → lookup ℕ_discrete sub (each_closed (each_holding false update m))
        ≡ some (record { updates = record { held = some update; closed = true }; closed = true })
  unfolding lookup each_closed each_holding
  lookup-each_closed sub update [] s h = absurd cc
  lookup-each_closed sub update ((j, t) ∷ m) s h = elim (ℕ_discrete j sub) [
    | yes e ↦ rw (if_pos (ℕ_discrete j sub) e) refl
    | no e ↦
        rw (if_neg (ℕ_discrete j sub) e) (lookup-each_closed sub update m s (rw (if_neg _ e) at h))
  ]

  lookup-append :
      (k : ℕ) (v : A) (m l : Map ℕ A)
      → lookup ℕ_discrete k m ≡ some v
      → lookup ℕ_discrete k (m ++ l) ≡ some v
  unfolding lookup
  lookup-append k v [] l h = absurd cc
  lookup-append k v ((j, w) ∷ m) l h = elim (ℕ_discrete j k) [
    | yes e ↦ rw (if_pos (ℕ_discrete j k) e) (rw (if_pos (ℕ_discrete j k) e) at h)
    | no e ↦ rw (if_neg (ℕ_discrete j k) e) (lookup-append k v m l (rw (if_neg _ e) at h))
  ]

-- A subscriber whose channel is closed behind an update.
abbrev pub closed_with : QueryUpdate → Subscriber QueryUpdate
closed_with update = record {
  updates = record { held = some update; closed = true };
  closed = true;
}

-- The flight when `finish` closes its subscribers.
abbrev last_flight : QueryUpdate → QueryFlight → Map ℕ (Subscriber QueryUpdate) → QueryFlight
last_flight update f m = record f {
  retired = true;
  subscribers = some (each_holding false update m);
}

last_update_lem :
    (update : QueryUpdate) (f : QueryFlight) (m : Map ℕ (Subscriber QueryUpdate))
    → f.retired ≡ false
    → f.subscribers ≡ some m
    → AllOpen m
    → last_update update f ≡ done (last_flight update f m)
unfolding last_update publish_flight
last_update_lem update f m r e o =
    rw (r, last_update, e, publish_flight, publish_open update m o) refl

last_update-Ends :
    (update : QueryUpdate) (f : QueryFlight) (m : Map ℕ (Subscriber QueryUpdate))
    → f.retired ≡ false
    → f.subscribers ≡ some m
    → AllOpen m
    → Ends (λ last. last ≡ last_flight update f m) (last_update update f)
last_update-Ends update f m r e o = rw (last_update_lem update f m r e o) (ends _ refl)

close_last-Ends :
    (update : QueryUpdate) (f : QueryFlight) (m : Map ℕ (Subscriber QueryUpdate))
    (last : QueryFlight)
    → last ≡ last_flight update f m
    → Ends
        (λ closed. closed ≡ each_closed (each_holding false update m))
        (close_all (subscribers_of last))
close_last-Ends update f m last same =
    subst
      (λ (x : QueryFlight).
        Ends (λ closed. closed ≡ each_closed (each_holding false update m))
          (close_all (subscribers_of x)))
      (sym same) (close_all-Ends _ (each_holding-AllOpen update m))

module _ {R : Type 0} (env : Platform) (c : QueryCoordinator R) (id : ℕ) (f : QueryFlight)
    (i : IsCoordinated env c) (there : lookup ℕ_discrete id c.heap ≡ some f) where
  -- Of a flight that still runs, `finish` gives every subscriber the last update, which its reader
  -- finds in the channel before it is closed; the flight stops and its query has no entry for it.
  pub finish_delivers :
      (slot : Bool) (update : QueryUpdate) (m : Map ℕ (Subscriber QueryUpdate)) (sub : ℕ)
      (s : Subscriber QueryUpdate)
      → f.phase ≡ finishing slot update
      → f.retired ≡ false
      → f.subscribers ≡ some m
      → lookup ℕ_discrete sub m ≡ some s
      → Ends
          (λ c'.
            ((g : QueryFlight) × (lookup ℕ_discrete id c'.heap ≡ some g)
              × (g.phase ≡ stopped)
              × (lookup ℕ_discrete sub g.left ≡ some (closed_with update)))
            × (lookup query_dec f.key c'.flights ≢ some id))
          (finish env c id f slot update)
  unfolding finish
  finish_delivers slot update m sub s p r e l =
      let n : held_by f.phase ≡ (if slot then 1 else 0) = ap held_by p in
      let o : AllOpen m = open_at f m (i.flights id f there) e in
      Ends-bind _ (last_update-Ends update f m r e o) (λ last same.
        Ends-bind _ (close_last-Ends update f m last same) (λ closed shut.
          Ends-bind _ (release-Ends slot c.slots (omega (arith, n, held_by-le env c id f i there)))
            (λ slots rest. ends _ (
              (
                _,
                lookup-insert_same ℕ_discrete id _ _,
                refl,
                subst (λ x. lookup ℕ_discrete sub (x ++ last.left) ≡ some (closed_with update))
                    (sym shut)
                    (lookup-append sub (closed_with update)
                      (each_closed (each_holding false update m)) last.left
                      (lookup-each_closed sub update m s l)),
              ),
              if-ind (λ (x : QueryCoordinator R). lookup query_dec f.key x.flights ≢ some id)
                  f.retired _ _ (λ b. absurd (cc (b, r)))
                  (λ b h. (forgotten_found c.flights id f.key f.key id h).1 refl refl),
            ))))
