-- ===== src/Coordinator/Safety.antt =====
-- Every interleaving of the coordinator's sections is safe.
use binbox_cli.Base.{
  ℕ, ◌≡◌, refl, sym, ◌∙◌, ap, subst, true, false, not, ◌&&◌, Option, none, some, List, [], ◌∷◌,
  arith, ◌==◌, if-ind, ℕ_discrete, lookup, Map, insert, delete, length, if◌then◌else◌, ◌||◌,
}
use binbox_cli.Errors.{Error, invalid_query_result}
use binbox_cli.Identity.{Platform, is_none}
use binbox_cli.Observation.{Time}
use binbox_cli.Session.State.{new_session_store, query_dec}
use binbox_cli.Session.Entries.{new_session_store-IsCache}
use binbox_cli.Registry.{ContextRegistry}
use binbox_cli.Coordinator.Channel.{
  done, ◌>>=◌, Ends, ends, Ends-bind, Ends-option, Subscriber, AllOpen, close_subscriber,
  close_found, delete-AllOpen, insert-AllOpen, lookup-IsOpen, drain, Ends-done,
}
use binbox_cli.Coordinator.{
  Phase, waiting, holding, executing, completing, failing, completed, finishing, QueryFlight,
  QueryUpdate, QuerySink, QueryCoordinator, set_flight,
}
use binbox_cli.Coordinator.Subscribe.{abandon, unsubscribe}
use binbox_cli.Coordinator.Flight.{executed}
use binbox_cli.Coordinator.Run.{
  Move, Event, step, run, empty_coordinator, move_in, acquires, gives_up, begins, concludes,
  finishes, pages, reports, returns, completes, fails, drained, drained_in, subscribes,
  unsubscribes, reads, moves,
}
use binbox_cli.Coordinator.Invariant.{held, held_by, IsFlight, IsCoordinated, stays-IsCoordinated}
use binbox_cli.Coordinator.Sections.{
  own-IsCoordinated, phase-IsCoordinated, acquire-IsCoordinated, give_up-IsCoordinated,
  sink_complete-IsCoordinated, conclude-IsCoordinated,
}
use binbox_cli.Coordinator.Writes.{
  begin-IsCoordinated, sink_page-IsCoordinated, complete-IsCoordinated,
}
use binbox_cli.Coordinator.Leaves.{finish-IsCoordinated}
use binbox_cli.Coordinator.Fails.{fail-IsCoordinated, abandon-IsCoordinated}
use binbox_cli.Coordinator.Joins.{subscribe_locked-IsCoordinated}

pub open_at :
    (f : QueryFlight) (m : Map ℕ (Subscriber QueryUpdate))
    → IsFlight f
    → f.subscribers ≡ some m
    → AllOpen m
open_at f m h e =
    subst
      (λ (o : Option (Map ℕ (Subscriber QueryUpdate))). AllOpen (elim o [ none ↦ [] | some m ↦ m ]))
      e h.open_

executed-holds : (sink : QuerySink) (e : Option Error) → held_by (executed sink e) ≡ 1
unfolding executed
executed-holds sink (some e) = refl
executed-holds sink none =
    if-ind (λ (p : Phase). held_by p ≡ 1)
      (not (is_none sink.protocol_err) || not (sink.terminal == 1)) (failing invalid_query_result)
      (completing sink.fetched_at) (λ b. refl) (λ b. refl)

module _ {R : Type 0} (env : Platform) (c : QueryCoordinator R) (id : ℕ) (f : QueryFlight)
    (i : IsCoordinated env c) (there : lookup ℕ_discrete id c.heap ≡ some f) where
  unsubscribe_at :
      (sub : ℕ) (m : Map ℕ (Subscriber QueryUpdate)) (s : Subscriber QueryUpdate) (now : Time)
      → f.subscribers ≡ some m
      → lookup ℕ_discrete sub m ≡ some s
      → Ends (IsCoordinated env) (
          close_subscriber s >>= λ closed.
          let rest = delete ℕ_discrete sub m in
          let flight = record f {
            subscribers = some rest;
            left = insert ℕ_discrete sub closed f.left;
          } in
          done (
            if length rest == 0 && not flight.retired
            then abandon env c id flight now
            else set_flight c id flight))
  unsubscribe_at sub m s now e l =
      let o = open_at f m (i.flights id f there) e in
      let left = delete-AllOpen sub m o in
      let closed : Subscriber QueryUpdate = record {
        updates = record s.updates { closed = true };
        closed = true;
      } in
      let g : QueryFlight = record f {
        subscribers = some (delete ℕ_discrete sub m);
        left = insert ℕ_discrete sub closed f.left;
      } in
      rw (close_found sub s m o l) (
        ends _ (
          if-ind (IsCoordinated env) (length (delete ℕ_discrete sub m) == 0 && not f.retired) _ _
            (λ b. abandon-IsCoordinated env c id f i there g now refl refl left)
            (λ b.
              stays-IsCoordinated env c id f g c.store c.registry c.failures c.next_id i
                (record {
                  there = there;
                  ok = record { open_ = left; nil = λ n. absurd (cc n) };
                  key = refl;
                  retired = refl;
                })
                refl i.cache)))

  move_at :
      (m : Move) (p : Phase) (sink : Option QuerySink)
      → f.phase ≡ p
      → Ends (IsCoordinated env) (move_in env c id f m p sink)
  unfolding move_in
  move_at acquires waiting sink e = acquire-IsCoordinated env c id f i there e
  move_at acquires _ sink e = ends c i
  move_at gives_up waiting sink e = give_up-IsCoordinated env c id f i there e
  move_at gives_up _ sink e = ends c i
  move_at begins holding sink e = begin-IsCoordinated env c id f i there e
  move_at begins _ sink e = ends c i
  move_at (pages page) p none e = ends c i
  move_at (pages page) p (some sink) e = sink_page-IsCoordinated env c id f i there sink page
  move_at (reports t) p none e = ends c i
  move_at (reports t) p (some sink) e = sink_complete-IsCoordinated env c id f i there sink t
  move_at (returns x) executing none e = ends c i
  move_at (returns x) executing (some sink) e = ends _ (
      phase-IsCoordinated env c id f i there _ refl refl refl
        (executed-holds sink x ∙ sym (ap held_by e)))
  move_at (returns x) _ sink e = ends c i
  move_at (completes order) (completing t) sink e =
      complete-IsCoordinated env c id f i there order t t e
  move_at (completes order) _ sink e = ends c i
  move_at (fails now) (failing x) sink e = fail-IsCoordinated env c id f i there x x now e
  move_at (fails now) _ sink e = ends c i
  move_at concludes completed sink e = conclude-IsCoordinated env c id f i there e
  move_at concludes _ sink e = ends c i
  move_at finishes (finishing slot update) sink e =
      finish-IsCoordinated env c id f i there slot update e
  move_at finishes _ sink e = ends c i

  drained-IsCoordinated :
      (m : Map ℕ (Subscriber QueryUpdate)) (sub : ℕ) (s : Option (Subscriber QueryUpdate))
      → f.subscribers ≡ some m
      → lookup ℕ_discrete sub m ≡ s
      → IsCoordinated env (set_flight c id (drained sub f m s))
  unfolding drained drain
  drained-IsCoordinated m sub none e l =
      phase-IsCoordinated env c id f i there f refl refl refl refl
  drained-IsCoordinated m sub (some s) e l =
      let o = open_at f m (i.flights id f there) e in
      let p = lookup-IsOpen sub s m o l in
      own-IsCoordinated env c id f i there _ c.store c.registry c.failures
        (record {
          there = there;
          ok = record {
            open_ = insert-AllOpen sub _ m (record { flag = p.flag; channel = p.channel }) o;
            nil = λ n. absurd (cc n);
          };
          key = refl;
          retired = refl;
        })
        refl i.cache

  drained_in-IsCoordinated :
      (x : Option (Map ℕ (Subscriber QueryUpdate))) (sub : ℕ)
      → f.subscribers ≡ x
      → IsCoordinated env (set_flight c id (drained_in sub f x))
  unfolding drained_in
  drained_in-IsCoordinated none sub e = phase-IsCoordinated env c id f i there f refl refl refl refl
  drained_in-IsCoordinated (some m) sub e = drained-IsCoordinated m sub _ e refl

module _ {R : Type 0} (env : Platform) where
  pub step-IsCoordinated :
      (c : QueryCoordinator R) (e : Event)
      → IsCoordinated env c
      → Ends (IsCoordinated env) (step env c e)
  unfolding step unsubscribe
  step-IsCoordinated c (subscribes key refresh) i =
      Ends-bind _ (subscribe_locked-IsCoordinated env c key refresh i) (λ r h. ends _ h)
  step-IsCoordinated c (unsubscribes id sub now) i =
      Ends-option (lookup ℕ_discrete id c.heap) _ _ (λ n. ends _ i)
        (λ f l.
          Ends-option f.subscribers _ _ (λ n. ends _ i)
            (λ m e.
              Ends-option (lookup ℕ_discrete sub m) _ _ (λ n. ends _ i)
                (λ s h. unsubscribe_at env c id f i l sub m s now e h)))
  step-IsCoordinated c (reads id sub) i =
      Ends-option (lookup ℕ_discrete id c.heap) _ _ (λ n. ends _ i)
        (λ f l. ends _ (drained_in-IsCoordinated env c id f i l _ sub refl))
  step-IsCoordinated c (moves id m) i =
      Ends-option (lookup ℕ_discrete id c.heap) _ _ (λ n. ends _ i)
        (λ f l. move_at env c id f i l m _ _ refl)

  pub run-IsCoordinated :
      (c : QueryCoordinator R) (es : List Event)
      → IsCoordinated env c
      → Ends (IsCoordinated env) (run env c es)
  unfolding run
  run-IsCoordinated c [] i = ends c i
  run-IsCoordinated c (e ∷ es) i =
      Ends-bind _ (step-IsCoordinated c e i) (λ c' h. run-IsCoordinated c' es h)

  pub empty_coordinator-IsCoordinated :
      (registry : Option (ContextRegistry R)) (max_concurrent : ℕ)
      → IsCoordinated env (empty_coordinator new_session_store registry max_concurrent)
  unfolding lookup held
  empty_coordinator-IsCoordinated registry max_concurrent = record {
    flights = λ id f l. absurd (cc l);
    current = λ k id l. absurd (cc l);
    entered = λ id f l r. absurd (cc l);
    distinct = tt;
    older = λ id f l. absurd (cc l);
    slots = refl;
    bounded = omega arith;
    cache = new_session_store-IsCache env;
  }

  -- Whatever sections a new coordinator on a new store runs, in any order, no publication and no
  -- release of a slot blocks, nothing panics, and after them: every subscriber that a flight has is
  -- open; a flight with an entry has the entry's query, is not retired, and has no older generation
  -- than the newest of its lineage; a flight that is not retired is its query's entry; the slots
  -- that are taken are those of the flights that hold one, and at most the limit; and the store's
  -- cache is well-formed.
  pub run_safe :
      (registry : Option (ContextRegistry R)) (max_concurrent : ℕ) (es : List Event)
      → Ends
          (IsCoordinated env)
          (run env (empty_coordinator new_session_store registry max_concurrent) es)
  run_safe registry max_concurrent es =
      run-IsCoordinated _ es (empty_coordinator-IsCoordinated registry max_concurrent)

  -- After whatever sections a new coordinator on a new store has run, in any order, two flights of
  -- one query that are both not retired are one flight.
  pub single_flight :
      (registry : Option (ContextRegistry R)) (max_concurrent : ℕ) (es : List Event)
      (c : QueryCoordinator R) (a b : ℕ) (f g : QueryFlight)
      → run env (empty_coordinator new_session_store registry max_concurrent) es ≡ done c
      → lookup ℕ_discrete a c.heap ≡ some f
      → lookup ℕ_discrete b c.heap ≡ some g
      → f.retired ≡ false
      → g.retired ≡ false
      → f.key ≡ g.key
      → a ≡ b
  single_flight registry max_concurrent es c a b f g r l h p q e =
      let i = Ends-done (run_safe registry max_concurrent es) c r in
      one_id
        (sym (i.entered a f l p) ∙ ap (λ k. lookup query_dec k c.flights) e ∙ i.entered b g h q)
    where
      one_id : {a b : ℕ} → some a ≡ some b → a ≡ b
      one_id e = ground (arith, e)
