-- ===== src/Coordinator/Settles.antt =====
-- A flight whose executor returned stops by its own sections.
use binbox_cli.Session.State.{PageOrder}
use binbox_cli.Base.{
  ℕ, ◌≡◌, ◌≤◌, refl, sym, ◌∙◌, ap, subst, true, Option, none, some, [], ◌∷◌, arith, if-ind, lookup,
  lookup-insert_same, ℕ_discrete, not, ◌||◌, ◌==◌, if◌then◌else◌, ◌++◌, insert,
}
use binbox_cli.Errors.{Error, invalid_query_result}
use binbox_cli.Identity.{Platform, is_none}
use binbox_cli.Observation.{Time}
use binbox_cli.Session.{complete_query}
use binbox_cli.Coordinator.Channel.{done, Ends, ends, Ends-bind, Ends-option, Ends-test, Ends-both}
use binbox_cli.Coordinator.{
  Phase, waiting, holding, executing, completing, failing, completed, finishing, stopped, QuerySink,
  QueryFlight, QueryCoordinator, can_commit, subscribers_of,
}
use binbox_cli.Coordinator.Flight.{executed, complete, conclude, ensure_begun}
use binbox_cli.Coordinator.Finish.{fail, finish, record_failure, is_context_change}
use binbox_cli.Coordinator.Run.{
  Move, returns, completes, fails, concludes, finishes, moves, move_in, step, run,
}
use binbox_cli.Coordinator.Invariant.{held_by, held_by-le, IsCoordinated}
use binbox_cli.Coordinator.Leaves.{last_update-IsLast, close_all-Ends, release-Ends}
use binbox_cli.Coordinator.Safety.{step-IsCoordinated}

-- How many sections a flight has before it at most.
sections_left : Phase → ℕ
sections_left stopped = 0
sections_left (finishing slot update) = 1
sections_left completed = 2
sections_left (failing e) = 3
sections_left (completing t) = 4
sections_left _ = 6

stopped_at : (p : Phase) → sections_left p ≤ 0 → p ≡ stopped
unfolding sections_left
stopped_at stopped h = refl
stopped_at waiting h = absurd (omega arith)
stopped_at p h = absurd (omega arith)

module _ {R : Type 0} where
  -- The flight has at most `n` sections before it.
  abbrev Within : ℕ → ℕ → QueryCoordinator R → Type 0
  Within id n c =
      (g : QueryFlight) × (lookup ℕ_discrete id c.heap ≡ some g) × (sections_left g.phase ≤ n)

module _ {R : Type 0} (env : Platform) (c : QueryCoordinator R) (id : ℕ) (f : QueryFlight)
    (i : IsCoordinated env c) (there : lookup ℕ_discrete id c.heap ≡ some f) where
  arrives :
      {n : ℕ} (g : QueryFlight)
      → sections_left g.phase ≤ n
      → (c' : QueryCoordinator R) → c'.heap ≡ insert ℕ_discrete id g c.heap
      → Ends (Within id n) (done c')
  arrives g h c' e =
      ends c' (g, ap (lookup ℕ_discrete id) e ∙ lookup-insert_same ℕ_discrete id g c.heap, h)

  remains : {n : ℕ} (p : Phase) → f.phase ≡ p → sections_left p ≤ n → Ends (Within id n) (done c)
  remains {n} p e h = ends c (f, there, subst (λ (x : Phase). sections_left x ≤ n) (sym e) h)

  completes-Within :
      (order : PageOrder) (p : Phase) (sink : Option QuerySink)
      → f.phase ≡ p
      → sections_left p ≤ 4
      → Ends (Within id 3) (move_in env c id f (completes order) p sink)
  unfolding move_in complete sections_left
  completes-Within order (completing t) sink e h =
      Ends-test (can_commit c id f) _ _
        (λ b.
          Ends-option (ensure_begun env c.store f).1 _ _
            (λ n.
              Ends-option (complete_query env order (ensure_begun env c.store f).0 f.key t).1 _ _
                (λ n. arrives _ (omega arith) _ refl) (λ x y. arrives _ (omega arith) _ refl))
            (λ x y. arrives _ (omega arith) _ refl))
        (λ b. arrives _ (omega arith) _ refl)
  completes-Within order waiting sink e h = absurd (omega arith)
  completes-Within order holding sink e h = absurd (omega arith)
  completes-Within order executing sink e h = absurd (omega arith)
  completes-Within order p sink e h = remains p e (omega arith)

  returns-Within :
      (x : Option Error) (sink : QuerySink)
      → f.phase ≡ executing
      → Ends (Within id 4) (move_in env c id f (returns x) executing (some sink))
  unfolding move_in executed sections_left
  returns-Within (some x) sink e = arrives _ (omega arith) _ refl
  returns-Within none sink e =
      arrives _
        (if-ind (λ (p : Phase). sections_left p ≤ 4)
          (not (is_none sink.protocol_err) || not (sink.terminal == 1))
          (failing invalid_query_result) (completing sink.fetched_at) (λ b. omega arith)
          (λ b. omega arith))
        _ refl

  record_failure-heap : (e : Error) (now : Time) → (record_failure env c id f e now).1.heap ≡ c.heap
  unfolding record_failure
  record_failure-heap e now =
      if-ind (λ (x : QueryFlight × QueryCoordinator R). x.1.heap ≡ c.heap) (is_context_change e) _ _
        (λ b. refl)
        (λ b.
          if-ind (λ (x : QueryFlight × QueryCoordinator R). x.1.heap ≡ c.heap) (can_commit c id f) _
            _ (λ d. refl) (λ d. refl))

  fails-Within :
      (now : Time) (p : Phase) (sink : Option QuerySink)
      → f.phase ≡ p
      → sections_left p ≤ 3
      → Ends (Within id 2) (move_in env c id f (fails now) p sink)
  unfolding move_in fail sections_left
  fails-Within now (failing x) sink e h =
      arrives _ (omega arith) _ (ap (insert ℕ_discrete id _) (record_failure-heap x now))
  fails-Within now waiting sink e h = absurd (omega arith)
  fails-Within now p sink e h = remains p e (omega arith)

  concludes-Within :
      (p : Phase) (sink : Option QuerySink)
      → f.phase ≡ p
      → sections_left p ≤ 2
      → Ends (Within id 1) (move_in env c id f concludes p sink)
  unfolding move_in conclude sections_left
  concludes-Within completed sink e h = arrives _ (omega arith) _ refl
  concludes-Within waiting sink e h = absurd (omega arith)
  concludes-Within p sink e h = remains p e (omega arith)

  finishes-Within :
      (p : Phase) (sink : Option QuerySink)
      → f.phase ≡ p
      → sections_left p ≤ 1
      → Ends (Within id 0) (move_in env c id f finishes p sink)
  unfolding move_in finish sections_left
  finishes-Within (finishing slot update) sink e h =
      let n : held_by f.phase ≡ (if slot then 1 else 0) = ap held_by e in
      Ends-bind _ (last_update-IsLast update f (i.flights id f there)) (λ last h.
        Ends-bind _ (close_all-Ends (subscribers_of last) h.ok.open_) (λ closed e.
          Ends-bind _ (release-Ends slot c.slots (omega (arith, n, held_by-le env c id f i there)))
            (λ slots rest.
              let g : QueryFlight = record last {
                subscribers = none;
                left = closed ++ last.left;
                canceled = true;
                phase = stopped;
              } in
              arrives g (omega arith) _ (
                if-ind
                  (λ (x : QueryCoordinator R).
                    insert ℕ_discrete id g x.heap ≡ insert ℕ_discrete id g c.heap)
                  f.retired _ _ (λ b. refl) (λ b. refl)))))
  finishes-Within waiting sink e h = absurd (omega arith)
  finishes-Within p sink e h = remains p e (omega arith)

module _ {R : Type 0} (env : Platform) (id : ℕ) where
  -- One section of the flight, where the next bound is known for every flight in the heap.
  section :
      (c : QueryCoordinator R) (m : Move) (n k : ℕ)
      → IsCoordinated env c × Within id n c
      → ((f : QueryFlight)
          → lookup ℕ_discrete id c.heap ≡ some f
          → sections_left f.phase ≤ n
          → Ends (Within id k) (move_in env c id f m f.phase f.sink))
      → Ends (λ c'. IsCoordinated env c' × Within id k c') (step env c (moves id m))
  unfolding step
  section c m n k (i, (f, l, h)) next = Ends-both (step-IsCoordinated env c (moves id m) i) (
      Ends-option (lookup ℕ_discrete id c.heap) _ _ (λ e. absurd (cc (e, l)))
        (λ g e. next g e (
          let same : f ≡ g = cc (l, e) in
          subst (λ (x : QueryFlight). sections_left x.phase ≤ n) same h)))

-- From between any two sections where the executor of a flight runs and has its sink: when the
-- executor returns, with or without an error, the flight's goroutine reaches its end in at most
-- four more sections of its own, none of which blocks or panics. `completes`, `fails`, `concludes`
-- and `finishes` are these sections; those that the flight's branch does not have do nothing.
pub executed_flight_stops :
    {R : Type 0} (env : Platform) (c : QueryCoordinator R) (id : ℕ) (f : QueryFlight)
    (sink : QuerySink) (e : Option Error) (order : PageOrder) (now : Time)
    → IsCoordinated env c
    → lookup ℕ_discrete id c.heap ≡ some f
    → f.phase ≡ executing
    → f.sink ≡ some sink
    → Ends
        (λ c'. (g : QueryFlight) × (lookup ℕ_discrete id c'.heap ≡ some g) × (g.phase ≡ stopped))
        (run env c (
          moves id (returns e)
          ∷ moves id (completes order)
          ∷ moves id (fails now)
          ∷ moves id concludes
          ∷ moves id finishes
          ∷ []))
unfolding run
executed_flight_stops env c id f sink e order now i l p s =
    Ends-bind _
      (section env id c (returns e) (sections_left f.phase) 4 (i, (f, l, omega arith)) first)
      (λ c1 h1.
        Ends-bind _
          (section env id c1 (completes order) 4 3 h1
            (λ g t q. completes-Within env c1 id g h1.0 t order g.phase g.sink refl q))
          (λ c2 h2.
            Ends-bind _
              (section env id c2 (fails now) 3 2 h2
                (λ g t q. fails-Within env c2 id g h2.0 t now g.phase g.sink refl q))
              (λ c3 h3.
                Ends-bind _
                  (section env id c3 concludes 2 1 h3
                    (λ g t q. concludes-Within env c3 id g h3.0 t g.phase g.sink refl q))
                  (λ c4 h4.
                    Ends-bind _
                      (section env id c4 finishes 1 0 h4
                        (λ g t q. finishes-Within env c4 id g h4.0 t g.phase g.sink refl q))
                      (λ c5 h5. ends c5 (h5.1.0, h5.1.1, stopped_at h5.1.0.phase h5.1.2))))))
  where
    first :
        (g : QueryFlight)
        → lookup ℕ_discrete id c.heap ≡ some g
        → sections_left g.phase ≤ sections_left f.phase
        → Ends (Within id 4) (move_in env c id g (returns e) g.phase g.sink)
    first g t q =
        subst
          (λ (x : QueryFlight). Ends (Within id 4) (move_in env c id x (returns e) x.phase x.sink))
          (same g t) (at f.phase f.sink p s)
      where
        same : (g : QueryFlight) → lookup ℕ_discrete id c.heap ≡ some g → f ≡ g
        same g t = cc (l, t)

        at :
            (ph : Phase) (si : Option QuerySink)
            → ph ≡ executing
            → si ≡ some sink
            → Ends (Within id 4) (move_in env c id f (returns e) ph si)
        at ph si a b =
            subst (λ x. Ends (Within id 4) (move_in env c id f (returns e) x si)) (sym a)
              (subst (λ y. Ends (Within id 4) (move_in env c id f (returns e) executing y)) (sym b)
                (returns-Within env c id f i l e sink p))
