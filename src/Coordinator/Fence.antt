-- ===== src/Coordinator/Fence.antt =====
-- What a flight that is out of date can do to the store. internal/bb/awsbrowser/query.go.
use binbox_cli.Coordinator.Leaves.{last_update-IsLast, close_all-Ends, release-Ends}
use binbox_cli.Coordinator.Invariant.{IsCoordinated, held_by, held_by-le}
use binbox_cli.Base.{
  ℕ, ◌≡◌, ◌≢◌, ◌⊎◌, inl, inr, refl, ap, Bool, true, false, not, ◌||◌, Option, none, some, arith,
  ◌<◌, ◌==◌, length, Bool-cases, if-ind, lookup, if◌then◌else◌, ltb, ℕ_discrete,
}
use binbox_cli.Errors.{Error, context_changed}
use binbox_cli.Identity.{Platform}
use binbox_cli.Observation.{Time, is_zero}
use binbox_cli.Session.State.{query_dec}
use binbox_cli.Coordinator.Channel.{done, Ends, ends, Ends-bind, Ends-option, Ends-if, Ends-test}
use binbox_cli.Coordinator.{
  Phase, waiting, holding, executing, completing, failing, completed, finishing, QueryFlight,
  QuerySink, QueryCoordinator, subscribers_of, can_commit, latest_of, lineage_for, holds_id,
  QueryUpdate,
}
use binbox_cli.Coordinator.Flight.{
  acquire, give_up, begin, sink_page, sink_complete, complete, conclude,
}
use binbox_cli.Coordinator.Finish.{fail, record_failure, finish, is_context_change}
use binbox_cli.Coordinator.Run.{
  Move, acquires, gives_up, begins, pages, reports, returns, completes, fails, concludes, finishes,
  move_in, move,
}

holds_id-ne : (o : Option ℕ) (id : ℕ) → o ≢ some id → holds_id o id ≡ false
holds_id-ne none id n = refl
holds_id-ne (some j) id n = elim (Bool-cases (j == id)) [
  | inl b ↦ absurd (n (ground arith))
  | inr b ↦ b
]

not_change : (e : Error) → e ≢ context_changed → is_context_change e ≡ false
unfolding is_context_change
not_change context_changed n = absurd (n refl)
not_change _ n = refl

module _ {R : Type 0} (c : QueryCoordinator R) (id : ℕ) (f : QueryFlight) where
  -- The flight is retired, or its query's entry is not its own, or its lineage has a newer
  -- generation, or nobody listens.
  abbrev pub IsOutdated : Type 0
  IsOutdated =
      (f.retired ≡ true)
      ⊎ (lookup query_dec f.key c.flights ≢ some id)
      ⊎ (f.key.context.credential_gen < latest_of c.latest (lineage_for f.key))
      ⊎ (length (subscribers_of f) ≡ 0)

  outdated_cannot_commit : IsOutdated → can_commit c id f ≡ false
  unfolding can_commit
  outdated_cannot_commit (inl r) = rw (r, can_commit) refl
  outdated_cannot_commit (inr (inl n)) = ground (arith, holds_id-ne _ id n)
  outdated_cannot_commit (inr (inr (inl l))) = ground arith
  outdated_cannot_commit (inr (inr (inr e))) = ground arith

module _ {R : Type 0} (env : Platform) (c : QueryCoordinator R) (id : ℕ) (f : QueryFlight)
    (out : IsOutdated c id f) where
  abbrev Untouched : QueryCoordinator R → Type 0
  Untouched c' = c'.store ≡ c.store

  untouched : (x : QueryCoordinator R) → x.store ≡ c.store → Ends Untouched (done x)
  untouched x e = ends x e

  record_failure-store :
      (e : Error) (now : Time)
      → is_context_change e ≡ false
      → (record_failure env c id f e now).1.store ≡ c.store
  unfolding record_failure
  record_failure-store e now n =
      rw (n, record_failure) (rw (outdated_cannot_commit c id f out) refl)

  cannot : {A : Type 0} → can_commit c id f ≡ true → A
  cannot b = absurd (cc (b, outdated_cannot_commit c id f out))

  module _ (i : IsCoordinated env c) (there : lookup ℕ_discrete id c.heap ≡ some f) where
    finish-Untouched :
        (slot : Bool) (update : QueryUpdate)
        → f.phase ≡ finishing slot update
        → Ends Untouched (finish env c id f slot update)
    unfolding finish
    finish-Untouched slot update p =
        let n : held_by f.phase ≡ (if slot then 1 else 0) = ap held_by p in
        Ends-bind _ (last_update-IsLast update f (i.flights id f there)) (λ last h.
          Ends-bind _ (close_all-Ends (subscribers_of last) h.ok.open_) (λ closed e.
            Ends-bind _
              (release-Ends slot c.slots (omega (arith, n, held_by-le env c id f i there)))
              (λ slots rest. ends _ (
                if-ind (λ (x : QueryCoordinator R). x.store ≡ c.store) f.retired _ _ (λ b. refl)
                  (λ b. refl)))))

    move_in-Untouched :
        (m : Move) (p : Phase) (sink : Option QuerySink)
        → f.phase ≡ p
        → (p ≡ failing context_changed → ⊥)
        → Ends Untouched (move_in env c id f m p sink)
    unfolding move_in acquire give_up begin sink_page sink_complete complete conclude fail
    move_in-Untouched acquires waiting sink e n =
        Ends-if (ltb c.slots c.max_concurrent) _ _ (λ b. ends _ refl) (λ b. ends _ refl)
    move_in-Untouched acquires _ sink e n = ends c refl
    move_in-Untouched gives_up waiting sink e n =
        Ends-if f.canceled _ _ (λ b. ends _ refl) (λ b. ends _ refl)
    move_in-Untouched gives_up _ sink e n = ends c refl
    move_in-Untouched begins holding sink e n =
        Ends-test (can_commit c id f) _ _ (λ b. cannot b) (λ b. ends _ refl)
    move_in-Untouched begins _ sink e n = ends c refl
    move_in-Untouched (pages page) p none e n = ends c refl
    move_in-Untouched (pages page) p (some sink) e n =
        Ends-option sink.protocol_err _ _
          (λ h.
            Ends-test (not (sink.terminal == 0) || not (can_commit c id f)) _ _ (λ b. ends _ refl)
              (λ b. cannot (ground arith)))
          (λ x h. ends c refl)
    move_in-Untouched (reports t) p none e n = ends c refl
    move_in-Untouched (reports t) p (some sink) e n =
        Ends-option sink.protocol_err _ _
          (λ h.
            Ends-if (not (sink.terminal == 0) || (is_zero t || not (can_commit c id f))) _ _
              (λ b. ends _ refl) (λ b. ends _ refl))
          (λ x h. ends c refl)
    move_in-Untouched (returns x) executing none e n = ends c refl
    move_in-Untouched (returns x) executing (some sink) e n = ends _ refl
    move_in-Untouched (returns x) _ sink e n = ends c refl
    move_in-Untouched (completes order) (completing t) sink e n =
        Ends-test (can_commit c id f) _ _ (λ b. cannot b) (λ b. ends _ refl)
    move_in-Untouched (completes order) _ sink e n = ends c refl
    move_in-Untouched (fails now) (failing x) sink e n =
        ends _ (record_failure-store x now (not_change x (λ h. n (ap failing h))))
    move_in-Untouched (fails now) _ sink e n = ends c refl
    move_in-Untouched concludes completed sink e n = ends _ refl
    move_in-Untouched concludes _ sink e n = ends c refl
    move_in-Untouched finishes (finishing slot update) sink e n = finish-Untouched slot update e
    move_in-Untouched finishes _ sink e n = ends c refl

-- Between any two sections, a flight that is retired, that its query's entry does not point to,
-- whose lineage has a newer generation, or that has no subscriber, leaves the store as it is in
-- every section of its own, also where its executor delivers pages or a completion, unless the
-- flight stands before `fail` for a changed context.
pub fenced :
    {R : Type 0} (env : Platform) (c : QueryCoordinator R) (id : ℕ) (f : QueryFlight) (m : Move)
    → IsCoordinated env c
    → lookup ℕ_discrete id c.heap ≡ some f
    → IsOutdated c id f
    → f.phase ≢ failing context_changed
    → Ends (λ c'. c'.store ≡ c.store) (move env c id f m)
fenced env c id f m i there out n = move_in-Untouched env c id f out i there m f.phase f.sink refl n
