-- ===== src/Registry/Runs.antt =====
-- Every sequence of the registry's steps keeps its resolutions current.
use binbox_cli.Base.{
  ℕ, ◌+◌, ◌≡◌, ◌≢◌, refl, sym, ◌∙◌, ap, Bool, true, false, not, ◌||◌, Option, none, some, List, [],
  ◌∷◌, inl, inr, arith, Bool-cases, Option-cases, if◌then◌else◌, ◌==◌, ℕ_discrete, lookup, insert,
  delete,
}
use binbox_cli.Errors.{Error, Result, ok, err}
use binbox_cli.Identity.{ContextSpec, VerifiedIdentity, validate_context_spec, is_none}
use binbox_cli.Registry.{
  RegistryEntry, ContextRegistry, Turn, resolves, spec_dec, resolving_entry, start_resolution,
  look_up, resolve, settle, finish_resolution, is_context_changed, drop_runtime, invalidate,
  invalidate_generation, new_context_registry,
}
use binbox_cli.Registry.Pending.{
  Running, AllPending, start-AllPending, delete-AllPending, settle-AllPending,
}

-- A turn of `Resolve`, the end of a resolution, or an invalidation. A runtime's identity may be
-- another at each step.
pub data RegistryStep (R : Type 0) : Type 0 where
  turns : (R → VerifiedIdentity) → ContextSpec → RegistryStep R
  ends : (R → VerifiedIdentity) → ℕ → Result (Option R) → RegistryStep R
  drops : ContextSpec → Error → RegistryStep R
  drops_generation : ContextSpec → ℕ → RegistryStep R

module _ {R : Type 0} where
  unfoldable pub after_turn : Running R → ContextSpec → Turn R × ContextRegistry R → Running R
  after_turn s spec (resolves id, registry) = record {
    registry = registry;
    pending = insert ℕ_discrete id spec s.pending;
  }
  after_turn s spec (_, registry) = record { registry = registry; pending = s.pending }

  unfoldable pub step : Running R → RegistryStep R → Running R
  step s (turns identity spec) = after_turn s spec (resolve identity s.registry spec)
  step s (ends identity id result) = elim (lookup ℕ_discrete id s.pending) [
    | none ↦ s
    | some spec ↦ record {
      registry = finish_resolution identity s.registry spec id result;
      pending = delete ℕ_discrete id s.pending;
    }
  ]
  step s (drops spec cause) = record {
    registry = (invalidate s.registry spec cause).1;
    pending = s.pending;
  }
  step s (drops_generation spec current) = record {
    registry = (invalidate_generation s.registry spec current).1;
    pending = s.pending;
  }

  unfoldable pub run_steps : Running R → List (RegistryStep R) → Running R
  run_steps s [] = s
  run_steps s (x ∷ xs) = run_steps (step s x) xs

  -- The entry of an unfinished resolution says that it resolves.
  owned_resolving :
      (s : Running R) (k : ContextSpec) (e : RegistryEntry R)
      → AllPending s
      → lookup spec_dec k s.registry.entries ≡ some e
      → e.runtime ≡ none
      → e.resolving ≡ true
  owned_resolving s k e a h r =
      let x = a.current e.id k (a.owned k e h r) in
      let same : resolving_entry e.id ≡ e = cc in
      ap (λ (x : RegistryEntry R). x.resolving) (sym same)

  look_up-AllPending :
      (identity : R → VerifiedIdentity) (s : Running R) (spec : ContextSpec)
      → AllPending s
      → AllPending (after_turn s spec (look_up identity s.registry spec))
  unfolding look_up after_turn start_resolution
  look_up-AllPending identity s spec a =
      elim (Option-cases (lookup spec_dec spec s.registry.entries)) [
        | inl n ↦ rw (n, look_up) (started (λ e h. cc))
        | inr (entry, h) ↦ elim (Option-cases entry.runtime) [
          | inl r ↦ rw (h, look_up, r, owned_resolving s spec entry a h r) a
          | inr (runtime, r) ↦
              elim (Bool-cases ((identity runtime).credential_generation == entry.generation)) [
                | inl b ↦ rw (h, look_up, r, b) a
                | inr b ↦
                    rw (h, look_up, r, b)
                      (started (λ e h' n.
                        let q : entry ≡ e = cc in
                        let bad : some runtime ≡ none =
                          sym r ∙ ap (λ (x : RegistryEntry R). x.runtime) q ∙ n in
                        cc))
              ]
        ]
      ]
    where
      started :
          ((e : RegistryEntry R)
            → lookup spec_dec spec s.registry.entries ≡ some e
            → e.runtime ≢ none)
          → AllPending (record {
            registry = record s.registry {
              entries = insert spec_dec spec (resolving_entry s.registry.next) s.registry.entries;
              next = s.registry.next + 1;
            };
            pending = insert ℕ_discrete s.registry.next spec s.pending;
          })
      started idle = unfold start_resolution in start-AllPending s spec a idle

  has_runtime : (runtime : Option R) (b : Bool) → (is_none runtime || b) ≡ false → runtime ≢ none
  has_runtime none b h = λ e. absurd (ground arith)
  has_runtime (some r) b h = λ e. cc

  drop-AllPending :
      (keeps : RegistryEntry R → Bool) (s : Running R) (spec : ContextSpec)
      → AllPending s
      → AllPending
          (record { registry = (drop_runtime keeps s.registry spec).1; pending = s.pending })
  unfolding drop_runtime
  drop-AllPending keeps s spec a = elim (Option-cases (lookup spec_dec spec s.registry.entries)) [
    | inl n ↦ rw (n, drop_runtime) a
    | inr (entry, h) ↦ elim (Bool-cases (is_none entry.runtime || keeps entry)) [
      | inl b ↦ rw (h, drop_runtime, b) a
      | inr b ↦
          rw (h, drop_runtime, b)
            (delete-AllPending s spec _ a (λ e h' n.
              let q : entry ≡ e = cc in
              has_runtime entry.runtime (keeps entry) b
                (ap (λ (x : RegistryEntry R). x.runtime) q ∙ n)))
    ]
  ]

  guarded_drop :
      (b : Bool) (keeps : RegistryEntry R → Bool) (s : Running R) (spec : ContextSpec)
      → AllPending s
      → AllPending (record {
        registry = (if b then (false, s.registry) else drop_runtime keeps s.registry spec).1;
        pending = s.pending;
      })
  guarded_drop true keeps s spec a = a
  guarded_drop false keeps s spec a = drop-AllPending keeps s spec a

  closes :
      (identity : R → VerifiedIdentity) (r : ContextRegistry R) (spec : ContextSpec) (id : ℕ)
      (result : Result (Option R))
      → (settle identity r spec id result).closed ≡ id ∷ r.closed
  unfolding settle
  closes identity r spec id (ok (some runtime)) = refl
  closes identity r spec id (ok none) = refl
  closes identity r spec id (err e) = refl

  step-AllPending : (s : Running R) (x : RegistryStep R) → AllPending s → AllPending (step s x)
  unfolding step invalidate invalidate_generation resolve finish_resolution
  step-AllPending s (turns identity spec) a = elim (Option-cases (validate_context_spec spec)) [
    | inl n ↦ rw (n, resolve) (look_up-AllPending identity s spec a)
    | inr (e, h) ↦ rw (h, resolve) (unfold after_turn in a)
  ]
  step-AllPending s (ends identity id result) a =
      elim (Option-cases (lookup ℕ_discrete id s.pending)) [
        | inl n ↦ rw (n, step) a
        | inr (spec, p) ↦
            let same : (resolving_entry {R = R} id).id == id ≡ true = ground arith in
            rw (p, step, a.current id spec p, finish_resolution, same)
              (settle-AllPending identity s id spec result a p)
      ]
  step-AllPending s (drops spec cause) a = guarded_drop (not (is_context_changed cause)) _ s spec a
  step-AllPending s (drops_generation spec current) a = guarded_drop (current == 0) _ s spec a

  run_steps-AllPending :
      (xs : List (RegistryStep R)) (s : Running R) → AllPending s → AllPending (run_steps s xs)
  unfolding run_steps
  run_steps-AllPending [] s a = a
  run_steps-AllPending (x ∷ xs) s a = run_steps-AllPending xs (step s x) (step-AllPending s x a)

  unfoldable pub new_running : Running R
  new_running = record { registry = new_context_registry; pending = [] }

  new_running-AllPending : AllPending new_running
  unfolding lookup new_running
  new_running-AllPending = record {
    current = λ i k h. absurd cc;
    owned = λ k e h r. absurd cc;
    older = λ i k h. absurd cc;
  }

  -- After any steps of a new registry: a resolution between its two sections is the entry of its
  -- specification, an entry without a runtime is that of such a resolution, and when a resolution
  -- ends, with whatever result, it closes its channel.
  pub resolutions_stay_current :
      (xs : List (RegistryStep R)) (identity : R → VerifiedIdentity) (id : ℕ) (spec : ContextSpec)
      (result : Result (Option R))
      → lookup ℕ_discrete id (run_steps new_running xs).pending ≡ some spec
      → AllPending (run_steps new_running xs)
        × ((finish_resolution identity (run_steps new_running xs).registry spec id result).closed
            ≡ id ∷ (run_steps new_running xs).registry.closed)
  unfolding finish_resolution
  resolutions_stay_current xs identity id spec result p =
      let a = run_steps-AllPending xs new_running new_running-AllPending in
      let same : (resolving_entry {R = R} id).id == id ≡ true = ground arith in
      (
        a,
        rw (a.current id spec p, finish_resolution, same)
            (closes identity (run_steps new_running xs).registry spec id result),
      )
