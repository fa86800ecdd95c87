-- ===== src/Registry/Pending.antt =====
-- A resolution that has started is the current entry of its specification until it ends, so it
-- closes its channel and nobody waits for a channel that no resolution will close.
use binbox_cli.Base.{
  ℕ, ◌<◌, ◌≡◌, ◌≢◌, refl, sym, ◌∙◌, ap, Option, none, some, List, arith, ℕ_discrete, Map, lookup,
  insert, delete, lookup-insert_same, lookup-insert_other, lookup-delete_same, lookup-delete_other,
}
use binbox_cli.Errors.{Result, ok, err}
use binbox_cli.Identity.{ContextSpec, VerifiedIdentity}
use binbox_cli.Registry.{
  RegistryEntry, ContextRegistry, spec_dec, resolving_entry, memoized, start_resolution, settle,
}

-- The registry with the resolutions between their two sections.
pub record Running (R : Type 0) : Type 0 where
  pub registry : ContextRegistry R
  pub pending : Map ℕ ContextSpec

module _ {R : Type 0} where
  -- A pending resolution is the entry of its specification; an entry without a runtime is pending.
  pub record AllPending (s : Running R) : Type 0 where
    pub current :
        (i : ℕ) (k : ContextSpec)
        → lookup ℕ_discrete i s.pending ≡ some k
        → lookup spec_dec k s.registry.entries ≡ some (resolving_entry i)
    pub owned :
        (k : ContextSpec) (e : RegistryEntry R)
        → lookup spec_dec k s.registry.entries ≡ some e
        → e.runtime ≡ none
        → lookup ℕ_discrete e.id s.pending ≡ some k
    pub older :
        (i : ℕ) (k : ContextSpec) → lookup ℕ_discrete i s.pending ≡ some k → i < s.registry.next

  -- No resolution is pending for the specification.
  abbrev pub Idle : ContextRegistry R → ContextSpec → Type 0
  Idle r k = (e : RegistryEntry R) → lookup spec_dec k r.entries ≡ some e → e.runtime ≢ none

  pending_elsewhere :
      {s : Running R}
      → AllPending s
      → (spec : ContextSpec) → Idle s.registry spec
      → (i : ℕ) (k : ContextSpec) → lookup ℕ_discrete i s.pending ≡ some k
      → spec ≢ k
  pending_elsewhere a spec idle i k h e = idle (resolving_entry i) (rw e (a.current i k h)) refl

  pub start-AllPending :
      (s : Running R) (spec : ContextSpec)
      → AllPending s
      → Idle s.registry spec
      → AllPending (record {
        registry = (start_resolution s.registry spec).1;
        pending = insert ℕ_discrete s.registry.next spec s.pending;
      })
  unfolding start_resolution
  start-AllPending s spec a idle = record {
    current = λ i k h. elim (ℕ_discrete next i) [
      | yes e ↦
          let q : spec ≡ k = cc (lookup-insert_same ℕ_discrete next spec s.pending) in
          cc (lookup-insert_same spec_dec spec (resolving_entry next) entries)
      | no n ↦
          let h' = sym (lookup-insert_other ℕ_discrete next i spec s.pending n) ∙ h in
          lookup-insert_other spec_dec spec k _ entries
            (pending_elsewhere {s = s} a spec idle i k h')
          ∙ a.current i k h'
    ];
    owned = λ k e h r. elim (spec_dec spec k) [
      | yes q ↦
          let same : resolving_entry next ≡ e =
            cc (lookup-insert_same spec_dec spec (resolving_entry next) entries) in
          let id : next ≡ e.id = ap (λ (x : RegistryEntry R). x.id) same in
          cc (lookup-insert_same ℕ_discrete next spec s.pending)
      | no n ↦
          let own = a.owned k e (sym (lookup-insert_other spec_dec spec k _ entries n) ∙ h) r in
          let old = a.older e.id k own in
          lookup-insert_other ℕ_discrete next e.id spec s.pending
            (λ q. absurd (omega (arith, q, old)))
          ∙ own
    ];
    older = λ i k h. elim (ℕ_discrete next i) [
      | yes e ↦ omega (arith, e)
      | no n ↦
          omega
            (arith, a.older i k (sym (lookup-insert_other ℕ_discrete next i spec s.pending n) ∙ h))
    ];
  }
    where
      next : ℕ
      next = s.registry.next

      entries : Map ContextSpec (RegistryEntry R)
      entries = s.registry.entries

  -- An entry with a runtime goes, and no pending resolution minds.
  pub delete-AllPending :
      (s : Running R) (spec : ContextSpec) (closed : List ℕ)
      → AllPending s
      → Idle s.registry spec
      → AllPending (record {
        registry = record {
          entries = delete spec_dec spec s.registry.entries;
          next = s.registry.next;
          closed = closed;
        };
        pending = s.pending;
      })
  delete-AllPending s spec closed a idle = record {
    current = λ i k h.
        lookup-delete_other spec_dec spec k s.registry.entries
          (pending_elsewhere {s = s} a spec idle i k h)
        ∙ a.current i k h;
    owned = λ k e h r. elim (spec_dec spec k) [
      | yes q ↦ absurd (cc (lookup-delete_same spec_dec spec s.registry.entries))
      | no n ↦ a.owned k e (sym (lookup-delete_other spec_dec spec k s.registry.entries n) ∙ h) r
    ];
    older = a.older;
  }

  -- The end of a resolution: its entry gets a runtime or goes, and all others stay.
  end-AllPending :
      (s : Running R) (id : ℕ) (spec : ContextSpec) (m : Map ContextSpec (RegistryEntry R))
      (closed : List ℕ)
      → AllPending s
      → lookup ℕ_discrete id s.pending ≡ some spec
      → ((k : ContextSpec) → spec ≢ k → lookup spec_dec k m ≡ lookup spec_dec k s.registry.entries)
      → ((e : RegistryEntry R) → lookup spec_dec spec m ≡ some e → e.runtime ≢ none)
      → AllPending (record {
        registry = record { entries = m; next = s.registry.next; closed = closed };
        pending = delete ℕ_discrete id s.pending;
      })
  end-AllPending s id spec m closed a p others mine = record {
    current = λ i k h.
        let ne = live i k h in
        let h' = sym (lookup-delete_other ℕ_discrete id i s.pending ne) ∙ h in
        others k (λ q. ne (same_id i k h' q)) ∙ a.current i k h';
    owned = λ k e h r. elim (spec_dec spec k) [
      | yes q ↦ absurd (mine e (ap (λ j. lookup spec_dec j m) q ∙ h) r)
      | no n ↦
          let own = a.owned k e (sym (others k n) ∙ h) r in
          lookup-delete_other ℕ_discrete id e.id s.pending (λ q. n (cc)) ∙ own
    ];
    older =
        λ i k h. a.older i k (sym (lookup-delete_other ℕ_discrete id i s.pending (live i k h)) ∙ h);
  }
    where
      live :
          (i : ℕ) (k : ContextSpec)
          → lookup ℕ_discrete i (delete ℕ_discrete id s.pending) ≡ some k
          → id ≢ i
      live i k h q = cc (lookup-delete_same ℕ_discrete id s.pending)

      same_id :
          (i : ℕ) (k : ContextSpec) → lookup ℕ_discrete i s.pending ≡ some k → spec ≡ k → id ≡ i
      same_id i k h q =
          let x = a.current i k h in
          let y = a.current id spec p in
          let z : resolving_entry id ≡ resolving_entry i = cc in
          ap (λ (e : RegistryEntry R). e.id) z

  gone :
      (s : Running R) (id : ℕ) (spec : ContextSpec) (closed : List ℕ)
      → AllPending s
      → lookup ℕ_discrete id s.pending ≡ some spec
      → AllPending (record {
        registry = record {
          entries = delete spec_dec spec s.registry.entries;
          next = s.registry.next;
          closed = closed;
        };
        pending = delete ℕ_discrete id s.pending;
      })
  gone s id spec closed a p =
      end-AllPending s id spec _ closed a p
        (λ k n. lookup-delete_other spec_dec spec k s.registry.entries n)
        (λ e h r. cc (lookup-delete_same spec_dec spec s.registry.entries))

  pub settle-AllPending :
      (identity : R → VerifiedIdentity) (s : Running R) (id : ℕ) (spec : ContextSpec)
      (result : Result (Option R))
      → AllPending s
      → lookup ℕ_discrete id s.pending ≡ some spec
      → AllPending (record {
        registry = settle identity s.registry spec id result;
        pending = delete ℕ_discrete id s.pending;
      })
  unfolding settle
  settle-AllPending identity s id spec (ok (some runtime)) a p =
      end-AllPending s id spec _ _ a p
        (λ k n. lookup-insert_other spec_dec spec k _ s.registry.entries n)
        (λ e h r.
          let q =
            lookup-insert_same spec_dec spec (memoized identity id runtime) s.registry.entries in
          let same : memoized identity id runtime ≡ e = cc in
          let bad : some runtime ≡ none = ap (λ (x : RegistryEntry R). x.runtime) same ∙ r in cc)
  settle-AllPending identity s id spec (ok none) a p = gone s id spec _ a p
  settle-AllPending identity s id spec (err e) a p = gone s id spec _ a p
