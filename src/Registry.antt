-- ===== src/Registry.antt =====
-- The registry of verified runtimes. internal/bb/awsbrowser/registry.go.
-- `Resolve` has two critical sections around the factory's call, so it is two functions: the turn of
-- the loop that looks the specification up, and the end of a resolution. A runtime is a parameter;
-- its identity, which may change at any time, is an argument of each step that reads it. A pointer
-- to an entry, and its channel `done`, is the number of the resolution that made it.
pub mod Pending
pub mod Runs
use binbox_cli.Base.{
  ℕ, ◌+◌, Bool, true, false, not, ◌&&◌, ◌||◌, Option, none, some, List, [], ◌∷◌, ◌==◌,
  if◌then◌else◌, ℕ_discrete, Map, lookup, insert, delete,
}
use binbox_cli.Errors.{Error, Result, ok, err, context_changed, other_error}
use binbox_cli.Text.{text_dec}
use binbox_cli.Identity.{ContextSpec, VerifiedIdentity, SpecError, validate_context_spec, is_none}

unfoldable pub spec_dec : Discrete ContextSpec
spec_dec = hlevel text_dec

unfoldable pub is_context_changed : Error → Bool
is_context_changed context_changed = true
is_context_changed _ = false

-- `contextRegistryEntry`
pub record RegistryEntry (R : Type 0) : Type 0 where
  pub id : ℕ
  pub runtime : Option R
  pub generation : ℕ
  pub resolving : Bool

-- The registry, the next number of a resolution, and the channels closed, the last in front.
pub record ContextRegistry (R : Type 0) : Type 0 where
  pub entries : Map ContextSpec (RegistryEntry R)
  pub next : ℕ
  pub closed : List ℕ

abbrev pub new_context_registry : {R : Type 0} → ContextRegistry R
new_context_registry = record { entries = []; next = 0; closed = [] }

-- What the first section of `Resolve` does next: return a runtime, wait for a resolution, or
-- resolve itself.
pub data Turn (R : Type 0) : Type 0 where
  rejects : SpecError → Turn R
  returns : R → Turn R
  waits : ℕ → Turn R
  resolves : ℕ → Turn R

-- `ContextRegistryView`; the view that is not resolved is `none`.
unfoldable pub view :
    {R : Type 0}
    → (R → VerifiedIdentity)
    → ContextRegistry R
    → ContextSpec
    → Option VerifiedIdentity
view identity registry spec = elim (lookup spec_dec spec registry.entries) [
  | none ↦ none
  | some entry ↦ elim entry.runtime [ none ↦ none | some runtime ↦ some (identity runtime) ]
]

abbrev pub resolving_entry : {R : Type 0} → ℕ → RegistryEntry R
resolving_entry id = record { id = id; runtime = none; generation = 0; resolving = true }

unfoldable pub start_resolution :
    {R : Type 0} → ContextRegistry R → ContextSpec → Turn R × ContextRegistry R
start_resolution registry spec = (
  resolves registry.next,
  record registry {
    entries = insert spec_dec spec (resolving_entry registry.next) registry.entries;
    next = registry.next + 1;
  },
)

-- A turn of the loop of `Resolve` under the lock. A memoized runtime of another generation is
-- replaced by a new resolution.
unfoldable pub look_up :
    {R : Type 0}
    → (R → VerifiedIdentity)
    → ContextRegistry R
    → ContextSpec
    → Turn R × ContextRegistry R
look_up identity registry spec = elim (lookup spec_dec spec registry.entries) [
  | none ↦ start_resolution registry spec
  | some entry ↦ elim entry.runtime [
    | some runtime ↦
        if (identity runtime).credential_generation == entry.generation
        then (returns runtime, registry)
        else start_resolution registry spec
    | none ↦ if entry.resolving then (waits entry.id, registry) else start_resolution registry spec
  ]
]

unfoldable pub resolve :
    {R : Type 0}
    → (R → VerifiedIdentity)
    → ContextRegistry R
    → ContextSpec
    → Turn R × ContextRegistry R
resolve identity registry spec = elim (validate_context_spec spec) [
  | some e ↦ (rejects e, registry)
  | none ↦ look_up identity registry spec
]

abbrev pub memoized : {R : Type 0} → (R → VerifiedIdentity) → ℕ → R → RegistryEntry R
memoized identity id runtime = record {
  id = id;
  runtime = some runtime;
  generation = (identity runtime).credential_generation;
  resolving = false;
}

-- The second section of `Resolve`, on the entry that is current. The factory's nil runtime without
-- an error is an error.
unfoldable pub settle :
    {R : Type 0}
    → (R → VerifiedIdentity)
    → ContextRegistry R
    → ContextSpec
    → ℕ
    → Result (Option R)
    → ContextRegistry R
settle identity registry spec id (ok (some runtime)) = record registry {
  entries = insert spec_dec spec (memoized identity id runtime) registry.entries;
  closed = id ∷ registry.closed;
}
settle identity registry spec id _ = record registry {
  entries = delete spec_dec spec registry.entries;
  closed = id ∷ registry.closed;
}

unfoldable pub finish_resolution :
    {R : Type 0}
    → (R → VerifiedIdentity)
    → ContextRegistry R
    → ContextSpec
    → ℕ
    → Result (Option R)
    → ContextRegistry R
finish_resolution identity registry spec id result = elim (lookup spec_dec spec registry.entries) [
  | none ↦ registry
  | some current ↦ if current.id == id then settle identity registry spec id result else registry
]

-- The entry of a specification with a runtime that a test accepts is deleted.
unfoldable pub drop_runtime :
    {R : Type 0}
    → (RegistryEntry R → Bool)
    → ContextRegistry R
    → ContextSpec
    → Bool × ContextRegistry R
drop_runtime keeps registry spec = elim (lookup spec_dec spec registry.entries) [
  | none ↦ (false, registry)
  | some entry ↦
      if is_none entry.runtime || keeps entry
      then (false, registry)
      else (true, record registry { entries = delete spec_dec spec registry.entries })
]

-- `Invalidate`
unfoldable pub invalidate :
    {R : Type 0} → ContextRegistry R → ContextSpec → Error → Bool × ContextRegistry R
invalidate registry spec cause =
    if not (is_context_changed cause)
    then (false, registry)
    else drop_runtime (λ entry. false) registry spec

-- `InvalidateGeneration`
unfoldable pub invalidate_generation :
    {R : Type 0} → ContextRegistry R → ContextSpec → ℕ → Bool × ContextRegistry R
invalidate_generation registry spec current =
    if current == 0
    then (false, registry)
    else drop_runtime (λ entry. entry.generation == current) registry spec
