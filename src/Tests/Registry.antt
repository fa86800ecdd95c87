-- ===== src/Tests/Registry.antt =====
-- Two resolutions of a registry, the first ended.
use binbox_cli.Base.{◌≡◌, refl, none, some, List, [], ◌∷◌, lookup, insert, delete, ℕ_discrete}
use binbox_cli.Errors.{ok, context_changed}
use binbox_cli.Identity.{VerifiedIdentity}
use binbox_cli.Registry.{
  spec_dec, start_resolution, look_up, resolve, settle, finish_resolution, drop_runtime, invalidate,
  is_context_changed,
}
use binbox_cli.Registry.Pending.{AllPending}
use binbox_cli.Registry.Runs.{
  RegistryStep, turns, ends, drops, after_turn, step, run_steps, new_running,
  resolutions_stay_current,
}
use binbox_cli.Tests.Data.{program}
use binbox_cli.Tests.Parts.{spec, identity}

abbrev same : VerifiedIdentity → VerifiedIdentity
same i = i

-- A resolution that ends with a runtime, its invalidation, and another resolution.
abbrev steps : List (RegistryStep VerifiedIdentity)
steps =
    turns same spec
    ∷ ends same 0 (ok (some identity))
    ∷ drops spec context_changed
    ∷ turns same spec
    ∷ []

second_pending : lookup ℕ_discrete 1 (run_steps new_running steps).pending ≡ some spec
unfolding program spec_dec start_resolution look_up resolve settle finish_resolution drop_runtime
    invalidate is_context_changed after_turn step run_steps new_running lookup insert delete
second_pending = refl

resolutions_stay_current_example :
    AllPending (run_steps new_running steps)
    × ((finish_resolution same (run_steps new_running steps).registry spec 1 (ok none)).closed
        ≡ 1 ∷ (run_steps new_running steps).registry.closed)
resolutions_stay_current_example =
    resolutions_stay_current steps same 1 spec (ok none) second_pending
