-- ===== src/Di/Build.antt =====
-- packages/di/src/build.ts: `run` and `runScoped`.
pub mod Reads
pub mod Runs
pub mod Teardown
mod Entries
use btravstack.Common.{String, Bool, Option, List, [], ◌∷◌, ◌++◌, Result, ok, fail}
use btravstack.Di.{
  Port, Failure, BuildFailure, failed, wiring, Outcome, BuildOutcome, Held, Provider, Module,
}
use btravstack.Di.Context.{Context, unsafe_add, unsafe_add_all, unsafe_keys}
use btravstack.Di.Scope.{Scope, create_scope, emit, close, fails, uses}
use btravstack.Di.Flatten.{flatten_module}
use btravstack.Di.Plan.{plan}
use btravstack.Di.Lifecycle.{Settling, ConstructedLevel, construct_level, run_start_hooks}

module _ {V E : Type 0} (settling : Settling V E) where
  -- What follows a level: a failure stops the fold.
  abbrev pub then_levels :
      (Context V
        → List (Provider V E × V)
        → Scope
        → BuildOutcome E (Context V × List (Provider V E × V)) × Scope)
      → Context V
      → List (Provider V E × V)
      → BuildOutcome E (ConstructedLevel V E) × Scope
      → BuildOutcome E (Context V × List (Provider V E × V)) × Scope
  then_levels next ctx started (fail f, scope) = (fail f, scope)
  then_levels next ctx started (ok done, scope) =
      next (unsafe_add_all ctx done.built) (started ++ done.started) scope

  -- The fold over the levels: the context so far, and the providers with a start hook.
  pub run_levels :
      List (List (Provider V E))
      → Context V
      → List (Provider V E × V)
      → Scope
      → BuildOutcome E (Context V × List (Provider V E × V)) × Scope
  run_levels [] ctx started scope = (ok (ctx, started), scope)
  run_levels (level ∷ levels) ctx started scope =
      then_levels (run_levels levels) ctx started (construct_level settling level ctx scope)

  abbrev pub keep_context :
      Context V → BuildOutcome E (Unit {0}) × Scope → BuildOutcome E (Context V) × Scope
  keep_context ctx (fail f, scope) = (fail f, scope)
  keep_context ctx (ok _, scope) = (ok ctx, scope)

  pub start_built :
      BuildOutcome E (Context V × List (Provider V E × V)) × Scope
      → BuildOutcome E (Context V) × Scope
  start_built (fail f, scope) = (fail f, scope)
  start_built (ok (ctx, started), scope) = keep_context ctx (run_start_hooks started scope)

  pub run_providers : List (Provider V E) → Scope → Context V → BuildOutcome E (Context V) × Scope
  run_providers providers scope seed = elim (plan providers (unsafe_keys seed)) [
    | fail w ↦ (fail (wiring w), scope)
    | ok levels ↦ start_built (run_levels levels seed [] scope)
  ]

  pub run : Module V E → Scope → Context V → BuildOutcome E (Context V) × Scope
  run m scope seed = run_providers (flatten_module m) scope seed

  -- The reduce over `options.seed`.
  pub seed_all : List (Port × Held V) → Context V → Context V
  seed_all [] ctx = ctx
  seed_all ((port, value) ∷ seeds) ctx = seed_all seeds (unsafe_add ctx port value)

  module _ {A : Type 0} (use_context : Context V → Outcome E A) where
    -- `tapFailure` and `flatMap(use)`.
    pub then_use : BuildOutcome E (Context V) × Scope → BuildOutcome E A × Scope
    then_use (fail f, scope) = (fail f, emit fails scope)
    then_use (ok ctx, scope) = elim (use_context ctx) [
      | ok a ↦ (ok a, emit uses scope)
      | fail f ↦ (fail (failed f), emit uses scope)
    ]

    -- The scope is closed whatever the result.
    pub run_scoped : Module V E → List (Port × Held V) → Context V → BuildOutcome E A × Scope
    run_scoped m seeds parent =
        let used = then_use (run m create_scope (seed_all seeds parent)) in (used.0, close used.1)
