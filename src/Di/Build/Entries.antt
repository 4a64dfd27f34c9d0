-- ===== src/Di/Build/Entries.antt =====
-- packages/di/src/module.ts: `Module.build`, `Module.scoped` and `Module.forkScope`.
use btravstack.Common.{List, []}
use btravstack.Di.{Port, Outcome, BuildOutcome, Held, Module}
use btravstack.Di.Context.{Context}
use btravstack.Di.Scope.{Scope, create_scope}
use btravstack.Di.Lifecycle.{Settling}
use btravstack.Di.Build.{run, run_scoped}

module _ {V E : Type 0} (settling : Settling V E) where
  -- No scope is ever closed here.
  build : Module V E → BuildOutcome E (Context V)
  build m = (run settling m create_scope []).0

  module _ {A : Type 0} (use_context : Context V → Outcome E A) where
    scoped : Module V E → List (Port × Held V) → BuildOutcome E A × Scope
    scoped m seeds = run_scoped settling use_context m seeds []

    -- A fresh scope over the parent's context.
    fork_scope : Context V → Module V E → List (Port × Held V) → BuildOutcome E A × Scope
    fork_scope parent m seeds = run_scoped settling use_context m seeds parent
