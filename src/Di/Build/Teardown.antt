-- ===== src/Di/Build/Teardown.antt =====
-- `run` and `runScoped` as a whole: the scope is closed on every path, after all work, and releases
-- what was acquired.
use mathlib.Core.List.{Perm}
use btravstack.Common.{
  ℕ, ◌≡◌, ◌≢◌, refl, ap, ◌∙◌, inl, inr, String, true, string_eq, List, [], ◌∷◌, ◌++◌, map, flatten,
  reverse, ok, fail, all, Result-cases,
}
use btravstack.Di.{Port, failed, unregistered, Outcome, BuildOutcome, Held, Provider, Module}
use btravstack.Di.Context.{Context}
use btravstack.Di.Flatten.{flatten_module}
use btravstack.Di.Flatten.Laws.{flatten_module_lem}
use btravstack.Di.Overrides.{resolve_overrides}
use btravstack.Di.Scope.{
  Finaliser, Scope, Event, constructs, finalises, reports, starts, uses, fails, emit, create_scope,
  close, run_all,
}
use btravstack.Di.Scope.Laws.{is_work, finalised, constructed, close-log, close-shut, close_lem}
use btravstack.Di.Lifecycle.{Settling, all_finalisers_of}
use btravstack.Di.Build.{run, seed_all, then_use, run_scoped}
use btravstack.Di.Build.Runs.{IsWork, IsPlanned, IsRun, emit-IsWork, run_providers-IsRun}

-- Work runs no finaliser.
work-finalised : (es : List Event) → all is_work es ≡ true → finalised es ≡ []
unfolding finalised
work-finalised [] h = refl
work-finalised (finalises id ∷ es) h = absurd (cc)
work-finalised (reports id cause ∷ es) h = absurd (cc)
work-finalised (constructs ref ∷ es) h = work-finalised es h
work-finalised (starts ref ∷ es) h = work-finalised es h
work-finalised (fails ∷ es) h = work-finalised es h
work-finalised (uses ∷ es) h = work-finalised es h

module _ {V E : Type 0} where
  -- `runScoped` over the providers of a module. `called` are the factories that the log shows, and
  -- `groups` what each level of the plan gained by them, of which all is released, in the opposite
  -- order: the last level first, and in a level the last to arrive first.
  pub record IsTornDown {A : Type 0} (settling : Settling V E) (given : List (Provider V E))
      (seed : Context V) (r : BuildOutcome E A × Scope) : Type 0 where
    pub called : List ℕ
    pub groups : List (List (Provider V E × V))
    pub work : List Event
    pub planned : IsPlanned given seed called groups
    pub shut : r.1.closed ≡ true
    pub quiet : all is_work work ≡ true
    pub calls : constructed work ≡ called
    pub released :
        r.1.log
        ≡ work
          ++ run_all (reverse (all_finalisers_of (flatten (map (Settling.arrive settling) groups))))
    pub all_ran :
        finalised r.1.log
        ≡ map Finaliser.port_id
            (reverse (all_finalisers_of (flatten (map (Settling.arrive settling) groups))))
    pub never : (id : String) → r.0 ≢ fail (unregistered id)
    pub complete :
        (a : A)
        → r.0 ≡ ok a
        → (resolved : List (Provider V E)) × (resolve_overrides given ≡ ok resolved)
          × Perm (map (λ x. x.0) (flatten (map (Settling.arrive settling) groups))) resolved

  closed-IsTornDown :
      {A : Type 0} (settling : Settling V E) (given : List (Provider V E)) (seed : Context V)
      {called : List ℕ} {groups : List (List (Provider V E × V))} (r : BuildOutcome E A) (s : Scope)
      → IsPlanned given seed called groups
      → IsWork called (flatten (map (Settling.arrive settling) groups)) s
      → ((id : String) → r ≢ fail (unregistered id))
      → ((a : A)
          → r ≡ ok a
          → (resolved : List (Provider V E)) × (resolve_overrides given ≡ ok resolved)
            × Perm (map (λ x. x.0) (flatten (map (Settling.arrive settling) groups))) resolved)
      → IsTornDown settling given seed (r, close s)
  closed-IsTornDown settling given seed {called} {groups} r s planned w never complete = record {
    called = called;
    groups = groups;
    work = s.log;
    planned = planned;
    shut = close-shut s;
    quiet = w.quiet;
    calls = w.calls;
    released = close-log s w.open_still ∙ ap (λ fs. s.log ++ run_all (reverse fs)) w.registered;
    all_ran =
        ((close_lem s).0 w.open_still).0
        ∙ (ap (λ ids. ids ++ map Finaliser.port_id (reverse s.finalisers))
              (work-finalised s.log w.quiet)
            ∙ ap (λ fs. map Finaliser.port_id (reverse fs)) w.registered);
    never = never;
    complete = complete;
  }

  module _ (settling : Settling V E) {A : Type 0} (use_context : Context V → Outcome E A) where
    then_use-IsTornDown :
        (given : List (Provider V E)) (seed : Context V) (r : BuildOutcome E (Context V) × Scope)
        → IsRun settling given seed r
        → let used = then_use settling use_context r in
          IsTornDown settling given seed (used.0, close used.1)
    unfolding then_use constructed
    then_use-IsTornDown given seed (fail f, s) run =
        closed-IsTornDown settling given seed (fail f) (emit fails s) run.planned
          (emit-IsWork _ fails s refl refl run.work) (λ id e. run.never id cc) (λ a e. cc e)
    then_use-IsTornDown given seed (ok ctx, s) run = elim (Result-cases (use_context ctx)) [
      | inl (f, e) ↦
          rw (e, then_use)
            (closed-IsTornDown settling given seed (fail (failed f)) (emit uses s) run.planned
              (emit-IsWork _ uses s refl refl run.work) (λ id e. cc e) (λ a e. cc e))
      | inr (a, e) ↦
          rw (e, then_use)
            (closed-IsTornDown settling given seed (ok a) (emit uses s) run.planned
              (emit-IsWork _ uses s refl refl run.work) (λ id e. cc e)
              (λ b e. run.complete ctx refl))
    ]

    -- For every module, seeds and parent context, however construction, the start hooks and the use
    -- go: the scope ends closed, and its log is the work followed by the finalisers. The factories that
    -- the log shows are those of the first levels of the plan; each answered a service or failed, and
    -- whatever answered a service is finalised once, whichever finalisers throw, the last level first
    -- and in a level the last to arrive first. No factory reads a port with no service; and if the run
    -- succeeds, all providers that the overrides leave were acquired, each once.
    pub run_scoped-IsTornDown :
        (m : Module V E) (seeds : List (Port × Held V)) (parent : Context V)
        → IsTornDown settling
            (flatten_module m)
            (seed_all settling seeds parent)
            (run_scoped settling use_context m seeds parent)
    unfolding run_scoped run
    run_scoped-IsTornDown m seeds parent =
        then_use-IsTornDown (flatten_module m) (seed_all settling seeds parent)
          (run settling m create_scope (seed_all settling seeds parent))
          (run_providers-IsRun settling (flatten_module m) (seed_all settling seeds parent)
            (flatten_module_lem m).0)
