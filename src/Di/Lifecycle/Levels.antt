-- ===== src/Di/Lifecycle/Levels.antt =====
-- One level whose dependencies resolve: what is called, registered and built, on success and failure.
use btravstack.Common.{◌≡◌, refl, ◌⊎◌, inl, inr, List, ◌++◌, map, ok, fail, length, All}
use btravstack.Di.{Failure, failed, Outcome, BuildOutcome, Provider}
use btravstack.Di.Context.{Context}
use btravstack.Di.Flatten.{refs}
use btravstack.Di.Scope.{Scope, constructs}
use btravstack.Di.Lifecycle.{
  Settling, ConstructedLevel, constructed_of, settled_of, settle_level, construct_level, succeeded,
  all_finalisers_of,
}
use btravstack.Di.Lifecycle.Outcomes.{IsAnswered}
use btravstack.Di.Lifecycle.Laws.{Resolves, call_all-Resolves, register_all_lem}

module _ {V E : Type 0} (settling : Settling V E) where
  open settling use {all_async, all_ok_iff, arrive}

  -- The scope after a level: its factories are called, and what its successes need is registered.
  abbrev pub after_level : List (Provider V E) → List (Outcome E V) → Scope → Scope
  after_level level outcomes scope = record scope {
    log = scope.log ++ map constructs (refs level);
    finalisers = scope.finalisers ++ all_finalisers_of (arrive (succeeded level outcomes));
  }

  pub record IsConstructed (level : List (Provider V E)) (scope : Scope)
      (r : BuildOutcome E (ConstructedLevel V E) × Scope) : Type 0 where
    pub outcomes : List (Outcome E V)
    pub one_each : length outcomes ≡ length level
    pub context : Context V
    pub answered : IsAnswered context level outcomes
    pub after : r.1 ≡ after_level level outcomes scope
    pub result :
        ((f : Failure E) × (r.0 ≡ fail (failed f)))
        ⊎ ((values : List V) × (outcomes ≡ map ok values)
            × (r.0 ≡ ok (constructed_of level values)))

  settled_of-cases :
      (level : List (Provider V E)) (outcomes : List (Outcome E V)) (r : Outcome E (List V))
      → all_async outcomes ≡ r
      → ((f : Failure E) × (settled_of level r ≡ fail (failed f)))
        ⊎ ((values : List V) × (outcomes ≡ map ok values)
            × (settled_of level r ≡ ok (constructed_of level values)))
  settled_of-cases level outcomes (fail f) e = inl (f, refl)
  settled_of-cases level outcomes (ok values) e =
      inr (values, (all_ok_iff outcomes values).0 e, refl)

  -- Where every dependency resolves, a level calls each of its factories once, in declaration order,
  -- and registers what its successes need, in order of arrival, whether or not one of them fails; it
  -- succeeds with every service or fails as foreign code failed, never on a missing service.
  pub construct_level-IsConstructed :
      (level : List (Provider V E)) (ctx : Context V) (scope : Scope)
      → All (λ p. Resolves ctx p.deps) level
      → IsConstructed level scope (construct_level settling level ctx scope)
  unfolding construct_level settle_level
  construct_level-IsConstructed level ctx scope h =
      let (outcomes, e, same, answered) = call_all-Resolves ctx level scope h in
      rw e (record {
        outcomes = outcomes;
        one_each = same;
        context = ctx;
        answered = answered;
        after = register_all_lem (all_finalisers_of (arrive (succeeded level outcomes))) _;
        result = settled_of-cases level outcomes (all_async outcomes) refl;
      })
