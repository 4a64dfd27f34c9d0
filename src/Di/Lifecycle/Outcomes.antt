-- ===== src/Di/Lifecycle/Outcomes.antt =====
-- What the factories of the levels of a plan answered, told from how each provider constructs.
use btravstack.Common.{◌≡◌, refl, ap, ℕ, List, [], ◌∷◌, ◌++◌, map, ok, fail}
use btravstack.Di.{Failure, Outcome, Held, Provider}
use btravstack.Di.Context.{Context}
use btravstack.Di.Flatten.{refs}
use btravstack.Di.Scope.{constructs}
use btravstack.Di.Scope.Laws.{constructed}
use btravstack.Di.Lifecycle.{services_of, succeeded}

module _ {V E : Type 0} where
  -- A level against those of its providers that answered a service, in declaration order: each
  -- factory was called with the services of its ports in one context.
  pub data IsLevel (ctx : Context V) : List (Provider V E) → List (Provider V E × V) → Type 0 where
    none_left : IsLevel ctx [] []
    gains :
        {p : Provider V E} {level : List (Provider V E)} {group : List (Provider V E × V)}
        (services : List (Held V)) (v : V)
        → services_of ctx p.deps ≡ ok services
        → p.construct services ≡ ok v
        → IsLevel ctx level group
        → IsLevel ctx (p ∷ level) ((p, v) ∷ group)
    loses :
        {p : Provider V E} {level : List (Provider V E)} {group : List (Provider V E × V)}
        (services : List (Held V)) (f : Failure E)
        → services_of ctx p.deps ≡ ok services
        → p.construct services ≡ fail f
        → IsLevel ctx level group
        → IsLevel ctx (p ∷ level) group

  -- The levels of a plan, from the first on, against the factories that were called and what each
  -- level gained.
  pub data IsBuiltUp
      : List (List (Provider V E)) → List ℕ → List (List (Provider V E × V)) → Type 0 where
    stops : {levels : List (List (Provider V E))} → IsBuiltUp levels [] []
    goes_on :
        {level : List (Provider V E)} {levels : List (List (Provider V E))} {called : List ℕ}
        {group : List (Provider V E × V)} {groups : List (List (Provider V E × V))}
        (ctx : Context V)
        → IsLevel ctx level group
        → IsBuiltUp levels called groups
        → IsBuiltUp (level ∷ levels) (refs level ++ called) (group ∷ groups)

  -- The outcomes of a level are what its factories answered.
  abbrev pub IsAnswered : Context V → List (Provider V E) → List (Outcome E V) → Type 0
  IsAnswered ctx [] [] = Unit
  IsAnswered ctx (p ∷ ps) (outcome ∷ outcomes) =
      ((services : List (Held V)) × (services_of ctx p.deps ≡ ok services)
        × (p.construct services ≡ outcome))
      × IsAnswered ctx ps outcomes
  IsAnswered ctx [] (outcome ∷ outcomes) = ⊥
  IsAnswered ctx (p ∷ ps) [] = ⊥

  pub succeeded-IsLevel :
      (ctx : Context V) (ps : List (Provider V E)) (outcomes : List (Outcome E V))
      → IsAnswered ctx ps outcomes
      → IsLevel ctx ps (succeeded ps outcomes)
  unfolding succeeded
  succeeded-IsLevel ctx [] [] answered = none_left
  succeeded-IsLevel ctx [] (outcome ∷ outcomes) answered = absurd answered
  succeeded-IsLevel ctx (p ∷ ps) [] answered = absurd answered
  succeeded-IsLevel ctx (p ∷ ps) (ok v ∷ outcomes) ((services, found, e), later) =
      gains services v found e (succeeded-IsLevel ctx ps outcomes later)
  succeeded-IsLevel ctx (p ∷ ps) (fail f ∷ outcomes) ((services, found, e), later) =
      loses services f found e (succeeded-IsLevel ctx ps outcomes later)

pub constructed-constructs : (called : List ℕ) → constructed (map constructs called) ≡ called
unfolding constructed
constructed-constructs [] = refl
constructed-constructs (ref ∷ called) = ap (◌∷◌ ref) (constructed-constructs called)
