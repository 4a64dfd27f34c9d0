-- ===== src/Di/Lifecycle.antt =====
-- packages/di/src/lifecycle.ts: constructing a level, and the start hooks.
pub mod Outcomes
pub mod Laws
pub mod Levels
use mathlib.Core.List.{Perm, Memᴰ}
use btravstack.Common.{
  ℕ, ◌≡◌, ◌↔◌, String, Bool, true, false, Option, none, some, List, [], ◌∷◌, ◌++◌, map, Result, ok,
  fail, is_some, keep,
}
use btravstack.Di.{
  Port, Failure, defect, BuildFailure, failed, unregistered, Outcome, BuildOutcome, Held, Ran,
  returns, throws, Provider,
}
use btravstack.Di.Context.{Context, lookup}
use btravstack.Di.Scope.{Scope, Finaliser, constructs, starts, emit, on_stop}

-- `allAsync` of the package unthrown folds its results positionally, and fails as one of them does.
-- `arrive` is the order in which the providers of a level settle.
pub record Settling (V E : Type 0) : Type 0 where
  pub all_async : List (Outcome E V) → Outcome E (List V)
  pub all_ok_iff :
      (rs : List (Outcome E V)) (vs : List V) → (all_async rs ≡ ok vs) ↔ (rs ≡ map ok vs)
  pub all_fails :
      (rs : List (Outcome E V)) (f : Failure E) → all_async rs ≡ fail f → Memᴰ (fail f) rs
  pub arrive : List (Provider V E × V) → List (Provider V E × V)
  pub arrive_perm : (xs : List (Provider V E × V)) → Perm (arrive xs) xs

-- `provider.deps.map((dep) => unsafeGet(ctx, dep))`; the throw names the missing port.
pub services_of : {V : Type 0} → Context V → List Port → Result String (List (Held V))
services_of ctx [] = ok []
services_of ctx (dep ∷ deps) = elim (lookup ctx dep) [
  | none ↦ fail dep.port_id
  | some service ↦ elim (services_of ctx deps) [
    | fail id ↦ fail id
    | ok services ↦ ok (service ∷ services)
  ]
]

abbrev finaliser_of : {V : Type 0} → String → V → Option (V → Ran) → List Finaliser
finaliser_of id service none = []
finaliser_of id service (some f) = record { port_id = id; ends = f service } ∷ []

pub register_all : List Finaliser → Scope → Scope
register_all [] scope = scope
register_all (f ∷ fs) scope = register_all fs (on_stop f scope)

abbrev pub run_hook : {V : Type 0} → Option (V → Ran) → V → Ran
run_hook none service = returns
run_hook (some f) service = f service

pub record ConstructedLevel (V E : Type 0) : Type 0 where
  pub built : List (Port × V)
  pub started : List (Provider V E × V)

module _ {V E : Type 0} where
  abbrev pub add_outcome :
      Outcome E V
      → Result String (List (Outcome E V)) × Scope
      → Result String (List (Outcome E V)) × Scope
  add_outcome outcome (fail id, scope) = (fail id, scope)
  add_outcome outcome (ok outcomes, scope) = (ok (outcome ∷ outcomes), scope)

  -- The synchronous pass of `level.map`: every `construct` is called before any is awaited.
  pub call_all :
      Context V → List (Provider V E) → Scope → Result String (List (Outcome E V)) × Scope
  call_all ctx [] scope = (ok [], scope)
  call_all ctx (p ∷ ps) scope = elim (services_of ctx p.deps) [
    | fail id ↦ (fail id, scope)
    | ok services ↦
        add_outcome (p.construct services) (call_all ctx ps (emit (constructs p.ref) scope))
  ]

  -- What the `tap` of a provider that succeeds registers: its release, then its `onStop`.
  abbrev pub finalisers_of : Provider V E × V → List Finaliser
  finalisers_of (p, service) =
      finaliser_of p.port.port_id service p.release ++ finaliser_of p.port.port_id service p.on_stop

  abbrev pub all_finalisers_of : List (Provider V E × V) → List Finaliser
  all_finalisers_of [] = []
  all_finalisers_of (x ∷ xs) = finalisers_of x ++ all_finalisers_of xs

  -- The providers of a level that succeeded, with their services.
  pub succeeded : List (Provider V E) → List (Outcome E V) → List (Provider V E × V)
  succeeded (p ∷ ps) (ok service ∷ outcomes) = (p, service) ∷ succeeded ps outcomes
  succeeded (p ∷ ps) (fail f ∷ outcomes) = succeeded ps outcomes
  succeeded _ _ = []

  abbrev pub zip_values : List (Provider V E) → List V → List (Provider V E × V)
  zip_values (p ∷ ps) (v ∷ vs) = (p, v) ∷ zip_values ps vs
  zip_values _ _ = []

  abbrev pub constructed_of : List (Provider V E) → List V → ConstructedLevel V E
  constructed_of level values = record {
    built = map (λ x. (x.0.port, x.1)) (zip_values level values);
    started = keep (λ x. is_some x.0.on_start) (zip_values level values);
  }

  abbrev pub settled_of :
      List (Provider V E) → Outcome E (List V) → BuildOutcome E (ConstructedLevel V E)
  settled_of level (fail f) = fail (failed f)
  settled_of level (ok values) = ok (constructed_of level values)

  module _ (settling : Settling V E) where
    open settling use {all_async, arrive}

    pub settle_level :
        List (Provider V E)
        → Result String (List (Outcome E V)) × Scope
        → BuildOutcome E (ConstructedLevel V E) × Scope
    settle_level level (fail id, scope) = (fail (unregistered id), scope)
    settle_level level (ok outcomes, scope) = (
      settled_of level (all_async outcomes),
      register_all (all_finalisers_of (arrive (succeeded level outcomes))) scope,
    )

    pub construct_level :
        List (Provider V E) → Context V → Scope → BuildOutcome E (ConstructedLevel V E) × Scope
    construct_level level ctx scope = settle_level level (call_all ctx level scope)

  -- In declaration order, one at a time; a throw stops the rest.
  unfoldable pub run_start_hooks :
      List (Provider V E × V) → Scope → BuildOutcome E (Unit {0}) × Scope
  run_start_hooks [] scope = (ok tt, scope)
  run_start_hooks ((p, service) ∷ entries) scope = elim (run_hook p.on_start service) [
    | returns ↦ run_start_hooks entries (emit (starts p.ref) scope)
    | throws cause ↦ (fail (failed (defect cause)), emit (starts p.ref) scope)
  ]
