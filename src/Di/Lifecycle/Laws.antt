-- ===== src/Di/Lifecycle/Laws.antt =====
-- A level whose dependencies all resolve: what it logs, registers and builds.
use mathlib.Core.List.{append-nil, append_assoc}
use btravstack.Common.{
  ℕ, ◌≡◌, refl, sym, ap, ◌∙◌, true, List, [], ◌∷◌, ◌++◌, map, ok, length, is_some, all, All, arith,
  Option-cases, inl, inr, suc,
}
use btravstack.Di.{Port, Outcome, Held, Provider}
use btravstack.Di.Context.{Context, lookup}
use btravstack.Di.Flatten.{refs}
use btravstack.Di.Scope.{Scope, Finaliser, constructs, emit, on_stop}
use btravstack.Di.Scope.Laws.{is_work}
use btravstack.Di.Lifecycle.Outcomes.{IsAnswered}
use btravstack.Di.Lifecycle.{
  services_of, add_outcome, call_all, register_all, succeeded, zip_values,
}

module _ {V : Type 0} where
  -- Every port resolves.
  abbrev pub Resolves : Context V → List Port → Type 0
  Resolves ctx = All (λ d. is_some (lookup ctx d) ≡ true)

  services_of-ok :
      (ctx : Context V) (deps : List Port)
      → Resolves ctx deps
      → (services : List (Held V)) × (services_of ctx deps ≡ ok services)
  unfolding services_of
  services_of-ok ctx [] h = ([], refl)
  services_of-ok ctx (d ∷ deps) (here, later) = elim (Option-cases (lookup ctx d)) [
    | inl missing ↦ cc (here, missing)
    | inr (held, found) ↦
        let (services, e) = services_of-ok ctx deps later in (held ∷ services, ground arith)
  ]

module _ {V E : Type 0} where
  -- Where all dependencies resolve, every factory of the level is called, in declaration order.
  pub call_all-Resolves :
      (ctx : Context V) (ps : List (Provider V E)) (scope : Scope)
      → All (λ p. Resolves ctx p.deps) ps
      → (outcomes : List (Outcome E V)) × (call_all ctx ps scope
          ≡ (ok outcomes, record scope { log = scope.log ++ map constructs (refs ps) }))
        × (length outcomes ≡ length ps)
        × IsAnswered ctx ps outcomes
  unfolding call_all emit
  call_all-Resolves ctx [] scope h =
      ([], ap (λ l. (ok [], record scope { log = l })) (sym (append-nil scope.log)), refl, tt)
  call_all-Resolves ctx (p ∷ ps) scope (here, later) =
      let (services, found) = services_of-ok ctx p.deps here in
      let (outcomes, e, same, answered) =
        call_all-Resolves ctx ps (emit (constructs p.ref) scope) later in
      (
        p.construct services ∷ outcomes,
        rw (found, call_all)
            (ap (add_outcome (p.construct services)) e
              ∙ ap (λ l. (ok (p.construct services ∷ outcomes), record scope { log = l }))
                  (append_assoc scope.log (constructs p.ref ∷ []) (map constructs (refs ps)))),
        ap suc same,
        ((services, found, refl), answered),
      )

pub register_all_lem :
    (fs : List Finaliser) (scope : Scope)
    → register_all fs scope ≡ record scope { finalisers = scope.finalisers ++ fs }
unfolding register_all on_stop
register_all_lem [] scope =
    ap (λ l. record scope { finalisers = l }) (sym (append-nil scope.finalisers))
register_all_lem (f ∷ fs) scope =
    register_all_lem fs (on_stop f scope)
    ∙ ap (λ l. record scope { finalisers = l }) (append_assoc scope.finalisers (f ∷ []) fs)

module _ {V E : Type 0} where
  -- Where all succeed, with services in declaration order, each provider goes with its own.
  pub succeeded-map_ok :
      (ps : List (Provider V E)) (vs : List V) → succeeded ps (map ok vs) ≡ zip_values ps vs
  unfolding succeeded
  succeeded-map_ok [] [] = refl
  succeeded-map_ok [] (v ∷ vs) = refl
  succeeded-map_ok (p ∷ ps) [] = refl
  succeeded-map_ok (p ∷ ps) (v ∷ vs) = ap (◌∷◌ (p, v)) (succeeded-map_ok ps vs)

  pub map_fst-zip :
      (ps : List (Provider V E)) (vs : List V)
      → length vs ≡ length ps
      → map (λ x. x.0) (zip_values ps vs) ≡ ps
  map_fst-zip [] [] e = refl
  map_fst-zip [] (v ∷ vs) e = refl
  map_fst-zip (p ∷ ps) [] e = absurd (omega arith)
  map_fst-zip (p ∷ ps) (v ∷ vs) e = ap (◌∷◌ p) (map_fst-zip ps vs (omega arith))

-- Calling factories is work.
pub all_work-constructs : (refs : List ℕ) → all is_work (map constructs refs) ≡ true
all_work-constructs [] = refl
all_work-constructs (r ∷ rs) = all_work-constructs rs
