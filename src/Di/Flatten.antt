-- ===== src/Di/Flatten.antt =====
-- packages/di/src/build.ts: `flatten`, every provider of the tree once.
pub mod Laws
use btravstack.Common.{
  ℕ, ◌≡◌, String, Bool, true, false, not, ◌&&◌, Option, none, some, List, [], ◌∷◌, ◌++◌, map,
  Result, ok, ◌>>=◌, ◌>>◌, guard, get, set, if◌then◌else◌, ◌==◌, nat_eq, string_eq, keep, any, elem,
}
use btravstack.Di.{Provider, Module, Modules, node, nil, cons}

module _ {V E : Type 0} where
  abbrev pub id_of : Provider V E → String
  id_of p = p.port.port_id

  abbrev pub refs : List (Provider V E) → List ℕ
  refs = map (λ p. p.ref)

  -- `out.add(provider)`: a provider that is there already stays where it is.
  pub add : Provider V E → List (Provider V E) → List (Provider V E)
  add p out = if elem p.ref (refs out) then out else out ++ p ∷ []

  pub add_all : List (Provider V E) → List (Provider V E) → List (Provider V E)
  add_all [] out = out
  add_all (p ∷ ps) out = add_all ps (add p out)

  mutual
    pub walk : Module V E → List (Provider V E) → List (Provider V E)
    walk (node imports provides) out = add_all provides (walk_imports imports out)

    pub walk_imports : Modules V E → List (Provider V E) → List (Provider V E)
    walk_imports nil out = out
    walk_imports (cons m ms) out = walk_imports ms (walk m out)

  pub flatten_module : Module V E → List (Provider V E)
  flatten_module m = walk m []

  -- No two providers are the same object.
  abbrev pub IsDistinct : List (Provider V E) → Type 0
  IsDistinct [] = Unit
  IsDistinct (p ∷ ps) = (elem p.ref (refs ps) ≡ false) × IsDistinct ps
