-- ===== src/Di/Overrides.antt =====
-- packages/di/src/build.ts: `resolveOverrides`.
pub mod Laws
pub mod Places
pub mod Refusals
use btravstack.Common.{
  ℕ, String, Bool, true, false, not, ◌&&◌, Option, none, some, List, [], ◌∷◌, ◌++◌, map, Result, ok,
  ◌>>=◌, ◌>>◌, guard, get, set, if◌then◌else◌, ◌==◌, nat_eq, string_eq, keep, any, elem,
}
use btravstack.Di.{WiringDefect, two_overrides, nothing_to_override, Provider}
use btravstack.Di.Flatten.{id_of}

module _ {V E : Type 0} where
  abbrev pub is_base_of : String → Provider V E → Bool
  is_base_of id base = not base.is_override && id_of base == id

  -- The loop over the overrides.
  unfoldable pub check_overrides :
      List (Provider V E) → List String → List (Provider V E) → Result WiringDefect (Unit {0})
  check_overrides providers seen [] = ok tt
  check_overrides providers seen (o ∷ os) = do
    guard (not (elem (id_of o) seen)) (two_overrides (id_of o))
    guard (any (is_base_of (id_of o)) providers) (nothing_to_override (id_of o))
    check_overrides providers (id_of o ∷ seen) os

  -- `new Map(…)` of the overrides, by port id.
  unfoldable pub override_map :
      List (String × Provider V E) → List (Provider V E) → List (String × Provider V E)
  override_map m [] = m
  override_map m (o ∷ os) = override_map (set (id_of o) o m) os

  abbrev pub substitute_one :
      List (String × Provider V E) → List String → Provider V E → Option (Provider V E)
  substitute_one override_of substituted p =
      if elem (id_of p) substituted then none else get (id_of p) override_of

  -- The `flatMap`: only the first base for an id is substituted, in place.
  unfoldable pub substitute :
      List (String × Provider V E) → List String → List (Provider V E) → List (Provider V E)
  substitute override_of substituted [] = []
  substitute override_of substituted (p ∷ ps) = elim p.is_override [
    | true ↦ substitute override_of substituted ps
    | false ↦ elim (substitute_one override_of substituted p) [
      | none ↦ p ∷ substitute override_of substituted ps
      | some o ↦ o ∷ substitute override_of (id_of p ∷ substituted) ps
    ]
  ]

  abbrev pub overrides_of : List (Provider V E) → List (Provider V E)
  overrides_of = keep (λ p. p.is_override)

  unfoldable pub resolve_overrides : List (Provider V E) → Result WiringDefect (List (Provider V E))
  resolve_overrides providers = do
    check_overrides providers [] (overrides_of providers)
    ok (substitute (override_map [] (overrides_of providers)) [] providers)
