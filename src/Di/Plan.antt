-- ===== src/Di/Plan.antt =====
-- packages/di/src/build.ts: `plan`, which runs before any factory: the checks, and the rounds that
-- group providers into levels.
pub mod Counts
pub mod Rounds
pub mod Order
pub mod Checks
pub mod Refusals
pub mod Sound
use btravstack.Common.{
  ℕ, zero, suc, ◌+◌, ◌||◌, fail, String, Bool, true, false, not, ◌&&◌, Option, none, some, List, [],
  ◌∷◌, ◌++◌, map, Result, ok, ◌>>=◌, ◌>>◌, guard, get, set, if◌then◌else◌, ◌==◌, nat_eq, string_eq,
  keep, all, elem, length, has, ltb,
}
use btravstack.Di.{
  Port, WiringDefect, two_providers, two_classes, scope_provided, no_provider, cycle, unfinished,
  Provider,
}
use btravstack.Di.Flatten.{id_of, refs}
use btravstack.Di.Overrides.{resolve_overrides}

abbrev pub scope_id : String
scope_id = "@di/Scope"

abbrev pub count_of : String → List (String × ℕ) → ℕ
count_of id m = elim (get id m) [ none ↦ 0 | some n ↦ n ]

abbrev pub bump : String → List (String × ℕ) → List (String × ℕ)
bump id m = set id (count_of id m + 1) m

abbrev pub same_class : Option ℕ → ℕ → Bool
same_class none c = true
same_class (some first) c = first == c

abbrev pub note_port : Port → List (String × ℕ) → Result WiringDefect (List (String × ℕ))
note_port port class_of = do
  guard (same_class (get port.port_id class_of) port.class_ref) (two_classes port.port_id)
  ok (set port.port_id port.class_ref class_of)

unfoldable pub note_ports : List Port → List (String × ℕ) → Result WiringDefect (List (String × ℕ))
note_ports [] class_of = ok class_of
note_ports (port ∷ ports) class_of = do noted ← note_port port class_of; note_ports ports noted

abbrev pub is_supplied : List (String × ℕ) → List String → Port → Bool
is_supplied totals seed_keys dep = has dep.port_id totals || elem dep.port_id seed_keys

unfoldable pub check_deps :
    List (String × ℕ) → List String → String → List Port → Result WiringDefect (Unit {0})
check_deps totals seed_keys by [] = ok tt
check_deps totals seed_keys by (dep ∷ deps) = do
  guard (is_supplied totals seed_keys dep) (no_provider dep.port_id by)
  check_deps totals seed_keys by deps

abbrev pub same_count : Option ℕ → Option ℕ → Bool
same_count none none = true
same_count (some a) (some b) = a == b
same_count _ _ = false

abbrev pub is_satisfied : (totals placed_counts : List (String × ℕ)) → Port → Bool
is_satisfied totals placed_counts d =
    not (has d.port_id totals) || same_count (get d.port_id placed_counts) (get d.port_id totals)

module _ {V E : Type 0} where
  -- The first pass: `totalByPort`, or the refusal of a provider.
  unfoldable pub count_providers :
      List (String × ℕ) → List (Provider V E) → Result WiringDefect (List (String × ℕ))
  count_providers totals [] = ok totals
  count_providers totals (p ∷ ps) = do
    guard (not (id_of p == scope_id)) scope_provided
    guard (p.port.many || not (ltb 0 (count_of (id_of p) totals))) (two_providers (id_of p))
    count_providers (bump (id_of p) totals) ps

  abbrev pub named_ports : List (Provider V E) → List Port
  named_ports [] = []
  named_ports (p ∷ ps) = p.port ∷ p.deps ++ named_ports ps

  unfoldable pub check_all_deps :
      List (String × ℕ) → List String → List (Provider V E) → Result WiringDefect (Unit {0})
  check_all_deps totals seed_keys [] = ok tt
  check_all_deps totals seed_keys (p ∷ ps) = do
    check_deps totals seed_keys (id_of p) p.deps
    check_all_deps totals seed_keys ps

  abbrev pub is_ready : (totals placed_counts : List (String × ℕ)) → Provider V E → Bool
  is_ready totals placed_counts p = all (is_satisfied totals placed_counts) p.deps

  unfoldable pub bump_all : List (Provider V E) → List (String × ℕ) → List (String × ℕ)
  bump_all [] m = m
  bump_all (p ∷ ps) m = bump_all ps (bump (id_of p) m)

  -- One round: a cycle if nothing is ready, and else one more level.
  unfoldable pub place :
      (remaining : List (Provider V E))
      → (List (Provider V E) → Result WiringDefect (List (List (Provider V E))))
      → List (Provider V E)
      → Result WiringDefect (List (List (Provider V E)))
  place remaining continue [] = fail (cycle (map id_of remaining))
  place remaining continue (r ∷ rs) = do levels ← continue (r ∷ rs); ok ((r ∷ rs) ∷ levels)

  -- The `while` loop, one round for each unit of fuel.
  unfoldable pub rounds :
      ℕ
      → (totals placed_counts : List (String × ℕ)) (placed : List ℕ) → List (Provider V E)
      → Result WiringDefect (List (List (Provider V E)))
  rounds _ totals placed_counts placed [] = ok []
  rounds zero totals placed_counts placed (p ∷ ps) = fail unfinished
  rounds (suc fuel) totals placed_counts placed (p ∷ ps) =
      place (p ∷ ps)
        (λ level.
          rounds fuel totals (bump_all level placed_counts) (refs level ++ placed)
            (keep (λ q. not (elem q.ref (refs level ++ placed))) (p ∷ ps)))
        (keep (is_ready totals placed_counts) (p ∷ ps))

  -- Each round places a provider, so there are at most as many rounds as providers.
  unfoldable pub plan :
      List (Provider V E) → List String → Result WiringDefect (List (List (Provider V E)))
  plan given seed_keys = do
    providers ← resolve_overrides given
    totals ← count_providers [] providers
    noted ← note_ports (named_ports providers) []
    check_all_deps totals seed_keys providers
    rounds (length providers) totals [] [] providers
