-- ===== src/Di/Plan/Refusals.antt =====
-- Each check of `plan` refuses for its own reason only.
use btravstack.Common.{ℕ, ◌≡◌, String, false, inl, inr, List, [], ◌∷◌, fail, >>=-eq-fail, arith}
use btravstack.Di.{Port, Provider, WiringDefect, is_looping}
use btravstack.Di.Flatten.{id_of}
use btravstack.Di.Plan.{bump, count_providers, note_port, note_ports, check_deps, check_all_deps}

module _ {V E : Type 0} where
  pub count_providers-not_looping :
      (m : List (String × ℕ)) (ps : List (Provider V E)) (e : WiringDefect)
      → count_providers m ps ≡ fail e
      → is_looping e ≡ false
  unfolding count_providers
  count_providers-not_looping m [] e h = cc
  count_providers-not_looping m (p ∷ ps) e h =
      ground (arith, count_providers-not_looping (bump (id_of p) m) ps e)

pub note_ports-not_looping :
    (ports : List Port) (m : List (String × ℕ)) (e : WiringDefect)
    → note_ports ports m ≡ fail e
    → is_looping e ≡ false
unfolding note_ports
note_ports-not_looping [] m e h = cc
note_ports-not_looping (p ∷ ports) m e h = elim (>>=-eq-fail (note_port p m) _ h) [
  | inl f ↦ ground arith
  | inr (m', _, f) ↦ note_ports-not_looping ports m' e f
]

check_deps-not_looping :
    (totals : List (String × ℕ)) (seed_keys : List String) (by : String) (ds : List Port)
    (e : WiringDefect)
    → check_deps totals seed_keys by ds ≡ fail e
    → is_looping e ≡ false
unfolding check_deps
check_deps-not_looping totals seed_keys by [] e h = cc
check_deps-not_looping totals seed_keys by (d ∷ ds) e h =
    ground (arith, check_deps-not_looping totals seed_keys by ds e)

module _ {V E : Type 0} where
  pub check_all_deps-not_looping :
      (totals : List (String × ℕ)) (seed_keys : List String) (ps : List (Provider V E))
      (e : WiringDefect)
      → check_all_deps totals seed_keys ps ≡ fail e
      → is_looping e ≡ false
  unfolding check_all_deps
  check_all_deps-not_looping totals seed_keys [] e h = cc
  check_all_deps-not_looping totals seed_keys (p ∷ ps) e h =
      elim (>>=-eq-fail (check_deps totals seed_keys (id_of p) p.deps) _ h) [
        | inl f ↦ check_deps-not_looping totals seed_keys (id_of p) p.deps e f
        | inr (_, _, f) ↦ check_all_deps-not_looping totals seed_keys ps e f
      ]
