-- ===== src/Tests/Injection.antt =====
-- packages/di: two providers and their module, at concrete values.
use mathlib.Core.List.{Memᴰ}
use mathlib.Core.List.Perm
use btravstack.Common.{
  ℕ, ◌≡◌, ◌≢◌, refl, ap, ◌∙◌, true, false, none, some, List, [], ◌∷◌, ◌++◌, map, ok, fail, All,
  elem, get, set, reverse, nat_eq, string_eq,
}
use btravstack.Di.{
  Port, Failure, Outcome, Provider, Module, node, nil, cons, returns, throws, cycle, unfinished,
}
use btravstack.Di.Context.{Context, unsafe_add_all, members_of}
use btravstack.Di.Context.Laws.{contributions, members-unsafe_add_all}
use btravstack.Di.Flatten.{flatten_module, IsDistinct, id_of, refs}
use btravstack.Di.Flatten.Laws.{Holds, flatten_module_lem}
use btravstack.Di.Scope.{Finaliser, Scope, create_scope, on_stop, close}
use btravstack.Di.Scope.Laws.{finalised, reported, thrown_by, close_lem}
use btravstack.Di.Overrides.{
  resolve_overrides, check_overrides, override_map, substitute, overrides_of,
}
use btravstack.Di.Overrides.Places.{bases_of, resolve_overrides-places}
use btravstack.Di.Plan.{
  plan, note_ports, check_deps, count_providers, check_all_deps, bump_all, place, rounds,
}
use btravstack.Di.Plan.Order.{IsStuck}
use btravstack.Di.Plan.Sound.{IsSound, plan-IsSound, plan-IsStuck, plan-ne-unfinished}
use btravstack.Di.Lifecycle.{Settling}
use btravstack.Di.Build.{seed_all, run_scoped}
use btravstack.Di.Build.Teardown.{IsTornDown, run_scoped-IsTornDown}

abbrev and_then : Outcome ℕ ℕ → Outcome ℕ (List ℕ) → Outcome ℕ (List ℕ)
and_then (fail f) rest = fail f
and_then (ok v) (fail f) = fail f
and_then (ok v) (ok vs) = ok (v ∷ vs)

abbrev in_order : List (Outcome ℕ ℕ) → Outcome ℕ (List ℕ)
in_order [] = ok []
in_order (r ∷ rs) = and_then r (in_order rs)

in_order-all_ok : (vs : List ℕ) → in_order (map ok vs) ≡ ok vs
in_order-all_ok [] = refl
in_order-all_ok (v ∷ vs) = ap (and_then (ok v)) (in_order-all_ok vs)

and_then-ok :
    (v : ℕ) (r : Outcome ℕ (List ℕ)) (vs : List ℕ)
    → and_then (ok v) r ≡ ok vs
    → (ws : List ℕ) × (r ≡ ok ws) × (v ∷ ws ≡ vs)
and_then-ok v (ok ws) vs e = (ws, refl, cc)
and_then-ok v (fail f) vs e = cc

and_then-fail :
    (v : ℕ) (r : Outcome ℕ (List ℕ)) (f : Failure ℕ) → and_then (ok v) r ≡ fail f → r ≡ fail f
and_then-fail v (ok ws) f e = cc
and_then-fail v (fail g) f e = e

all_ok_of : (rs : List (Outcome ℕ ℕ)) (vs : List ℕ) → in_order rs ≡ ok vs → rs ≡ map ok vs
all_ok_of [] [] e = refl
all_ok_of [] (v ∷ vs) e = cc
all_ok_of (fail f ∷ rs) vs e = cc
all_ok_of (ok v ∷ rs) vs e =
    let (ws, here, same) = and_then-ok v (in_order rs) vs e in
    ap (◌∷◌ (ok v)) (all_ok_of rs ws here) ∙ ap (map ok) same

fails_of : (rs : List (Outcome ℕ ℕ)) (f : Failure ℕ) → in_order rs ≡ fail f → Memᴰ (fail f) rs
fails_of [] f e = cc
fails_of (fail g ∷ rs) f e = Memᴰ.head cc
fails_of (ok v ∷ rs) f e = Memᴰ.tail (fails_of rs f (and_then-fail v (in_order rs) f e))

-- Results that settle in order, the first failure first.
abbrev settling : Settling ℕ ℕ
settling = record {
  all_async = in_order;
  all_ok_iff = λ rs vs. (all_ok_of rs vs, λ e. ap in_order e ∙ in_order-all_ok vs);
  all_fails = fails_of;
  arrive = λ xs. xs;
  arrive_perm = λ xs. Perm.refl xs;
}

abbrev clock_port : Port
clock_port = record { port_id = "Clock"; many = false; class_ref = 1 }

abbrev db_port : Port
db_port = record { port_id = "Db"; many = false; class_ref = 2 }

abbrev checks_port : Port
checks_port = record { port_id = "Checks"; many = true; class_ref = 3 }

abbrev clock : Provider ℕ ℕ
clock = record {
  ref = 1;
  port = clock_port;
  deps = [];
  is_override = false;
  construct = λ services. ok 7;
  release = none;
  on_start = none;
  on_stop = none;
}

abbrev db : Provider ℕ ℕ
db = record {
  ref = 2;
  port = db_port;
  deps = clock_port ∷ [];
  is_override = false;
  construct = λ services. ok 8;
  release = some (λ service. returns);
  on_start = some (λ service. returns);
  on_stop = some (λ service. throws 5);
}

abbrev fake_clock : Provider ℕ ℕ
fake_clock = record clock { ref = 3; is_override = true }

abbrev needy_clock : Provider ℕ ℕ
needy_clock = record clock { ref = 4; deps = db_port ∷ [] }

abbrev app : Module ℕ ℕ
app = node (cons (node nil (clock ∷ [])) nil) (db ∷ [])

abbrev use_context : Context ℕ → Outcome ℕ ℕ
use_context ctx = ok 1

run_scoped-IsTornDown_example :
    IsTornDown settling
      (flatten_module app)
      (seed_all settling [] [])
      (run_scoped settling use_context app [] [])
run_scoped-IsTornDown_example = run_scoped-IsTornDown settling use_context app [] []

flatten_module_lem_example : IsDistinct (flatten_module app) × Holds (flatten_module app) app
flatten_module_lem_example = flatten_module_lem app

planned_lem : plan (db ∷ clock ∷ []) [] ≡ ok ((clock ∷ []) ∷ (db ∷ []) ∷ [])
unfolding plan note_ports check_deps count_providers check_all_deps bump_all place rounds
    resolve_overrides check_overrides override_map substitute get set
planned_lem = refl

plan-IsSound_example :
    (resolved : List (Provider ℕ ℕ)) × (resolve_overrides (db ∷ clock ∷ []) ≡ ok resolved)
    × IsSound resolved [] ((clock ∷ []) ∷ (db ∷ []) ∷ [])
plan-IsSound_example =
    plan-IsSound (db ∷ clock ∷ []) [] ((clock ∷ []) ∷ (db ∷ []) ∷ []) (refl, (refl, tt)) planned_lem

stuck_lem : plan (db ∷ needy_clock ∷ []) [] ≡ fail (cycle ("Db" ∷ "Clock" ∷ []))
unfolding plan note_ports check_deps count_providers check_all_deps bump_all place rounds
    resolve_overrides check_overrides override_map substitute get set
stuck_lem = refl

plan-IsStuck_example :
    (resolved : List (Provider ℕ ℕ)) × (resolve_overrides (db ∷ needy_clock ∷ []) ≡ ok resolved)
    × IsStuck resolved ("Db" ∷ "Clock" ∷ [])
plan-IsStuck_example =
    plan-IsStuck (db ∷ needy_clock ∷ []) [] ("Db" ∷ "Clock" ∷ []) (refl, (refl, tt)) stuck_lem

plan-ne-unfinished_example : plan (db ∷ needy_clock ∷ []) [] ≢ fail unfinished
plan-ne-unfinished_example = plan-ne-unfinished (db ∷ needy_clock ∷ []) [] (refl, (refl, tt))

resolved_lem : resolve_overrides (db ∷ clock ∷ fake_clock ∷ []) ≡ ok (db ∷ fake_clock ∷ [])
unfolding resolve_overrides check_overrides override_map substitute get set
resolved_lem = refl

resolve_overrides-places_example :
    (map id_of (db ∷ fake_clock ∷ []) ≡ map id_of (bases_of (db ∷ clock ∷ fake_clock ∷ [])))
    × All
        (λ o. elem o.ref (refs (db ∷ fake_clock ∷ [])) ≡ true)
        (overrides_of (db ∷ clock ∷ fake_clock ∷ []))
resolve_overrides-places_example =
    resolve_overrides-places (db ∷ clock ∷ fake_clock ∷ []) (db ∷ fake_clock ∷ []) resolved_lem

abbrev empty : Context ℕ
empty = []

members-unsafe_add_all_example :
    members_of (get "Checks" (unsafe_add_all empty ((checks_port, 4) ∷ (checks_port, 5) ∷ [])))
    ≡ members_of (get "Checks" empty)
      ++ contributions "Checks" ((checks_port, 4) ∷ (checks_port, 5) ∷ [])
members-unsafe_add_all_example =
    members-unsafe_add_all "Checks" ((checks_port, 4) ∷ (checks_port, 5) ∷ []) empty
      (λ e. refl, (λ e. refl, tt))

abbrev filled : Scope
filled =
    on_stop (record { port_id = "Db"; ends = throws 5 })
      (on_stop (record { port_id = "Clock"; ends = returns }) create_scope)

close_lem_example :
    (filled.closed ≡ false
      → (finalised (close filled).log
          ≡ finalised filled.log ++ map Finaliser.port_id (reverse filled.finalisers))
        × (reported (close filled).log
            ≡ reported filled.log ++ thrown_by (reverse filled.finalisers))
        × (close (close filled) ≡ close filled))
    × (filled.closed ≡ true → close filled ≡ filled)
close_lem_example = close_lem filled
