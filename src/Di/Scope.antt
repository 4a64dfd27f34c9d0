-- ===== src/Di/Scope.antt =====
-- packages/di/src/scope.ts: finalisers, and what closing a scope does. Effects are a log.
pub mod Laws
use btravstack.Common.{ℕ, String, Bool, true, false, List, [], ◌∷◌, ◌++◌, reverse, if◌then◌else◌}
use btravstack.Di.{Ran, returns, throws}

-- What the build and the teardown do to the outside, in order.
pub data Event : Type 0 where
  constructs starts : ℕ → Event
  fails uses : Event
  finalises : String → Event
  reports : String → ℕ → Event

-- A registered finaliser, with how it will end when it runs.
pub record Finaliser : Type 0 where
  pub port_id : String
  pub ends : Ran

pub record Scope : Type 0 where
  pub finalisers : List Finaliser
  pub closed : Bool
  pub log : List Event

unfoldable pub create_scope : Scope
create_scope = record { finalisers = []; closed = false; log = [] }

unfoldable pub emit : Event → Scope → Scope
emit event scope = record scope { log = scope.log ++ event ∷ [] }

unfoldable pub on_stop : Finaliser → Scope → Scope
on_stop finaliser scope = record scope { finalisers = scope.finalisers ++ finaliser ∷ [] }

-- One finaliser: a throw is reported and swallowed. What the reporter throws is swallowed too.
abbrev pub run_finaliser : Finaliser → List Event
run_finaliser f = elim f.ends [
  | returns ↦ finalises f.port_id ∷ []
  | throws cause ↦ finalises f.port_id ∷ reports f.port_id cause ∷ []
]

abbrev pub run_all : List Finaliser → List Event
run_all [] = []
run_all (f ∷ fs) = run_finaliser f ++ run_all fs

unfoldable pub close : Scope → Scope
close scope =
    if scope.closed
    then scope
    else record scope { closed = true; log = scope.log ++ run_all (reverse scope.finalisers) }
