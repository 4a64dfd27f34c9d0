-- ===== src/Di.antt =====
-- packages/di/src: what a port, a provider and a module are at run time. A class or a provider is
-- compared by reference in the source; `class_ref` and `ref` stand for the reference.
pub mod Context
pub mod Scope
pub mod Flatten
pub mod Overrides
pub mod Plan
pub mod Lifecycle
pub mod Build
use btravstack.Common.{ℕ, String, Bool, true, false, Option, List, Result}

pub record Port : Type 0 where
  pub port_id : String
  pub many : Bool
  pub class_ref : ℕ

-- The wiring bugs that `plan` throws, each with what its message names.
pub data WiringDefect : Type 0 where
  two_overrides nothing_to_override two_providers two_classes : String → WiringDefect
  scope_provided : WiringDefect
  no_provider : (dep by : String) → WiringDefect
  cycle : List String → WiringDefect
  -- The planner's rounds ran out, which `Plan.Rounds` rules out.
  unfinished : WiringDefect

-- A refusal by the rounds, not by a check.
abbrev pub is_looping : WiringDefect → Bool
is_looping (cycle ids) = true
is_looping unfinished = true
is_looping _ = false

-- How foreign code fails: a modelled error, or a throw, known by a number.
pub data Failure (E : Type 0) : Type 0 where
  err : E → Failure E
  defect : ℕ → Failure E

-- How a build fails: foreign code failed, the wiring is refused, or a port with no service is read.
pub data BuildFailure (E : Type 0) : Type 0 where
  failed : Failure E → BuildFailure E
  wiring : WiringDefect → BuildFailure E
  unregistered : String → BuildFailure E

-- A settled `AsyncResult`.
abbrev pub Outcome : Type 0 → Type 0 → Type 0
Outcome E A = Result (Failure E) A

abbrev pub BuildOutcome : Type 0 → Type 0 → Type 0
BuildOutcome E A = Result (BuildFailure E) A

-- What a context holds for a port: one service, or a set port's members.
pub data Held (V : Type 0) : Type 0 where
  one : V → Held V
  members : List V → Held V

-- How a hook or a finaliser ends.
pub data Ran : Type 0 where
  returns : Ran
  throws : ℕ → Ran

pub record Provider (V E : Type 0) : Type 0 where
  pub ref : ℕ
  pub port : Port
  pub deps : List Port
  pub is_override : Bool
  pub construct : List (Held V) → Outcome E V
  pub release : Option (V → Ran)
  pub on_start : Option (V → Ran)
  pub on_stop : Option (V → Ran)

-- A module as the build reads it: what it imports and what it provides.
mutual
  pub data Module (V E : Type 0) : Type 0 where
    node : Modules V E → List (Provider V E) → Module V E

  pub data Modules (V E : Type 0) : Type 0 where
    nil : Modules V E
    cons : Module V E → Modules V E → Modules V E
