-- ===== src/Core/Units.antt =====
-- packages/core/src/units.ts: the registry of the units in flight. A unit is known by a number.
pub mod Accounts
use btravstack.Common.{
  get, set, ℕ, ◌+◌, ◌-◌, ◌≡◌, ◌≤◌, ◌<◌, refl, sym, ap, ◌∙◌, String, Bool, true, false, not, ◌||◌,
  Option, none, some, List, [], ◌∷◌, ◌++◌, leb, ltb, if◌then◌else◌, arith, Bool-cases, inl, inr,
  keep, elem, length, ◌==◌, nat_eq, length-append, suc, ◌⊎◌, ◌≢◌, eq_of_beq,
}

pub record UnitMeta : Type 0 where
  pub kind : String
  pub id : String
  pub trace_id : Option String
  pub tenant_id : Option String

pub record UnitRecord : Type 0 where
  pub unit_id : ℕ
  pub record_trace_id : String
  pub record_tenant_id : Option String

-- Why a unit's signal was aborted: by the kernel, or as the unit had settled.
pub data AbortReason : Type 0 where
  by_kernel settled : AbortReason

-- `opened` is the set of the open units, `aborted` each signal's first abort, `waiters` the
-- promises of `awaitIdle` that wait, and `resolved` how many of them are done.
pub record UnitRegistry : Type 0 where
  pub next_id : ℕ
  pub opened : List ℕ
  pub closed_count : ℕ
  pub waiters : ℕ
  pub resolved : ℕ
  pub aborted : List (ℕ × AbortReason)

abbrev pub create_unit_registry : UnitRegistry
create_unit_registry = record {
  next_id = 0;
  opened = [];
  closed_count = 0;
  waiters = 0;
  resolved = 0;
  aborted = [];
}

-- What `run` makes for a unit: the trace id is the id where none is given.
abbrev pub record_of : ℕ → UnitMeta → UnitRecord
record_of unit_id meta = record {
  unit_id = unit_id;
  record_trace_id = elim meta.trace_id [ none ↦ meta.id | some t ↦ t ];
  record_tenant_id = meta.tenant_id;
}

-- The first part of `run`, before the work is called.
unfoldable pub open_unit : UnitMeta → UnitRegistry → UnitRecord × UnitRegistry
open_unit meta r = (
  record_of r.next_id meta,
  record r { next_id = r.next_id + 1; opened = r.opened ++ r.next_id ∷ [] },
)

abbrev pub is_aborted : ℕ → List (ℕ × AbortReason) → Bool
is_aborted u [] = false
is_aborted u ((v, reason) ∷ rest) = v == u || is_aborted u rest

-- `controller.abort(reason)`: only the first abort counts.
unfoldable pub abort : AbortReason → ℕ → List (ℕ × AbortReason) → List (ℕ × AbortReason)
abort reason u aborted = if is_aborted u aborted then aborted else aborted ++ (u, reason) ∷ []

abbrev pub is_empty : List ℕ → Bool
is_empty [] = true
is_empty _ = false

unfoldable pub settle_if_idle : UnitRegistry → UnitRegistry
settle_if_idle r =
    if is_empty r.opened then record r { waiters = 0; resolved = r.resolved + r.waiters } else r

-- The `finally` of `run`, however the work ended.
unfoldable pub close_unit : ℕ → UnitRegistry → UnitRegistry
close_unit u r = settle_if_idle (record r {
  opened = keep (λ v. not (v == u)) r.opened;
  closed_count = r.closed_count + 1;
  aborted = abort settled u r.aborted;
})

unfoldable pub in_flight : UnitRegistry → ℕ
in_flight r = length r.opened

abbrev pub abort_each : List ℕ → List (ℕ × AbortReason) → List (ℕ × AbortReason)
abort_each [] aborted = aborted
abort_each (u ∷ us) aborted = abort_each us (abort by_kernel u aborted)

unfoldable pub abort_all : UnitRegistry → UnitRegistry
abort_all r = record r { aborted = abort_each r.opened r.aborted }

unfoldable pub await_idle : UnitRegistry → UnitRegistry
await_idle r =
    if is_empty r.opened
    then record r { resolved = r.resolved + 1 }
    else record r { waiters = r.waiters + 1 }

-- What may happen to a registry: a unit closes once, and only if it is open.
pub data Step : UnitRegistry → UnitRegistry → Type 0 where
  opens : (meta : UnitMeta) (r : UnitRegistry) → Step r (open_unit meta r).1
  closes : (u : ℕ) (r : UnitRegistry) → elem u r.opened ≡ true → Step r (close_unit u r)
  aborts : (r : UnitRegistry) → Step r (abort_all r)
  waits : (r : UnitRegistry) → Step r (await_idle r)

pub data Steps : UnitRegistry → UnitRegistry → Type 0 where
  done : (r : UnitRegistry) → Steps r r
  next : {a b c : UnitRegistry} → Steps a b → Step b c → Steps a c

-- How a unit's work settled.
data UnitOutcome : Type 0 where
  went_well went_wrong : UnitOutcome

settle_unit : ℕ → UnitOutcome → List (ℕ × UnitOutcome) → List (ℕ × UnitOutcome)
settle_unit unit_id outcome outcomes = set unit_id outcome outcomes

-- Outside a unit, and while its work runs, there is none.
unit_outcome : Option ℕ → List (ℕ × UnitOutcome) → Option UnitOutcome
unit_outcome none outcomes = none
unit_outcome (some unit_id) outcomes = get unit_id outcomes
