-- ===== src/Tests/Kernel.antt =====
-- packages/core: a run of the kernel, a few units, and a report.
use btravstack.Common.{
  fail, map, ℕ, ◌+◌, ◌-◌, ◌≡◌, ◌≢◌, ◌↔◌, refl, true, false, none, some, List, [], ◌∷◌, Result, ok,
  elem, nat_eq, string_eq,
}
use btravstack.Core.Phase.{
  create_phase_tracker, advance_all, IsTracking, phases-rise, serving, starting, stopping, exited,
}
use btravstack.Core.Units.{
  UnitMeta, UnitRegistry, create_unit_registry, open_unit, close_unit, await_idle, opens, closes,
  waits, Steps, done, next, is_aborted,
}
use btravstack.Core.Units.Accounts.{IsAccounted, Steps-IsAccounted}
use btravstack.Core.Drain.{DrainReport, drain_start, drain_end, drain_end-accounts}
use btravstack.Core.Kernel.{create_kernel, signal, uncaught, ExitReport}
use btravstack.Core.Kernel.Runs.{
  Action, signals, starts_runtime, serves, throws, drains, finishes, ends, act_all, IsOrderly,
  act_all-IsOrderly,
}
use btravstack.Core.Exits.{ExitFailure, exit_code, exit_code-zero_iff}
use btravstack.Core.Health.{
  HealthCheck, Answer, answers, answers_err, HealthReason, ComponentHealth, Checked, answered,
  erred, broken, Gathering,
}

phases-rise_example :
    IsTracking
      (advance_all (serving ∷ starting ∷ stopping ∷ serving ∷ exited ∷ []) create_phase_tracker)
phases-rise_example = phases-rise (serving ∷ starting ∷ stopping ∷ serving ∷ exited ∷ [])

abbrev meta : UnitMeta
meta = record { kind = "http"; id = "a"; trace_id = none; tenant_id = none }

abbrev opened : UnitRegistry
opened = (open_unit meta (open_unit meta create_unit_registry).1).1

open-Steps : Steps create_unit_registry opened
open-Steps = next (next (done create_unit_registry) (opens meta _)) (opens meta _)

abbrev drained : UnitRegistry
drained = await_idle (close_unit 0 opened)

member_lem : elem 0 opened.opened ≡ true
unfolding open_unit
member_lem = refl

drain-Steps : Steps opened drained
drain-Steps = next (next (done opened) (closes 0 opened member_lem)) (waits _)

Steps-IsAccounted_example : IsAccounted opened
Steps-IsAccounted_example = Steps-IsAccounted open-Steps

drain_end-accounts_example :
    ((drain_end (drain_start opened) drained).0.completed
        + (drain_end (drain_start opened) drained).0.abandoned
      ≡ (drain_end (drain_start opened) drained).0.in_flight_at_start
        + (drained.next_id - opened.next_id))
    × ((u : ℕ)
        → elem u (drain_end (drain_start opened) drained).1.opened ≡ true
        → is_aborted u (drain_end (drain_start opened) drained).1.aborted ≡ true)
drain_end-accounts_example = drain_end-accounts open-Steps drain-Steps

abbrev some_actions : List Action
some_actions =
    starts_runtime
    ∷ serves
    ∷ signals 4
    ∷ drains 1
    ∷ throws 9 5
    ∷ signals 6
    ∷ finishes
    ∷ ends
    ∷ serves
    ∷ []

act_all-IsOrderly_example :
    IsOrderly
      (act_all some_actions (create_kernel true 3)).phase
      (act_all some_actions (create_kernel true 3)).events
      (act_all some_actions (create_kernel true 3)).exited_emitted
act_all-IsOrderly_example = act_all-IsOrderly true 3 some_actions

abbrev calm_report : ExitReport
calm_report = record {
  reason = signal;
  drain = some (record { in_flight_at_start = 2; completed = 2; abandoned = 0 });
  teardown_errors = [];
  uptime_ms = 10;
  abandoned_at = none;
  unexpected_runtime_stop = false;
}

abbrev calm_result : Result ExitFailure ExitReport
calm_result = ok calm_report

exit_code-zero_iff_example : (exit_code calm_result ≡ 0) ↔ (
    (report : ExitReport) × (calm_result ≡ ok report)
    × (report.reason ≢ uncaught)
    × ((drain : DrainReport) → report.drain ≡ some drain → drain.abandoned ≡ 0)
    × (report.teardown_errors ≡ [])
    × (report.abandoned_at ≡ none)
    × (report.unexpected_runtime_stop ≡ false))
exit_code-zero_iff_example = exit_code-zero_iff calm_result

abbrev db_check : HealthCheck
db_check = record { name = "db"; timeout_ms = none; readiness = none }

abbrev two_checks : List (HealthCheck × (Answer × ℕ))
two_checks = (db_check, (answers, 900)) ∷ (db_check, (answers_err 4, 1)) ∷ []

gathered : List Checked → Result HealthReason (List ComponentHealth)
gathered [] = ok []
gathered (answered c ∷ rest) = elim (gathered rest) [ fail r ↦ fail r | ok cs ↦ ok (c ∷ cs) ]
gathered (erred reason ∷ rest) = fail reason
gathered (broken reason ∷ rest) = fail reason

gathered-answered : (cs : List ComponentHealth) → gathered (map answered cs) ≡ ok cs
unfolding gathered
gathered-answered [] = refl
gathered-answered (c ∷ cs) = rw (gathered-answered cs) refl

abbrev gathering : Gathering
gathering = record { all_async = gathered; all_answered = gathered-answered }
