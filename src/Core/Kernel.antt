-- ===== src/Core/Kernel.antt =====
-- packages/core/src/start.ts: the state that `start` closes over, and the closures that change it.
-- A cause is known by a number.
pub mod Runs
use btravstack.Common.{
  ℕ, ◌+◌, ◌-◌, ◌≡◌, ◌≤◌, Bool, true, false, not, ◌&&◌, ◌||◌, Option, none, some, List, [], ◌∷◌,
  ◌++◌, leb, if◌then◌else◌, is_some, ◌==◌, nat_eq,
}
use btravstack.Core.Phase.{Phase, building, starting, serving, draining, stopping, exited, rank}
use btravstack.Core.Drain.{DrainReport}

pub data Reason : Type 0 where
  signal runtime_stopped uncaught : Reason

pub data Awaited : Type 0 where
  at_build at_stop : Awaited

pub data LifecycleEvent : Type 0 where
  building_event serving_event stopping_event exited_event : LifecycleEvent
  draining_event : (in_flight : ℕ) → LifecycleEvent
  drained_event : DrainReport → LifecycleEvent
  uncaught_event start_failed_event : (cause : ℕ) → LifecycleEvent
  teardown_error_event : (port cause : ℕ) → LifecycleEvent
  stopped_waiting_event : Awaited → (after_ms : Option ℕ) → LifecycleEvent

pub record Kernel : Type 0 where
  pub phase : Phase
  pub events : List LifecycleEvent
  pub exited_emitted : Bool
  pub started_at : ℕ
  pub shutdown : Option Reason
  pub shutdown_requested : Bool
  pub shutdown_requested_at : ℕ
  pub unexpected_runtime_stop : Bool
  pub forced_unready : Bool
  pub crashed : Bool
  pub startup_failing : Bool
  pub abandoned_build_reason : Option Reason
  pub abandoning_build : Option Reason
  pub skip_drain : Bool
  pub stop_settled : Bool
  pub lifecycle_settled : Bool
  pub signals_seen : ℕ
  pub uncaught_reported : Bool
  pub handlers_installed : Bool
  pub teardown_errors : List (ℕ × ℕ)

pub record ExitReport : Type 0 where
  pub reason : Reason
  pub drain : Option DrainReport
  pub teardown_errors : List (ℕ × ℕ)
  pub uptime_ms : ℕ
  pub abandoned_at : Option Awaited
  pub unexpected_runtime_stop : Bool

-- A promise keeps its first value.
abbrev pub resolve : {A : Type 0} → A → Option A → Option A
resolve a none = some a
resolve a (some b) = some b

abbrev pub is_exited : LifecycleEvent → Bool
is_exited exited_event = true
is_exited _ = false

unfoldable pub emit : LifecycleEvent → Kernel → Kernel
emit event k =
    if k.exited_emitted
    then k
    else record k { events = k.events ++ event ∷ []; exited_emitted = is_exited event }

-- A finaliser of a unit's fork throws: `sink` is called past the latch, since a unit that the drain
-- abandoned may close after the report.
unfoldable pub unit_teardown_error : (port cause : ℕ) → Kernel → Kernel
unit_teardown_error port cause k = record k {
  events = k.events ++ teardown_error_event port cause ∷ [];
}

-- `building` is emitted as the kernel starts.
unfoldable pub create_kernel : (handlers : Bool) → (now : ℕ) → Kernel
create_kernel handlers now = record {
  phase = building;
  events = building_event ∷ [];
  exited_emitted = false;
  started_at = now;
  shutdown = none;
  shutdown_requested = false;
  shutdown_requested_at = now;
  unexpected_runtime_stop = false;
  forced_unready = false;
  crashed = false;
  startup_failing = false;
  abandoned_build_reason = none;
  abandoning_build = none;
  skip_drain = false;
  stop_settled = false;
  lifecycle_settled = false;
  signals_seen = 0;
  uncaught_reported = false;
  handlers_installed = handlers;
  teardown_errors = [];
}

-- What the tracker's listener emits.
abbrev pub announce : Phase → Kernel → Kernel
announce serving k = emit serving_event k
announce stopping k = emit stopping_event k
announce exited k = emit exited_event k
announce _ k = k

unfoldable pub advance : Phase → Kernel → Kernel
advance next k =
    if leb (rank next) (rank k.phase) then k else announce next (record k { phase = next })

unfoldable pub request_shutdown : Reason → ℕ → Kernel → Kernel
request_shutdown reason now k = record k {
  shutdown = resolve reason k.shutdown;
  shutdown_requested = true;
  shutdown_requested_at = if k.shutdown_requested then k.shutdown_requested_at else now;
}

unfoldable pub on_runtime_stopped : ℕ → Kernel → Kernel
on_runtime_stopped now k = request_shutdown runtime_stopped now (record k {
  unexpected_runtime_stop = if k.shutdown_requested then k.unexpected_runtime_stop else true;
})

abbrev pub live : Kernel → Bool
live k = elim k.phase [ exited ↦ false | _ ↦ true ]

abbrev is_serving : Phase → Bool
is_serving serving = true
is_serving _ = false

unfoldable pub ready : Kernel → Bool
ready k = is_serving k.phase && not k.forced_unready

abbrev is_uncaught : Reason → Bool
is_uncaught uncaught = true
is_uncaught _ = false

abbrev is_startup : Phase → Bool
is_startup building = true
is_startup starting = true
is_startup _ = false

unfoldable pub abandon_build : Reason → Kernel → Kernel
abandon_build reason k =
    if is_startup k.phase || (is_uncaught reason && k.startup_failing)
    then record k {
      abandoned_build_reason = some reason;
      abandoning_build = resolve reason k.abandoning_build;
    }
    else k

-- What a second signal does.
abbrev hurry : Kernel → Kernel
hurry k = abandon_build signal (record k { skip_drain = true; stop_settled = true })

-- `installSignalHandlers`: the first signal asks for a shutdown, the others hurry it.
unfoldable pub on_signal : ℕ → Kernel → Kernel
on_signal now k =
    if not k.handlers_installed
    then k
    else if k.signals_seen == 0
    then request_shutdown signal now (record k { signals_seen = k.signals_seen + 1 })
    else hurry (record k { signals_seen = k.signals_seen + 1 })

-- What the first uncaught cause does.
abbrev crash : (cause now : ℕ) → Kernel → Kernel
crash cause now k = abandon_build uncaught (
    request_shutdown uncaught now
      (record (emit (uncaught_event cause) (record k { crashed = true })) {
        forced_unready = true;
        skip_drain = true;
      }))

-- `installUncaughtHandlers`: only the first cause counts.
unfoldable pub on_uncaught : (cause now : ℕ) → Kernel → Kernel
on_uncaught cause now k =
    if not k.handlers_installed || k.uncaught_reported
    then k
    else crash cause now (record k { uncaught_reported = true })

unfoldable pub dispose_all : Kernel → Kernel
dispose_all k = advance exited (record k { handlers_installed = false })

unfoldable pub report_of : Reason → Option DrainReport → Option Awaited → ℕ → Kernel → ExitReport
report_of reason drain abandoned_at now k = record {
  reason = if k.crashed then uncaught else reason;
  drain = drain;
  teardown_errors = k.teardown_errors;
  uptime_ms = now - k.started_at;
  abandoned_at = abandoned_at;
  unexpected_runtime_stop = k.unexpected_runtime_stop;
}

unfoldable pub leave_startup : Kernel → Kernel
leave_startup k = dispose_all (advance stopping k)

abbrev is_stopping : Phase → Bool
is_stopping stopping = true
is_stopping _ = false

unfoldable pub leave_failed : ℕ → Kernel → Kernel
leave_failed cause k =
    advance stopping (if is_stopping k.phase then k else emit (start_failed_event cause) k)

-- `abandonStop`, once its sleep is over, unless the lifecycle has settled.
unfoldable pub abandon_stop : (stop_timeout_ms : ℕ) → Kernel → Kernel
abandon_stop stop_timeout_ms k =
    if k.lifecycle_settled
    then k
    else dispose_all (
        emit (stopped_waiting_event at_stop (if k.stop_settled then none else some stop_timeout_ms))
          k)

unfoldable pub build_abandoned : Kernel → Kernel
build_abandoned k = leave_startup (emit (stopped_waiting_event at_build none) k)

unfoldable pub probes_failed : ℕ → Kernel → Kernel
probes_failed cause k = leave_startup (emit (start_failed_event cause) k)

-- `serve` before the runtime starts, and behind its start; an abandoned build does neither.
unfoldable pub serve_starting : Kernel → Kernel
serve_starting k = if is_some k.abandoned_build_reason then k else advance starting k

unfoldable pub serve_serving : Kernel → Kernel
serve_serving k = if is_some k.abandoned_build_reason then k else advance serving k

unfoldable pub begin_drain : ℕ → Kernel → Kernel
begin_drain in_flight k = record (emit (draining_event in_flight) (advance draining k)) {
  forced_unready = true;
}

unfoldable pub end_drain : DrainReport → Kernel → Kernel
end_drain report k = advance stopping (emit (drained_event report) k)

-- `finish` where the reason is no signal: no drain.
unfoldable pub finish_at_once : Kernel → Kernel
finish_at_once k = advance stopping k

abbrev is_starting : Phase → Bool
is_starting starting = true
is_starting _ = false

unfoldable pub serve_failed : ℕ → Kernel → Kernel
serve_failed cause k =
    leave_failed cause (record k { startup_failing = is_starting k.phase || k.startup_failing })

unfoldable pub construction_failed : ℕ → Kernel → Kernel
construction_failed cause k = leave_failed cause (record k { startup_failing = true })

unfoldable pub teardown_error : (port cause : ℕ) → Kernel → Kernel
teardown_error port cause k =
    emit (teardown_error_event port cause)
      (record k { teardown_errors = k.teardown_errors ++ (port, cause) ∷ [] })

unfoldable pub lifecycle_fails : ℕ → Kernel → Kernel
lifecycle_fails cause k = record (dispose_all (leave_failed cause k)) {
  lifecycle_settled = true;
  stop_settled = true;
}

unfoldable pub lifecycle_ends : Kernel → Kernel
lifecycle_ends k = record (dispose_all k) { lifecycle_settled = true; stop_settled = true }

-- What the running application offers: a stop at once, and a stop behind a drain.
stop : ℕ → Kernel → Kernel
stop now k = request_shutdown runtime_stopped now k

request_drain : ℕ → Kernel → Kernel
request_drain now k = request_shutdown signal now k
