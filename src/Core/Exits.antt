-- ===== src/Core/Exits.antt =====
-- packages/core/src/run-main.ts: the exit code of a process.
use btravstack.Common.{
  ℕ, ◌≡◌, ◌≢◌, ◌↔◌, refl, sym, ap, ◌∙◌, Bool, true, false, ◌||◌, Option, none, some, List, [], ◌∷◌,
  Result, ok, fail, ltb, if◌then◌else◌, is_some, arith, Bool-cases, inl, inr,
}
use btravstack.Core.Drain.{DrainReport}
use btravstack.Core.Kernel.{Reason, signal, runtime_stopped, uncaught, Awaited, ExitReport}

abbrev pub ex_software : ℕ
ex_software = 70

abbrev pub ex_config : ℕ
ex_config = 78

-- How starting fails: a refused configuration, a runtime that carries one, or another error.
pub data StartError : Type 0 where
  config_invalid : StartError
  runtime_start_failed : (cause_is_config : Bool) → StartError
  other_error : StartError

pub data ExitFailure : Type 0 where
  modelled : StartError → ExitFailure
  defect : ExitFailure

abbrev pub is_config : StartError → Bool
is_config config_invalid = true
is_config (runtime_start_failed cause_is_config) = cause_is_config
is_config other_error = false

abbrev abandoned_units : Option DrainReport → ℕ
abandoned_units none = 0
abandoned_units (some report) = report.abandoned

abbrev has_errors : List (ℕ × ℕ) → Bool
has_errors [] = false
has_errors _ = true

abbrev pub is_unclean : ExitReport → Bool
is_unclean report =
    ltb 0 (abandoned_units report.drain)
    || (has_errors report.teardown_errors || is_some report.abandoned_at)

abbrev is_crash : Reason → Bool
is_crash uncaught = true
is_crash _ = false

pub code_for : ExitReport → ℕ
code_for report =
    if is_crash report.reason
    then ex_software
    else if is_unclean report
    then 2
    else if report.unexpected_runtime_stop
    then 1
    else 0

pub exit_code : Result ExitFailure ExitReport → ℕ
exit_code (ok report) = code_for report
exit_code (fail (modelled error)) = if is_config error then ex_config else 1
exit_code (fail defect) = ex_software

crash_of : (r : Reason) → is_crash r ≡ true → r ≡ uncaught
crash_of uncaught h = refl
crash_of signal h = cc
crash_of runtime_stopped h = cc

code_for-calm :
    (report : ExitReport)
    → report.reason ≢ uncaught
    → is_unclean report ≡ false
    → report.unexpected_runtime_stop ≡ false
    → code_for report ≡ 0
unfolding code_for
code_for-calm report calm clean steady = elim (Bool-cases (is_crash report.reason)) [
  | inl e ↦ absurd (calm (crash_of report.reason e))
  | inr e ↦ rw (e, clean, steady) refl
]

code_for-zero :
    (report : ExitReport)
    → code_for report ≡ 0
    → (report.reason ≢ uncaught)
      × (is_unclean report ≡ false)
      × (report.unexpected_runtime_stop ≡ false)
unfolding code_for
code_for-zero report e =
    (λ h. ground (arith, e, ap is_crash h), ground (arith, e), ground (arith, e))

-- The three parts of a clean report.
clean_parts :
    (drain : Option DrainReport) (errors : List (ℕ × ℕ)) (at : Option Awaited)
    → (ltb 0 (abandoned_units drain) || (has_errors errors || is_some at)) ≡ false
    → ((report : DrainReport) → drain ≡ some report → report.abandoned ≡ 0)
      × (errors ≡ [])
      × (at ≡ none)
clean_parts none [] none e = (λ report same. cc, refl, refl)
clean_parts (some drain) [] none e =
    (λ report same. ap abandoned_units (sym same) ∙ ground (arith, e), refl, refl)
clean_parts none [] (some at) e = absurd (cc)
clean_parts (some drain) [] (some at) e = absurd (ground (arith, e))
clean_parts none (error ∷ errors) at e = absurd (cc)
clean_parts (some drain) (error ∷ errors) at e = absurd (ground (arith, e))

clean_report :
    (report : ExitReport)
    → is_unclean report ≡ false
    → ((drain : DrainReport) → report.drain ≡ some drain → drain.abandoned ≡ 0)
      × (report.teardown_errors ≡ [])
      × (report.abandoned_at ≡ none)
clean_report report e = clean_parts report.drain report.teardown_errors report.abandoned_at e

unclean_parts :
    (drain : Option DrainReport) (errors : List (ℕ × ℕ)) (at : Option Awaited)
    → ((report : DrainReport) → drain ≡ some report → report.abandoned ≡ 0)
    → errors ≡ []
    → at ≡ none
    → (ltb 0 (abandoned_units drain) || (has_errors errors || is_some at)) ≡ false
unclean_parts none errors at finished no_error awaited = rw (no_error, awaited) refl
unclean_parts (some drain) errors at finished no_error awaited =
    rw (finished drain refl, no_error, awaited) refl

unclean_not :
    (report : ExitReport)
    → ((drain : DrainReport) → report.drain ≡ some drain → drain.abandoned ≡ 0)
    → report.teardown_errors ≡ []
    → report.abandoned_at ≡ none
    → is_unclean report ≡ false
unclean_not report finished no_error awaited =
    unclean_parts report.drain report.teardown_errors report.abandoned_at finished no_error awaited

-- The code is 0 exactly for a report of no crash, with no abandoned unit, no teardown error, nothing
-- that was no longer awaited, and a runtime that did not stop by itself; every failure has another.
pub exit_code-zero_iff :
    (r : Result ExitFailure ExitReport)
    → (exit_code r ≡ 0) ↔ (
        (report : ExitReport) × (r ≡ ok report)
        × (report.reason ≢ uncaught)
        × ((drain : DrainReport) → report.drain ≡ some drain → drain.abandoned ≡ 0)
        × (report.teardown_errors ≡ [])
        × (report.abandoned_at ≡ none)
        × (report.unexpected_runtime_stop ≡ false))
unfolding exit_code
exit_code-zero_iff (ok report) = (
  λ e.
      let (calm, clean, steady) = code_for-zero report e in
      let (finished, no_error, awaited) = clean_report report clean in
      (report, refl, calm, finished, no_error, awaited, steady),
  λ (other, same, calm, finished, no_error, awaited, steady).
      ap exit_code same
      ∙ code_for-calm other calm (unclean_not other finished no_error awaited) steady,
)
exit_code-zero_iff (fail (modelled error)) =
    (λ e. ground (arith, e), λ (other, same, calm, finished, no_error, awaited, steady). cc)
exit_code-zero_iff (fail defect) =
    (λ e. ground (arith, e), λ (other, same, calm, finished, no_error, awaited, steady). cc)
