-- ===== src/Core/Drain.antt =====
-- packages/core/src/drain.ts: the counters that a drain samples, and its report.
use btravstack.Common.{
  ℕ, ◌+◌, ◌-◌, ◌≡◌, ◌≤◌, refl, true, false, List, [], ◌∷◌, length, ltb, if◌then◌else◌, arith, elem,
  ◌==◌, nat_eq, Bool-cases, inl, inr,
}
use btravstack.Core.Units.{
  UnitRegistry, open_unit, close_unit, settle_if_idle, abort_all, await_idle, abort_each, in_flight,
  is_aborted, is_empty, Step, opens, closes, aborts, waits, Steps, done, next, create_unit_registry,
  AbortReason, by_kernel, abort,
}
use btravstack.Core.Units.Accounts.{
  Steps-IsAccounted, Steps-IsAccounted_from, is_aborted-abort, is_aborted-abort_each,
}

pub record DrainReport : Type 0 where
  pub in_flight_at_start : ℕ
  pub completed : ℕ
  pub abandoned : ℕ

-- What is sampled before the first sleep.
pub record DrainStart : Type 0 where
  pub in_flight_at_start : ℕ
  pub closed_at_start : ℕ

unfoldable pub drain_start : UnitRegistry → DrainStart
drain_start r = record { in_flight_at_start = in_flight r; closed_at_start = r.closed_count }

-- The end of the race, whichever side won: what is open is abandoned and aborted.
unfoldable pub drain_end : DrainStart → UnitRegistry → DrainReport × UnitRegistry
drain_end start r = (
  record {
    in_flight_at_start = start.in_flight_at_start;
    completed = r.closed_count - start.closed_at_start;
    abandoned = in_flight r;
  },
  if ltb 0 (in_flight r) then abort_all r else r,
)

settle_if_idle-counts :
    (r : UnitRegistry)
    → ((settle_if_idle r).closed_count ≡ r.closed_count) × ((settle_if_idle r).next_id ≡ r.next_id)
unfolding settle_if_idle
settle_if_idle-counts r = elim (Bool-cases (is_empty r.opened)) [
  | inl e ↦ rw (e, settle_if_idle) (refl, refl)
  | inr e ↦ rw (e, settle_if_idle) (refl, refl)
]

Step-grows :
    {a b : UnitRegistry} → Step a b → (a.closed_count ≤ b.closed_count) × (a.next_id ≤ b.next_id)
unfolding open_unit close_unit abort_all await_idle
Step-grows (opens meta r) = (omega arith, omega arith)
Step-grows (closes u r h) =
    (omega (arith, settle_if_idle-counts _), omega (arith, settle_if_idle-counts _))
Step-grows (aborts r) = (omega arith, omega arith)
Step-grows (waits r) = elim (Bool-cases (is_empty r.opened)) [
  | inl e ↦ rw (e, await_idle) (omega arith, omega arith)
  | inr e ↦ rw (e, await_idle) (omega arith, omega arith)
]

-- The two totals never fall.
Steps-grow :
    {a b : UnitRegistry} → Steps a b → (a.closed_count ≤ b.closed_count) × (a.next_id ≤ b.next_id)
Steps-grow (done r) = (omega arith, omega arith)
Steps-grow (next steps step) = (
  omega (arith, Steps-grow steps, Step-grows step),
  omega (arith, Steps-grow steps, Step-grows step),
)

abort_each-aborts :
    (u : ℕ) (us : List ℕ) (aborted : List (ℕ × AbortReason))
    → elem u us ≡ true
    → is_aborted u (abort_each us aborted) ≡ true
abort_each-aborts u [] aborted h = cc
abort_each-aborts u (v ∷ us) aborted h = elim (Bool-cases (v == u)) [
  | inl e ↦
      is_aborted-abort_each u us (abort by_kernel v aborted)
        (ground (arith, is_aborted-abort u v by_kernel aborted))
  | inr e ↦ abort_each-aborts u us (abort by_kernel v aborted) (ground arith)
]

elem-none : (u : ℕ) (us : List ℕ) → length us ≡ 0 → elem u us ≡ false
elem-none u [] h = refl
elem-none u (v ∷ us) h = absurd (omega arith)

drain_end-IsAborted :
    (start : DrainStart) (b : UnitRegistry) (u : ℕ)
    → elem u (drain_end start b).1.opened ≡ true
    → is_aborted u (drain_end start b).1.aborted ≡ true
unfolding drain_end in_flight abort_all
drain_end-IsAborted start b u e =
    ground (arith, abort_each-aborts u b.opened b.aborted, elem-none u b.opened)

-- A drain that begins in a registry reached by steps, and ends after more of them: what completed
-- and what is abandoned add up to what was in flight and what was opened since; and a unit that is
-- abandoned has an aborted signal.
pub drain_end-accounts :
    {a b : UnitRegistry}
    → Steps create_unit_registry a
    → Steps a b
    → let r = drain_end (drain_start a) b in
      (r.0.completed + r.0.abandoned ≡ r.0.in_flight_at_start + (b.next_id - a.next_id))
      × ((u : ℕ) → elem u r.1.opened ≡ true → is_aborted u r.1.aborted ≡ true)
unfolding drain_end drain_start in_flight abort_all
drain_end-accounts {a} {b} before during =
    let here = Steps-IsAccounted before in
    let later = Steps-IsAccounted_from during here in
    let (closed_grows, opened_grows) = Steps-grow during in
    (
      omega (arith, here.counted, later.counted, closed_grows, opened_grows),
      drain_end-IsAborted (drain_start a) b,
    )
