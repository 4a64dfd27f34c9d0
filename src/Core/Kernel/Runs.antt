-- ===== src/Core/Kernel/Runs.antt =====
-- Every order in which the closures of `start` may run, and what they all keep.
use mathlib.Core.List.{append_assoc}
use btravstack.Common.{
  ℕ, ◌≡◌, ◌≤◌, ◌<◌, refl, sym, ap, ◌∙◌, subst, all, and-true, Bool, true, false, not, ◌&&◌, ◌||◌,
  List, [], ◌∷◌, ◌++◌, leb, if◌then◌else◌, is_some, arith, Bool-cases, inl, inr, any, ◌==◌, nat_eq,
  leb→lt,
}
use btravstack.Core.Phase.{
  Phase, building, starting, serving, draining, stopping, exited, rank, IsRising, top,
  IsRising-snoc, top-snoc,
}
use btravstack.Core.Drain.{DrainReport}
use btravstack.Core.Kernel.{
  Reason, signal, runtime_stopped, uncaught, LifecycleEvent, serving_event, stopping_event,
  exited_event, Kernel, is_exited, emit, create_kernel, announce, advance, request_shutdown,
  on_runtime_stopped, abandon_build, on_signal, on_uncaught, dispose_all, leave_startup,
  leave_failed, abandon_stop, build_abandoned, probes_failed, serve_starting, serve_serving,
  begin_drain, end_drain, finish_at_once, serve_failed, construction_failed, teardown_error,
  lifecycle_fails, lifecycle_ends, unit_teardown_error, draining_event, drained_event,
  uncaught_event, start_failed_event, teardown_error_event, stopped_waiting_event, building_event,
  is_stopping, is_startup, is_uncaught,
}

-- Each closure, with what it is called with; every callback and promise may fire at any time.
pub data Action : Type 0 where
  asks : Reason → (now : ℕ) → Action
  runtime_stops : (now : ℕ) → Action
  signals : (now : ℕ) → Action
  throws : (cause now : ℕ) → Action
  stop_waits : (stop_timeout_ms : ℕ) → Action
  build_abandons starts_runtime serves finishes ends : Action
  probes_fail serve_fails construction_fails lifecycle_fails_with : (cause : ℕ) → Action
  drains : (in_flight : ℕ) → Action
  drained_with : DrainReport → Action
  teardown_fails unit_teardown_fails : (port cause : ℕ) → Action

abbrev pub act : Action → Kernel → Kernel
act (asks reason now) k = request_shutdown reason now k
act (runtime_stops now) k = on_runtime_stopped now k
act (signals now) k = on_signal now k
act (throws cause now) k = on_uncaught cause now k
act (stop_waits ms) k = abandon_stop ms k
act build_abandons k = build_abandoned k
act starts_runtime k = serve_starting k
act serves k = serve_serving k
act finishes k = finish_at_once k
act ends k = lifecycle_ends k
act (probes_fail cause) k = probes_failed cause k
act (serve_fails cause) k = serve_failed cause k
act (construction_fails cause) k = construction_failed cause k
act (lifecycle_fails_with cause) k = lifecycle_fails cause k
act (drains n) k = begin_drain n k
act (drained_with report) k = end_drain report k
act (teardown_fails port cause) k = teardown_error port cause k
act (unit_teardown_fails port cause) k = unit_teardown_error port cause k

pub act_all : List Action → Kernel → Kernel
act_all [] k = k
act_all (a ∷ rest) k = act_all rest (act a k)

-- The phases that a list of events announces.
abbrev pub announced : List LifecycleEvent → List Phase
announced [] = []
announced (serving_event ∷ es) = serving ∷ announced es
announced (stopping_event ∷ es) = stopping ∷ announced es
announced (exited_event ∷ es) = exited ∷ announced es
announced (_ ∷ es) = announced es

abbrev is_final : Phase → Bool
is_final exited = true
is_final _ = false

abbrev pub is_teardown_error : LifecycleEvent → Bool
is_teardown_error (teardown_error_event port cause) = true
is_teardown_error _ = false

-- The announced phases rise, up to the current phase; `exited` is there exactly in the phase of that
-- name, once, and behind it come teardown errors alone.
pub record IsOrderly (phase : Phase) (events : List LifecycleEvent) (emitted : Bool) : Type 0 where
  pub rising : IsRising 0 (announced events)
  pub bounded : top 0 (announced events) ≤ rank phase
  pub same : emitted ≡ is_final phase
  pub last :
      emitted ≡ true
      → (es late : List LifecycleEvent) × (events ≡ es ++ exited_event ∷ late)
        × (any is_exited es ≡ false)
        × (all is_teardown_error late ≡ true)
  pub none_yet : emitted ≡ false → any is_exited events ≡ false

abbrev IsOrderlyKernel : Kernel → Type 0
IsOrderlyKernel k = IsOrderly k.phase k.events k.exited_emitted

abbrev is_plain : LifecycleEvent → Bool
is_plain serving_event = false
is_plain stopping_event = false
is_plain exited_event = false
is_plain _ = true

announced-plain :
    (es : List LifecycleEvent) (e : LifecycleEvent)
    → is_plain e ≡ true
    → announced (es ++ e ∷ []) ≡ announced es
announced-plain [] e h = ground arith
announced-plain (e' ∷ es) e h = ground (arith, announced-plain es e h)

any-snoc :
    (es : List LifecycleEvent) (e : LifecycleEvent)
    → any is_exited (es ++ e ∷ []) ≡ (any is_exited es || is_exited e)
any-snoc [] e = ground arith
any-snoc (e' ∷ es) e = ground (arith, any-snoc es e)

plain-not_exited : (e : LifecycleEvent) → is_plain e ≡ true → is_exited e ≡ false
plain-not_exited e h = ground arith

if-IsOrderly :
    (c : Bool) (a b : Kernel)
    → (c ≡ true → IsOrderlyKernel a)
    → (c ≡ false → IsOrderlyKernel b)
    → IsOrderlyKernel (if c then a else b)
if-IsOrderly true a b h k = h refl
if-IsOrderly false a b h k = k refl

emit-IsOrderly :
    (e : LifecycleEvent) (k : Kernel)
    → is_plain e ≡ true
    → IsOrderlyKernel k
    → IsOrderlyKernel (emit e k)
unfolding emit
emit-IsOrderly e k plain h =
    if-IsOrderly k.exited_emitted k _ (λ _. h)
      (λ open_still. record {
        rising = subst (IsRising 0) (sym (announced-plain k.events e plain)) h.rising;
        bounded =
            subst (λ ps. top 0 ps ≤ rank k.phase) (sym (announced-plain k.events e plain))
              h.bounded;
        same = ground (arith, h.same, plain-not_exited e plain);
        last = λ f. ground (arith, plain-not_exited e plain);
        none_yet = λ _. ground (arith, any-snoc k.events e, h.none_yet, plain-not_exited e plain);
      })

announced-snoc :
    (es : List LifecycleEvent) (e : LifecycleEvent) (p : Phase)
    → announced (e ∷ []) ≡ p ∷ []
    → announced (es ++ e ∷ []) ≡ announced es ++ p ∷ []
announced-snoc [] e p h = h
announced-snoc (serving_event ∷ es) e p h = ap (◌∷◌ serving) (announced-snoc es e p h)
announced-snoc (stopping_event ∷ es) e p h = ap (◌∷◌ stopping) (announced-snoc es e p h)
announced-snoc (exited_event ∷ es) e p h = ap (◌∷◌ exited) (announced-snoc es e p h)
announced-snoc (building_event ∷ es) e p h = announced-snoc es e p h
announced-snoc (draining_event n ∷ es) e p h = announced-snoc es e p h
announced-snoc (drained_event r ∷ es) e p h = announced-snoc es e p h
announced-snoc (uncaught_event c ∷ es) e p h = announced-snoc es e p h
announced-snoc (start_failed_event c ∷ es) e p h = announced-snoc es e p h
announced-snoc (teardown_error_event q c ∷ es) e p h = announced-snoc es e p h
announced-snoc (stopped_waiting_event w ms ∷ es) e p h = announced-snoc es e p h

exited_of : (e : LifecycleEvent) → is_exited e ≡ true → e ≡ exited_event
exited_of exited_event f = refl
exited_of building_event f = cc
exited_of serving_event f = cc
exited_of stopping_event f = cc
exited_of (draining_event n) f = cc
exited_of (drained_event r) f = cc
exited_of (uncaught_event c) f = cc
exited_of (start_failed_event c) f = cc
exited_of (teardown_error_event q c) f = cc
exited_of (stopped_waiting_event w ms) f = cc

-- A phase that is announced behind lower ones.
announce-IsOrderly :
    (e : LifecycleEvent) (p : Phase) (k : Kernel)
    → announced (e ∷ []) ≡ p ∷ []
    → is_exited e ≡ is_final p
    → rank k.phase < rank p
    → IsOrderlyKernel k
    → IsOrderlyKernel (emit e (record k { phase = p }))
unfolding emit
announce-IsOrderly e p k known exits higher h = elim (Bool-cases k.exited_emitted) [
  | inl done ↦ absurd (ground (arith, h.same))
  | inr open_still ↦
      rw (open_still, emit)
        (record {
          rising =
              subst (IsRising 0) (sym (announced-snoc k.events e p known)) (
                IsRising-snoc 0 (announced k.events) p h.rising (omega (arith, h.bounded, higher)));
          bounded = omega (
            arith,
            ap (top 0) (announced-snoc k.events e p known),
            top-snoc 0 (announced k.events) p,
          );
          same = exits;
          last = λ f. (
            k.events,
            [],
            ap (λ x. k.events ++ x ∷ []) (exited_of e f),
            h.none_yet open_still,
            refl,
          );
          none_yet = λ f. ground (arith, any-snoc k.events e, h.none_yet open_still, exits);
        })
]

-- A phase that is not announced.
raise-IsOrderly :
    (p : Phase) (k : Kernel)
    → is_final p ≡ false
    → rank k.phase < rank p
    → IsOrderlyKernel k
    → IsOrderlyKernel (record k { phase = p })
raise-IsOrderly p k quiet higher h = record {
  rising = h.rising;
  bounded = omega (arith, h.bounded, higher);
  same = ground (arith, h.same);
  last = h.last;
  none_yet = h.none_yet;
}

higher-IsOrderly :
    (p : Phase) (k : Kernel)
    → rank k.phase < rank p
    → IsOrderlyKernel k
    → IsOrderlyKernel (announce p (record k { phase = p }))
higher-IsOrderly building k higher h = absurd (omega arith)
higher-IsOrderly starting k higher h = raise-IsOrderly starting k refl higher h
higher-IsOrderly serving k higher h = announce-IsOrderly serving_event serving k refl refl higher h
higher-IsOrderly draining k higher h = raise-IsOrderly draining k refl higher h
higher-IsOrderly stopping k higher h =
    announce-IsOrderly stopping_event stopping k refl refl higher h
higher-IsOrderly exited k higher h = announce-IsOrderly exited_event exited k refl refl higher h

advance-IsOrderly : (p : Phase) (k : Kernel) → IsOrderlyKernel k → IsOrderlyKernel (advance p k)
unfolding advance
advance-IsOrderly p k h = elim (Bool-cases (leb (rank p) (rank k.phase))) [
  | inl low ↦ rw (low, advance) h
  | inr high ↦ rw (high, advance) (higher-IsOrderly p k (leb→lt (rank p) (rank k.phase) high) h)
]

request-IsOrderly :
    (reason : Reason) (now : ℕ) (k : Kernel)
    → IsOrderlyKernel k
    → IsOrderlyKernel (request_shutdown reason now k)
unfolding request_shutdown
request-IsOrderly reason now k h = h

abandon_build-IsOrderly :
    (reason : Reason) (k : Kernel) → IsOrderlyKernel k → IsOrderlyKernel (abandon_build reason k)
unfolding abandon_build
abandon_build-IsOrderly reason k h =
    elim (Bool-cases (is_startup k.phase || (is_uncaught reason && k.startup_failing))) [
      | inl e ↦ rw (e, abandon_build) h
      | inr e ↦ rw (e, abandon_build) h
    ]

signal-IsOrderly : (now : ℕ) (k : Kernel) → IsOrderlyKernel k → IsOrderlyKernel (on_signal now k)
unfolding on_signal
signal-IsOrderly now k h = elim (Bool-cases k.handlers_installed) [
  | inr off ↦ rw (off, on_signal) h
  | inl on ↦ elim (Bool-cases (k.signals_seen == 0)) [
    | inl one ↦ rw (on, one, on_signal) (request-IsOrderly signal now _ h)
    | inr more ↦ rw (on, more, on_signal) (abandon_build-IsOrderly signal _ h)
  ]
]

uncaught-IsOrderly :
    (cause now : ℕ) (k : Kernel) → IsOrderlyKernel k → IsOrderlyKernel (on_uncaught cause now k)
unfolding on_uncaught
uncaught-IsOrderly cause now k h =
    elim (Bool-cases (not k.handlers_installed || k.uncaught_reported)) [
      | inl e ↦ rw (e, on_uncaught) h
      | inr e ↦
          rw (e, on_uncaught)
            (abandon_build-IsOrderly uncaught _
              (request-IsOrderly uncaught now _ (emit-IsOrderly (uncaught_event cause) _ refl h)))
    ]

dispose_all-IsOrderly : (k : Kernel) → IsOrderlyKernel k → IsOrderlyKernel (dispose_all k)
unfolding dispose_all
dispose_all-IsOrderly k h = advance-IsOrderly exited _ h

leave_startup-IsOrderly : (k : Kernel) → IsOrderlyKernel k → IsOrderlyKernel (leave_startup k)
unfolding leave_startup
leave_startup-IsOrderly k h = dispose_all-IsOrderly _ (advance-IsOrderly stopping k h)

leave_failed-IsOrderly :
    (cause : ℕ) (k : Kernel) → IsOrderlyKernel k → IsOrderlyKernel (leave_failed cause k)
unfolding leave_failed
leave_failed-IsOrderly cause k h = elim (Bool-cases (is_stopping k.phase)) [
  | inl e ↦ rw (e, leave_failed) (advance-IsOrderly stopping k h)
  | inr e ↦
      rw (e, leave_failed)
        (advance-IsOrderly stopping _ (emit-IsOrderly (start_failed_event cause) k refl h))
]

abandon_stop-IsOrderly :
    (ms : ℕ) (k : Kernel) → IsOrderlyKernel k → IsOrderlyKernel (abandon_stop ms k)
unfolding abandon_stop
abandon_stop-IsOrderly ms k h =
    if-IsOrderly k.lifecycle_settled k _ (λ _. h)
      (λ _. dispose_all-IsOrderly (emit _ k) (emit-IsOrderly _ k refl h))

serve-IsOrderly :
    (p : Phase) (k : Kernel)
    → IsOrderlyKernel k
    → IsOrderlyKernel (if is_some k.abandoned_build_reason then k else advance p k)
serve-IsOrderly p k h = elim (Bool-cases (is_some k.abandoned_build_reason)) [
  | inl e ↦ rw e h
  | inr e ↦ rw e (advance-IsOrderly p k h)
]

all-snoc :
    (es : List LifecycleEvent) (e : LifecycleEvent)
    → all is_teardown_error es ≡ true
    → is_teardown_error e ≡ true
    → all is_teardown_error (es ++ e ∷ []) ≡ true
all-snoc [] e h k = rw k refl
all-snoc (e' ∷ es) e h k =
    let (here, later) = and-true (is_teardown_error e') (all is_teardown_error es) h in
    rw (here, all-snoc es e later k) refl

-- What bypasses the latch comes behind all else, `exited` too.
unit_teardown_error-IsOrderly :
    (port cause : ℕ) (k : Kernel)
    → IsOrderlyKernel k
    → IsOrderlyKernel (unit_teardown_error port cause k)
unfolding unit_teardown_error
unit_teardown_error-IsOrderly port cause k h =
    let told = announced-plain k.events (teardown_error_event port cause) refl in
    record {
      rising = subst (IsRising 0) (sym told) h.rising;
      bounded = subst (λ ps. top 0 ps ≤ rank k.phase) (sym told) h.bounded;
      same = h.same;
      last = λ f.
          let (es, late, e, first, errors) = h.last f in
          (
            es,
            late ++ teardown_error_event port cause ∷ [],
            ap (λ l. l ++ teardown_error_event port cause ∷ []) e
                ∙ append_assoc es (exited_event ∷ late) (teardown_error_event port cause ∷ []),
            first,
            all-snoc late (teardown_error_event port cause) errors refl,
          );
      none_yet = λ f. any-snoc k.events (teardown_error_event port cause) ∙ rw (h.none_yet f) refl;
    }

act-IsOrderly : (a : Action) (k : Kernel) → IsOrderlyKernel k → IsOrderlyKernel (act a k)
unfolding on_runtime_stopped build_abandoned serve_starting serve_serving finish_at_once
    lifecycle_ends probes_failed serve_failed construction_failed lifecycle_fails begin_drain
    end_drain teardown_error
act-IsOrderly (asks reason now) k h = request-IsOrderly reason now k h
act-IsOrderly (runtime_stops now) k h = request-IsOrderly runtime_stopped now _ h
act-IsOrderly (signals now) k h = signal-IsOrderly now k h
act-IsOrderly (throws cause now) k h = uncaught-IsOrderly cause now k h
act-IsOrderly (stop_waits ms) k h = abandon_stop-IsOrderly ms k h
act-IsOrderly build_abandons k h = leave_startup-IsOrderly _ (emit-IsOrderly _ k refl h)
act-IsOrderly starts_runtime k h = serve-IsOrderly starting k h
act-IsOrderly serves k h = serve-IsOrderly serving k h
act-IsOrderly finishes k h = advance-IsOrderly stopping k h
act-IsOrderly ends k h = dispose_all-IsOrderly k h
act-IsOrderly (probes_fail cause) k h = leave_startup-IsOrderly _ (emit-IsOrderly _ k refl h)
act-IsOrderly (serve_fails cause) k h = leave_failed-IsOrderly cause _ h
act-IsOrderly (construction_fails cause) k h = leave_failed-IsOrderly cause _ h
act-IsOrderly (lifecycle_fails_with cause) k h =
    dispose_all-IsOrderly _ (leave_failed-IsOrderly cause k h)
act-IsOrderly (drains n) k h =
    emit-IsOrderly (draining_event n) _ refl (advance-IsOrderly draining k h)
act-IsOrderly (drained_with report) k h =
    advance-IsOrderly stopping _ (emit-IsOrderly (drained_event report) k refl h)
act-IsOrderly (teardown_fails port cause) k h =
    emit-IsOrderly (teardown_error_event port cause) _ refl h
act-IsOrderly (unit_teardown_fails port cause) k h = unit_teardown_error-IsOrderly port cause k h

act_all-IsOrderly_from :
    (actions : List Action) (k : Kernel) → IsOrderlyKernel k → IsOrderlyKernel (act_all actions k)
unfolding act_all
act_all-IsOrderly_from [] k h = h
act_all-IsOrderly_from (a ∷ rest) k h = act_all-IsOrderly_from rest (act a k) (act-IsOrderly a k h)

-- In whatever order the closures of `start` run, and however often: `serving`, `stopping` and
-- `exited` are each announced at most once and in this order, `exited` exactly in the phase of that
-- name, and behind it come teardown errors alone.
pub act_all-IsOrderly :
    (handlers : Bool) (now : ℕ) (actions : List Action)
    → let k = act_all actions (create_kernel handlers now) in
      IsOrderly k.phase k.events k.exited_emitted
unfolding create_kernel
act_all-IsOrderly handlers now actions = act_all-IsOrderly_from actions _ (record {
  rising = tt;
  bounded = omega arith;
  same = refl;
  last = λ f. cc;
  none_yet = λ _. refl;
})
