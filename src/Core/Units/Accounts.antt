-- ===== src/Core/Units/Accounts.antt =====
-- The registry's books: what every run of steps keeps.
use btravstack.Common.{
  ℕ, ◌+◌, ◌≡◌, ◌≤◌, ◌<◌, refl, true, false, not, ◌||◌, List, [], ◌∷◌, ◌++◌, if◌then◌else◌, arith,
  Bool-cases, inl, inr, keep, elem, length, ◌==◌, nat_eq, length-append, ◌⊎◌, ◌≢◌, elem-append,
}
use btravstack.Core.Units.{
  UnitMeta, UnitRegistry, create_unit_registry, open_unit, close_unit, abort, AbortReason,
  is_aborted, is_empty, settle_if_idle, abort_each, abort_all, await_idle, Step, opens, closes,
  aborts, waits, Steps, done, next, settled, by_kernel,
}

-- How often a unit is in a list.
abbrev times : ℕ → List ℕ → ℕ
times u [] = 0
times u (v ∷ vs) = (if v == u then 1 else 0) + times u vs

times-append : (u : ℕ) (xs ys : List ℕ) → times u (xs ++ ys) ≡ times u xs + times u ys
times-append u [] ys = omega arith
times-append u (x ∷ xs) ys = omega (arith, times-append u xs ys)

times-absent : (u : ℕ) (xs : List ℕ) → elem u xs ≡ false → times u xs ≡ 0
times-absent u [] h = refl
times-absent u (x ∷ xs) h = ground (arith, times-absent u xs)

length-without :
    (u : ℕ) (xs : List ℕ) → length (keep (λ v. not (v == u)) xs) + times u xs ≡ length xs
length-without u [] = refl
length-without u (x ∷ xs) = ground (arith, length-without u xs)

times_of_elem : (u : ℕ) (xs : List ℕ) → elem u xs ≡ true → 0 < times u xs
times_of_elem u [] h = cc
times_of_elem u (x ∷ xs) h = ground (arith, times_of_elem u xs)

elem-without :
    (u w : ℕ) (xs : List ℕ) → elem w (keep (λ v. not (v == u)) xs) ≡ true → elem w xs ≡ true
elem-without u w [] h = h
elem-without u w (x ∷ xs) h = ground (arith, elem-without u w xs)

without-elem : (u w : ℕ) (xs : List ℕ) → u ≢ w → elem w (keep (λ v. not (v == u)) xs) ≡ elem w xs
without-elem u w [] h = refl
without-elem u w (x ∷ xs) h = ground (arith, without-elem u w xs)

times-without : (u w : ℕ) (xs : List ℕ) → times w (keep (λ v. not (v == u)) xs) ≤ times w xs
times-without u w [] = omega arith
times-without u w (x ∷ xs) = ground (arith, times-without u w xs)

is_aborted-append :
    (u v : ℕ) (reason : AbortReason) (aborted : List (ℕ × AbortReason))
    → is_aborted u (aborted ++ (v, reason) ∷ []) ≡ (is_aborted u aborted || (v == u))
is_aborted-append u v reason [] = ground arith
is_aborted-append u v reason ((w, other) ∷ rest) = ground (arith, is_aborted-append u v reason rest)

pub is_aborted-abort :
    (u v : ℕ) (reason : AbortReason) (aborted : List (ℕ × AbortReason))
    → is_aborted u (abort reason v aborted) ≡ (is_aborted u aborted || (v == u))
unfolding abort
is_aborted-abort u v reason aborted = elim (Bool-cases (is_aborted v aborted)) [
  | inl e ↦ ground arith
  | inr e ↦ ground (arith, is_aborted-append u v reason aborted)
]

pub is_aborted-abort_each :
    (u : ℕ) (us : List ℕ) (aborted : List (ℕ × AbortReason))
    → is_aborted u aborted ≡ true
    → is_aborted u (abort_each us aborted) ≡ true
is_aborted-abort_each u [] aborted h = h
is_aborted-abort_each u (v ∷ us) aborted h =
    is_aborted-abort_each u us (abort by_kernel v aborted)
      (ground (arith, is_aborted-abort u v by_kernel aborted))

-- Every unit that was opened is open now or has closed, and is counted; the open ones are distinct;
-- one that has closed has an aborted signal; and nobody waits for a registry that is idle.
pub record IsAccounted (r : UnitRegistry) : Type 0 where
  pub counted : r.closed_count + length r.opened ≡ r.next_id
  pub numbered : (u : ℕ) → elem u r.opened ≡ true → u < r.next_id
  pub once : (u : ℕ) → times u r.opened ≤ 1
  pub released : (u : ℕ) → u < r.next_id → (elem u r.opened || is_aborted u r.aborted) ≡ true
  pub waited : is_empty r.opened ≡ true → r.waiters ≡ 0

not-empty-append : (xs : List ℕ) (x : ℕ) → is_empty (xs ++ x ∷ []) ≡ false
not-empty-append [] x = refl
not-empty-append (y ∷ ys) x = refl

elem_of_times : (u : ℕ) (xs : List ℕ) → elem u xs ≡ false ⊎ (0 < times u xs)
elem_of_times u xs = elim (Bool-cases (elem u xs)) [
  | inl e ↦ inr (times_of_elem u xs e)
  | inr e ↦ inl e
]

open_unit-IsAccounted :
    (meta : UnitMeta) (r : UnitRegistry) → IsAccounted r → IsAccounted (open_unit meta r).1
unfolding open_unit
open_unit-IsAccounted meta r h = record {
  counted = omega (arith, h.counted, length-append r.opened (r.next_id ∷ []));
  numbered = λ u e. ground (arith, h.numbered u, elem-append u r.opened (r.next_id ∷ []));
  once = λ u. ground (
    arith,
    h.once u,
    h.numbered u,
    times-append u r.opened (r.next_id ∷ []),
    times-absent u r.opened,
  );
  released = λ u e. ground (arith, h.released u, elem-append u r.opened (r.next_id ∷ []));
  waited = λ e. ground (arith, not-empty-append r.opened r.next_id);
}

-- The books of a registry whose waiters have been settled if it is idle.
settle_if_idle-IsAccounted :
    (r : UnitRegistry)
    → r.closed_count + length r.opened ≡ r.next_id
    → ((u : ℕ) → elem u r.opened ≡ true → u < r.next_id)
    → ((u : ℕ) → times u r.opened ≤ 1)
    → ((u : ℕ) → u < r.next_id → (elem u r.opened || is_aborted u r.aborted) ≡ true)
    → IsAccounted (settle_if_idle r)
unfolding settle_if_idle
settle_if_idle-IsAccounted r counted numbered once released =
    elim (Bool-cases (is_empty r.opened)) [
      | inl e ↦
          rw (e, settle_if_idle)
            (record {
              counted = counted;
              numbered = numbered;
              once = once;
              released = released;
              waited = λ _. refl;
            })
      | inr e ↦
          rw (e, settle_if_idle)
            (record {
              counted = counted;
              numbered = numbered;
              once = once;
              released = released;
              waited = λ k. cc;
            })
    ]

close_unit-IsAccounted :
    (u : ℕ) (r : UnitRegistry)
    → elem u r.opened ≡ true
    → IsAccounted r
    → IsAccounted (close_unit u r)
unfolding close_unit
close_unit-IsAccounted u r member h =
    settle_if_idle-IsAccounted _
      (omega
        (arith, h.counted, h.once u, length-without u r.opened, times_of_elem u r.opened member))
      (λ w e. h.numbered w (elem-without u w r.opened e))
      (λ w. omega (arith, h.once w, times-without u w r.opened))
      (λ w e.
        ground (
          arith,
          h.released w e,
          without-elem u w r.opened,
          is_aborted-abort w u settled r.aborted,
        ))

Step-IsAccounted : {a b : UnitRegistry} → Step a b → IsAccounted a → IsAccounted b
unfolding abort_all await_idle
Step-IsAccounted (opens meta r) h = open_unit-IsAccounted meta r h
Step-IsAccounted (closes u r member) h = close_unit-IsAccounted u r member h
Step-IsAccounted (aborts r) h = record {
  counted = h.counted;
  numbered = h.numbered;
  once = h.once;
  released = λ u e. ground (arith, h.released u e, is_aborted-abort_each u r.opened r.aborted);
  waited = h.waited;
}
Step-IsAccounted (waits r) h = elim (Bool-cases (is_empty r.opened)) [
  | inl e ↦
      rw (e, await_idle)
        (record {
          counted = h.counted;
          numbered = h.numbered;
          once = h.once;
          released = h.released;
          waited = h.waited;
        })
  | inr e ↦
      rw (e, await_idle)
        (record {
          counted = h.counted;
          numbered = h.numbered;
          once = h.once;
          released = h.released;
          waited = λ k. cc;
        })
]

pub Steps-IsAccounted_from : {a b : UnitRegistry} → Steps a b → IsAccounted a → IsAccounted b
Steps-IsAccounted_from (done r) h = h
Steps-IsAccounted_from (next steps step) h = Step-IsAccounted step (Steps-IsAccounted_from steps h)

-- Whatever units open, close, are aborted or are waited for, in whatever order, the books balance.
pub Steps-IsAccounted : {r : UnitRegistry} → Steps create_unit_registry r → IsAccounted r
Steps-IsAccounted steps = Steps-IsAccounted_from steps (record {
  counted = refl;
  numbered = λ u e. cc;
  once = λ u. omega arith;
  released = λ u e. absurd (omega arith);
  waited = λ e. refl;
})
