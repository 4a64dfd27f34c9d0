-- ===== src/Tests/Domain.antt =====
-- Entities and aggregates at concrete inputs.
use btravstack.Common.{
  ◌↔◌, ◌≢◌, elem, ◌/◌, ◌*◌, set, beq_of_ne, ne_of_beq, arith, ◌≡◌, refl, sym, ap, ◌∙◌, ℕ, String,
  Bool, true, false, Option, none, some, List, [], ◌∷◌, map, get, has, string_eq, Result, ok, fail,
  ◌>>=◌, >>=-eq-ok, ok-inj, Option-cases, inl, inr, leb, subst, Bool-cases, ◌==◌, eq_of_beq,
}
use btravstack.Entity.{Entity, own, Fault, refused, InvalidEntity, Combine, at}
use btravstack.Entity.Issues.{Issue, Message, Params, said, absent, coded}
use btravstack.Entity.Doors.{
  make, parsed_fields, recompute, construct_whole, construct, erased_issues, violations_of,
  refuse_broken, instance_of, frozen_fields, freeze_property, data_keys, is_kept, project,
}
use btravstack.Entity.Doors.Laws.{IsFrozenOnce, IsMade, make-IsMade}
use btravstack.Entity.Doors.Patches.{at-set, IsPatched, update-IsPatched}
use btravstack.Entity.Aggregate.{
  Aggregate, Decision, start, emit, replay, verify, record_of, handled, canonical_record,
  decision_of, opened, opened_with, open_by, decide, parse_decided, may_decide, fold,
  is_terminal_event, find_index, cut_short,
}
use btravstack.Entity.Aggregate.Lives.{starts, emits, IsDeclared, IsRehydrated}
use btravstack.Entity.Aggregate.Replay.{IsStored, replay-Lives}
use btravstack.Entity.Aggregate.Declared.{
  Member, typed, check_declaration, check_declaration-IsEnding, IsEnding,
}

module _ {E A : Type 0} where
  collect : List (Result (Fault E) A) → Result (Fault E) (List A)
  collect [] = ok []
  collect (ok a ∷ results) = collect results >>= λ values. ok (a ∷ values)
  collect (fail fault ∷ results) = fail fault

  collect-map : (values : List A) → collect (map ok values) ≡ ok values
  unfolding collect
  collect-map [] = refl
  collect-map (a ∷ values) = rw (collect-map values) refl

  only_collected :
      (results : List (Result (Fault E) A)) (values : List A)
      → collect results ≡ ok values
      → results ≡ map ok values
  unfolding collect
  only_collected [] values done = rw (sym (ok-inj done)) refl
  only_collected (ok a ∷ results) values done =
      let (others, e, same) = >>=-eq-ok (collect results) _ done in
      ap (◌∷◌ (ok a)) (only_collected results others e) ∙ ap (map ok) (ok-inj same)
  only_collected (fail fault ∷ results) values done = absurd (cc)

  in_order : Combine E A
  in_order = record { all_of = collect; all_ok = collect-map; only_ok = only_collected }

-- A counter with one field, a number that the schema rounds down to an even one, at most 100.
abbrev even : ℕ → ℕ
even n = n / 2 * 2

abbrev amount_of : Option ℕ → Result (Fault (List Issue)) (List (String × Option ℕ))
amount_of none =
    fail (refused (record { message = said "required"; path = none; params = absent } ∷ []))
amount_of (some n) = ok (("amount", some (even n)) ∷ [])

abbrev at_most : Option ℕ → Bool
at_most none = false
at_most (some n) = leb n 100

abbrev counter : Entity ℕ
counter = record {
  tag = "Counter";
  declared_keys = "amount" ∷ [];
  optional_keys = [];
  immutable_keys = [];
  identity_keys = "amount" ∷ [];
  computed = [];
  invariants =
      record {
        code = "TOO_MUCH";
        ensure = λ d. ok (at_most (at "amount" d));
        describe = λ d. "too much";
      }
      ∷ [];
  parse_input = λ state. amount_of (at "amount" state);
  parse_missing = λ key. ok none;
  freeze = λ key value. value;
}

counter-IsFrozenOnce : IsFrozenOnce counter
unfolding IsFrozenOnce
counter-IsFrozenOnce key value = refl

abbrev state_of : ℕ → List (String × Option ℕ)
state_of n = ("amount", some n) ∷ []

counter_made : make counter in_order own (state_of 7) ≡ ok (state_of 6)
unfolding make parsed_fields recompute construct_whole construct erased_issues violations_of
    refuse_broken instance_of frozen_fields freeze_property data_keys is_kept at get in_order
    collect
counter_made = refl

make-IsMade_example : IsMade counter in_order (state_of 7) (state_of 6)
make-IsMade_example =
    make-IsMade counter in_order own (state_of 7) (state_of 6) counter-IsFrozenOnce counter_made

update-IsPatched_example : IsPatched counter in_order own (state_of 7) (("total", some 3) ∷ [])
update-IsPatched_example =
    update-IsPatched counter in_order own (state_of 7) (("total", some 3) ∷ [])

-- Its events: it is opened at a number, moved to another, and closed where it is.
pub data Event : Type 0 where
  opened_at moved_to closed_at : ℕ → Event

abbrev kind_of : Event → String
kind_of (opened_at n) = "opened"
kind_of (moved_to n) = "moved"
kind_of (closed_at n) = "closed"

abbrev number_of : Event → ℕ
number_of (opened_at n) = n
number_of (moved_to n) = n
number_of (closed_at n) = n

abbrev counters : Aggregate Event Event ℕ
counters = record {
  entity = counter;
  ctor = own;
  parse_event = λ event. ok event;
  freeze_event = λ event. event;
  kind = kind_of;
  opens = ("opened", λ event. ok (state_of (number_of event))) ∷ [];
  evolve =
      ("moved", λ before event. ok (set "amount" (some (number_of event)) before))
      ∷ ("closed", λ before event. ok before)
      ∷ [];
  ends = "closed" ∷ [];
}

counters-IsDeclared : IsDeclared counters in_order in_order
unfolding get
counters-IsDeclared = record {
  folds_or_opens = λ kind folds. elim (Bool-cases ("opened" == kind)) [
    | inl e ↦
        absurd
          (cc (subst (λ k. has k counters.evolve ≡ true) (sym (eq_of_beq "opened" kind e)) folds))
    | inr e ↦ rw e refl
  ];
  no_opener_ends = λ kind opens. elim (Bool-cases ("closed" == kind)) [
    | inl e ↦
        absurd
          (cc (subst (λ k. has k counters.opens ≡ true) (sym (eq_of_beq "closed" kind e)) opens))
    | inr e ↦ rw e refl
  ];
}

verify_lem :
    (given : List (String × Option ℕ)) (n : ℕ)
    → at "amount" given ≡ some n
    → leb (even n) 100 ≡ true
    → verify counters in_order in_order given ≡ ok (state_of (even n))
unfolding verify make parsed_fields recompute construct_whole construct erased_issues violations_of
    refuse_broken instance_of frozen_fields freeze_property data_keys is_kept in_order collect at
    get
verify_lem given n e small = rw e (rw small refl)

abbrev refusal : Message → Params → InvalidEntity
refusal message params = record {
  entity = "Counter";
  issues = record { message = message; path = none; params = params } ∷ [];
}

verify_missing :
    (given : List (String × Option ℕ))
    → at "amount" given ≡ none
    → verify counters in_order in_order given ≡ fail (refused (refusal (said "required") absent))
unfolding verify make parsed_fields recompute construct_whole construct erased_issues violations_of
    refuse_broken instance_of frozen_fields freeze_property data_keys is_kept in_order collect at
    get
verify_missing given e = rw e refl

verify_big :
    (given : List (String × Option ℕ)) (n : ℕ)
    → at "amount" given ≡ some n
    → leb (even n) 100 ≡ false
    → verify counters in_order in_order given
      ≡ fail (refused (refusal (said "too much") (coded "TOO_MUCH")))
unfolding verify make parsed_fields recompute construct_whole construct erased_issues violations_of
    refuse_broken instance_of frozen_fields freeze_property data_keys is_kept in_order collect at
    get
verify_big given n e big = rw e (rw big refl)

verify_only :
    (given self : List (String × Option ℕ))
    → verify counters in_order in_order given ≡ ok self
    → (n : ℕ) × (at "amount" given ≡ some n)
      × (leb (even n) 100 ≡ true)
      × (state_of (even n) ≡ self)
verify_only given self made = elim (Option-cases (at "amount" given)) [
  | inl e ↦ let stopped = verify_missing given e in absurd (cc)
  | inr (n, e) ↦ elim (Bool-cases (leb (even n) 100)) [
    | inl small ↦ (n, e, small, ok-inj (sym (verify_lem given n e small) ∙ made))
    | inr big ↦ let stopped = verify_big given n e big in absurd (cc)
  ]
]

abbrev rounded : Option ℕ → Option ℕ
rounded none = none
rounded (some n) = some (even n)

-- Records that the schema rounds to one amount.
abbrev SameAmount : List (String × Option ℕ) → List (String × Option ℕ) → Type 0
SameAmount given other = rounded (at "amount" given) ≡ rounded (at "amount" other)

first_kept :
    (value : Option ℕ) (r : List (String × Option ℕ))
    → at "amount" (canonical_record counters in_order in_order (("amount", value) ∷ r)) ≡ value
unfolding canonical_record at get freeze_property
first_kept none r = refl
first_kept (some n) r = refl

at-canonical_record :
    (r : List (String × Option ℕ))
    → at "amount" (canonical_record counters in_order in_order r) ≡ at "amount" r
unfolding canonical_record at get
at-canonical_record [] = refl
at-canonical_record ((key, value) ∷ r) = elim (Bool-cases (key == "amount")) [
  | inl e ↦
      subst
        (λ k.
          at "amount" (canonical_record counters in_order in_order ((k, value) ∷ r))
          ≡ at "amount" ((k, value) ∷ r))
        (sym (eq_of_beq key "amount" e)) (first_kept value r)
  | inr e ↦
      rw (e, beq_of_ne "amount" key (λ same. ne_of_beq key "amount" e (sym same)))
        (at-canonical_record r)
]

even-even : (n : ℕ) → even (even n) ≡ even n
even-even n = omega arith

record_of-state : (n : ℕ) → at "amount" (record_of counters in_order in_order (state_of n)) ≡ some n
unfolding record_of canonical_record project data_keys is_kept freeze_property at get
record_of-state n = refl

verified_same :
    (given self : List (String × Option ℕ))
    → verify counters in_order in_order given ≡ ok self
    → SameAmount given (record_of counters in_order in_order self)
verified_same given self made =
    let (n, e, small, same) = verify_only given self made in
    ap rounded e
    ∙ (ap some (sym (even-even n))
        ∙ (sym (ap rounded (record_of-state (even n)))
            ∙ ap (λ s. rounded (at "amount" (record_of counters in_order in_order s))) same))

at-set_amount :
    (n : ℕ) (r : List (String × Option ℕ)) → at "amount" (set "amount" (some n) r) ≡ some n
at-set_amount n r = at-set counter "amount" "amount" (some n) r

handled_same :
    (given other : List (String × Option ℕ)) (event : Event) (next : List (String × Option ℕ))
    → SameAmount given other
    → handled counters in_order in_order (get (kind_of event) counters.evolve) other event ≡ ok next
    → (reached : List (String × Option ℕ)) × (handled counters in_order in_order
          (get (kind_of event) counters.evolve)
          given
          event
        ≡ ok reached)
      × SameAmount reached next
unfolding handled get
handled_same given other (opened_at n) next alike done = absurd (cc)
handled_same given other (moved_to n) next alike done = (
  set "amount" (some n) (canonical_record counters in_order in_order given),
  refl,
  subst
      (λ r.
        SameAmount (set "amount" (some n) (canonical_record counters in_order in_order given)) r)
      (ok-inj done)
      (ap rounded (at-set_amount n (canonical_record counters in_order in_order given))
        ∙ sym (ap rounded (at-set_amount n (canonical_record counters in_order in_order other)))),
)
handled_same given other (closed_at n) next alike done = (
  canonical_record counters in_order in_order given,
  refl,
  subst (λ r. SameAmount (canonical_record counters in_order in_order given) r) (ok-inj done)
      (ap rounded (at-canonical_record given)
        ∙ (alike ∙ sym (ap rounded (at-canonical_record other)))),
)

made_same :
    (given other self : List (String × Option ℕ))
    → SameAmount given other
    → verify counters in_order in_order other ≡ ok self
    → verify counters in_order in_order given ≡ ok self
made_same given other self alike made =
    let (n, e, small, same) = verify_only other self made in
    elim (Option-cases (at "amount" given)) [
      | inl none_there ↦ absurd (none-some (sym (ap rounded none_there) ∙ (alike ∙ ap rounded e)))
      | inr (m, f) ↦
          let evens = some-inj (sym (ap rounded f) ∙ (alike ∙ ap rounded e)) in
          verify_lem given m f (subst (λ k. leb k 100 ≡ true) (sym evens) small)
          ∙ ap ok (ap state_of evens ∙ same)
    ]
  where
    some-inj : {a b : ℕ} → some a ≡ some b → a ≡ b
    some-inj h = cc

    none-some : {a : ℕ} → none ≡ some a → ⊥
    none-some h = cc

counters-IsRehydrated : IsRehydrated counters in_order in_order SameAmount
counters-IsRehydrated = record {
  verified_alike = verified_same;
  handled_alike = handled_same;
  made_alike = made_same;
}

abbrev began : Decision Event ℕ
began = record {
  state = record {
    fields = state_of 2;
    unsaved = some (record { version = 0; pending = opened_at 3 ∷ []; ended = false });
  };
  events = opened_at 3 ∷ [];
  expected_version = 0;
  is_terminal = false;
}

abbrev over : Decision Event ℕ
over = record {
  state = record {
    fields = state_of 2;
    unsaved = some (record { version = 0; pending = opened_at 3 ∷ closed_at 9 ∷ []; ended = true });
  };
  events = opened_at 3 ∷ closed_at 9 ∷ [];
  expected_version = 0;
  is_terminal = true;
}

counter_started : start counters in_order in_order (opened_at 3) ≡ ok began
unfolding start decide parse_decided opened open_by opened_with decision_of is_terminal_event verify
    make parsed_fields recompute construct_whole construct erased_issues violations_of refuse_broken
    instance_of frozen_fields freeze_property data_keys is_kept in_order collect at get
counter_started = refl

counter_closed : emit counters in_order in_order began.state (closed_at 9 ∷ []) ≡ ok over
unfolding emit decide parse_decided may_decide fold handled record_of canonical_record project
    find_index cut_short decision_of is_terminal_event verify make parsed_fields recompute
    construct_whole construct erased_issues violations_of refuse_broken instance_of frozen_fields
    freeze_property data_keys is_kept in_order collect at get
counter_closed = refl

replay-Lives_example :
    replay counters in_order in_order (some (opened_at 3 ∷ closed_at 9 ∷ []))
    ≡ ok (record {
      fields = state_of 2;
      unsaved = some (record { version = 2; pending = []; ended = true });
    })
unfolding IsStored
replay-Lives_example =
    replay-Lives counters in_order in_order (λ event. event) counters-IsDeclared
      counters-IsRehydrated (λ event. refl) over
      (emits (closed_at 9 ∷ []) (starts (opened_at 3) counter_started) counter_closed)

abbrev events_schema : Member
events_schema = typed (λ kind. true)

check_declaration-IsEnding_example : (check_declaration counters events_schema ≡ none) ↔ (
    (counter.identity_keys ≢ [])
    × ((kind : String) → elem kind counters.ends ≡ true → IsEnding counters events_schema kind))
check_declaration-IsEnding_example = check_declaration-IsEnding counters events_schema
