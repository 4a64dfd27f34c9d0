-- ===== src/Entity/Aggregate/Lives.antt =====
-- packages/entity/src/aggregate.ts: commands that decide events, and the stream that they store.
use btravstack.Common.{
  ◌≡◌, refl, sym, ap, ◌∙◌, String, true, false, Option, none, some, List, [], ◌∷◌, map, get, has,
  elem, length, is_some, string_eq, Result, ok, fail, ◌>>=◌, >>=-eq-ok, ok-inj, if_stops-ok,
  or-false,
}
use btravstack.Entity.{Fault, refused, defect, ended_already, InvalidEntity, map_err, Combine}
use btravstack.Entity.Issues.{Issue}
use btravstack.Entity.Aggregate.{
  Aggregate, Unsaved, Decision, find_index, cut_short, is_terminal_event, record_of, verify,
  decision_of, decide, parse_decided, handled, fold, may_decide, emit, open_by, start,
}

module _ {Raw Ev V : Type 0} (aggregate : Aggregate Raw Ev V) (all_events : Combine (List Issue) Ev)
    (all_fields : Combine InvalidEntity (String × Option V)) where
  -- The decisions of an aggregate that was started: by `start`, then by `emit` on the state before.
  pub data Lives : Decision Ev V → Type 0 where
    starts :
        (raw : Raw) {decision : Decision Ev V}
        → start aggregate all_events all_fields raw ≡ ok decision
        → Lives decision
    emits :
        (raw : List Raw) {before next : Decision Ev V}
        → Lives before
        → emit aggregate all_events all_fields before.state raw ≡ ok next
        → Lives next

  -- What the types of a declaration and `createAggregate` refuse to be otherwise: an event opens an
  -- aggregate or is folded into one, and none that opens it ends it.
  pub record IsDeclared : Type 0 where
    pub folds_or_opens :
        (kind : String) → has kind aggregate.evolve ≡ true → has kind aggregate.opens ≡ false
    pub no_opener_ends :
        (kind : String) → has kind aggregate.opens ≡ true → elem kind aggregate.ends ≡ false

  -- Two records of one state may differ as far as the schema makes them equal, as a text does before
  -- and after it is trimmed. `Same` is such a difference: a record that is verified and the record of
  -- the state that was made of it are the same; a handler that folds one of two same records folds the
  -- other, to same records; and what one of two same records makes, the other makes.
  pub record IsRehydrated (Same : List (String × Option V) → List (String × Option V) → Type 0)
      : Type 0 where
    pub verified_alike :
        (given self : List (String × Option V))
        → verify aggregate all_events all_fields given ≡ ok self
        → Same given (record_of aggregate all_events all_fields self)
    pub handled_alike :
        (given other : List (String × Option V)) (event : Ev) (next : List (String × Option V))
        → Same given other
        → handled aggregate all_events all_fields
            (get (aggregate.kind event) aggregate.evolve)
            other
            event
          ≡ ok next
        → (reached : List (String × Option V)) × (handled aggregate all_events all_fields
              (get (aggregate.kind event) aggregate.evolve)
              given
              event
            ≡ ok reached)
          × Same reached next
    pub made_alike :
        (given other self : List (String × Option V))
        → Same given other
        → verify aggregate all_events all_fields other ≡ ok self
        → verify aggregate all_events all_fields given ≡ ok self

  -- What led to a decision, told by its events alone.
  pub record Story (decision : Decision Ev V) : Type 0 where
    pub opening : Ev
    pub rest : List Ev
    pub first : List (String × Option V)
    pub final : List (String × Option V)
    pub events_eq : decision.events ≡ opening ∷ rest
    pub opens_it : has (aggregate.kind opening) aggregate.opens ≡ true
    pub opened_eq : open_by aggregate all_events all_fields opening ≡ ok first
    pub folded_eq : fold aggregate all_events all_fields first rest ≡ ok final
    pub verified : verify aggregate all_events all_fields final ≡ ok decision.state.fields
    pub not_reopened : find_index (λ e. has (aggregate.kind e) aggregate.opens) rest ≡ none
    pub not_cut :
        cut_short
          (find_index (is_terminal_event aggregate all_events all_fields) rest)
          (length rest)
        ≡ false
    pub ends_eq :
        decision.is_terminal
        ≡ is_some (find_index (is_terminal_event aggregate all_events all_fields) rest)
    pub unsaved_eq :
        decision.state.unsaved
        ≡ some (record { version = 0; pending = decision.events; ended = decision.is_terminal })
    pub version_eq : decision.expected_version ≡ 0

  map_err-ok :
      {E F A : Type 0} (f : E → Fault F) (result : Result (Fault E) A) {a : A}
      → map_err f result ≡ ok a
      → result ≡ ok a
  map_err-ok f (ok b) e = ap ok (ok-inj e)
  map_err-ok f (fail (refused x)) e = absurd (cc)
  map_err-ok f (fail (defect x)) e = absurd (cc)

  pub decide-ok :
      (folded : List (String × Option V)) (decided : List Ev) (from : Unsaved Ev)
      {decision : Decision Ev V}
      → decide aggregate all_events all_fields folded decided from ≡ ok decision
      → (fields : List (String × Option V)) × (verify aggregate all_events all_fields folded
          ≡ ok fields)
        × (decision_of aggregate all_events all_fields from decided fields ≡ decision)
  unfolding decide
  decide-ok folded decided from done =
      let (fields, e, same) =
        >>=-eq-ok (map_err _ (verify aggregate all_events all_fields folded)) _ done in
      (fields, map_err-ok _ (verify aggregate all_events all_fields folded) e, ok-inj same)

  pub may_decide-ok :
      (unsaved : Option (Unsaved Ev)) (decided : List Ev) {from : Unsaved Ev}
      → may_decide aggregate all_events all_fields unsaved decided ≡ ok from
      → (unsaved ≡ some from)
        × (from.ended ≡ false)
        × (cut_short
              (find_index (is_terminal_event aggregate all_events all_fields) decided)
              (length decided)
            ≡ false)
  unfolding may_decide
  may_decide-ok none decided e = absurd (cc)
  may_decide-ok (some from) decided e =
      let (calm, same) = if_stops-ok _ (defect ended_already) from e in
      let (open_still, whole) = or-false from.ended _ calm in
      (ap some same, ap Unsaved.ended (sym same) ∙ open_still, whole)

  pub single-ok :
      {E A : Type 0} (result : Result E A) (values : List A)
      → (result ∷ []) ≡ map ok values
      → (value : A) × (values ≡ value ∷ [])
  single-ok result [] e = absurd (cc)
  single-ok result (value ∷ []) e = (value, refl)
  single-ok result (value ∷ other ∷ values) e = absurd (cc)

  pub parse_decided-ok :
      (raw : List Raw) {decided : List Ev}
      → parse_decided aggregate all_events all_fields raw ≡ ok decided
      → map (λ e. aggregate.parse_event e >>= λ event. ok (aggregate.freeze_event event)) raw
        ≡ map ok decided
  unfolding parse_decided
  parse_decided-ok raw done = all_events.only_ok _ _ (map_err-ok _ _ done)
