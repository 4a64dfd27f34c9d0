-- ===== src/Entity/Aggregate/Stories.antt =====
-- What each decision of a life of packages/entity/src/aggregate.ts is known by.
use btravstack.Common.{
  ◌≡◌, refl, sym, ap, ◌∙◌, subst, ℕ, String, true, false, Option, none, some, List, [], ◌∷◌, ◌++◌,
  get, has, All-map, length, length-append, is_some, string_eq, Result, ok, >>=-eq-ok, ok-inj,
}
use btravstack.Entity.{InvalidEntity, Combine}
use btravstack.Entity.Issues.{Issue}
use btravstack.Entity.Aggregate.{
  Aggregate, Unsaved, Decision, find_index, cut_short, is_terminal_event, record_of, verify,
  decision_of, parse_decided, fold, may_decide, handled, emit, open_by, opened_with, opened, start,
}
use btravstack.Entity.Aggregate.Folds.{
  shifted, find_index-append, any-find_index, find_index-none, cut_short-shifted, is_some-shifted,
  fold-append, fold-has,
}
use btravstack.Entity.Aggregate.Lives.{
  Lives, starts, emits, IsDeclared, IsRehydrated, Story, decide-ok, may_decide-ok, single-ok,
  parse_decided-ok,
}

module _ {Raw Ev V : Type 0} (aggregate : Aggregate Raw Ev V) (all_events : Combine (List Issue) Ev)
    (all_fields : Combine InvalidEntity (String × Option V)) where
  opened_with-has :
      (opener : Option (Ev → Result ℕ (List (String × Option V)))) (event : Ev)
      {first : List (String × Option V)}
      → opened_with aggregate all_events all_fields opener event ≡ ok first
      → is_some opener ≡ true
  unfolding opened_with
  opened_with-has none event e = absurd (cc)
  opened_with-has (some opener) event e = refl

  opening-Story :
      IsDeclared aggregate all_events all_fields
      → (opening : Ev) (first fields : List (String × Option V))
      → open_by aggregate all_events all_fields opening ≡ ok first
      → verify aggregate all_events all_fields first ≡ ok fields
      → Story aggregate all_events all_fields (
          decision_of aggregate all_events all_fields
            (record { version = 0; pending = []; ended = false })
            (opening ∷ [])
            fields)
  unfolding open_by fold find_index cut_short decision_of is_terminal_event
  opening-Story declared opening first fields opens verified =
      let opener = opened_with-has (get (aggregate.kind opening) aggregate.opens) opening opens in
      record {
        opening = opening;
        rest = [];
        first = first;
        final = first;
        events_eq = refl;
        opens_it = opener;
        opened_eq = opens;
        folded_eq = refl;
        verified = verified;
        not_reopened = refl;
        not_cut = refl;
        ends_eq = rw (declared.no_opener_ends (aggregate.kind opening) opener) refl;
        unsaved_eq = refl;
        version_eq = refl;
      }

  start-Story :
      IsDeclared aggregate all_events all_fields
      → (raw : Raw) (decision : Decision Ev V)
      → start aggregate all_events all_fields raw ≡ ok decision
      → Story aggregate all_events all_fields decision
  unfolding start opened
  start-Story declared raw decision done =
      let (decided, parsed, later) =
        >>=-eq-ok (parse_decided aggregate all_events all_fields (raw ∷ [])) _ done in
      let (opening, one) =
        single-ok aggregate all_events all_fields _ decided
          (parse_decided-ok aggregate all_events all_fields (raw ∷ []) parsed) in
      let (first, e, decides) =
        >>=-eq-ok (opened aggregate all_events all_fields decided) _ later in
      let (fields, verified, same) =
        decide-ok aggregate all_events all_fields first decided _ decides in
      subst (Story aggregate all_events all_fields)
        (ap
            (λ es.
              decision_of aggregate all_events all_fields
                (record { version = 0; pending = []; ended = false }) es fields)
            (sym one)
          ∙ same)
        (opening-Story declared opening first fields
          (ap (opened aggregate all_events all_fields) (sym one) ∙ e) verified)

  -- Same records fold alike.
  fold_alike :
      {Same : List (String × Option V) → List (String × Option V) → Type 0}
      → IsRehydrated aggregate all_events all_fields Same
      → (given other : List (String × Option V)) (events : List Ev)
        (final : List (String × Option V))
      → Same given other
      → fold aggregate all_events all_fields other events ≡ ok final
      → (reached : List (String × Option V)) × (fold aggregate all_events all_fields given events
          ≡ ok reached)
        × Same reached final
  unfolding fold
  fold_alike {Same} again given other [] final alike folded =
      (given, refl, subst (Same given) (ok-inj folded) alike)
  fold_alike again given other (event ∷ events) final alike folded =
      let (next, one, later) =
        >>=-eq-ok
          (handled aggregate all_events all_fields (get (aggregate.kind event) aggregate.evolve)
            other event)
          _ folded in
      let (reached, step, still) = again.handled_alike given other event next alike one in
      let (end, on, at_end) = fold_alike again reached next events final still later in
      (end, rw step on, at_end)

  -- Folding on from the state is folding on from the record it was made of.
  fold_from :
      {Same : List (String × Option V) → List (String × Option V) → Type 0}
      → IsRehydrated aggregate all_events all_fields Same
      → (given self : List (String × Option V)) (events : List Ev)
        (final fields : List (String × Option V))
      → verify aggregate all_events all_fields given ≡ ok self
      → fold aggregate all_events all_fields (record_of aggregate all_events all_fields self) events
        ≡ ok final
      → verify aggregate all_events all_fields final ≡ ok fields
      → (reached : List (String × Option V)) × (fold aggregate all_events all_fields given events
          ≡ ok reached)
        × (verify aggregate all_events all_fields reached ≡ ok fields)
  fold_from again given self events final fields made folded verified =
      let (reached, on, alike) =
        fold_alike again given (record_of aggregate all_events all_fields self) events final
          (again.verified_alike given self made) folded in
      (reached, on, again.made_alike reached final fields alike verified)

  emitting-Story :
      {Same : List (String × Option V) → List (String × Option V) → Type 0}
      → IsDeclared aggregate all_events all_fields
      → IsRehydrated aggregate all_events all_fields Same
      → (before : Decision Ev V) (decided : List Ev) (final fields : List (String × Option V))
      → Story aggregate all_events all_fields before
      → before.is_terminal ≡ false
      → cut_short
          (find_index (is_terminal_event aggregate all_events all_fields) decided)
          (length decided)
        ≡ false
      → fold aggregate all_events all_fields
          (record_of aggregate all_events all_fields before.state.fields)
          decided
        ≡ ok final
      → verify aggregate all_events all_fields final ≡ ok fields
      → Story aggregate all_events all_fields (
          decision_of aggregate all_events all_fields
            (record { version = 0; pending = before.events; ended = before.is_terminal })
            decided
            fields)
  unfolding decision_of
  emitting-Story declared again before decided final fields told alive whole folded verified =
      let (reached, on, checked) =
        fold_from again told.final before.state.fields decided final fields told.verified folded
          verified in
      let folders = fold-has aggregate all_events all_fields told.final decided on in
      let terminal = is_terminal_event aggregate all_events all_fields in
      let opens = λ (e : Ev). has (aggregate.kind e) aggregate.opens in
      let none_ended = none_of (find_index terminal told.rest) (sym told.ends_eq ∙ alive) in
      let end = find_index-append terminal told.rest decided none_ended in
      record {
        opening = told.opening;
        rest = told.rest ++ decided;
        first = told.first;
        final = reached;
        events_eq = ap (λ es. es ++ decided) told.events_eq;
        opens_it = told.opens_it;
        opened_eq = told.opened_eq;
        folded_eq =
            fold-append aggregate all_events all_fields told.first told.rest decided told.folded_eq
            ∙ on;
        verified = checked;
        not_reopened =
            find_index-append opens told.rest decided told.not_reopened
            ∙ ap (shifted (length told.rest)) (
                find_index-none opens decided (
                  All-map (λ e folds. declared.folds_or_opens (aggregate.kind e) folds) decided
                    folders));
        not_cut =
            rw (end, length-append told.rest decided)
              (cut_short-shifted (length told.rest) (length decided) (find_index terminal decided)
                whole);
        ends_eq =
            rw (alive, end, is_some-shifted (length told.rest) (find_index terminal decided))
              (any-find_index terminal decided);
        unsaved_eq = refl;
        version_eq = refl;
      }
    where
      none_of : (end : Option ℕ) → is_some end ≡ false → end ≡ none
      none_of none e = refl
      none_of (some n) e = absurd (cc)

  emit-Story :
      {Same : List (String × Option V) → List (String × Option V) → Type 0}
      → IsDeclared aggregate all_events all_fields
      → IsRehydrated aggregate all_events all_fields Same
      → (before next : Decision Ev V) (raw : List Raw)
      → Story aggregate all_events all_fields before
      → emit aggregate all_events all_fields before.state raw ≡ ok next
      → Story aggregate all_events all_fields next
  unfolding emit
  emit-Story declared again before next raw told done =
      let (decided, parsed, later) =
        >>=-eq-ok (parse_decided aggregate all_events all_fields raw) _ done in
      let (from, may, folds) =
        >>=-eq-ok (may_decide aggregate all_events all_fields before.state.unsaved decided) _
          later in
      let (is_from, alive, whole) =
        may_decide-ok aggregate all_events all_fields before.state.unsaved decided may in
      let (final, folded, decides) =
        >>=-eq-ok
          (fold aggregate all_events all_fields
            (record_of aggregate all_events all_fields before.state.fields) decided)
          _ folds in
      let (fields, verified, same) =
        decide-ok aggregate all_events all_fields final decided from decides in
      let known = some-inj (sym told.unsaved_eq ∙ is_from) in
      subst (Story aggregate all_events all_fields)
        (ap (λ u. decision_of aggregate all_events all_fields u decided fields) known ∙ same)
        (emitting-Story declared again before decided final fields told
          (ap Unsaved.ended known ∙ alive) whole folded verified)
    where
      some-inj : {a b : Unsaved Ev} → some a ≡ some b → a ≡ b
      some-inj e = cc

  pub Lives-Story :
      {Same : List (String × Option V) → List (String × Option V) → Type 0}
      → IsDeclared aggregate all_events all_fields
      → IsRehydrated aggregate all_events all_fields Same
      → (decision : Decision Ev V) → Lives aggregate all_events all_fields decision
      → Story aggregate all_events all_fields decision
  Lives-Story declared again decision (starts raw done) = start-Story declared raw decision done
  Lives-Story declared again decision (emits raw {before} before_lives done) =
      emit-Story declared again before decision raw (Lives-Story declared again before before_lives)
        done
