-- ===== src/Entity/Aggregate/Replay.antt =====
-- `replay` of packages/entity/src/aggregate.ts on the stream that a life stored.
use btravstack.Common.{
  ◌≡◌, refl, sym, ap, ℕ, suc, String, Option, some, List, [], ◌∷◌, map, length, string_eq, ok,
}
use btravstack.Entity.{InvalidEntity, Combine}
use btravstack.Entity.Issues.{Issue}
use btravstack.Entity.Aggregate.{
  Aggregate, Decision, issues_from, replay_checked, replay_events, replay_parsed, replay,
}
use btravstack.Entity.Aggregate.Lives.{Lives, IsDeclared, IsRehydrated}
use btravstack.Entity.Aggregate.Stories.{Lives-Story}

module _ {Raw Ev V : Type 0} (aggregate : Aggregate Raw Ev V) (all_events : Combine (List Issue) Ev)
    (all_fields : Combine InvalidEntity (String × Option V)) where
  module _ (stored : Ev → Raw) where
    -- A stored event parses to itself.
    unfoldable pub IsStored : Type 0
    IsStored = (event : Ev) → aggregate.parse_event (stored event) ≡ ok event

    parse-stored :
        IsStored
        → (events : List Ev) → map aggregate.parse_event (map stored events) ≡ map ok events
    unfolding IsStored
    parse-stored keeps [] = refl
    parse-stored keeps (event ∷ events) =
        rw (keeps event) (ap (◌∷◌ (ok event)) (parse-stored keeps events))

    issues_from-ok : (n : ℕ) (events : List Ev) → issues_from n (map ok events) ≡ []
    unfolding issues_from
    issues_from-ok n [] = refl
    issues_from-ok n (event ∷ events) = issues_from-ok (suc n) events

    length-map : (events : List Ev) → length (map stored events) ≡ length events
    length-map [] = refl
    length-map (event ∷ events) = ap suc (length-map events)

    replay-stored :
        IsStored
        → (opening : Ev) (rest : List Ev)
        → replay aggregate all_events all_fields (some (map stored (opening ∷ rest)))
          ≡ replay_events aggregate all_events all_fields (suc (length rest)) (opening ∷ rest)
    unfolding replay replay_parsed
    replay-stored keeps opening rest =
        rw
          (
            parse-stored keeps (opening ∷ rest),
            issues_from-ok 0 (opening ∷ rest),
            all_events.all_ok (opening ∷ rest),
            length-map rest,
          )
          refl

    -- For handlers and a schema that do not tell a verified record from the record of the state it made
    -- (a schema whose transforms are idempotent, with handlers that read no field before it is
    -- transformed), and events that parse to themselves, none of which opens an aggregate and is also
    -- folded into one or ends one: the stored events of an aggregate that was started and then decided
    -- more replay to the state that its last decision verified, loaded at as many events, with nothing
    -- pending, and ended exactly where that decision was terminal.
    pub replay-Lives :
        {Same : List (String × Option V) → List (String × Option V) → Type 0}
        → IsDeclared aggregate all_events all_fields
        → IsRehydrated aggregate all_events all_fields Same
        → IsStored
        → (decision : Decision Ev V) → Lives aggregate all_events all_fields decision
        → replay aggregate all_events all_fields (some (map stored decision.events))
          ≡ ok (record {
            fields = decision.state.fields;
            unsaved = some (record {
              version = length decision.events;
              pending = [];
              ended = decision.is_terminal;
            });
          })
    unfolding replay_events replay_checked
    replay-Lives declared again keeps decision lives =
        let told = Lives-Story aggregate all_events all_fields declared again decision lives in
        rw
          (
            told.events_eq,
            replay-stored keeps told.opening told.rest,
            told.opens_it,
            told.not_reopened,
            told.not_cut,
            told.opened_eq,
            told.folded_eq,
            told.verified,
            sym told.ends_eq,
          )
          refl
