-- ===== src/Entity/Aggregate.antt =====
-- packages/entity/src/aggregate.ts: an entity whose state changes only through events. What an
-- instance has not saved yet, which the code keeps beside it in a WeakMap, is a field of it here.
-- Handlers are found among the own properties of `opens` and `evolve`, and may throw.
pub mod Folds
pub mod Lives
pub mod Stories
pub mod Replay
pub mod Declared
use btravstack.Common.{
  ◌≡◌, ℕ, ◌+◌, suc, String, Bool, true, false, not, ◌&&◌, ◌||◌, Option, none, some, List, [], ◌∷◌,
  ◌++◌, map, get, has, elem, keep, any, length, ltb, is_some, if◌then◌else◌, string_eq, Result, ok,
  fail, ◌>>=◌, guard, ◌>>◌,
}
use btravstack.Entity.{
  Entity, Ctor, Fault, refused, defect, Cause, thrown, breaks_aggregate, fails_schema, never_loaded,
  ended_already, unversioned, opens_mid_life, not_opening, InvalidEntity, caught, map_err, Combine,
}
use btravstack.Entity.Issues.{
  Issue, Message, not_a_stream, not_opened, reopened, not_last, Params, absent, Key, name, index,
  bare, issue_under,
}
use btravstack.Entity.Doors.{project, freeze_property, make}

pub record Unsaved (Ev : Type 0) : Type 0 where
  pub version : ℕ
  pub pending : List Ev
  pub ended : Bool

pub record Live (Ev V : Type 0) : Type 0 where
  pub fields : List (String × Option V)
  pub unsaved : Option (Unsaved Ev)

pub record Decision (Ev V : Type 0) : Type 0 where
  pub state : Live Ev V
  pub events : List Ev
  pub expected_version : ℕ
  pub is_terminal : Bool

-- An aggregate's declaration. `parse_event` is the parse of one event by the schema of all, which may
-- throw; `freeze_event` is `deepFreeze` under that schema; `ctor` is the class that is used.
pub record Aggregate (Raw Ev V : Type 0) : Type 0 where
  pub entity : Entity V
  pub ctor : Ctor
  pub parse_event : Raw → Result (Fault (List Issue)) Ev
  pub freeze_event : Ev → Ev
  pub kind : Ev → String
  pub opens : List (String × (Ev → Result ℕ (List (String × Option V))))
  pub evolve : List (String × (List (String × Option V) → Ev → Result ℕ (List (String × Option V))))
  pub ends : List String

-- `array.findIndex(test)`, with nothing for -1.
unfoldable pub find_index {ℓ} : {A : Type ℓ} → (A → Bool) → List A → Option ℕ
find_index p [] = none
find_index p (x ∷ xs) =
    let later = find_index p xs in
    if p x then some 0 else elim later [ none ↦ none | some n ↦ some (suc n) ]

-- `end !== -1 && end < events.length - 1`.
unfoldable pub cut_short : Option ℕ → ℕ → Bool
cut_short none count = false
cut_short (some end) count = ltb (end + 1) count

unfoldable pub issues_from : {A : Type 0} → ℕ → List (Result (Fault (List Issue)) A) → List Issue
issues_from at [] = []
issues_from at (ok event ∷ parsed) = issues_from (suc at) parsed
issues_from at (fail (refused issues) ∷ parsed) =
    map (issue_under (index at)) issues ++ issues_from (suc at) parsed
issues_from at (fail (defect cause) ∷ parsed) = issues_from (suc at) parsed

unfoldable pub not_stream : Issue
not_stream = record { message = not_a_stream; path = none; params = absent }

module _ {Raw Ev V : Type 0} (aggregate : Aggregate Raw Ev V) (all_events : Combine (List Issue) Ev)
    (all_fields : Combine InvalidEntity (String × Option V)) where
  unfoldable pub is_terminal_event : Ev → Bool
  is_terminal_event event = elem (aggregate.kind event) aggregate.ends

  unfoldable pub canonical_record : List (String × Option V) → List (String × Option V)
  canonical_record record_given =
      let entity = aggregate.entity in
      map (λ entry. (entry.0, freeze_property entity entry.0 entry.1))
        (keep
          (λ entry.
            elem entry.0 entity.declared_keys
            && (is_some entry.1 || not (elem entry.0 entity.optional_keys)))
          record_given)

  unfoldable pub record_of : List (String × Option V) → List (String × Option V)
  record_of self = canonical_record (project aggregate.entity self)

  unfoldable pub verify :
      List (String × Option V) → Result (Fault InvalidEntity) (List (String × Option V))
  verify = make aggregate.entity all_fields aggregate.ctor

  unfoldable pub decision_of : Unsaved Ev → List Ev → List (String × Option V) → Decision Ev V
  decision_of from decided fields =
      let pending = from.pending ++ decided in
      let ended = from.ended || any is_terminal_event decided in
      record {
        state = record {
          fields = fields;
          unsaved = some (record { version = from.version; pending = pending; ended = ended });
        };
        events = pending;
        expected_version = from.version;
        is_terminal = ended;
      }

  unfoldable pub decide :
      List (String × Option V) → List Ev → Unsaved Ev → Result (Fault InvalidEntity) (Decision Ev V)
  decide folded decided from =
      map_err (λ invalid. defect (breaks_aggregate invalid.issues)) (verify folded) >>= λ fields.
      ok (decision_of from decided fields)

  unfoldable pub parse_decided : List Raw → Result (Fault InvalidEntity) (List Ev)
  parse_decided raw =
      map_err (λ issues. defect (fails_schema issues))
        (all_events.all_of
          (map (λ e. aggregate.parse_event e >>= λ event. ok (aggregate.freeze_event event)) raw))

  -- One event: its handler is called, on a canonical record.
  unfoldable pub handled :
      Option (List (String × Option V) → Ev → Result ℕ (List (String × Option V)))
      → List (String × Option V)
      → Ev
      → Result (Fault InvalidEntity) (List (String × Option V))
  handled none current event = fail (defect (opens_mid_life (aggregate.kind event)))
  handled (some handler) current event = caught (handler (canonical_record current) event)

  unfoldable pub fold :
      List (String × Option V) → List Ev → Result (Fault InvalidEntity) (List (String × Option V))
  fold current [] = ok current
  fold current (event ∷ events) =
      handled (get (aggregate.kind event) aggregate.evolve) current event >>= λ next.
      fold next events

  -- The checks of `emit`, in its order, before it folds.
  unfoldable pub may_decide :
      Option (Unsaved Ev) → List Ev → Result (Fault InvalidEntity) (Unsaved Ev)
  may_decide none decided = fail (defect never_loaded)
  may_decide (some from) decided =
      if from.ended || cut_short (find_index is_terminal_event decided) (length decided)
      then fail (defect ended_already)
      else ok from

  unfoldable pub emit : Live Ev V → List Raw → Result (Fault InvalidEntity) (Decision Ev V)
  emit this raw = parse_decided raw >>= λ decided. may_decide this.unsaved decided >>= λ from.
      fold (record_of this.fields) decided >>= λ folded. decide folded decided from

  unfoldable pub opened_with :
      Option (Ev → Result ℕ (List (String × Option V)))
      → Ev
      → Result (Fault InvalidEntity) (List (String × Option V))
  opened_with none event = fail (defect (not_opening (aggregate.kind event)))
  opened_with (some opener) event = caught (opener event)

  unfoldable pub open_by : Ev → Result (Fault InvalidEntity) (List (String × Option V))
  open_by event = opened_with (get (aggregate.kind event) aggregate.opens) event

  unfoldable pub opened : List Ev → Result (Fault InvalidEntity) (List (String × Option V))
  opened [] = fail (defect (not_opening ""))
  opened (event ∷ events) = open_by event

  unfoldable pub start : Raw → Result (Fault InvalidEntity) (Decision Ev V)
  start raw = parse_decided (raw ∷ []) >>= λ decided. opened decided >>= λ folded.
      decide folded decided (record { version = 0; pending = []; ended = false })

  -- A row with the version it was loaded at, if that is a whole number from 0 on.
  unfoldable pub load :
      List (String × Option V) → Option ℕ → Result (Fault InvalidEntity) (Live Ev V)
  load state loaded = verify state >>= λ fields. elim loaded [
    | none ↦ fail (defect unversioned)
    | some version ↦ ok (record {
      fields = fields;
      unsaved = some (record { version = version; pending = []; ended = false });
    })
  ]

  unfoldable pub invalid : {A : Type 0} → List Issue → Result (Fault InvalidEntity) A
  invalid issues = fail (refused (record { entity = aggregate.entity.tag; issues = issues }))

  unfoldable pub type_issue : Message → ℕ → List Issue
  type_issue message at =
      record {
        message = message;
        path = some (bare (index at) ∷ bare (name "type") ∷ []);
        params = absent;
      }
      ∷ []

  unfoldable pub replay_checked :
      ℕ → Ev → List Ev → Option ℕ → Option ℕ → Result (Fault InvalidEntity) (Live Ev V)
  replay_checked count opening rest (some at) end = invalid (type_issue reopened (at + 1))
  replay_checked count opening rest none end =
      if cut_short end (length rest)
      then elim end [ none ↦ invalid [] | some at ↦ invalid (type_issue not_last (at + 2)) ]
      else open_by opening >>= λ first. fold first rest >>= λ folded. verify folded >>= λ fields.
          ok (record {
            fields = fields;
            unsaved = some (record { version = count; pending = []; ended = is_some end });
          })

  unfoldable pub replay_events : ℕ → List Ev → Result (Fault InvalidEntity) (Live Ev V)
  replay_events count [] = invalid []
  replay_events count (opening ∷ rest) =
      if has (aggregate.kind opening) aggregate.opens
      then replay_checked count opening rest
          (find_index (λ e. has (aggregate.kind e) aggregate.opens) rest)
          (find_index is_terminal_event rest)
      else invalid (type_issue (not_opened (map (λ entry. entry.0) aggregate.opens)) 0)

  unfoldable pub replay_parsed :
      ℕ
      → List (Result (Fault (List Issue)) Ev)
      → List Issue
      → Result (Fault InvalidEntity) (Live Ev V)
  replay_parsed count parsed (issue ∷ issues) = invalid (issue ∷ issues)
  replay_parsed count parsed [] =
      map_err invalid_of (all_events.all_of parsed) >>= replay_events count
    where
      invalid_of : List Issue → Fault InvalidEntity
      invalid_of issues = refused (record { entity = aggregate.entity.tag; issues = issues })

  -- A stored stream, or nothing where there is no array.
  unfoldable pub replay : Option (List Raw) → Result (Fault InvalidEntity) (Live Ev V)
  replay none = invalid (not_stream ∷ [])
  replay (some []) = invalid (not_stream ∷ [])
  replay (some (first ∷ rest)) =
      let parsed = map aggregate.parse_event (first ∷ rest) in
      replay_parsed (length (first ∷ rest)) parsed (issues_from 0 parsed)
