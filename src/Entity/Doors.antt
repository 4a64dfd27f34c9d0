-- ===== src/Entity/Doors.antt =====
-- packages/entity/src/entity.ts: `make`, `inspect`, `update` and `sameIdentityAs`, and the steps they
-- share. An instance is the list of its data fields.
pub mod Laws
pub mod Patches
use btravstack.Common.{
  ◌≡◌, ℕ, String, Bool, true, false, not, ◌&&◌, ◌||◌, Option, none, some, List, [], ◌∷◌, ◌++◌, map,
  get, set, elem, keep, all, is_some, if◌then◌else◌, string_eq, Eq, ◌==◌, Option-cases, Result, ok,
  fail, ◌>>=◌,
}
use btravstack.Entity.{
  Entity, Computed, Invariant, Ctor, base, own, below, Fault, refused, defect, Cause, thrown,
  computed_rejected, subclassed, InvalidEntity, caught, map_err, Combine, at, spread,
}
use btravstack.Entity.Issues.{
  Issue, Message, said, not_rehydrated, immutable_field, computed_field, unknown_field_for, Params,
  absent, coded, Key, name, bare, keys_of,
}

-- A stored row's data and the rules it breaks.
pub record Inspection (V : Type 0) : Type 0 where
  pub data_fields : List (String × Option V)
  pub violations : List Issue

-- The first computed field whose function throws or whose value its schema rejects is a defect.
abbrev pub derived :
    {V : Type 0}
    → List (String × Option V)
    → Computed V
    → Result (Fault InvalidEntity) (String × Option V)
derived canonical field = caught (field.from canonical) >>= λ produced.
    map_err (λ issues. defect (computed_rejected field.key issues))
      (parsed_by (field.parse produced))
    >>= λ value. ok (field.key, value)
  where
    parsed_by : {E A : Type 0} → Result E A → Result (Fault E) A
    parsed_by (ok value) = ok value
    parsed_by (fail issues) = fail (refused issues)

-- A patch's key with why it is refused, if it is.
abbrev pub note_refusal : String → Option Message → List Issue → List Issue
note_refusal key none others = others
note_refusal key (some message) others =
    record { message = message; path = some (bare (name key) ∷ []); params = absent } ∷ others

module _ {V : Type 0} (entity : Entity V) where
  unfoldable pub data_keys : List String
  data_keys = entity.declared_keys ++ map Computed.key entity.computed

  -- `source[k] !== undefined || !optionalKeys.has(k)`.
  unfoldable pub is_kept : List (String × Option V) → String → Bool
  is_kept source key = is_some (at key source) || not (elem key entity.optional_keys)

  unfoldable pub freeze_property : String → Option V → Option V
  freeze_property key none = none
  freeze_property key (some value) = some (entity.freeze key value)

  unfoldable pub frozen_fields : List String → List (String × Option V) → List (String × Option V)
  frozen_fields keys source =
      map (λ key. (key, freeze_property key (at key source))) (keep (is_kept source) keys)

  unfoldable pub project : List (String × Option V) → List (String × Option V)
  project self = map (λ key. (key, at key self)) (keep (is_kept self) data_keys)

  -- The computed fields are derived anew from the declared ones.
  unfoldable pub recompute :
      Combine InvalidEntity (String × Option V)
      → List (String × Option V)
      → Result (Fault InvalidEntity) (List (String × Option V))
  recompute every source =
      let canonical = frozen_fields entity.declared_keys source in
      elim entity.computed [
        | [] ↦ ok canonical
        | fields ↦
            every.all_of (map (derived canonical) fields) >>= λ pairs. ok (spread canonical pairs)
      ]

  -- Each rule that fails; a predicate that throws stops the check.
  unfoldable pub violations_of :
      List (Invariant V) → List (String × Option V) → Result ℕ (List Issue)
  violations_of [] d = ok []
  violations_of (rule ∷ rules) d = rule.ensure d >>= λ holds. violations_of rules d >>= λ others.
      ok (
        if holds
        then others
        else record { message = said (rule.describe d); path = none; params = coded rule.code }
          ∷ others)

  -- The constructor's own properties: each data field, frozen.
  unfoldable pub instance_of : List (String × Option V) → List (String × Option V)
  instance_of d =
      let fields = frozen_fields data_keys d in map (λ key. (key, at key fields)) data_keys

  unfoldable pub refuse_broken :
      Ctor
      → List (String × Option V)
      → List Issue
      → Result (Fault InvalidEntity) (List (String × Option V))
  refuse_broken ctor d (issue ∷ issues) =
      fail (refused (record { entity = entity.tag; issues = issue ∷ issues }))
  refuse_broken below d [] = fail (defect subclassed)
  refuse_broken base d [] = ok (instance_of d)
  refuse_broken own d [] = ok (instance_of d)

  unfoldable pub construct :
      Ctor → List (String × Option V) → Result (Fault InvalidEntity) (List (String × Option V))
  construct ctor raw =
      let d = frozen_fields data_keys raw in
      caught (violations_of entity.invariants d) >>= refuse_broken ctor d

  -- `{ ...issue, path: [key, ...issue.path] }`.
  unfoldable pub under_field : String → Issue → Issue
  under_field key issue = record {
    message = issue.message;
    path = some (bare (name key) ∷ map bare (keys_of issue));
    params = issue.params;
  }

  -- What a required field says of the `undefined` that a transform left in it.
  unfoldable pub missing_issues : String → List Issue
  missing_issues key = elim (entity.parse_missing key) [
    | ok none ↦ []
    | ok (some value) ↦
        record { message = not_rehydrated; path = some (bare (name key) ∷ []); params = absent }
        ∷ []
    | fail issues ↦ map (under_field key) issues
  ]

  unfoldable pub erased_issues : List String → List (String × Option V) → List Issue
  erased_issues [] d = []
  erased_issues (key ∷ keys) d =
      let rest = erased_issues keys d in
      if elem key entity.optional_keys || is_some (at key d)
      then rest
      else missing_issues key ++ rest

  unfoldable pub construct_whole :
      Ctor
      → List (String × Option V)
      → List Issue
      → Result (Fault InvalidEntity) (List (String × Option V))
  construct_whole ctor d [] = construct ctor d
  construct_whole ctor d (issue ∷ issues) =
      fail (refused (record { entity = entity.tag; issues = issue ∷ issues }))

  unfoldable pub parsed_fields :
      Combine InvalidEntity (String × Option V)
      → List (String × Option V)
      → Result (Fault InvalidEntity) (List (String × Option V))
  parsed_fields every state =
      map_err (λ issues. refused (record { entity = entity.tag; issues = issues }))
        (entity.parse_input state)
      >>= recompute every

  unfoldable pub make :
      Combine InvalidEntity (String × Option V)
      → Ctor
      → List (String × Option V)
      → Result (Fault InvalidEntity) (List (String × Option V))
  make every ctor state = parsed_fields every state >>= λ d.
      construct_whole ctor d (erased_issues entity.declared_keys d)

  unfoldable pub inspect :
      Combine InvalidEntity (String × Option V)
      → List (String × Option V)
      → Result (Fault InvalidEntity) (Inspection V)
  inspect every state = parsed_fields every state >>= λ raw.
      let d = frozen_fields data_keys raw in
      caught (violations_of entity.invariants d) >>= λ violations.
      ok (record { data_fields = d; violations = violations })

  unfoldable pub unpatchable : String → Option Message
  unpatchable key =
      if elem key entity.immutable_keys
      then some immutable_field
      else if elem key (map Computed.key entity.computed)
      then some computed_field
      else if elem key data_keys
      then none
      else some (unknown_field_for entity.tag)

  unfoldable pub rejected : List (String × Option V) → List Issue
  rejected [] = []
  rejected ((key, value) ∷ patch) = note_refusal key (unpatchable key) (rejected patch)

  unfoldable pub apply_patch :
      Combine InvalidEntity (String × Option V)
      → Ctor
      → List (String × Option V)
      → List (String × Option V)
      → List Issue
      → Result (Fault InvalidEntity) (List (String × Option V))
  apply_patch every ctor self patch [] = make every ctor (spread (project self) patch)
  apply_patch every ctor self patch (issue ∷ issues) =
      fail (refused (record { entity = entity.tag; issues = issue ∷ issues }))

  unfoldable pub update :
      Combine InvalidEntity (String × Option V)
      → Ctor
      → List (String × Option V)
      → List (String × Option V)
      → Result (Fault InvalidEntity) (List (String × Option V))
  update every ctor self patch = apply_patch every ctor self patch (rejected patch)

  -- `factory`: what a caller sends, with the generated fields over it.
  unfoldable pub create :
      Combine InvalidEntity (String × Option V)
      → Ctor
      → Result ℕ (List (String × Option V))
      → List (String × Option V)
      → Result (Fault InvalidEntity) (List (String × Option V))
  create every ctor generated input =
      caught generated >>= λ fields. make every ctor (spread input fields)

  -- Both are of the scope of this entity, and agree in each identity field.
  unfoldable pub same_identity_as :
      ⦃equality : Eq (Option V)⦄ → Bool → List (String × Option V) → List (String × Option V) → Bool
  same_identity_as in_scope self other = elim entity.identity_keys [
    | [] ↦ false
    | keys ↦ in_scope && all (λ key. at key self == at key other) keys
  ]
