-- ===== src/Entity/Doors/Laws.antt =====
-- What `make`, `inspect` and `update` of packages/entity/src/entity.ts agree on.
use btravstack.Common.{
  ◌≡◌, refl, sym, ap, ◌∙◌, String, Bool, true, false, ◌&&◌, Option, none, some, List, [], ◌∷◌, map,
  get, elem, keep, All, is_some, if◌then◌else◌, string_eq, ◌==◌, eq_of_beq, beq_refl, Option-cases,
  Bool-cases, Result, ok, fail, >>=-eq-ok, inl, inr, arith, ℕ, ok-inj,
}
use btravstack.Entity.{
  Entity, Invariant, Ctor, base, own, below, InvalidEntity, caught, Combine, at, found,
}
use btravstack.Entity.Issues.{Issue, said, coded}
use btravstack.Entity.Doors.{
  data_keys, is_kept, freeze_property, frozen_fields, project, violations_of, instance_of,
  refuse_broken, construct, construct_whole, erased_issues, parsed_fields, make, inspect,
}

module _ {B : Type 0} where
  found-if :
      (here : Bool) (value : Option B) (rest : Option (Option B))
      → found (if here then some value else rest) ≡ (if here then value else found rest)
  found-if true value rest = refl
  found-if false value rest = refl

  at-cons :
      (key j : String) (value : Option B) (m : List (String × Option B))
      → at key ((j, value) ∷ m) ≡ (if j == key then value else at key m)
  unfolding at get
  at-cons key j value m = found-if (j == key) value (get key m)

  -- What a list keyed by its members answers for a key.
  at_keyed :
      (f : String → Option B) (key : String) (keys : List String)
      → at key (map (λ k. (k, f k)) keys) ≡ (if elem key keys then f key else none)
  unfolding at get
  at_keyed f key [] = refl
  at_keyed f key (k ∷ keys) =
      at-cons key k (f k) (map (λ j. (j, f j)) keys) ∙ elim (Bool-cases (k == key)) [
        | inl e ↦ rw (eq_of_beq k key e, beq_refl key) refl
        | inr e ↦ rw e (at_keyed f key keys)
      ]

  map-keep :
      (f g : String → B) (p q : String → Bool) (keys : List String)
      → ((key : String) → elem key keys ≡ true → (f key ≡ g key) × (p key ≡ q key))
      → map f (keep p keys) ≡ map g (keep q keys)
  map-keep f g p q [] same = refl
  map-keep f g p q (k ∷ keys) same =
      let (fg, pq) = same k (rw (beq_refl k) refl) in
      let rest = map-keep f g p q keys (λ key e. same key (ground (arith, e))) in
      elim (Bool-cases (q k)) [
        | inl e ↦ rw (pq, e, fg) (ap (◌∷◌ (g k)) rest)
        | inr e ↦ rw (pq, e) rest
      ]

elem-keep :
    (p : String → Bool) (key : String) (keys : List String)
    → elem key (keep p keys) ≡ (elem key keys && p key)
elem-keep p key [] = refl
elem-keep p key (k ∷ keys) = elim (Bool-cases (k == key)) [
  | inl e ↦ rw (e, eq_of_beq k key e) (ground (arith, elem-keep p key keys, beq_refl key))
  | inr e ↦ ground (arith, e, elem-keep p key keys)
]

module _ {V : Type 0} (entity : Entity V) where
  at-frozen_fields :
      (key : String) (keys : List String) (source : List (String × Option V))
      → at key (frozen_fields entity keys source)
        ≡ (if elem key keys then freeze_property entity key (at key source) else none)
  unfolding frozen_fields is_kept freeze_property
  at-frozen_fields key keys source =
      rw
        (
          at_keyed (λ k. freeze_property entity k (at k source)) key
              (keep (is_kept entity source) keys),
          elem-keep (is_kept entity source) key keys,
        )
        (elim (Option-cases (at key source)) [
          | inl e ↦ rw e (ground arith)
          | inr (value, e) ↦ rw e (ground arith)
        ])

  -- Freezing a frozen value changes nothing.
  unfoldable pub IsFrozenOnce : Type 0
  IsFrozenOnce =
      (key : String) (value : V)
      → entity.freeze key (entity.freeze key value) ≡ entity.freeze key value

  freeze-freeze :
      IsFrozenOnce
      → (key : String) (value : Option V)
      → freeze_property entity key (freeze_property entity key value)
        ≡ freeze_property entity key value
  unfolding IsFrozenOnce freeze_property
  freeze-freeze once key none = refl
  freeze-freeze once key (some value) = ap some (once key value)

  at-instance_of :
      IsFrozenOnce
      → (key : String) (raw : List (String × Option V)) → elem key (data_keys entity) ≡ true
      → at key (instance_of entity (frozen_fields entity (data_keys entity) raw))
        ≡ freeze_property entity key (at key raw)
  unfolding instance_of
  at-instance_of once key raw known =
      let d = frozen_fields entity (data_keys entity) raw in
      rw
        (
          at_keyed (λ k. at k (frozen_fields entity (data_keys entity) d)) key (data_keys entity),
          known,
          at-frozen_fields key (data_keys entity) d,
          known,
          at-frozen_fields key (data_keys entity) raw,
          known,
        )
        (freeze-freeze once key (at key raw))

  is_some-freeze :
      (key : String) (value : Option V) → is_some (freeze_property entity key value) ≡ is_some value
  unfolding freeze_property
  is_some-freeze key none = refl
  is_some-freeze key (some value) = refl

  -- What an instance answers is what was checked.
  pub project-instance_of :
      IsFrozenOnce
      → (raw : List (String × Option V))
      → project entity (instance_of entity (frozen_fields entity (data_keys entity) raw))
        ≡ frozen_fields entity (data_keys entity) raw
  unfolding project frozen_fields is_kept
  project-instance_of once raw =
      let self = instance_of entity (frozen_fields entity (data_keys entity) raw) in
      map-keep (λ key. (key, at key self)) (λ key. (key, freeze_property entity key (at key raw)))
        (is_kept entity self) (is_kept entity raw) (data_keys entity)
        (λ key known. (
          ap (λ value. (key, value)) (at-instance_of once key raw known),
          rw (at-instance_of once key raw known, is_some-freeze key (at key raw)) refl,
        ))

  -- A rule's verdict before those of the rules behind it.
  abbrev none_left :
      (rule : Invariant V) (d : List (String × Option V)) (holds : Bool) (others : List Issue)
      → List Issue
  none_left rule d holds others =
      if holds
      then others
      else record { message = said (rule.describe d); path = none; params = coded rule.code }
        ∷ others

  none_left-holds :
      (rule : Invariant V) (d : List (String × Option V)) (holds : Bool) (others : List Issue)
      → none_left rule d holds others ≡ []
      → (holds ≡ true) × (others ≡ [])
  none_left-holds rule d true others calm = (refl, calm)
  none_left-holds rule d false others calm = absurd (cc)

  -- No rule fails exactly where each holds.
  violations_of-none :
      (rules : List (Invariant V)) (d : List (String × Option V))
      → violations_of entity rules d ≡ ok []
      → All (λ rule. rule.ensure d ≡ ok true) rules
  unfolding violations_of
  violations_of-none [] d clean = tt
  violations_of-none (rule ∷ rules) d clean =
      let (holds, e, later) = >>=-eq-ok (rule.ensure d) _ clean in
      let (others, f, calm) = >>=-eq-ok (violations_of entity rules d) _ later in
      let (is_true, rest) = none_left-holds rule d holds others (ok-inj calm) in
      (e ∙ ap ok is_true, violations_of-none rules d (f ∙ ap ok rest))

  -- And back.
  violations_of-all :
      (rules : List (Invariant V)) (d : List (String × Option V))
      → All (λ rule. rule.ensure d ≡ ok true) rules
      → violations_of entity rules d ≡ ok []
  unfolding violations_of
  violations_of-all [] d all_hold = refl
  violations_of-all (rule ∷ rules) d (holds, later) =
      rw (holds, violations_of-all rules d later) refl

module _ {V : Type 0} (entity : Entity V) (every : Combine InvalidEntity (String × Option V)) where
  -- What an entity is known by: its rules hold of what it answers, `inspect` answers the same data
  -- and finds no violation, and its class is not a subclass of an entity's.
  pub record IsMade (state self : List (String × Option V)) : Type 0 where
    pub rules_hold : All (λ rule. rule.ensure (project entity self) ≡ ok true) entity.invariants
    pub inspected :
        inspect entity every state
        ≡ ok (record { data_fields = project entity self; violations = [] })

  refuse_broken-ok :
      (ctor : Ctor) (d : List (String × Option V)) (issues : List Issue)
      (self : List (String × Option V))
      → refuse_broken entity ctor d issues ≡ ok self
      → (issues ≡ []) × (instance_of entity d ≡ self)
  unfolding refuse_broken
  refuse_broken-ok ctor d (issue ∷ issues) self made = absurd (cc)
  refuse_broken-ok below d [] self made = absurd (cc)
  refuse_broken-ok base d [] self made = (refl, ok-inj made)
  refuse_broken-ok own d [] self made = (refl, ok-inj made)

  construct_whole-ok :
      (ctor : Ctor) (d : List (String × Option V)) (issues : List Issue)
      (self : List (String × Option V))
      → construct_whole entity ctor d issues ≡ ok self
      → construct entity ctor d ≡ ok self
  unfolding construct_whole
  construct_whole-ok ctor d [] self made = made
  construct_whole-ok ctor d (issue ∷ issues) self made = absurd (cc)

  caught-ok :
      {E A : Type 0} (result : Result ℕ A) (a : A) → caught {E = E} result ≡ ok a → result ≡ ok a
  caught-ok (ok b) a same = ap ok (ok-inj same)
  caught-ok (fail cause) a same = absurd (cc)

  -- Where freezing a value again leaves it, what `make` answers keeps every rule of the entity, and
  -- `inspect` answers the same data of the same state and no violation.
  pub make-IsMade :
      (ctor : Ctor) (state self : List (String × Option V))
      → IsFrozenOnce entity
      → make entity every ctor state ≡ ok self
      → IsMade state self
  unfolding make construct inspect
  make-IsMade ctor state self once made =
      let (raw, parsed, whole) = >>=-eq-ok (parsed_fields entity every state) _ made in
      let d = frozen_fields entity (data_keys entity) raw in
      let (issues, checked, built) =
        >>=-eq-ok (caught (violations_of entity entity.invariants d)) _ (
          construct_whole-ok ctor raw (erased_issues entity entity.declared_keys raw) self whole) in
      let (clean, is_self) = refuse_broken-ok ctor d issues self built in
      let same = sym (ap (project entity) is_self) ∙ project-instance_of entity once raw in
      let calm =
        caught-ok (violations_of entity entity.invariants d) issues checked ∙ ap ok clean in
      record {
        rules_hold = rw same (violations_of-none entity entity.invariants d calm);
        inspected = rw (parsed, calm, same) refl;
      }
