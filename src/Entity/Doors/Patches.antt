-- ===== src/Entity/Doors/Patches.antt =====
-- What `update` of packages/entity/src/entity.ts lets a patch change.
use btravstack.Common.{
  ◌≡◌, refl, ap, ◌∙◌, String, Bool, true, false, not, ◌||◌, ◌++◌, beq_refl, Option, none, some,
  List, [], ◌∷◌, map, get, set, get-set, elem, keep, is_some, if◌then◌else◌, string_eq, ◌==◌,
  Bool-cases, fail, inl, inr, arith,
}
use btravstack.Entity.{Entity, Computed, Ctor, refused, InvalidEntity, Combine, at, spread, found}
use btravstack.Entity.Issues.{Issue, Message, name, keys_of, key_of}
use btravstack.Entity.Doors.{
  data_keys, project, note_refusal, make, unpatchable, rejected, apply_patch, update,
}

keys_of-note_refusal :
    (key : String) (why : Option Message) (others : List Issue) (keys : List String)
    → map keys_of others ≡ map (λ k. name k ∷ []) keys
    → map keys_of (note_refusal key why others)
      ≡ map (λ k. name k ∷ []) (if is_some why then key ∷ keys else keys)
unfolding keys_of key_of
keys_of-note_refusal key none others keys same = same
keys_of-note_refusal key (some message) others keys same = ap (◌∷◌ (name key ∷ [])) same

module _ {V : Type 0} (entity : Entity V) where
  pub at-set :
      (key j : String) (value : Option V) (m : List (String × Option V))
      → at key (set j value m) ≡ (if j == key then value else at key m)
  unfolding at
  at-set key j value m = rw (get-set j key value m) (found_if (j == key))
    where
      found_if :
          (here : Bool)
          → found (if here then some value else get key m)
            ≡ (if here then value else found (get key m))
      found_if true = refl
      found_if false = refl

  at-spread :
      (key : String) (patch source : List (String × Option V))
      → elem key (map (λ entry. entry.0) patch) ≡ false
      → at key (spread source patch) ≡ at key source
  unfolding spread
  at-spread key [] source other = refl
  at-spread key ((j, value) ∷ patch) source other = elim (Bool-cases (j == key)) [
    | inl e ↦ absurd (ground (arith, other, e))
    | inr e ↦
        at-spread key patch (set j value source) (ground (arith, other, e))
        ∙ (at-set key j value source ∙ ground (arith, e))
  ]

  -- A key that a patch names last with a value has that value.
  at-spread_named :
      (key : String) (value : Option V) (before after source : List (String × Option V))
      → elem key (map (λ entry. entry.0) after) ≡ false
      → at key (spread source (before ++ (key, value) ∷ after)) ≡ value
  unfolding spread
  at-spread_named key value [] after source last =
      at-spread key after (set key value source) last
      ∙ (at-set key key value source ∙ rw (beq_refl key) refl)
  at-spread_named key value ((j, other) ∷ before) after source last =
      at-spread_named key value before after (set j other source) last

  -- The keys that a patch names and may not: immutable ones, computed ones, and those that are no
  -- field; in the patch's order.
  pub refused_keys : List (String × Option V) → List String
  refused_keys patch =
      keep
        (λ key.
          elem key entity.immutable_keys
          || (elem key (map Computed.key entity.computed) || not (elem key (data_keys entity))))
        (map (λ entry. entry.0) patch)

  unpatchable-if :
      (immutable computed is_field : Bool) (first second third : Message)
      → is_some (
          if immutable
          then some first
          else if computed
          then some second
          else if is_field
          then none
          else some third)
        ≡ (immutable || (computed || not is_field))
  unpatchable-if true computed is_field first second third = refl
  unpatchable-if false true is_field first second third = refl
  unpatchable-if false false true first second third = refl
  unpatchable-if false false false first second third = refl

  is_refused :
      (key : String)
      → is_some (unpatchable entity key) ≡ (
          elem key entity.immutable_keys
          || (elem key (map Computed.key entity.computed) || not (elem key (data_keys entity))))
  unfolding unpatchable
  is_refused key =
      unpatchable-if (elem key entity.immutable_keys) (elem key (map Computed.key entity.computed))
        (elem key (data_keys entity)) _ _ _

  keys_of-rejected :
      (patch : List (String × Option V))
      → map keys_of (rejected entity patch) ≡ map (λ key. name key ∷ []) (refused_keys patch)
  unfolding rejected refused_keys keys_of key_of
  keys_of-rejected [] = refl
  keys_of-rejected ((key, value) ∷ patch) =
      keys_of-note_refusal key (unpatchable entity key) (rejected entity patch) (refused_keys patch)
        (keys_of-rejected patch)
      ∙ ap
          (λ b. map (λ k. name k ∷ []) (if b then key ∷ refused_keys patch else refused_keys patch))
          (is_refused key)

module _ {V : Type 0} (entity : Entity V) (every : Combine InvalidEntity (String × Option V)) where
  -- What came of a patch: each refused key is named, or the patched data went through `make`, with
  -- the value that the patch names last for a field, and every field that it does not name as it was.
  pub record IsPatched (ctor : Ctor) (self patch : List (String × Option V)) : Type 0 where
    pub refuses :
        (key : String) (keys : List String)
        → refused_keys entity patch ≡ key ∷ keys
        → (issues : List Issue) × (map keys_of issues ≡ map (λ k. name k ∷ []) (key ∷ keys))
          × (update entity every ctor self patch
              ≡ fail (refused (record { entity = entity.tag; issues = issues })))
    pub applies :
        refused_keys entity patch ≡ []
        → (applied : List (String × Option V)) × (update entity every ctor self patch
            ≡ make entity every ctor applied)
          × ((key : String)
              → elem key (map (λ entry. entry.0) patch) ≡ false
              → at key applied ≡ at key (project entity self))
          × ((key : String) (value : Option V) (before after : List (String × Option V))
              → patch ≡ before ++ (key, value) ∷ after
              → elem key (map (λ entry. entry.0) after) ≡ false
              → at key applied ≡ value)

  apply_patch-cons :
      (ctor : Ctor) (self patch : List (String × Option V)) (issues : List Issue) (key : String)
      (keys : List String)
      → map keys_of issues ≡ map (λ k. name k ∷ []) (key ∷ keys)
      → apply_patch entity every ctor self patch issues
        ≡ fail (refused (record { entity = entity.tag; issues = issues }))
  unfolding apply_patch
  apply_patch-cons ctor self patch [] key keys same = absurd (cc)
  apply_patch-cons ctor self patch (issue ∷ issues) key keys same = refl

  apply_patch-none :
      (ctor : Ctor) (self patch : List (String × Option V)) (issues : List Issue)
      → map keys_of issues ≡ []
      → apply_patch entity every ctor self patch issues
        ≡ make entity every ctor (spread (project entity self) patch)
  unfolding apply_patch
  apply_patch-none ctor self patch [] same = refl
  apply_patch-none ctor self patch (issue ∷ issues) same = absurd (cc)

  -- An update names every key of the patch that is immutable, computed or no field, in the order of
  -- the patch, or makes the entity of the patched data, in which a field that the patch names has the
  -- value that it names last, and any other is as it was.
  pub update-IsPatched :
      (ctor : Ctor) (self patch : List (String × Option V)) → IsPatched ctor self patch
  unfolding update
  update-IsPatched ctor self patch =
      let named = keys_of-rejected entity patch in
      record {
        refuses = λ key keys these.
            let told = named ∙ ap (map (λ k. name k ∷ [])) these in
            (
              rejected entity patch,
              told,
              apply_patch-cons ctor self patch (rejected entity patch) key keys told,
            );
        applies = λ these.
            let told = named ∙ ap (map (λ k. name k ∷ [])) these in
            (
              spread (project entity self) patch,
              apply_patch-none ctor self patch (rejected entity patch) told,
              λ key other. at-spread entity key patch (project entity self) other,
              λ key value before after same last.
                  ap (λ p. at key (spread (project entity self) p)) same
                  ∙ at-spread_named entity key value before after (project entity self) last,
            );
      }
