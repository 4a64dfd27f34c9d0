-- ===== src/Entity/Aggregate/Declared.antt =====
-- packages/entity/src/aggregate.ts: what `createAggregate` refuses while a declaration is on the
-- stack. A member of the union of events has a `type` schema, or options of its own, or a shape that
-- cannot be inspected.
use btravstack.Common.{
  ◌≡◌, ◌≢◌, ◌↔◌, ◌⊎◌, beq_refl, refl, subst, String, Bool, true, false, not, ◌||◌, Option, none,
  some, List, [], ◌∷◌, has, elem, if◌then◌else◌, string_eq, ◌==◌, eq_of_beq, Bool-cases, inl, inr,
  arith,
}
use btravstack.Entity.Aggregate.{Aggregate}

mutual
  pub data Member : Type 0 where
    typed : (String → Bool) → Member
    one_of : Members → Member
    opaque : Member

  pub data Members : Type 0 where
    nil : Members
    cons : Member → Members → Members

unfoldable mutual
  pub declared_by : Member → String → Bool
  declared_by (typed accepts) kind = accepts kind
  declared_by (one_of members) kind = any_declares members kind
  declared_by opaque kind = true

  pub any_declares : Members → String → Bool
  any_declares nil kind = false
  any_declares (cons member members) kind = declared_by member kind || any_declares members kind

-- A member accepts a kind: by its `type` schema, by one of its options, or since it is opaque.
unfoldable mutual
  pub IsDeclaring : Member → String → Type 0
  IsDeclaring (typed accepts) kind = accepts kind ≡ true
  IsDeclaring (one_of members) kind = IsAmong members kind
  IsDeclaring opaque kind = Unit

  pub IsAmong : Members → String → Type 0
  IsAmong nil kind = ⊥
  IsAmong (cons member members) kind = IsDeclaring member kind ⊎ IsAmong members kind

mutual
  unfolding declared_by IsDeclaring

  IsDeclaring-of_test :
      (member : Member) (kind : String) → declared_by member kind ≡ true → IsDeclaring member kind
  IsDeclaring-of_test (typed accepts) kind e = e
  IsDeclaring-of_test (one_of members) kind e = IsAmong-of_test members kind e
  IsDeclaring-of_test opaque kind e = tt

  IsAmong-of_test :
      (members : Members) (kind : String) → any_declares members kind ≡ true → IsAmong members kind
  IsAmong-of_test nil kind e = absurd (cc)
  IsAmong-of_test (cons member members) kind e = elim (Bool-cases (declared_by member kind)) [
    | inl here ↦ inl (IsDeclaring-of_test member kind here)
    | inr other ↦ inr (IsAmong-of_test members kind (ground (arith, e, other)))
  ]

mutual
  unfolding declared_by IsDeclaring

  test-of_IsDeclaring :
      (member : Member) (kind : String) → IsDeclaring member kind → declared_by member kind ≡ true
  test-of_IsDeclaring (typed accepts) kind e = e
  test-of_IsDeclaring (one_of members) kind e = test-of_IsAmong members kind e
  test-of_IsDeclaring opaque kind e = refl

  test-of_IsAmong :
      (members : Members) (kind : String) → IsAmong members kind → any_declares members kind ≡ true
  test-of_IsAmong nil kind e = absurd e
  test-of_IsAmong (cons member members) kind (inl here) =
      rw (test-of_IsDeclaring member kind here) refl
  test-of_IsAmong (cons member members) kind (inr there) =
      ground (arith, test-of_IsAmong members kind there)

pub data Misdeclared : Type 0 where
  no_identity : Misdeclared
  opens_and_ends not_folded : String → Misdeclared

module _ {Raw Ev V : Type 0} (aggregate : Aggregate Raw Ev V) (events : Member) where
  unfoldable pub check_ends : List String → Option Misdeclared
  check_ends [] = none
  check_ends (kind ∷ kinds) =
      let later = check_ends kinds in
      if has kind aggregate.opens
      then some (opens_and_ends kind)
      else if not (has kind aggregate.evolve) || not (declared_by events kind)
      then some (not_folded kind)
      else later

  unfoldable pub check_declaration : Option Misdeclared
  check_declaration = elim aggregate.entity.identity_keys [
    | [] ↦ some no_identity
    | keys ↦ check_ends aggregate.ends
  ]

  verdict-none :
      (kind : String) (opens folds declared : Bool) (later : Option Misdeclared)
      → (if opens
          then some (opens_and_ends kind)
          else if not folds || not declared
          then some (not_folded kind)
          else later)
        ≡ none
      → (opens ≡ false) × (folds ≡ true) × (declared ≡ true) × (later ≡ none)
  verdict-none kind true folds declared later e = absurd (cc)
  verdict-none kind false false declared later e = absurd (cc)
  verdict-none kind false true false later e = absurd (cc)
  verdict-none kind false true true later e = (refl, refl, refl, e)

  -- What is known of an event that may end an aggregate.
  pub record IsEnding (kind : String) : Type 0 where
    pub opens_not : has kind aggregate.opens ≡ false
    pub folds : has kind aggregate.evolve ≡ true
    pub is_declared : IsDeclaring events kind

  check_ends-IsEnding :
      (kinds : List String)
      → check_ends kinds ≡ none
      → (kind : String) → elem kind kinds ≡ true
      → IsEnding kind
  unfolding check_ends
  check_ends-IsEnding [] passed kind here = absurd (cc)
  check_ends-IsEnding (k ∷ kinds) passed kind here =
      let (opens_not, folds, declared, later) =
        verdict-none k (has k aggregate.opens) (has k aggregate.evolve) (declared_by events k)
          (check_ends kinds) passed in
      elim (Bool-cases (k == kind)) [
        | inl e ↦ subst IsEnding (eq_of_beq k kind e) (record {
          opens_not = opens_not;
          folds = folds;
          is_declared = IsDeclaring-of_test events k declared;
        })
        | inr e ↦ check_ends-IsEnding kinds later kind (ground (arith, here, e))
      ]

  IsEnding-check_ends :
      (kinds : List String)
      → ((kind : String) → elem kind kinds ≡ true → IsEnding kind)
      → check_ends kinds ≡ none
  unfolding check_ends
  IsEnding-check_ends [] each = refl
  IsEnding-check_ends (k ∷ kinds) each =
      let ending = each k (rw (beq_refl k) refl) in
      rw (ending.opens_not, ending.folds, test-of_IsDeclaring events k ending.is_declared)
        (IsEnding-check_ends kinds (λ kind here. each kind (ground (arith, here))))

  identified :
      (keys : List String) (verdict : Option Misdeclared)
      → (elim keys [ [] ↦ some no_identity | ks ↦ verdict ] ≡ none)
        ↔ ((keys ≢ []) × (verdict ≡ none))
  identified [] verdict = (λ e. absurd (cc), λ (named, e). absurd (named refl))
  identified (key ∷ keys) verdict = (λ e. (λ f. cc, e), λ (named, e). e)

  -- A declaration is not refused exactly if it names an identity and every event that it lets end an
  -- aggregate opens none, is folded, and is accepted by the union of events, of which a part that
  -- cannot be inspected accepts every event.
  pub check_declaration-IsEnding : (check_declaration ≡ none) ↔ (
      (aggregate.entity.identity_keys ≢ [])
      × ((kind : String) → elem kind aggregate.ends ≡ true → IsEnding kind))
  unfolding check_declaration
  check_declaration-IsEnding =
      let (told, back) = identified aggregate.entity.identity_keys (check_ends aggregate.ends) in
      (
        λ passed.
            let (named, ends) = told passed in
            (named, λ kind here. check_ends-IsEnding aggregate.ends ends kind here),
        λ (named, each). back (named, IsEnding-check_ends aggregate.ends each),
      )
