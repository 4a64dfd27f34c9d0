-- ===== src/Entity.antt =====
-- packages/entity/src/entity.ts: data becomes an entity through one door, which parses it, derives
-- its computed fields, and refuses it when a rule of the whole entity fails. An object is the list of
-- its own properties, each with its value or `undefined`; freezing is a function on values.
pub mod Issues
pub mod Doors
pub mod Aggregate
use Issues.{Issue, Message, said, Params, absent, coded, Key, name, bare}
use btravstack.Common.{
  ◌≡◌, refl, ℕ, String, Bool, true, false, not, ◌||◌, Option, none, some, List, [], ◌∷◌, ◌++◌, map,
  get, set, elem, keep, is_some, if◌then◌else◌, string_eq, Result, ok, fail, ◌>>=◌,
}

-- What a bug raises: a throw of domain code, or a check of this package.
pub data Cause : Type 0 where
  thrown : ℕ → Cause
  computed_rejected : String → List Issue → Cause
  subclassed : Cause
  breaks_aggregate : List Issue → Cause
  fails_schema : List Issue → Cause
  never_loaded ended_already unversioned : Cause
  opens_mid_life not_opening : String → Cause

-- What a Result holds in place of a value: an error of its type, or a defect.
pub data Fault (E : Type 0) : Type 0 where
  refused : E → Fault E
  defect : Cause → Fault E

pub record InvalidEntity : Type 0 where
  pub entity : String
  pub issues : List Issue

-- `fromThrowable(f, (cause, defect) => defect(cause))`.
abbrev pub caught : {E A : Type 0} → Result ℕ A → Result (Fault E) A
caught (ok a) = ok a
caught (fail cause) = fail (defect (thrown cause))

-- `mapErrCases`: the errors pass through a function, defects stay.
abbrev pub map_err : {E F A : Type 0} → (E → Fault F) → Result (Fault E) A → Result (Fault F) A
map_err f (ok a) = ok a
map_err f (fail (refused e)) = fail (f e)
map_err f (fail (defect cause)) = fail (defect cause)

-- unthrown's `all`: the values of results that are all ok, and nothing else is ok.
pub record Combine (E A : Type 0) : Type 0 where
  pub all_of : List (Result (Fault E) A) → Result (Fault E) (List A)
  pub all_ok : (values : List A) → all_of (map ok values) ≡ ok values
  pub only_ok :
      (results : List (Result (Fault E) A)) (values : List A)
      → all_of results ≡ ok values
      → results ≡ map ok values

abbrev pub found {ℓ} : {A : Type ℓ} → Option (Option A) → Option A
found none = none
found (some value) = value

module _ {V : Type 0} where
  -- `source[key]`.
  unfoldable pub at : String → List (String × Option V) → Option V
  at key source = found (get key source)

  -- `{ ...source, ...patch }`.
  unfoldable pub spread :
      List (String × Option V) → List (String × Option V) → List (String × Option V)
  spread source [] = source
  spread source ((key, value) ∷ patch) = spread (set key value source) patch

-- A computed field: its key, its function, which may throw, and the parser of its schema.
pub record Computed (V : Type 0) : Type 0 where
  pub key : String
  pub from : List (String × Option V) → Result ℕ V
  pub parse : V → Result (List Issue) (Option V)

-- A rule of the whole entity; its predicate may throw.
pub record Invariant (V : Type 0) : Type 0 where
  pub code : String
  pub ensure : List (String × Option V) → Result ℕ Bool
  pub describe : List (String × Option V) → String

-- An entity's declaration, with what zod answers: `parse_input` is the parse of the fields by the
-- construction schema, `parse_missing` the parse of `undefined` by one field, `freeze` is `deepFreeze`
-- under a field's schema.
pub record Entity (V : Type 0) : Type 0 where
  pub tag : String
  pub declared_keys : List String
  pub optional_keys : List String
  pub immutable_keys : List String
  pub identity_keys : List String
  pub computed : List (Computed V)
  pub invariants : List (Invariant V)
  pub parse_input :
      List (String × Option V) → Result (Fault (List Issue)) (List (String × Option V))
  pub parse_missing : String → Result (List Issue) (Option V)
  pub freeze : String → V → V

-- The class that a static is called on: the entity's, its direct subclass, or one below.
pub data Ctor : Type 0 where
  base own below : Ctor
