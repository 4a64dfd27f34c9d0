-- ===== src/HttpServer/Auth.antt =====
-- packages/http-server/src/auth.ts and scope-challenge.ts: the walk over the alternatives that an endpoint
-- requires, and what a scheme grants. A verifier's answer to the request at hand is a value.
pub mod Walks
pub mod Keys
use btravstack.Common.{
  ℕ, String, Bool, true, false, not, ◌&&◌, ◌||◌, Option, none, some, List, [], ◌∷◌, ◌++◌, map, keep,
  all, any, elem, flatten, is_some, leb, nat_eq, if◌then◌else◌, string_eq, ◌==◌, text_eq, Text,
  is_nil,
}

-- What a verifier makes of a request: an identity, bare or with the scopes it holds, one of the
-- refusals, or a defect.
pub data Attempt (P : Type 0) : Type 0 where
  bare : P → Attempt P
  granted : P → List String → Attempt P
  unauthenticated credential_refused unavailable : Attempt P
  broken : ℕ → Attempt P

pub record Verifier (R P : Type 0) : Type 0 where
  pub verify : R → Attempt P
  pub bearer : Bool

-- What a walk comes to.
pub data Verdict (P : Type 0) : Type 0 where
  resolved : String → P → Verdict P
  under_scoped : Option (List String) → Verdict P
  refused down : Verdict P
  failed : ℕ → Verdict P

-- How one alternative goes.
pub data Judgement (P : Type 0) : Type 0 where
  admitted : P → Judgement P
  lacking turned_away unknown is_down : Judgement P
  bug : ℕ → Judgement P

-- `scopes === undefined && authenticate.bearer === true`.
unfoldable pub advertise : Bool → List String → Option (List String) → Option (List String)
advertise bearer required none = if bearer then some required else none
advertise bearer required (some scopes) = some scopes

module _ {P : Type 0} where
  unfoldable pub held_by : Attempt P → List String
  held_by (granted identity scopes) = scopes
  held_by other = []

  unfoldable pub judge : Attempt P → List String → Judgement P
  judge (bare identity) required =
      if all (λ scope. elem scope (held_by (bare identity))) required
      then admitted identity
      else lacking
  judge (granted identity scopes) required =
      if all (λ scope. elem scope (held_by (granted identity scopes))) required
      then admitted identity
      else lacking
  judge unauthenticated required = unknown
  judge credential_refused required = turned_away
  judge unavailable required = is_down
  judge (broken cause) required = bug cause

  unfoldable pub go_on :
      String
      → List String
      → Bool
      → Bool
      → Option (List String)
      → (Bool → Option (List String) → Verdict P)
      → Judgement P
      → Verdict P
  go_on scheme required bearer under scopes next (admitted identity) = resolved scheme identity
  go_on scheme required bearer under scopes next lacking =
      next true (advertise bearer required scopes)
  go_on scheme required bearer under scopes next turned_away = next true scopes
  go_on scheme required bearer under scopes next unknown = next under scopes
  go_on scheme required bearer under scopes next is_down = down
  go_on scheme required bearer under scopes next (bug cause) = failed cause

module _ {R P : Type 0} (verifiers : String → Verifier R P) (request : R) where
  -- The alternatives in order, with what the walk carries: whether some credential fell short, and the
  -- scopes to advertise.
  unfoldable pub walk_all : List (String × List String) → Bool → Option (List String) → Verdict P
  walk_all [] under scopes = if under then under_scoped scopes else refused
  walk_all ((scheme, required) ∷ alternatives) under scopes =
      go_on scheme required (verifiers scheme).bearer under scopes (walk_all alternatives)
        (judge ((verifiers scheme).verify request) required)

  -- Each requirement names schemes, with the scopes it wants of each.
  unfoldable pub walk : List (List (String × List String)) → Verdict P
  walk requirements = walk_all (flatten requirements) false none

-- `principalOf`: the scheme goes along where more than one may answer.
unfoldable pub distinct : List String → List String → List String
distinct seen [] = seen
distinct seen (scheme ∷ schemes) =
    distinct (if elem scheme seen then seen else scheme ∷ seen) schemes

pub data Principal (P : Type 0) : Type 0 where
  tagged : String → P → Principal P
  untagged : P → Principal P

unfoldable pub principal_of :
    {P : Type 0} → List (List (String × List String)) → String → P → Principal P
principal_of requirements scheme identity =
    elim (distinct [] (map (λ alternative. alternative.0) (flatten requirements))) [
      | first ∷ second ∷ others ↦ tagged scheme identity
      | _ ↦ untagged identity
    ]

-- `grantOf`: a scheme's vocabulary, as far as the credential holds it.
unfoldable pub grant_of : {P : Type 0} → P → Option (List String) → List String → Attempt P
grant_of principal none held = bare principal
grant_of principal (some vocabulary) held =
    granted principal (keep (λ scope. elem scope held) vocabulary)

-- `scopeChallengeOf`: the scopes are advertised where each is an RFC 6749 token.
unfoldable pub is_token : Text → Bool
is_token scope =
    not (is_nil scope) && all (λ c. leb 33 c && leb c 126 && not (c == 34) && not (c == 92)) scope

unfoldable pub scope_challenge_of : Option (List Text) → Option (Option (List Text))
scope_challenge_of none = none
scope_challenge_of (some []) = some none
scope_challenge_of (some (scope ∷ scopes)) =
    some (if all is_token (scope ∷ scopes) then some (scope ∷ scopes) else none)
