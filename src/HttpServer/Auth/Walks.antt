-- ===== src/HttpServer/Auth/Walks.antt =====
-- What the walk of packages/http-server/src/auth.ts admits, challenges and refuses.
use btravstack.Common.{
  ◌≡◌, refl, sym, ap, subst, String, Bool, true, false, Option, none, some, List, [], ◌∷◌, ◌++◌,
  all, All, elem, flatten, if◌then◌else◌, string_eq, inl, inr, ◌⊎◌, ◌≢◌,
}
use btravstack.HttpServer.Auth.{
  Attempt, bare, granted, unauthenticated, credential_refused, unavailable, broken, Verifier,
  resolved, under_scoped, Judgement, admitted, lacking, turned_away, unknown, is_down, bug, held_by,
  judge, advertise, go_on, walk_all, walk,
}

module _ {P : Type 0} where
  -- A verifier's answer is this identity, with every scope that is required.
  pub record Grants (attempt : Attempt P) (required : List String) (identity : P) : Type 0 where
    pub is_identity :
        (attempt ≡ bare identity) ⊎ ((scopes : List String) × (attempt ≡ granted identity scopes))
    pub holds_all : all (λ scope. elem scope (held_by attempt)) required ≡ true

  resolved-inj :
      {name scheme : String} {given identity : P}
      → resolved name given ≡ resolved scheme identity
      → (name ≡ scheme) × (given ≡ identity)
  resolved-inj e = (cc, cc)

  if-admitted :
      (passes : Bool) (identity other : P)
      → ◌≡◌ {A = Judgement P} (if passes then admitted identity else lacking) (admitted other)
      → (passes ≡ true) × (identity ≡ other)
  if-admitted true identity other e = (refl, cc)
  if-admitted false identity other e = absurd (cc)

  judge-Grants :
      (attempt : Attempt P) (required : List String) (identity : P)
      → judge attempt required ≡ admitted identity
      → Grants attempt required identity
  unfolding judge
  judge-Grants (bare identity) required other e =
      let (passes, same) = if-admitted _ identity other e in
      record { is_identity = inl (ap bare same); holds_all = passes }
  judge-Grants (granted identity scopes) required other e =
      let (passes, same) = if-admitted _ identity other e in
      record { is_identity = inr (scopes, ap (λ i. granted i scopes) same); holds_all = passes }
  judge-Grants unauthenticated required other e = absurd (cc)
  judge-Grants credential_refused required other e = absurd (cc)
  judge-Grants unavailable required other e = absurd (cc)
  judge-Grants (broken cause) required other e = absurd (cc)

  judge-bare :
      (identity : P) (required : List String)
      → all (λ scope. elem scope (held_by (bare identity))) required ≡ true
      → judge (bare identity) required ≡ admitted identity
  unfolding judge
  judge-bare identity required holds = rw holds refl

  judge-granted :
      (identity : P) (scopes required : List String)
      → all (λ scope. elem scope (held_by (granted identity scopes))) required ≡ true
      → judge (granted identity scopes) required ≡ admitted identity
  unfolding judge
  judge-granted identity scopes required holds = rw holds refl

  judge-of_Grants :
      (attempt : Attempt P) (required : List String) (identity : P)
      → Grants attempt required identity
      → judge attempt required ≡ admitted identity
  judge-of_Grants attempt required identity given =
      let family = λ (a : Attempt P).
        all (λ scope. elem scope (held_by a)) required ≡ true
        → judge a required ≡ admitted identity in
      elim given.is_identity [
        | inl e ↦ subst family (sym e) (judge-bare identity required) given.holds_all
        | inr (scopes, e) ↦
            subst family (sym e) (judge-granted identity scopes required) given.holds_all
      ]

module _ {R P : Type 0} (verifiers : String → Verifier R P) (request : R) where
  -- No identity is granted by an alternative.
  pub IsShort : String × List String → Type 0
  IsShort alternative =
      (identity : P) → ¬ Grants ((verifiers alternative.0).verify request) alternative.1 identity

  -- Whom a walk admits: one alternative's verifier granted the identity, and none before it did.
  pub record IsAdmitted (alternatives : List (String × List String)) (scheme : String)
      (identity : P) : Type 0 where
    pub before : List (String × List String)
    pub required : List String
    pub after : List (String × List String)
    pub is_among : alternatives ≡ before ++ ((scheme, required) ∷ after)
    pub grants : Grants ((verifiers scheme).verify request) required identity
    pub first : All IsShort before

  -- What a walk advertises: all that one alternative requires of a credential that its verifier, a
  -- bearer's, knows but that lacks some of it.
  pub record IsAdvertised (alternatives : List (String × List String)) (scopes : List String)
      : Type 0 where
    pub before : List (String × List String)
    pub scheme : String
    pub after : List (String × List String)
    pub is_among : alternatives ≡ before ++ ((scheme, scopes) ∷ after)
    pub is_bearer : (verifiers scheme).bearer ≡ true
    pub lacks_some : judge ((verifiers scheme).verify request) scopes ≡ lacking

  judged : String × List String → Judgement P
  judged alternative = judge ((verifiers alternative.0).verify request) alternative.1

  short-judged :
      (alternative : String × List String)
      → ((identity : P) → judged alternative ≢ admitted identity)
      → IsShort alternative
  unfolding IsShort judged
  short-judged (scheme, required) never identity grants =
      never identity (judge-of_Grants ((verifiers scheme).verify request) required identity grants)

  admitted_later :
      (alternative : String × List String) (alternatives : List (String × List String))
      (scheme : String) (identity : P)
      → ((other : P) → judged alternative ≢ admitted other)
      → IsAdmitted alternatives scheme identity
      → IsAdmitted (alternative ∷ alternatives) scheme identity
  admitted_later alternative alternatives scheme identity never later = record {
    before = alternative ∷ later.before;
    required = later.required;
    after = later.after;
    is_among = ap (◌∷◌ alternative) later.is_among;
    grants = later.grants;
    first = (short-judged alternative never, later.first);
  }

  go_on-admits :
      (name : String) (required : List String) (alternatives : List (String × List String))
      (under : Bool) (scopes : Option (List String)) (scheme : String) (identity : P)
      (judgement : Judgement P)
      → judge ((verifiers name).verify request) required ≡ judgement
      → go_on name required
          (verifiers name).bearer
          under
          scopes
          (walk_all verifiers request alternatives)
          judgement
        ≡ resolved scheme identity
      → ((again : Bool) (told : Option (List String))
          → walk_all verifiers request alternatives again told ≡ resolved scheme identity
          → IsAdmitted alternatives scheme identity)
      → IsAdmitted ((name, required) ∷ alternatives) scheme identity
  unfolding go_on judged
  go_on-admits name required alternatives under scopes scheme identity (admitted given) e ends
        later =
      let (is_name, is_given) = resolved-inj ends in
      subst (λ s. IsAdmitted ((name, required) ∷ alternatives) s identity) is_name
        (record {
          before = [];
          required = required;
          after = alternatives;
          is_among = refl;
          grants =
              subst (Grants ((verifiers name).verify request) required) is_given
                (judge-Grants ((verifiers name).verify request) required given e);
          first = tt;
        })
  go_on-admits name required alternatives under scopes scheme identity lacking e ends later =
      admitted_later (name, required) alternatives scheme identity (λ other same. absurd (cc))
        (later true _ ends)
  go_on-admits name required alternatives under scopes scheme identity turned_away e ends later =
      admitted_later (name, required) alternatives scheme identity (λ other same. absurd (cc))
        (later true scopes ends)
  go_on-admits name required alternatives under scopes scheme identity unknown e ends later =
      admitted_later (name, required) alternatives scheme identity (λ other same. absurd (cc))
        (later under scopes ends)
  go_on-admits name required alternatives under scopes scheme identity is_down e ends later =
      absurd (cc)
  go_on-admits name required alternatives under scopes scheme identity (bug cause) e ends later =
      absurd (cc)

  admits :
      (alternatives : List (String × List String)) (under : Bool) (scopes : Option (List String))
      (scheme : String) (identity : P)
      → walk_all verifiers request alternatives under scopes ≡ resolved scheme identity
      → IsAdmitted alternatives scheme identity
  unfolding walk_all
  admits [] true scopes scheme identity ends = absurd (cc)
  admits [] false scopes scheme identity ends = absurd (cc)
  admits ((name, required) ∷ alternatives) under scopes scheme identity ends =
      go_on-admits name required alternatives under scopes scheme identity
        (judge ((verifiers name).verify request) required) refl ends
        (λ again told. admits alternatives again told scheme identity)

  IsAdvertised-later :
      (alternative : String × List String) (alternatives : List (String × List String))
      (scopes : List String)
      → IsAdvertised alternatives scopes
      → IsAdvertised (alternative ∷ alternatives) scopes
  IsAdvertised-later alternative alternatives scopes later = record {
    before = alternative ∷ later.before;
    scheme = later.scheme;
    after = later.after;
    is_among = ap (◌∷◌ alternative) later.is_among;
    is_bearer = later.is_bearer;
    lacks_some = later.lacks_some;
  }

  -- The scopes that a walk carries when it falls short came with it, or one of its alternatives.
  IsCarried : Option (List String) → List (String × List String) → List String → Type 0
  IsCarried told alternatives scopes = (told ≡ some scopes) ⊎ IsAdvertised alternatives scopes

  IsCarried-on :
      (name : String) (required : List String) (alternatives : List (String × List String))
      (bearer : Bool) (told : Option (List String)) (scopes : List String)
      → (verifiers name).bearer ≡ bearer
      → judge ((verifiers name).verify request) required ≡ lacking
      → IsCarried (advertise bearer required told) alternatives scopes
      → IsCarried told ((name, required) ∷ alternatives) scopes
  unfolding IsCarried advertise
  IsCarried-on name required alternatives bearer told scopes is_bearer lacks (inr later) =
      inr (IsAdvertised-later (name, required) alternatives scopes later)
  IsCarried-on name required alternatives bearer (some before) scopes is_bearer lacks (inl same) =
      inl same
  IsCarried-on name required alternatives false none scopes is_bearer lacks (inl same) = absurd (cc)
  IsCarried-on name required alternatives true none scopes is_bearer lacks (inl same) = inr (
      subst (IsAdvertised ((name, required) ∷ alternatives)) (some-inj same) (record {
        before = [];
        scheme = name;
        after = alternatives;
        is_among = refl;
        is_bearer = is_bearer;
        lacks_some = lacks;
      }))
    where
      some-inj : {a b : List String} → some a ≡ some b → a ≡ b
      some-inj e = cc

  go_on-challenges :
      (name : String) (required : List String) (alternatives : List (String × List String))
      (under : Bool) (told : Option (List String)) (scopes : List String) (judgement : Judgement P)
      → judge ((verifiers name).verify request) required ≡ judgement
      → go_on name required
          (verifiers name).bearer
          under
          told
          (walk_all verifiers request alternatives)
          judgement
        ≡ under_scoped (some scopes)
      → ((again : Bool) (carries : Option (List String))
          → walk_all verifiers request alternatives again carries ≡ under_scoped (some scopes)
          → IsCarried carries alternatives scopes)
      → IsCarried told ((name, required) ∷ alternatives) scopes
  unfolding go_on IsCarried
  go_on-challenges name required alternatives under told scopes (admitted given) e ends later =
      absurd (cc)
  go_on-challenges name required alternatives under told scopes lacking e ends later =
      IsCarried-on name required alternatives (verifiers name).bearer told scopes refl e
        (later true _ ends)
  go_on-challenges name required alternatives under told scopes turned_away e ends later =
      elim (later true told ends) [
        | inl same ↦ inl same
        | inr more ↦ inr (IsAdvertised-later (name, required) alternatives scopes more)
      ]
  go_on-challenges name required alternatives under told scopes unknown e ends later =
      elim (later under told ends) [
        | inl same ↦ inl same
        | inr more ↦ inr (IsAdvertised-later (name, required) alternatives scopes more)
      ]
  go_on-challenges name required alternatives under told scopes is_down e ends later = absurd (cc)
  go_on-challenges name required alternatives under told scopes (bug cause) e ends later =
      absurd (cc)

  challenges :
      (alternatives : List (String × List String)) (under : Bool) (told : Option (List String))
      (scopes : List String)
      → walk_all verifiers request alternatives under told ≡ under_scoped (some scopes)
      → IsCarried told alternatives scopes
  unfolding walk_all IsCarried
  challenges [] false told scopes ends = absurd (cc)
  challenges [] true told scopes ends = inl (cc)
  challenges ((name, required) ∷ alternatives) under told scopes ends =
      go_on-challenges name required alternatives under told scopes
        (judge ((verifiers name).verify request) required) refl ends
        (λ again carries. challenges alternatives again carries scopes)

  -- What a walk's answer tells: an admitted identity was granted by the first alternative that grants
  -- one, and the scopes of a challenge are all that some alternative requires of a credential that its
  -- verifier, a bearer's, knows.
  pub record IsGuarded (requirements : List (List (String × List String))) : Type 0 where
    pub admits_only :
        (scheme : String) (identity : P)
        → walk verifiers request requirements ≡ resolved scheme identity
        → IsAdmitted (flatten requirements) scheme identity
    pub challenges_only :
        (scopes : List String)
        → walk verifiers request requirements ≡ under_scoped (some scopes)
        → IsAdvertised (flatten requirements) scopes

  -- A walk admits only an identity that the first alternative to grant one granted, with every scope
  -- that it requires, and advertises only scopes that would satisfy one of its alternatives whole.
  pub walk-IsGuarded : (requirements : List (List (String × List String))) → IsGuarded requirements
  unfolding walk IsCarried
  walk-IsGuarded requirements = record {
    admits_only =
        λ scheme identity ends. admits (flatten requirements) false none scheme identity ends;
    challenges_only = λ scopes ends.
        elim (challenges (flatten requirements) false none scopes ends) [
          | inl same ↦ absurd (cc)
          | inr advertised ↦ advertised
        ];
  }
