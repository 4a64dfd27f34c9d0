-- ===== src/HttpServer/Auth/Keys.antt =====
-- packages/http-server/src/api-key.ts: the key that a header presents, against every issued one.
-- SHA-256 is a parameter, with equality of digests.
use btravstack.Common.{
  ◌≡◌, refl, sym, ap, ◌∙◌, String, Bool, true, false, Option, none, some, List, [], ◌∷◌, ◌++◌, any,
  is_some, is_nil, if◌then◌else◌, Text, Eq, ◌==◌, eq_of_beq, Bool-cases, inl, inr, ◌⊎◌,
}
use btravstack.HttpServer.Cookies.{Header, missing, repeated, one}
use btravstack.HttpServer.Auth.{Attempt, bare, granted, unauthenticated}

pub record ApiKey (P : Type 0) : Type 0 where
  pub key : Text
  pub principal : P
  pub scopes : Option (List String)

abbrev scopes_or_none : Option (List String) → List String
scopes_or_none none = []
scopes_or_none (some scopes) = scopes

-- No two texts have one digest, as is taken of SHA-256.
unfoldable pub IsInjective : {D : Type 0} → (Text → D) → Type 0
IsInjective digest = (first second : Text) → digest first ≡ digest second → first ≡ second

module _ {P D : Type 0} ⦃digests : Eq D⦄ (digest : Text → D) where
  -- The loop has no `break`: the last entry of the presented digest is the one.
  unfoldable pub match_all : D → List (ApiKey P) → Option (ApiKey P) → Option (ApiKey P)
  match_all candidate [] matched = matched
  match_all candidate (entry ∷ entries) matched =
      match_all candidate entries (if candidate == digest entry.key then some entry else matched)

  unfoldable pub answer_key : Bool → Option (ApiKey P) → Attempt P
  answer_key scoped none = unauthenticated
  answer_key scoped (some entry) =
      if scoped then granted entry.principal (scopes_or_none entry.scopes) else bare entry.principal

  unfoldable pub api_key : List (ApiKey P) → Header → Attempt P
  api_key issued missing = unauthenticated
  api_key issued repeated = unauthenticated
  api_key issued (one presented) =
      if is_nil presented
      then unauthenticated
      else answer_key (any (λ entry. is_some entry.scopes) issued)
          (match_all (digest presented) issued none)

  -- The entry that a presented key matches: an issued one, of this very key.
  pub record IsIssued (presented : Text) (issued : List (ApiKey P)) (entry : ApiKey P)
      : Type 0 where
    pub before : List (ApiKey P)
    pub after : List (ApiKey P)
    pub is_among : issued ≡ before ++ (entry ∷ after)
    pub is_presented : entry.key ≡ presented

  IsIssued-later :
      (first : ApiKey P) (presented : Text) (issued : List (ApiKey P)) (entry : ApiKey P)
      → IsIssued presented issued entry
      → IsIssued presented (first ∷ issued) entry
  IsIssued-later first presented issued entry later = record {
    before = first ∷ later.before;
    after = later.after;
    is_among = ap (◌∷◌ first) later.is_among;
    is_presented = later.is_presented;
  }

  match_all-IsIssued :
      IsInjective digest
      → (presented : Text) (issued : List (ApiKey P)) (matched : Option (ApiKey P))
        (entry : ApiKey P)
      → match_all (digest presented) issued matched ≡ some entry
      → (matched ≡ some entry) ⊎ IsIssued presented issued entry
  unfolding match_all IsInjective
  match_all-IsIssued apart presented [] matched entry e = inl e
  match_all-IsIssued apart presented (first ∷ issued) matched entry e =
      elim (match_all-IsIssued apart presented issued
        (if digest presented == digest first.key then some first else matched) entry e) [
          | inr later ↦ inr (IsIssued-later first presented issued entry later)
          | inl here ↦ elim (Bool-cases (digest presented == digest first.key)) [
            | inl same ↦
                let is_entry = some-inj (sym (if_true same) ∙ here) in
                inr (record {
                  before = [];
                  after = issued;
                  is_among = ap (λ f. f ∷ issued) is_entry;
                  is_presented =
                      ap ApiKey.key (sym is_entry)
                      ∙ sym (
                          apart presented first.key
                            (eq_of_beq (digest presented) (digest first.key) same));
                })
            | inr other ↦ inl (sym (if_false other) ∙ here)
          ]
        ]
    where
      if_true :
          (digest presented == digest first.key) ≡ true
          → (if digest presented == digest first.key then some first else matched) ≡ some first
      if_true same = rw same refl

      if_false :
          (digest presented == digest first.key) ≡ false
          → (if digest presented == digest first.key then some first else matched) ≡ matched
      if_false other = rw other refl

      some-inj : {a b : ApiKey P} → some a ≡ some b → a ≡ b
      some-inj e' = cc

  -- Whom the scheme answers: the principal of an issued key that the header presents.
  pub IsKeyed : Header → List (ApiKey P) → P → Type 0
  IsKeyed header issued principal =
      (presented : Text) × (entry : ApiKey P) × (header ≡ one presented)
      × IsIssued presented issued entry
      × (entry.principal ≡ principal)

  PrincipalIn : Attempt P → P → Type 0
  PrincipalIn attempt principal =
      (attempt ≡ bare principal) ⊎ ((scopes : List String) × (attempt ≡ granted principal scopes))

  answer_key-some :
      (scoped : Bool) (matched : Option (ApiKey P)) (principal : P)
      → PrincipalIn (answer_key scoped matched) principal
      → (entry : ApiKey P) × (matched ≡ some entry) × (entry.principal ≡ principal)
  unfolding answer_key PrincipalIn
  answer_key-some scoped none principal (inl e) = absurd (cc)
  answer_key-some scoped none principal (inr (scopes, e)) = absurd (cc)
  answer_key-some true (some entry) principal (inl e) = absurd (cc)
  answer_key-some true (some entry) principal (inr (scopes, e)) = (entry, refl, cc)
  answer_key-some false (some entry) principal (inl e) = (entry, refl, cc)
  answer_key-some false (some entry) principal (inr (scopes, e)) = absurd (cc)

  -- As long as no two texts have one digest, the API-key scheme answers an identity only for a header
  -- that presents an issued key, and then the identity of that key.
  pub api_key-IsKeyed :
      IsInjective digest
      → (issued : List (ApiKey P)) (header : Header) (principal : P)
      → (api_key issued header ≡ bare principal)
        ⊎ ((scopes : List String) × (api_key issued header ≡ granted principal scopes))
      → IsKeyed header issued principal
  unfolding api_key IsKeyed PrincipalIn
  api_key-IsKeyed apart issued missing principal (inl e) = absurd (cc)
  api_key-IsKeyed apart issued missing principal (inr (scopes, e)) = absurd (cc)
  api_key-IsKeyed apart issued repeated principal (inl e) = absurd (cc)
  api_key-IsKeyed apart issued repeated principal (inr (scopes, e)) = absurd (cc)
  api_key-IsKeyed apart issued (one []) principal (inl e) = absurd (cc)
  api_key-IsKeyed apart issued (one []) principal (inr (scopes, e)) = absurd (cc)
  api_key-IsKeyed apart issued (one (c ∷ cs)) principal answered =
      let (entry, matches, is_principal) =
        answer_key-some (any (λ k. is_some k.scopes) issued)
          (match_all (digest (c ∷ cs)) issued none) principal answered in
      elim (match_all-IsIssued apart (c ∷ cs) issued none entry matches) [
        | inl nothing ↦ absurd (cc)
        | inr found ↦ (c ∷ cs, entry, refl, found, is_principal)
      ]
