-- ===== src/Config/Schemas.antt =====
-- `Config.object` and `Config.parse` of packages/config/src/config.ts: every field is read, so that one
-- validation names every offending variable. The values have one type here, that of any value.
use btravstack.Common.{
  ◌≡◌, refl, sym, ap, ◌≢◌, Bool, true, false, List, [], ◌∷◌, map, get, keep, Text, text_eq, String,
  Result, ok, fail, ok-inj, fail-inj, Result-cases, inl, inr,
}
use btravstack.Config.{Reason, raised, Answer, answers, defects, throws, Field}

-- One issue: its path is the variable alone.
pub record ConfigIssue : Type 0 where
  pub reason : Reason
  pub variable : Text

pub record ConfigInvalid : Type 0 where
  pub port : String
  pub issues : List ConfigIssue

-- A throw of a field is a reason, and so is a defect in the match that follows.
unfoldable pub parsed : {V : Type 0} → Answer V → Result Reason V
parsed (answers result) = result
parsed (defects cause) = fail (raised cause)
parsed (throws cause) = fail (raised cause)

module _ {V : Type 0} where
  unfoldable pub read_field : List (Text × Text) → Field V → Result Reason V
  read_field env field = parsed (field.parse (get field.variable env))

  unfoldable pub note_field :
      String
      → Text
      → Result Reason V
      → List ConfigIssue × List (String × V)
      → List ConfigIssue × List (String × V)
  note_field key variable (ok value) (issues, values) = (issues, (key, value) ∷ values)
  note_field key variable (fail reason) (issues, values) =
      (record { reason = reason; variable = variable } ∷ issues, values)

  unfoldable pub read_fields :
      List (String × Field V) → List (Text × Text) → List ConfigIssue × List (String × V)
  read_fields [] env = ([], [])
  read_fields ((key, field) ∷ fields) env =
      note_field key field.variable (read_field env field) (read_fields fields env)

  unfoldable pub verdict :
      List ConfigIssue × List (String × V) → Result (List ConfigIssue) (List (String × V))
  verdict ([], values) = ok values
  verdict (issue ∷ issues, values) = fail (issue ∷ issues)

  -- `Config.object(fields)`'s `validate`.
  unfoldable pub validate :
      List (String × Field V) → List (Text × Text) → Result (List ConfigIssue) (List (String × V))
  validate fields env = verdict (read_fields fields env)

  -- `Config.parse(port, schema)(env)`, of any schema.
  unfoldable pub parse :
      String
      → (List (Text × Text) → Result (List ConfigIssue) V)
      → List (Text × Text)
      → Result ConfigInvalid V
  parse port schema env = elim (schema env) [
    | ok value ↦ ok value
    | fail issues ↦ fail (record { port = port; issues = issues })
  ]

  is_fail : Result Reason V → Bool
  is_fail (ok value) = false
  is_fail (fail reason) = true

  -- The fields that refuse what the environment holds.
  pub offending : List (Text × Text) → List (String × Field V) → List (String × Field V)
  offending env fields = keep (λ entry. is_fail (read_field env entry.1)) fields

  -- What a validation tells: the variables of all fields that refuse, or the value of each field.
  pub record IsReported (fields : List (String × Field V)) (env : List (Text × Text)) : Type 0 where
    pub names :
        (issues : List ConfigIssue)
        → validate fields env ≡ fail issues
        → (issues ≢ [])
          × (map ConfigIssue.variable issues
              ≡ map (λ entry. entry.1.variable) (offending env fields))
    pub binds :
        (values : List (String × V))
        → validate fields env ≡ ok values
        → (map (λ entry. entry.0) values ≡ map (λ entry. entry.0) fields)
          × (map (λ entry. read_field env entry.1) fields ≡ map (λ entry. ok entry.1) values)

  read_fields-names :
      (fields : List (String × Field V)) (env : List (Text × Text))
      → map ConfigIssue.variable (read_fields fields env).0
        ≡ map (λ entry. entry.1.variable) (offending env fields)
  unfolding read_fields offending note_field is_fail
  read_fields-names [] env = refl
  read_fields-names ((key, field) ∷ fields) env = elim (Result-cases (read_field env field)) [
    | inl (reason, e) ↦ rw e (ap (◌∷◌ field.variable) (read_fields-names fields env))
    | inr (value, e) ↦ rw e (read_fields-names fields env)
  ]

  note_field-clean :
      (key : String) (variable : Text) (read : Result Reason V)
      (noted : List ConfigIssue × List (String × V))
      → (note_field key variable read noted).0 ≡ []
      → (value : V) × (read ≡ ok value)
        × (noted.0 ≡ [])
        × ((note_field key variable read noted).1 ≡ (key, value) ∷ noted.1)
  unfolding note_field
  note_field-clean key variable (ok value) (issues, values) clean = (value, refl, clean, refl)
  note_field-clean key variable (fail reason) (issues, values) clean = absurd (cc)

  read_fields-binds :
      (fields : List (String × Field V)) (env : List (Text × Text))
      → (read_fields fields env).0 ≡ []
      → (map (λ entry. entry.0) (read_fields fields env).1 ≡ map (λ entry. entry.0) fields)
        × (map (λ entry. read_field env entry.1) fields
            ≡ map (λ entry. ok entry.1) (read_fields fields env).1)
  unfolding read_fields
  read_fields-binds [] env clean = (refl, refl)
  read_fields-binds ((key, field) ∷ fields) env clean =
      let (value, read, rest_clean, here) =
        note_field-clean key field.variable (read_field env field) (read_fields fields env) clean in
      let (keys, values) = read_fields-binds fields env rest_clean in
      (rw here (ap (◌∷◌ key) keys), rw (here, read) (ap (◌∷◌ (ok value)) values))

  verdict-fail :
      (noted : List ConfigIssue × List (String × V)) (issues : List ConfigIssue)
      → verdict noted ≡ fail issues
      → (noted.0 ≡ issues) × (issues ≢ [])
  unfolding verdict
  verdict-fail ([], values) issues e = absurd (cc)
  verdict-fail (issue ∷ issues, values) told e =
      let same = fail-inj e in (same, λ none_left. absurd (cc))

  verdict-ok :
      (noted : List ConfigIssue × List (String × V)) (values : List (String × V))
      → verdict noted ≡ ok values
      → (noted.0 ≡ []) × (noted.1 ≡ values)
  unfolding verdict
  verdict-ok ([], bound) values e = (refl, ok-inj e)
  verdict-ok (issue ∷ issues, bound) values e = absurd (cc)

  -- A validation names the variable of every field that refuses, in the order of the fields, or
  -- answers the value of each field under its key.
  pub validate-IsReported :
      (fields : List (String × Field V)) (env : List (Text × Text)) → IsReported fields env
  unfolding validate
  validate-IsReported fields env = record {
    names = λ issues told.
        let (same, some_left) = verdict-fail (read_fields fields env) issues told in
        (some_left, rw (sym same) (read_fields-names fields env));
    binds = λ values told.
        let (clean, same) = verdict-ok (read_fields fields env) values told in
        rw (sym same) (read_fields-binds fields env clean);
  }
