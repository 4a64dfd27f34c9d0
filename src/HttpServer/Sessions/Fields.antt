-- ===== src/HttpServer/Sessions/Fields.antt =====
-- The fields of a session as they are sealed (packages/http-server/src/session.ts), and how they read.
use btravstack.Common.{
  ◌≡◌, refl, ◌∙◌, ℕ, String, true, false, Option, none, some, List, [], ◌∷◌, get, has, ltb,
  if◌then◌else◌, string_eq, ◌==◌, beq_refl, Bool-cases, inl, inr,
}
use btravstack.HttpServer.Sessions.{
  Json, text, number, texts, object, Session, is_text, stamped, text_or_absent, reference_or_absent,
  scopes_or_absent, has_shape, where_shaped, session_of, where_texts, transient_of, optional,
  session_fields,
}

-- Reading past a field that may be absent.
pub get-past :
    {A : Type 0} (wanted key : String) (json : A → Json) (value : Option A)
    (fields : List (String × Json))
    → (key == wanted) ≡ false
    → get wanted (optional key json value fields) ≡ get wanted fields
unfolding get
get-past wanted key json none fields apart = refl
get-past wanted key json (some value) fields apart = rw apart refl

abbrev pub json_in : {A : Type 0} → (A → Json) → Option A → Option Json
json_in json none = none
json_in json (some value) = some (json value)

pub get-here :
    {A : Type 0} (key : String) (json : A → Json) (value : Option A) (fields : List (String × Json))
    → get key fields ≡ none
    → get key (optional key json value fields) ≡ json_in json value
unfolding get
get-here key json none fields absent = absent
get-here key json (some value) fields absent = rw (beq_refl key) refl

module _ (session : Session) (iat exp : ℕ) where
  abbrev ends : List (String × Json)
  ends = ("iat", number iat) ∷ ("exp", number exp) ∷ []

  abbrev from_client : List (String × Json)
  from_client = optional "clientId" text session.client_id ends

  abbrev from_iss : List (String × Json)
  from_iss = optional "iss" text session.iss from_client

  abbrev from_scopes : List (String × Json)
  from_scopes = optional "scopes" texts session.scopes from_iss

  abbrev from_sid : List (String × Json)
  from_sid = optional "sid" text session.sid from_scopes

  pub get-token_ref :
      get "tokenRef" (session_fields session iat exp) ≡ json_in text session.token_ref
  unfolding get session_fields
  get-token_ref = get-here "tokenRef" text session.token_ref from_sid (
      get-past "tokenRef" "sid" text session.sid from_scopes refl
      ∙ (get-past "tokenRef" "scopes" texts session.scopes from_iss refl
          ∙ (get-past "tokenRef" "iss" text session.iss from_client refl
              ∙ (get-past "tokenRef" "clientId" text session.client_id ends refl ∙ (refl)))))

  get-sid : get "sid" (session_fields session iat exp) ≡ json_in text session.sid
  unfolding get session_fields
  get-sid =
      get-past "sid" "tokenRef" text session.token_ref from_sid refl
      ∙ (get-here "sid" text session.sid from_scopes (
          get-past "sid" "scopes" texts session.scopes from_iss refl
          ∙ (get-past "sid" "iss" text session.iss from_client refl
              ∙ (get-past "sid" "clientId" text session.client_id ends refl ∙ (refl)))))

  get-scopes : get "scopes" (session_fields session iat exp) ≡ json_in texts session.scopes
  unfolding get session_fields
  get-scopes =
      get-past "scopes" "tokenRef" text session.token_ref from_sid refl
      ∙ (get-past "scopes" "sid" text session.sid from_scopes refl
          ∙ (get-here "scopes" texts session.scopes from_iss (
              get-past "scopes" "iss" text session.iss from_client refl
              ∙ (get-past "scopes" "clientId" text session.client_id ends refl ∙ (refl)))))

  pub get-iss : get "iss" (session_fields session iat exp) ≡ json_in text session.iss
  unfolding get session_fields
  get-iss =
      get-past "iss" "tokenRef" text session.token_ref from_sid refl
      ∙ (get-past "iss" "sid" text session.sid from_scopes refl
          ∙ (get-past "iss" "scopes" texts session.scopes from_iss refl
              ∙ (get-here "iss" text session.iss from_client
                  (get-past "iss" "clientId" text session.client_id ends refl ∙ (refl)))))

  pub get-client_id :
      get "clientId" (session_fields session iat exp) ≡ json_in text session.client_id
  unfolding get session_fields
  get-client_id =
      get-past "clientId" "tokenRef" text session.token_ref from_sid refl
      ∙ (get-past "clientId" "sid" text session.sid from_scopes refl
          ∙ (get-past "clientId" "scopes" texts session.scopes from_iss refl
              ∙ (get-past "clientId" "iss" text session.iss from_client refl
                  ∙ (get-here "clientId" text session.client_id ends (refl)))))

  get-iat : get "iat" (session_fields session iat exp) ≡ some (number iat)
  unfolding get session_fields
  get-iat =
      get-past "iat" "tokenRef" text session.token_ref from_sid refl
      ∙ (get-past "iat" "sid" text session.sid from_scopes refl
          ∙ (get-past "iat" "scopes" texts session.scopes from_iss refl
              ∙ (get-past "iat" "iss" text session.iss from_client refl
                  ∙ (get-past "iat" "clientId" text session.client_id ends refl ∙ (refl)))))

  get-exp : get "exp" (session_fields session iat exp) ≡ some (number exp)
  unfolding get session_fields
  get-exp =
      get-past "exp" "tokenRef" text session.token_ref from_sid refl
      ∙ (get-past "exp" "sid" text session.sid from_scopes refl
          ∙ (get-past "exp" "scopes" texts session.scopes from_iss refl
              ∙ (get-past "exp" "iss" text session.iss from_client refl
                  ∙ (get-past "exp" "clientId" text session.client_id ends refl ∙ (refl)))))

  text_or_absent-json_in : (value : Option String) → text_or_absent (json_in text value) ≡ true
  text_or_absent-json_in none = refl
  text_or_absent-json_in (some value) = refl

  scopes_or_absent-json_in :
      (value : Option (List String)) → scopes_or_absent (json_in texts value) ≡ true
  scopes_or_absent-json_in none = refl
  scopes_or_absent-json_in (some value) = refl

  has_principal : has "principal" (session_fields session iat exp) ≡ true
  unfolding get session_fields
  has_principal = refl

  has_typ : is_text "session" (get "typ" (session_fields session iat exp)) ≡ true
  unfolding get session_fields
  has_typ = refl

  has_other_typ : is_text "oidc" (get "typ" (session_fields session iat exp)) ≡ false
  unfolding get session_fields
  has_other_typ = refl

  has_shape-session_fields :
      reference_or_absent (json_in text session.token_ref) ≡ true
      → has_shape (session_fields session iat exp) ≡ true
  unfolding has_shape
  has_shape-session_fields referred =
      rw
        (
          has_principal,
          get-token_ref,
          referred,
          get-sid,
          text_or_absent-json_in session.sid,
          get-scopes,
          scopes_or_absent-json_in session.scopes,
          get-iss,
          text_or_absent-json_in session.iss,
          get-client_id,
          text_or_absent-json_in session.client_id,
        )
        refl

  pub session_of-session_fields :
      (now : ℕ)
      → reference_or_absent (json_in text session.token_ref) ≡ true
      → session_of (object (session_fields session iat exp)) now
        ≡ (if ltb now exp then some (session_fields session iat exp) else none)
  unfolding session_of stamped where_shaped
  session_of-session_fields now referred = elim (Bool-cases (ltb now exp)) [
    | inl e ↦ rw (has_typ, get-iat, get-exp, e, has_shape-session_fields referred) refl
    | inr e ↦ rw (has_typ, get-iat, get-exp, e) refl
  ]

  pub transient_of-session_fields :
      (now : ℕ) → transient_of (object (session_fields session iat exp)) now ≡ none
  unfolding transient_of stamped where_texts
  transient_of-session_fields now = rw has_other_typ refl
