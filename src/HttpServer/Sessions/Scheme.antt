-- ===== src/HttpServer/Sessions/Scheme.antt =====
-- `sessionAuthenticator` of packages/http-server/src/session.ts: the caller that a cookie makes. A
-- token manager, where there is one, answers the session of a cookie in the codec's place.
use btravstack.Common.{
  ◌≡◌, refl, ap, ◌∙◌, ℕ, ◌+◌, String, Bool, true, false, ◌&&◌, Option, none, some, List, [], ◌∷◌,
  All, elem, get, has, ltb, is_some, if◌then◌else◌, string_eq, text_eq, Eq, Text,
}
use btravstack.HttpServer.Cookies.{cookie_value}
use btravstack.HttpServer.Cookies.Laws.{IsCookie, header_of, cookie_value-header_of}
use btravstack.HttpServer.Auth.{Attempt, unauthenticated, grant_of}
use btravstack.HttpServer.Sessions.{
  Json, text, texts, Cipher, IsLocked, Session, is_text, session_fields, unseal, seal,
}
use btravstack.HttpServer.Sessions.Codec.{unseal-seal}
use btravstack.HttpServer.Sessions.Fields.{get-token_ref, get-iss, get-client_id, json_in}

-- "__Host-session"
abbrev pub session_cookie : Text
session_cookie = 95 ∷ 95 ∷ 72 ∷ 111 ∷ 115 ∷ 116 ∷ 45 ∷ 115 ∷ 101 ∷ 115 ∷ 115 ∷ 105 ∷ 111 ∷ 110 ∷ []

abbrev pub scopes_in : Option Json → List String
scopes_in (some (texts scopes)) = scopes
scopes_in value = []

-- Without a token manager a session that refers to tokens is refused.
unfoldable pub without_tokens : Option (List (String × Json)) → Option (List (String × Json))
without_tokens none = none
without_tokens (some session) = if has "tokenRef" session then none else some session

module _ {P : Type 0} (principal_of : List (String × Json) → Option P)
    (vocabulary : Option (List String)) where
  unfoldable pub granted_to : List (String × Json) → Option P → Attempt P
  granted_to session none = unauthenticated
  granted_to session (some principal) =
      grant_of principal vocabulary (scopes_in (get "scopes" session))

  -- The issuer and the client are those of the login whose sessions the scheme takes.
  unfoldable pub admit_session : String → String → Option (List (String × Json)) → Attempt P
  admit_session issuer client_id none = unauthenticated
  admit_session issuer client_id (some session) =
      if is_text issuer (get "iss" session) && is_text client_id (get "clientId" session)
      then granted_to session (principal_of session)
      else unauthenticated

  unfoldable pub session_scheme :
      {K : Type 0}
      → Cipher K
      → List K
      → Option (Option Text → Option (List (String × Json)))
      → String
      → String
      → ℕ
      → Option Text
      → Attempt P
  session_scheme cipher keys none issuer client_id now header =
      admit_session issuer client_id
        (without_tokens (unseal cipher keys (cookie_value header session_cookie) now))
  session_scheme cipher keys (some tokens) issuer client_id now header =
      admit_session issuer client_id (tokens (cookie_value header session_cookie))

  admit_session-if :
      (alive : Bool) (issuer client_id : String) (session : List (String × Json))
      → has "tokenRef" session ≡ false
      → admit_session issuer client_id (without_tokens (if alive then some session else none)) ≡ (
          if alive
            && is_text issuer (get "iss" session)
            && is_text client_id (get "clientId" session)
          then granted_to session (principal_of session)
          else unauthenticated)
  unfolding admit_session without_tokens
  admit_session-if false issuer client_id session absent = refl
  admit_session-if true issuer client_id session absent = rw absent refl

  -- For a scheme without a token manager: of a browser that sends a sealed session that refers to no
  -- tokens, the scheme grants what the session's principal may, exactly while the session lasts, a key
  -- opens it, and the login that minted it is the scheme's own; it refuses every other alike.
  pub session_scheme-seal :
      {K : Type 0} ⦃eqs : Eq K⦄ (cipher : Cipher K) (keys : List K) (key : K) (ttl_sec : ℕ)
      (session : Session) (then_at now : ℕ) (issuer client_id : String)
      (cookies : List (Text × Text))
      → IsLocked cipher key (session_fields session then_at (then_at + ttl_sec))
      → session.token_ref ≡ none
      → All IsCookie cookies
      → get session_cookie cookies ≡ some (seal cipher key ttl_sec session then_at)
      → session_scheme cipher keys none issuer client_id now (some (header_of cookies)) ≡ (
          if (elem key keys && ltb now (then_at + ttl_sec))
            && is_text issuer (json_in text session.iss)
            && is_text client_id (json_in text session.client_id)
          then granted_to
              (session_fields session then_at (then_at + ttl_sec))
              (principal_of (session_fields session then_at (then_at + ttl_sec)))
          else unauthenticated)
  unfolding session_scheme
  session_scheme-seal cipher keys key ttl_sec session then_at now issuer client_id cookies locked
        bare_session clean sent =
      let fields = session_fields session then_at (then_at + ttl_sec) in
      let alive = elem key keys && ltb now (then_at + ttl_sec) in
      let absent =
        get-token_ref session then_at (then_at + ttl_sec) ∙ ap (json_in text) bare_session in
      rw
        (
          cookie_value-header_of session_cookie cookies clean,
          sent,
          (unseal-seal cipher keys key ttl_sec session then_at now locked (rw bare_session refl)).0,
        )
        (admit_session-if alive issuer client_id fields (ap is_some absent)
          ∙ rw
              (
                get-iss session then_at (then_at + ttl_sec),
                get-client_id session then_at (then_at + ttl_sec),
              )
              refl)
