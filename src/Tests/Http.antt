-- ===== src/Tests/Http.antt =====
-- Cookies, redirects, authentication and sessions at concrete inputs.
use btravstack.Common.{
  ◌≡◌, refl, sym, ℕ, ◌+◌, String, true, Option, none, some, List, [], ◌∷◌, All, all, get, inl,
  if◌then◌else◌, string_eq, nat_eq, text_eq, Text, trim, trim_start, trim_end, is_space, ◌==◌,
  beq_refl, beq_of_ne,
}
use btravstack.HttpServer.Cookies.{cookie_value, one}
use btravstack.HttpServer.Cookies.Laws.{IsCookie, header_of, cookie_value-header_of}
use btravstack.HttpServer.Redirects.{
  is_uri, for_location, return_to, IsPercent, IsLocation, for_location-IsLocation,
}
use btravstack.HttpServer.Auth.{bare, granted, Verifier}
use btravstack.HttpServer.Auth.Walks.{IsGuarded, walk-IsGuarded}
use btravstack.HttpServer.Auth.Keys.{
  ApiKey, api_key, answer_key, match_all, IsInjective, IsKeyed, api_key-IsKeyed,
}
use btravstack.HttpServer.Sessions.{
  Json, text, object, Cipher, IsLocked, Session, transient_fields, text_or_absent, session_fields,
  seal, unseal, seal_transient, unseal_transient, transient_ttl_sec, state_in,
}
use btravstack.HttpServer.Sessions.Codec.{unseal-seal, unseal_transient-seal_transient}
use btravstack.HttpServer.Sessions.Scheme.{
  session_cookie, session_scheme, session_scheme-seal, granted_to,
}

-- a=1; a=2
abbrev two_cookies : List (Text × Text)
two_cookies = ((97 ∷ []), (49 ∷ [])) ∷ ((97 ∷ []), (50 ∷ [])) ∷ []

two_cookies-IsCookie : All IsCookie two_cookies
unfolding trim trim_start trim_end is_space
two_cookies-IsCookie = (
  record {
    name_whole = refl;
    value_whole = refl;
    name_plain = refl;
    name_trimmed = refl;
    value_trimmed = refl;
  },
  (
    record {
      name_whole = refl;
      value_whole = refl;
      name_plain = refl;
      name_trimmed = refl;
      value_trimmed = refl;
    },
    tt,
  ),
)

cookie_value-header_of_example :
    cookie_value (some (header_of two_cookies)) (97 ∷ []) ≡ get (97 ∷ []) two_cookies
cookie_value-header_of_example = cookie_value-header_of (97 ∷ []) two_cookies two_cookies-IsCookie

abbrev percent_zero : ℕ → Text
percent_zero c = 37 ∷ 50 ∷ 48 ∷ []

percent_zero-IsPercent : IsPercent percent_zero
unfolding IsPercent is_uri
percent_zero-IsPercent c e = (50 ∷ 48 ∷ [], refl, refl)

-- //evil
for_location-IsLocation_example :
    IsLocation percent_zero
      (for_location percent_zero (return_to (some (47 ∷ 47 ∷ 101 ∷ 118 ∷ []))))
for_location-IsLocation_example =
    for_location-IsLocation percent_zero percent_zero-IsPercent (some (47 ∷ 47 ∷ 101 ∷ 118 ∷ []))

abbrev one_verifier : String → Verifier ℕ ℕ
one_verifier scheme = record { verify = λ request. granted request ("read" ∷ []); bearer = true }

walk-IsGuarded_example :
    IsGuarded one_verifier 7 ((("jwt", "write" ∷ []) ∷ []) ∷ (("session", "read" ∷ []) ∷ []) ∷ [])
walk-IsGuarded_example =
    walk-IsGuarded one_verifier 7
      ((("jwt", "write" ∷ []) ∷ []) ∷ (("session", "read" ∷ []) ∷ []) ∷ [])

abbrev issued_keys : List (ApiKey ℕ)
issued_keys =
    record { key = 107 ∷ []; principal = 1; scopes = none }
    ∷ record { key = 108 ∷ []; principal = 2; scopes = none }
    ∷ []

own_digest-IsInjective : IsInjective (λ (t : Text). t)
unfolding IsInjective
own_digest-IsInjective first second same = same

key_answered : api_key (λ t. t) issued_keys (one (108 ∷ [])) ≡ bare 2
unfolding api_key answer_key match_all
key_answered = refl

api_key-IsKeyed_example : IsKeyed (λ (t : Text). t) (one (108 ∷ [])) issued_keys 2
api_key-IsKeyed_example =
    api_key-IsKeyed (λ t. t) own_digest-IsInjective issued_keys (one (108 ∷ [])) 2
      (inl key_answered)

abbrev ann : Session
ann = record {
  principal = text "ann";
  token_ref = none;
  sid = some "s1";
  scopes = some ("read" ∷ []);
  iss = some "https://id";
  client_id = some "shop";
}

-- A cipher that is good for one payload: its text is the key's, and only that key opens it.
abbrev one_cipher : List (String × Json) → Cipher ℕ
one_cipher payload = record {
  encrypt = λ key fields. key ∷ [];
  decrypt = λ key cookie. if cookie == (key ∷ []) then some (object payload) else none;
}

one_cipher-IsLocked :
    (payload : List (String × Json)) (key : ℕ) → IsLocked (one_cipher payload) key payload
one_cipher-IsLocked payload key = record {
  opens = rw (beq_refl (key ∷ [])) refl;
  stays_shut = λ another apart.
      rw (beq_of_ne (key ∷ []) (another ∷ []) (λ same. apart (sym (heads same)))) refl;
}
  where
    heads : {a b : ℕ} {as_ bs : Text} → ◌≡◌ {A = Text} (a ∷ as_) (b ∷ bs) → a ≡ b
    heads e = cc

abbrev ann_fields : List (String × Json)
ann_fields = session_fields ann 100 (100 + 50)

unseal-seal_example :
    (unseal
        (one_cipher ann_fields)
        (65 ∷ 66 ∷ [])
        (some (seal (one_cipher ann_fields) 66 50 ann 100))
        120
      ≡ some ann_fields)
    × (unseal_transient
          (one_cipher ann_fields)
          (65 ∷ 66 ∷ [])
          (some (seal (one_cipher ann_fields) 66 50 ann 100))
          120
        ≡ none)
unseal-seal_example =
    unseal-seal (one_cipher ann_fields) (65 ∷ 66 ∷ []) 66 50 ann 100 120
      (one_cipher-IsLocked ann_fields 66) refl

abbrev flow : List (String × Json)
flow = ("state", text "xyz") ∷ ("typ", text "session") ∷ []

abbrev flow_fields : List (String × Json)
flow_fields = transient_fields flow 100 (100 + transient_ttl_sec)

unseal_transient-seal_transient_example :
    (unseal_transient
        (one_cipher flow_fields)
        (66 ∷ [])
        (some (seal_transient (one_cipher flow_fields) 66 flow 100))
        120
      ≡ some (state_in flow))
    × (unseal
          (one_cipher flow_fields)
          (66 ∷ [])
          (some (seal_transient (one_cipher flow_fields) 66 flow 100))
          120
        ≡ none)
unfolding state_in
unseal_transient-seal_transient_example =
    unseal_transient-seal_transient (one_cipher flow_fields) (66 ∷ []) 66 flow 100 120
      (one_cipher-IsLocked flow_fields 66) flow_plain
  where
    flow_plain : all (λ entry. text_or_absent (some entry.1)) (state_in flow) ≡ true
    flow_plain = refl

abbrev ann_cookies : List (Text × Text)
ann_cookies = (session_cookie, (66 ∷ [])) ∷ []

ann_cookies-IsCookie : All IsCookie ann_cookies
unfolding trim trim_start trim_end is_space
ann_cookies-IsCookie = (
  record {
    name_whole = refl;
    value_whole = refl;
    name_plain = refl;
    name_trimmed = refl;
    value_trimmed = refl;
  },
  tt,
)

abbrev five : List (String × Json) → Option ℕ
five session = some 5

session_scheme-seal_example :
    session_scheme five
      (some ("read" ∷ "write" ∷ []))
      (one_cipher ann_fields)
      (66 ∷ [])
      none
      "https://id"
      "shop"
      120
      (some (header_of ann_cookies))
    ≡ granted_to five (some ("read" ∷ "write" ∷ [])) ann_fields (some 5)
unfolding seal get
session_scheme-seal_example =
    session_scheme-seal five (some ("read" ∷ "write" ∷ [])) (one_cipher ann_fields) (66 ∷ []) 66 50
      ann 100 120 "https://id" "shop" ann_cookies (one_cipher-IsLocked ann_fields 66) refl
      ann_cookies-IsCookie refl
