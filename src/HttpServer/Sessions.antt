-- ===== src/HttpServer/Sessions.antt =====
-- packages/http-server/src/session.ts: the codec that seals a session into a cookie and opens it
-- again, and the scheme that reads it. Encryption (jose) is a parameter. What is sealed is a JSON
-- object, which printing and parsing leave as it is; of its values only texts, numbers and lists of
-- texts are told apart. Times are seconds, and each call is given the clock's.
pub mod Fields
pub mod Codec
pub mod Scheme
use btravstack.Common.{
  ◌≡◌, ◌≢◌, ℕ, suc, ◌+◌, String, Bool, true, false, not, ◌&&◌, ◌||◌, Option, none, some, List, [],
  ◌∷◌, ◌++◌, map, keep, all, elem, get, set, has, is_some, ltb, length, if◌then◌else◌, string_eq,
  nat_eq, text_eq, Eq, ◌==◌, Text, is_nil, Result, ok, fail,
}

pub data Json : Type 0 where
  text : String → Json
  number : ℕ → Json
  texts : List String → Json
  other : ℕ → Json

-- What a plaintext parses to.
pub data Decoded : Type 0 where
  object : List (String × Json) → Decoded
  no_object : Decoded

-- Encryption under a key, of the payload as it is printed, and decryption, of what is parsed again.
pub record Cipher (K : Type 0) : Type 0 where
  pub encrypt : K → List (String × Json) → Text
  pub decrypt : K → Text → Option Decoded

-- Authenticated encryption of a payload: it opens with the key it was sealed with, and no other.
pub record IsLocked {K : Type 0} (cipher : Cipher K) (key : K) (payload : List (String × Json))
    : Type 0 where
  pub opens : cipher.decrypt key (cipher.encrypt key payload) ≡ some (object payload)
  pub stays_shut :
      (another : K) → another ≢ key → cipher.decrypt another (cipher.encrypt key payload) ≡ none

-- What `seal` is given of a session.
pub record Session : Type 0 where
  pub principal : Json
  pub token_ref : Option String
  pub sid : Option String
  pub scopes : Option (List String)
  pub iss : Option String
  pub client_id : Option String

abbrev pub default_ttl_sec : ℕ
default_ttl_sec = 43200

abbrev pub transient_ttl_sec : ℕ
transient_ttl_sec = 300

abbrev pub key_bytes : ℕ
key_bytes = 32

abbrev pub stamps : List String
stamps = "typ" ∷ "iat" ∷ "exp" ∷ []

-- `decodeKey`: the bytes of a base64url text, if there are 32 and they are written as it is.
unfoldable pub decode_key : (Text → List ℕ) → (List ℕ → Text) → Text → Option (List ℕ)
decode_key from_base64 to_base64 value =
    let bytes = from_base64 value in
    if length bytes == key_bytes && to_base64 bytes == value then some bytes else none

abbrev pub is_number : Option Json → Bool
is_number (some (number n)) = true
is_number value = false

abbrev pub is_later : ℕ → Option Json → Bool
is_later now (some (number n)) = ltb now n
is_later now value = false

abbrev pub is_text : String → Option Json → Bool
is_text wanted (some (text found)) = found == wanted
is_text wanted value = false

-- The purpose, and a lifetime that is still running.
unfoldable pub stamped : Decoded → String → ℕ → Option (List (String × Json))
stamped no_object typ now = none
stamped (object fields) typ now =
    if is_text typ (get "typ" fields)
      && is_number (get "iat" fields)
      && is_later now (get "exp" fields)
    then some fields
    else none

abbrev pub text_or_absent : Option Json → Bool
text_or_absent none = true
text_or_absent (some (text found)) = true
text_or_absent (some value) = false

abbrev pub reference_or_absent : Option Json → Bool
reference_or_absent none = true
reference_or_absent (some (text found)) = not (found == "")
reference_or_absent (some value) = false

abbrev pub scopes_or_absent : Option Json → Bool
scopes_or_absent none = true
scopes_or_absent (some (texts scopes)) = true
scopes_or_absent (some value) = false

unfoldable pub has_shape : List (String × Json) → Bool
has_shape session =
    has "principal" session
    && reference_or_absent (get "tokenRef" session)
    && text_or_absent (get "sid" session)
    && scopes_or_absent (get "scopes" session)
    && text_or_absent (get "iss" session)
    && text_or_absent (get "clientId" session)

unfoldable pub where_shaped : Option (List (String × Json)) → Option (List (String × Json))
where_shaped none = none
where_shaped (some session) = if has_shape session then some session else none

unfoldable pub session_of : Decoded → ℕ → Option (List (String × Json))
session_of decoded now = where_shaped (stamped decoded "session" now)

unfoldable pub state_in : List (String × Json) → List (String × Json)
state_in transient = keep (λ entry. not (elem entry.0 stamps)) transient

unfoldable pub where_texts : Option (List (String × Json)) → Option (List (String × Json))
where_texts none = none
where_texts (some transient) =
    if all (λ entry. text_or_absent (some entry.1)) (state_in transient)
    then some (state_in transient)
    else none

unfoldable pub transient_of : Decoded → ℕ → Option (List (String × Json))
transient_of decoded now = where_texts (stamped decoded "oidc" now)

abbrev pub live_in : {T : Type 0} → (Decoded → Option T) → Option Decoded → Option T
live_in live none = none
live_in live (some decoded) = live decoded

abbrev pub or_next : {T : Type 0} → Option T → Option T → Option T
or_next none later = later
or_next (some found) later = some found

-- `{ ...fields, [key]: value }` where the value may be absent, which printing drops.
abbrev pub optional :
    {A : Type 0} → String → (A → Json) → Option A → List (String × Json) → List (String × Json)
optional key json none fields = fields
optional key json (some value) fields = (key, json value) ∷ fields

unfoldable pub session_fields : Session → ℕ → ℕ → List (String × Json)
session_fields session iat exp =
    ("typ", text "session")
    ∷ ("principal", session.principal)
    ∷ optional "tokenRef" text session.token_ref (
        optional "sid" text session.sid (
          optional "scopes" texts session.scopes (
            optional "iss" text session.iss (
              optional "clientId" text session.client_id
                (("iat", number iat) ∷ ("exp", number exp) ∷ [])))))

-- The flow's own state under the markers, which are written last.
unfoldable pub transient_fields : List (String × Json) → ℕ → ℕ → List (String × Json)
transient_fields state iat exp =
    set "exp" (number exp) (set "iat" (number iat) (set "typ" (text "oidc") state))

module _ {K : Type 0} (cipher : Cipher K) where
  -- Every key is tried, and every failure is the same nothing.
  unfoldable pub open_with : {T : Type 0} → List K → Text → (Decoded → Option T) → Option T
  open_with [] cookie live = none
  open_with (key ∷ keys) cookie live =
      or_next (live_in live (cipher.decrypt key cookie)) (open_with keys cookie live)

  unfoldable pub unseal : List K → Option Text → ℕ → Option (List (String × Json))
  unseal keys none now = none
  unseal keys (some cookie) now = open_with keys cookie (λ decoded. session_of decoded now)

  unfoldable pub seal : K → ℕ → Session → ℕ → Text
  seal sealing ttl_sec session now =
      cipher.encrypt sealing (session_fields session now (now + ttl_sec))

  unfoldable pub unseal_transient : List K → Option Text → ℕ → Option (List (String × Json))
  unseal_transient keys none now = none
  unseal_transient keys (some cookie) now =
      open_with keys cookie (λ decoded. transient_of decoded now)

  unfoldable pub seal_transient : K → List (String × Json) → ℕ → Text
  seal_transient sealing state now =
      cipher.encrypt sealing (transient_fields state now (now + transient_ttl_sec))

-- The positions, from one on, of the keys that do not decode.
unfoldable pub rejected_from : {K : Type 0} → ℕ → List (Option K) → List ℕ
rejected_from at [] = []
rejected_from at (none ∷ decoded) = at ∷ rejected_from (suc at) decoded
rejected_from at (some key ∷ decoded) = rejected_from (suc at) decoded

unfoldable pub decoded_in : {K : Type 0} → List (Option K) → List K
decoded_in [] = []
decoded_in (none ∷ decoded) = decoded_in decoded
decoded_in (some key ∷ decoded) = key ∷ decoded_in decoded

-- What `sessionCodec` makes of its keys: those that seal and open, or the positions of the bad ones.
unfoldable pub keys_or_refusal : {K : Type 0} → List K → List ℕ → Result (List ℕ) (K × List K)
keys_or_refusal [] positions = fail positions
keys_or_refusal (sealing ∷ rotated) [] = ok (sealing, rotated)
keys_or_refusal (sealing ∷ rotated) (position ∷ positions) = fail (position ∷ positions)

unfoldable pub session_codec :
    {K : Type 0} → (Text → Option K) → List Text → Result (List ℕ) (K × List K)
session_codec decode keys =
    let decoded = map decode keys in keys_or_refusal (decoded_in decoded) (rejected_from 1 decoded)
