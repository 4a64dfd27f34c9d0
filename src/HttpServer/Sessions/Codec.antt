-- ===== src/HttpServer/Sessions/Codec.antt =====
-- What a sealed session or a login's state opens to (packages/http-server/src/session.ts).
use btravstack.Common.{
  ◌≡◌, refl, sym, ap, subst, ◌∙◌, ℕ, ◌+◌, String, Bool, true, false, ◌&&◌, ◌||◌, Option, none, some,
  List, [], ◌∷◌, all, elem, get, get-set, set, ltb, if◌then◌else◌, string_eq, Eq, ◌==◌, eq_of_beq,
  beq_refl, ne_of_beq, Bool-cases, inl, inr,
}
use btravstack.HttpServer.Sessions.{
  Json, text, number, Decoded, object, Cipher, IsLocked, Session, transient_ttl_sec, stamps,
  stamped, text_or_absent, reference_or_absent, where_shaped, session_of, state_in, where_texts,
  transient_of, live_in, or_next, session_fields, transient_fields, open_with, unseal, seal,
  unseal_transient, seal_transient,
}
use btravstack.HttpServer.Sessions.Fields.{
  json_in, session_of-session_fields, transient_of-session_fields,
}

module _ {K : Type 0} ⦃eqs : Eq K⦄ (cipher : Cipher K) where
  -- What opens is what was sealed, if one of the keys is the one that sealed it.
  open_with-encrypt :
      {T : Type 0} (keys : List K) (key : K) (payload : List (String × Json))
      (live : Decoded → Option T)
      → IsLocked cipher key payload
      → open_with cipher keys (cipher.encrypt key payload) live
        ≡ (if elem key keys then live (object payload) else none)
  unfolding open_with
  open_with-encrypt [] key payload live locked = refl
  open_with-encrypt (first ∷ keys) key payload live locked = elim (Bool-cases (first == key)) [
    | inl e ↦
        subst
          (λ k.
            or_next (live_in live (cipher.decrypt k (cipher.encrypt key payload)))
              (open_with cipher keys (cipher.encrypt key payload) live)
            ≡ (if k == key || elem key keys then live (object payload) else none))
          (sym (eq_of_beq first key e))
          (rw (locked.opens, beq_refl key, open_with-encrypt keys key payload live locked)
            (again (live (object payload)) (elem key keys)))
    | inr e ↦
        rw (locked.stays_shut first (ne_of_beq first key e), e)
          (open_with-encrypt keys key payload live locked)
  ]
    where
      again :
          {T' : Type 0} (answer : Option T') (more : Bool)
          → or_next answer (if more then answer else none) ≡ answer
      again none true = refl
      again none false = refl
      again (some answer) more = refl

module _ {K : Type 0} ⦃eqs : Eq K⦄ (cipher : Cipher K) where
  if-if :
      {A : Type 0} (first second : Bool) (a b : A)
      → (if first then (if second then a else b) else b) ≡ (if first && second then a else b)
  if-if true second a b = refl
  if-if false second a b = refl

  if-same : {A : Type 0} (first : Bool) (a : A) → (if first then a else a) ≡ a
  if-same true a = refl
  if-same false a = refl

  -- A sealed session opens to what was sealed exactly while it lasts and one of the keys is the one
  -- that sealed it, and never as the state of a login; its reference, if there is one, is not empty.
  pub unseal-seal :
      (keys : List K) (key : K) (ttl_sec : ℕ) (session : Session) (then_at now : ℕ)
      → IsLocked cipher key (session_fields session then_at (then_at + ttl_sec))
      → reference_or_absent (json_in text session.token_ref) ≡ true
      → (unseal cipher keys (some (seal cipher key ttl_sec session then_at)) now ≡ (
          if elem key keys && ltb now (then_at + ttl_sec)
          then some (session_fields session then_at (then_at + ttl_sec))
          else none))
        × (unseal_transient cipher keys (some (seal cipher key ttl_sec session then_at)) now ≡ none)
  unfolding unseal unseal_transient seal
  unseal-seal keys key ttl_sec session then_at now locked referred =
      let payload = session_fields session then_at (then_at + ttl_sec) in
      (
        open_with-encrypt cipher keys key payload (λ decoded. session_of decoded now) locked
            ∙ (ap (λ o. if elem key keys then o else none)
                  (session_of-session_fields session then_at (then_at + ttl_sec) now referred)
                ∙ if-if (elem key keys) (ltb now (then_at + ttl_sec)) (some payload) none),
        open_with-encrypt cipher keys key payload (λ decoded. transient_of decoded now) locked
            ∙ (ap (λ o. if elem key keys then o else none)
                  (transient_of-session_fields session then_at (then_at + ttl_sec) now)
                ∙ if-same (elem key keys) none),
      )

keep-set :
    (key : String) (value : Json) (fields : List (String × Json))
    → elem key stamps ≡ true
    → state_in (set key value fields) ≡ state_in fields
unfolding state_in set
keep-set key value [] stamp = rw stamp refl
keep-set key value ((j, other_value) ∷ fields) stamp = elim (Bool-cases (j == key)) [
  | inl e ↦ rw (e, stamp, subst (λ k. elem k stamps ≡ true) (sym (eq_of_beq j key e)) stamp) refl
  | inr e ↦ rw e (elim (Bool-cases (elem j stamps)) [
    | inl f ↦ rw f (keep-set key value fields stamp)
    | inr f ↦ rw f (ap (◌∷◌ (j, other_value)) (keep-set key value fields stamp))
  ])
]

module _ (state : List (String × Json)) (iat exp : ℕ) where
  get-marker :
      (get "typ" (transient_fields state iat exp) ≡ some (text "oidc"))
      × (get "iat" (transient_fields state iat exp) ≡ some (number iat))
      × (get "exp" (transient_fields state iat exp) ≡ some (number exp))
  unfolding transient_fields
  get-marker =
      let typed = set "typ" (text "oidc") state in
      let timed = set "iat" (number iat) typed in
      (
        get-set "exp" "typ" (number exp) timed
            ∙ (get-set "iat" "typ" (number iat) typed ∙ get-set "typ" "typ" (text "oidc") state),
        get-set "exp" "iat" (number exp) timed ∙ get-set "iat" "iat" (number iat) typed,
        get-set "exp" "exp" (number exp) timed,
      )

  state_in-transient_fields : state_in (transient_fields state iat exp) ≡ state_in state
  unfolding transient_fields
  state_in-transient_fields =
      let typed = set "typ" (text "oidc") state in
      let timed = set "iat" (number iat) typed in
      keep-set "exp" (number exp) timed refl
      ∙ (keep-set "iat" (number iat) typed refl ∙ keep-set "typ" (text "oidc") state refl)

  session_of-transient_fields :
      (now : ℕ) → session_of (object (transient_fields state iat exp)) now ≡ none
  unfolding session_of stamped where_shaped
  session_of-transient_fields now = rw (get-marker.0) refl

  transient_of-transient_fields :
      (now : ℕ)
      → all (λ entry. text_or_absent (some entry.1)) (state_in state) ≡ true
      → transient_of (object (transient_fields state iat exp)) now
        ≡ (if ltb now exp then some (state_in state) else none)
  unfolding transient_of stamped where_texts
  transient_of-transient_fields now plain = elim (Bool-cases (ltb now exp)) [
    | inl e ↦
        rw (get-marker.0, get-marker.1, get-marker.2, e, state_in-transient_fields, plain) refl
    | inr e ↦ rw (get-marker.0, get-marker.1, get-marker.2, e) refl
  ]

module _ {K : Type 0} ⦃eqs : Eq K⦄ (cipher : Cipher K) where
  -- The state of a login, texts all of them, opens to itself without the codec's markers exactly while
  -- it lasts and one of the keys is the one that sealed it, and never as a session.
  pub unseal_transient-seal_transient :
      (keys : List K) (key : K) (state : List (String × Json)) (then_at now : ℕ)
      → IsLocked cipher key (transient_fields state then_at (then_at + transient_ttl_sec))
      → all (λ entry. text_or_absent (some entry.1)) (state_in state) ≡ true
      → (unseal_transient cipher keys (some (seal_transient cipher key state then_at)) now ≡ (
          if elem key keys && ltb now (then_at + transient_ttl_sec)
          then some (state_in state)
          else none))
        × (unseal cipher keys (some (seal_transient cipher key state then_at)) now ≡ none)
  unfolding unseal unseal_transient seal_transient
  unseal_transient-seal_transient keys key state then_at now locked plain =
      let over = then_at + transient_ttl_sec in
      let payload = transient_fields state then_at over in
      (
        open_with-encrypt cipher keys key payload (λ decoded. transient_of decoded now) locked
            ∙ (ap (λ o. if elem key keys then o else none)
                  (transient_of-transient_fields state then_at over now plain)
                ∙ if-if cipher (elem key keys) (ltb now over) (some (state_in state)) none),
        open_with-encrypt cipher keys key payload (λ decoded. session_of decoded now) locked
            ∙ (ap (λ o. if elem key keys then o else none)
                  (session_of-transient_fields state then_at over now)
                ∙ if-same cipher (elem key keys) none),
      )
