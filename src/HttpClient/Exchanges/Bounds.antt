-- ===== src/HttpClient/Exchanges/Bounds.antt =====
-- What an exchange of packages/http-client/src/client.ts keeps of a response.
use btravstack.Common.{
  nat_eq, ◌<◌, ◌≡◌, refl, subst, ◌∙◌, ℕ, ◌+◌, ◌≤◌, Bool, false, not, Option, none, some, List, [],
  ◌∷◌, any, length, length-append, ltb, Text, Result, ok, fail, ok-inj, Bool-cases, arith, inl, inr,
}
use btravstack.HttpClient.{
  HttpFailure, destination_forbidden, cancelled, deadline_exceeded, unavailable, encoding_refused,
  redirect_refused, response_too_large,
}
use btravstack.HttpClient.Exchanges.{
  HttpResponse, Event, aborted, timed_out, broke, ended, resolved, responded, received, on_chunk,
  on_end, Exchange, finish, is_redirect, is_encoded, on_response, on_data, on_addresses, step, run,
}
use btravstack.HttpClient.Exchanges.Latches.{outcome_after}

-- A response within the limit that is no redirect.
pub record IsAccepted (max_bytes : ℕ) (response : HttpResponse) : Type 0 where
  pub within : length response.body ≤ max_bytes
  pub no_redirect : 300 ≤ response.status → response.status < 400 → response.status ≡ 304

no_redirect_of :
    (status : ℕ) → is_redirect status ≡ false → 300 ≤ status → status < 400 → status ≡ 304
unfolding is_redirect
no_redirect_of status e least most = ground (arith, e, least, most, nat_eq.beq_iff status 304)

-- What is kept is within the limit, and only a response that is no redirect is listened to.
pub record IsSound (max_bytes : ℕ) (exchange : Exchange) : Type 0 where
  pub counted : length exchange.chunks ≤ exchange.size
  pub bounded : length exchange.chunks ≤ max_bytes
  pub heard : (status : ℕ) → exchange.listening ≡ some status → is_redirect status ≡ false
  pub answered :
      (response : HttpResponse)
      → exchange.outcome ≡ some (ok response)
      → IsAccepted max_bytes response

module _ (max_bytes : ℕ) where
  finish-IsSound :
      (result : Result HttpFailure HttpResponse) (exchange : Exchange)
      → IsSound max_bytes exchange
      → ((response : HttpResponse) → result ≡ ok response → IsAccepted max_bytes response)
      → IsSound max_bytes (finish result exchange)
  unfolding finish
  finish-IsSound result exchange sound accepts = record {
    counted = sound.counted;
    bounded = sound.bounded;
    heard = sound.heard;
    answered = λ response told. after exchange.outcome refl response told;
  }
    where
      after :
          (before : Option (Result HttpFailure HttpResponse))
          → exchange.outcome ≡ before
          → (response : HttpResponse) → outcome_after before result ≡ some (ok response)
          → IsAccepted max_bytes response
      after none e response told = accepts response (cc)
      after (some earlier) e response told = sound.answered response (e ∙ told)

  refuse-IsSound :
      (failure : HttpFailure) (exchange : Exchange)
      → IsSound max_bytes exchange
      → IsSound max_bytes (finish (fail failure) exchange)
  refuse-IsSound failure exchange sound =
      finish-IsSound (fail failure) exchange sound (λ response same. absurd (cc))

  on_response-IsSound :
      (status : ℕ) (encoding : Option Text) (exchange : Exchange)
      → IsSound max_bytes exchange
      → IsSound max_bytes (on_response status encoding exchange)
  unfolding on_response
  on_response-IsSound status encoding exchange sound = elim (Bool-cases (is_redirect status)) [
    | inl e ↦ rw e (refuse-IsSound (redirect_refused status) exchange sound)
    | inr e ↦ elim (Bool-cases (is_encoded encoding)) [
      | inl f ↦ rw (e, f) (refuse-IsSound encoding_refused exchange sound)
      | inr f ↦
          rw (e, f)
            (record {
              counted = omega arith;
              bounded = omega arith;
              heard = λ other same. subst (λ s. is_redirect s ≡ false) (some-inj same) e;
              answered = sound.answered;
            })
    ]
  ]
    where
      some-inj : {a b : ℕ} → some a ≡ some b → a ≡ b
      some-inj e = cc

  on_data-IsSound :
      (chunk : List ℕ) (exchange : Exchange)
      → IsSound max_bytes exchange
      → IsSound max_bytes (on_data max_bytes chunk exchange)
  unfolding on_data
  on_data-IsSound chunk exchange sound =
      elim (Bool-cases (ltb max_bytes (exchange.size + length chunk))) [
        | inl e ↦ rw e (
            refuse-IsSound (response_too_large max_bytes)
              (record {
                outcome = exchange.outcome;
                listening = exchange.listening;
                size = exchange.size + length chunk;
                chunks = exchange.chunks;
              })
              (record {
                counted = omega (arith, sound.counted);
                bounded = sound.bounded;
                heard = sound.heard;
                answered = sound.answered;
              }))
        | inr e ↦ rw e (record {
          counted = omega (arith, sound.counted, length-append exchange.chunks chunk);
          bounded = ground (arith, sound.counted, e, length-append exchange.chunks chunk);
          heard = sound.heard;
          answered = sound.answered;
        })
      ]

  on_chunk-IsSound :
      (chunk : List ℕ) (exchange : Exchange) (listening : Option ℕ)
      → IsSound max_bytes exchange
      → IsSound max_bytes (on_chunk max_bytes chunk exchange listening)
  unfolding on_chunk
  on_chunk-IsSound chunk exchange none sound = sound
  on_chunk-IsSound chunk exchange (some status) sound = on_data-IsSound chunk exchange sound

  on_end-IsSound :
      (exchange : Exchange) (listening : Option ℕ)
      → exchange.listening ≡ listening
      → IsSound max_bytes exchange
      → IsSound max_bytes (on_end exchange listening)
  unfolding on_end
  on_end-IsSound exchange none e sound = sound
  on_end-IsSound exchange (some status) e sound =
      let response : HttpResponse = record { status = status; body = exchange.chunks } in
      finish-IsSound (ok response) exchange sound (λ other same.
        subst (IsAccepted max_bytes) (ok-inj same) (record {
          within = sound.bounded;
          no_redirect = no_redirect_of status (sound.heard status e);
        }))

module _ {Address : Type 0} (allowed : Address → Bool) (max_bytes : ℕ) where
  step-IsSound :
      (event : Event Address) (exchange : Exchange)
      → IsSound max_bytes exchange
      → IsSound max_bytes (step allowed max_bytes event exchange)
  unfolding step on_addresses
  step-IsSound aborted exchange sound = refuse-IsSound max_bytes cancelled exchange sound
  step-IsSound timed_out exchange sound = refuse-IsSound max_bytes deadline_exceeded exchange sound
  step-IsSound broke exchange sound = refuse-IsSound max_bytes unavailable exchange sound
  step-IsSound (resolved []) exchange sound = sound
  step-IsSound (resolved (address ∷ addresses)) exchange sound =
      elim (Bool-cases (any (λ a. not (allowed a)) (address ∷ addresses))) [
        | inl e ↦ rw e (refuse-IsSound max_bytes destination_forbidden exchange sound)
        | inr e ↦ rw e sound
      ]
  step-IsSound (responded status encoding) exchange sound =
      on_response-IsSound max_bytes status encoding exchange sound
  step-IsSound (received chunk) exchange sound =
      on_chunk-IsSound max_bytes chunk exchange exchange.listening sound
  step-IsSound ended exchange sound =
      on_end-IsSound max_bytes exchange exchange.listening refl sound

  pub run-IsSound :
      (events : List (Event Address)) (exchange : Exchange)
      → IsSound max_bytes exchange
      → IsSound max_bytes (run allowed max_bytes events exchange)
  unfolding run
  run-IsSound [] exchange sound = sound
  run-IsSound (event ∷ events) exchange sound =
      run-IsSound events (step allowed max_bytes event exchange) (step-IsSound event exchange sound)
