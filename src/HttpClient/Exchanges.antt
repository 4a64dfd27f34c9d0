-- ===== src/HttpClient/Exchanges.antt =====
-- `exchange` of packages/http-client/src/client.ts: what the callbacks of one request make of the
-- events that reach them, in whatever order. The first to finish answers, and nothing after it does.
pub mod Latches
pub mod Bounds
pub mod Laws
use btravstack.Common.{
  ◌≡◌, refl, sym, ap, subst, ◌∙◌, ℕ, ◌+◌, ◌≤◌, ◌<◌, Bool, true, false, not, ◌&&◌, ◌||◌, Option,
  none, some, List, [], ◌∷◌, ◌++◌, any, all, length, length-append, ltb, leb, if◌then◌else◌, ◌==◌,
  nat_eq, text_eq, Text, trim, lower, map, Result, ok, fail, flatten, Bool-cases, arith, inl, inr,
  is_some,
}
use btravstack.HttpClient.{
  HttpFailure, destination_forbidden, cancelled, deadline_exceeded, unavailable, encoding_refused,
  redirect_refused, response_too_large,
}

pub record HttpResponse : Type 0 where
  pub status : ℕ
  pub body : List ℕ

-- What may reach a request: its signal or its deadline, the addresses of its host, a response's head,
-- a chunk, the end, or an error of the transport.
pub data Event (Address : Type 0) : Type 0 where
  aborted timed_out broke ended : Event Address
  resolved : List Address → Event Address
  responded : ℕ → Option Text → Event Address
  received : List ℕ → Event Address

-- The state of the closure: whether it finished and with what, the status of a response whose body is
-- listened to, and what came of it.
pub record Exchange : Type 0 where
  pub outcome : Option (Result HttpFailure HttpResponse)
  pub listening : Option ℕ
  pub size : ℕ
  pub chunks : List ℕ

abbrev pub opened : Exchange
opened = record { outcome = none; listening = none; size = 0; chunks = [] }

unfoldable pub finish : Result HttpFailure HttpResponse → Exchange → Exchange
finish result exchange = record {
  outcome = elim exchange.outcome [ none ↦ some result | some earlier ↦ some earlier ];
  listening = exchange.listening;
  size = exchange.size;
  chunks = exchange.chunks;
}

-- "identity"
abbrev pub identity : Text
identity = 105 ∷ 100 ∷ 101 ∷ 110 ∷ 116 ∷ 105 ∷ 116 ∷ 121 ∷ []

unfoldable pub is_redirect : ℕ → Bool
is_redirect status = leb 300 status && ltb status 400 && not (status == 304)

unfoldable pub is_encoded : Option Text → Bool
is_encoded none = false
is_encoded (some encoding) = not (map lower (trim encoding) == identity)

unfoldable pub on_response : ℕ → Option Text → Exchange → Exchange
on_response status encoding exchange =
    if is_redirect status
    then finish (fail (redirect_refused status)) exchange
    else if is_encoded encoding
    then finish (fail encoding_refused) exchange
    else record { outcome = exchange.outcome; listening = some status; size = 0; chunks = [] }

unfoldable pub on_data : ℕ → List ℕ → Exchange → Exchange
on_data max_bytes chunk exchange =
    let size = exchange.size + length chunk in
    if ltb max_bytes size
    then finish (fail (response_too_large max_bytes)) (record {
      outcome = exchange.outcome;
      listening = exchange.listening;
      size = size;
      chunks = exchange.chunks;
    })
    else record {
      outcome = exchange.outcome;
      listening = exchange.listening;
      size = size;
      chunks = exchange.chunks ++ chunk;
    }

-- The listeners of a body are there once a response was taken.
unfoldable pub on_chunk : ℕ → List ℕ → Exchange → Option ℕ → Exchange
on_chunk max_bytes chunk exchange none = exchange
on_chunk max_bytes chunk exchange (some status) = on_data max_bytes chunk exchange

unfoldable pub on_end : Exchange → Option ℕ → Exchange
on_end exchange none = exchange
on_end exchange (some status) =
    finish (ok (record { status = status; body = exchange.chunks })) exchange

module _ {Address : Type 0} (allowed : Address → Bool) (max_bytes : ℕ) where
  unfoldable pub on_addresses : List Address → Exchange → Exchange
  on_addresses addresses exchange =
      if any (λ address. not (allowed address)) addresses
      then finish (fail destination_forbidden) exchange
      else exchange

  unfoldable pub step : Event Address → Exchange → Exchange
  step aborted exchange = finish (fail cancelled) exchange
  step timed_out exchange = finish (fail deadline_exceeded) exchange
  step broke exchange = finish (fail unavailable) exchange
  step (resolved []) exchange = exchange
  step (resolved (address ∷ addresses)) exchange = on_addresses (address ∷ addresses) exchange
  step (responded status encoding) exchange = on_response status encoding exchange
  step (received chunk) exchange = on_chunk max_bytes chunk exchange exchange.listening
  step ended exchange = on_end exchange exchange.listening

  unfoldable pub run : List (Event Address) → Exchange → Exchange
  run [] exchange = exchange
  run (event ∷ events) exchange = run events (step event exchange)
