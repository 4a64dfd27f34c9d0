-- ===== src/HttpClient/Exchanges/Laws.antt =====
-- What an exchange of packages/http-client/src/client.ts answers, whatever reaches it and in what order.
use btravstack.Common.{
  ◌≡◌, refl, sym, ap, subst, ◌∙◌, ℕ, Bool, true, not, none, some, List, [], ◌∷◌, ◌++◌, any,
  if◌then◌else◌, Result, ok, fail, arith,
}
use btravstack.HttpClient.{HttpFailure, destination_forbidden}
use btravstack.HttpClient.Exchanges.{
  HttpResponse, Event, resolved, Exchange, opened, finish, on_addresses, step, run,
}
use btravstack.HttpClient.Exchanges.Latches.{outcome_after, IsLatched, run-IsLatched}
use btravstack.HttpClient.Exchanges.Bounds.{IsAccepted, IsSound, run-IsSound}

module _ {Address : Type 0} (allowed : Address → Bool) (max_bytes : ℕ) where
  run-append :
      (before after : List (Event Address)) (exchange : Exchange)
      → run allowed max_bytes (before ++ after) exchange
        ≡ run allowed max_bytes after (run allowed max_bytes before exchange)
  unfolding run
  run-append [] after exchange = refl
  run-append (event ∷ before) after exchange =
      run-append before after (step allowed max_bytes event exchange)

  forbids :
      (address : Address) (addresses : List Address) (exchange : Exchange)
      → any (λ a. not (allowed a)) (address ∷ addresses) ≡ true
      → exchange.outcome ≡ none
      → IsLatched
          (fail destination_forbidden)
          (step allowed max_bytes (resolved (address ∷ addresses)) exchange)
  unfolding step on_addresses IsLatched finish
  forbids address addresses exchange forbidden running =
      subst
        (λ b.
          (if b then finish (fail destination_forbidden) exchange else exchange).outcome
          ≡ some (fail destination_forbidden))
        (sym forbidden) (ap (λ o. outcome_after o (fail destination_forbidden)) running)

  -- What an exchange settles on: a response is one that the policy takes, the first outcome stays, and
  -- a host with an address that is not allowed is never answered.
  pub record IsSettled (events : List (Event Address)) : Type 0 where
    pub accepts :
        (response : HttpResponse)
        → (run allowed max_bytes events opened).outcome ≡ some (ok response)
        → IsAccepted max_bytes response
    pub stays :
        (result : Result HttpFailure HttpResponse) (more : List (Event Address))
        → (run allowed max_bytes events opened).outcome ≡ some result
        → (run allowed max_bytes (events ++ more) opened).outcome ≡ some result
    pub forbids_hosts :
        (address : Address) (addresses : List Address) (more : List (Event Address))
        → (run allowed max_bytes events opened).outcome ≡ none
        → any (λ a. not (allowed a)) (address ∷ addresses) ≡ true
        → (run allowed max_bytes (events ++ (resolved (address ∷ addresses) ∷ more)) opened).outcome
          ≡ some (fail destination_forbidden)

  -- Whatever reaches an exchange: a response it answers is no redirect and holds at most the allowed
  -- number of bytes, its first outcome stays, and one that runs is refused when its host resolves to an
  -- address that is not allowed.
  pub run-IsSettled : (events : List (Event Address)) → IsSettled events
  unfolding IsLatched run
  run-IsSettled events =
      let reached = run allowed max_bytes events opened in
      record {
        accepts = λ response told.
            (run-IsSound allowed max_bytes events opened opened-IsSound).answered response told;
        stays = λ result more told.
            ap Exchange.outcome (run-append events more opened)
            ∙ run-IsLatched allowed max_bytes result more reached told;
        forbids_hosts = λ address addresses more running forbidden.
            ap Exchange.outcome (run-append events (resolved (address ∷ addresses) ∷ more) opened)
            ∙ run-IsLatched allowed max_bytes (fail destination_forbidden) more
                (step allowed max_bytes (resolved (address ∷ addresses)) reached)
                (forbids address addresses reached forbidden running);
      }
    where
      opened-IsSound : IsSound max_bytes opened
      opened-IsSound = record {
        counted = omega arith;
        bounded = omega arith;
        heard = λ status e. absurd (cc);
        answered = λ response e. absurd (cc);
      }
