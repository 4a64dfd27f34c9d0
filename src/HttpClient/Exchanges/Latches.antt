-- ===== src/HttpClient/Exchanges/Latches.antt =====
-- The first to finish an exchange of packages/http-client/src/client.ts, and what comes after.
use btravstack.Common.{
  ◌≡◌, ap, ℕ, Bool, true, false, Option, none, some, List, [], ◌∷◌, if◌then◌else◌, Result, ok, fail,
}
use btravstack.HttpClient.{
  HttpFailure, destination_forbidden, cancelled, deadline_exceeded, unavailable, encoding_refused,
  redirect_refused, response_too_large,
}
use btravstack.HttpClient.Exchanges.{
  HttpResponse, Event, aborted, timed_out, broke, ended, resolved, responded, received, on_chunk,
  on_end, Exchange, finish, on_response, on_data, on_addresses, step, run,
}

abbrev pub outcome_after :
    Option (Result HttpFailure HttpResponse)
    → Result HttpFailure HttpResponse
    → Option (Result HttpFailure HttpResponse)
outcome_after before result = elim before [ none ↦ some result | some earlier ↦ some earlier ]

-- An exchange that finished with a result.
unfoldable pub IsLatched : Result HttpFailure HttpResponse → Exchange → Type 0
IsLatched result exchange = exchange.outcome ≡ some result

pub finish-IsLatched :
    (result later : Result HttpFailure HttpResponse) (exchange : Exchange)
    → IsLatched result exchange
    → IsLatched result (finish later exchange)
unfolding finish IsLatched
finish-IsLatched result later exchange done = ap (λ o. outcome_after o later) done

pub if-IsLatched :
    (result : Result HttpFailure HttpResponse) (test : Bool) (first second : Exchange)
    → IsLatched result first
    → IsLatched result second
    → IsLatched result (if test then first else second)
if-IsLatched result true first second done also = done
if-IsLatched result false first second done also = also

on_chunk-IsLatched :
    (max_bytes : ℕ) (result : Result HttpFailure HttpResponse) (chunk : List ℕ)
    (exchange : Exchange) (listening : Option ℕ)
    → IsLatched result exchange
    → IsLatched result (on_chunk max_bytes chunk exchange listening)
unfolding on_chunk on_data IsLatched finish
on_chunk-IsLatched max_bytes result chunk exchange none done = done
on_chunk-IsLatched max_bytes result chunk exchange (some status) done =
    if-IsLatched result _ _ _ (ap (λ o. outcome_after o (fail (response_too_large max_bytes))) done)
      done

on_end-IsLatched :
    (result : Result HttpFailure HttpResponse) (exchange : Exchange) (listening : Option ℕ)
    → IsLatched result exchange
    → IsLatched result (on_end exchange listening)
unfolding on_end
on_end-IsLatched result exchange none done = done
on_end-IsLatched result exchange (some status) done =
    finish-IsLatched result (ok (record { status = status; body = exchange.chunks })) exchange done

module _ {Address : Type 0} (allowed : Address → Bool) (max_bytes : ℕ) where
  pub step-IsLatched :
      (result : Result HttpFailure HttpResponse) (event : Event Address) (exchange : Exchange)
      → IsLatched result exchange
      → IsLatched result (step allowed max_bytes event exchange)
  unfolding step on_addresses on_response IsLatched
  step-IsLatched result aborted exchange done =
      finish-IsLatched result (fail cancelled) exchange done
  step-IsLatched result timed_out exchange done =
      finish-IsLatched result (fail deadline_exceeded) exchange done
  step-IsLatched result broke exchange done =
      finish-IsLatched result (fail unavailable) exchange done
  step-IsLatched result (resolved []) exchange done = done
  step-IsLatched result (resolved (address ∷ addresses)) exchange done =
      if-IsLatched result _ _ _ (finish-IsLatched result (fail destination_forbidden) exchange done)
        done
  step-IsLatched result (responded status encoding) exchange done =
      if-IsLatched result _ _ _
        (finish-IsLatched result (fail (redirect_refused status)) exchange done)
        (if-IsLatched result _ _ _ (finish-IsLatched result (fail encoding_refused) exchange done)
          done)
  step-IsLatched result (received chunk) exchange done =
      on_chunk-IsLatched max_bytes result chunk exchange exchange.listening done
  step-IsLatched result ended exchange done =
      on_end-IsLatched result exchange exchange.listening done

  pub run-IsLatched :
      (result : Result HttpFailure HttpResponse) (events : List (Event Address))
      (exchange : Exchange)
      → IsLatched result exchange
      → IsLatched result (run allowed max_bytes events exchange)
  unfolding run
  run-IsLatched result [] exchange done = done
  run-IsLatched result (event ∷ events) exchange done =
      run-IsLatched result events (step allowed max_bytes event exchange)
        (step-IsLatched result event exchange done)
