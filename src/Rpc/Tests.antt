-- ===== src/Rpc/Tests.antt =====
-- A concrete provider: two endpoints, the first of them down.
use trust_chain.Prelude.{ℕ, suc, refl, [], none, some, ◌∷◌, Option, ◌≡◌}
use trust_chain.Rpc.{
  CircuitBreaker, Endpoint, answered, new_breaker, call_with_retry, sample_breaker_states,
  make_request, state, open_state, closed,
}
use trust_chain.Rpc.Failover.{make_request-serves, Served}

abbrev tripped : CircuitBreaker
tripped = record {
  failure_threshold = 3;
  reset_timeout = 30;
  consecutive_failures = 3;
  opened_at = some 100;
}

abbrev down : Endpoint ℕ
down = record { breaker = new_breaker 3 30; asked_at = 110; failed_at = 112; attempt = λ _. none }

abbrev up : Endpoint ℕ
up = record { breaker = new_breaker 3 30; asked_at = 113; failed_at = 114; attempt = λ _. some 7 }

abbrev cooling : Endpoint ℕ
cooling = record { breaker = tripped; asked_at = 110; failed_at = 110; attempt = λ _. some 9 }

abbrev third_time : ℕ → Option ℕ
third_time (suc (suc k)) = some 5
third_time k = none

retried : call_with_retry 3 0 third_time ≡ some 5
unfolding call_with_retry
retried = refl

states : sample_breaker_states 110 (tripped ∷ new_breaker 3 30 ∷ []) ≡ open_state ∷ closed ∷ []
unfolding sample_breaker_states state
states = refl

make_request-serves_example :
    ((make_request 3 (cooling ∷ down ∷ up ∷ [])).1 ≡ answered 7
      → Served 3 7 (cooling ∷ down ∷ up ∷ []))
    × (Served 3 7 (cooling ∷ down ∷ up ∷ [])
        → (make_request 3 (cooling ∷ down ∷ up ∷ [])).1 ≡ answered 7)
make_request-serves_example = make_request-serves 3 (cooling ∷ down ∷ up ∷ []) 7
