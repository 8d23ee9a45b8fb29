-- ===== src/Rpc.antt =====
-- backend/blockchain/resilient_provider.py: the circuit breaker of an RPC endpoint, the retries
-- in place, and the failover over the endpoints. Times are ticks of the monotonic clock. The
-- HTTP providers of web3 are parameters: each attempt at a call returns a response or raises.
pub mod Breaking
pub mod Failover
mod Tests
use trust_chain.Prelude.{
  ℕ, zero, suc, ◌+◌, Bool, true, false, not, Option, none, some, List, [], ◌∷◌, map, leb,
  if◌then◌else◌,
}

pub record CircuitBreaker : Type 0 where
  pub failure_threshold : ℕ
  pub reset_timeout : ℕ
  pub consecutive_failures : ℕ
  pub opened_at : Option ℕ

abbrev pub new_breaker : (failure_threshold reset_timeout : ℕ) → CircuitBreaker
new_breaker failure_threshold reset_timeout = record {
  failure_threshold = failure_threshold;
  reset_timeout = reset_timeout;
  consecutive_failures = 0;
  opened_at = none;
}

-- `now - opened_at >= reset_timeout`; the clock is monotonic, so `opened_at` is not after `now`.
pub allow_request : (now : ℕ) → CircuitBreaker → Bool
allow_request now b = elim b.opened_at [ none ↦ true | some t ↦ leb (t + b.reset_timeout) now ]

pub record_success : CircuitBreaker → CircuitBreaker
record_success b = record b { consecutive_failures = 0; opened_at = none }

pub record_failure : (now : ℕ) → CircuitBreaker → CircuitBreaker
record_failure now b =
    let failures = b.consecutive_failures + 1 in
    record b {
      consecutive_failures = failures;
      opened_at = if leb b.failure_threshold failures then some now else b.opened_at;
    }

pub data BreakerState : Type 0 where
  closed half_open open_state : BreakerState

pub state : (now : ℕ) → CircuitBreaker → BreakerState
state now b = elim b.opened_at [
  | none ↦ closed
  | some t ↦ if leb (t + b.reset_timeout) now then half_open else open_state
]

-- What the outside does during one request: when each breaker is asked and when a failure is
-- recorded, and what each attempt at the endpoint gives (`none` is an exception).
pub record Endpoint (R : Type 0) : Type 0 where
  pub breaker : CircuitBreaker
  pub asked_at : ℕ
  pub failed_at : ℕ
  pub attempt : ℕ → Option R

-- Raised by `make_request`: the two messages of AllEndpointsUnavailableError.
pub data Answer (R : Type 0) : Type 0 where
  answered : R → Answer R
  all_open : Answer R
  all_failed : Answer R

module _ {R : Type 0} where
  -- `_call_with_retry`, with `left` attempts to go; the sleeps between them are left out.
  pub call_with_retry : (left : ℕ) (attempt : ℕ) → (ℕ → Option R) → Option R
  call_with_retry zero attempt call = none
  call_with_retry (suc left) attempt call = elim (call attempt) [
    | some response ↦ some response
    | none ↦ call_with_retry left (attempt + 1) call
  ]

  abbrev pub breakers : List (Endpoint R) → List CircuitBreaker
  breakers = map (λ (e : Endpoint R). e.breaker)

  -- The loop of `make_request`: the breakers afterwards, and what the caller gets.
  pub request_from :
      (retries : ℕ) (attempted_any : Bool) → List (Endpoint R) → List CircuitBreaker × Answer R
  unfolding allow_request call_with_retry record_success record_failure
  request_from retries attempted_any [] = ([], if attempted_any then all_failed else all_open)
  request_from retries attempted_any (e ∷ rest) = elim (allow_request e.asked_at e.breaker) [
    | false ↦ let (bs, answer) = request_from retries attempted_any rest in (e.breaker ∷ bs, answer)
    | true ↦ elim (call_with_retry retries 0 e.attempt) [
      | some response ↦ (record_success e.breaker ∷ breakers rest, answered response)
      | none ↦
          let (bs, answer) = request_from retries true rest in
          (record_failure e.failed_at e.breaker ∷ bs, answer)
    ]
  ]

  pub make_request : (retries : ℕ) → List (Endpoint R) → List CircuitBreaker × Answer R
  unfolding request_from
  make_request retries endpoints = request_from retries false endpoints

-- `sample_breaker_states`, for the FallbackHTTPProvider case.
pub sample_breaker_states : (now : ℕ) → List CircuitBreaker → List BreakerState
unfolding state
sample_breaker_states now = map (state now)
