-- ===== src/Rpc/Breaking.antt =====
-- The circuit breaker as a state machine: closed, open for the cooldown, then half open.
use trust_chain.Prelude.{
  none, some, ℕ, refl, [], List, ◌∷◌, arith, ◌≡◌, ◌≤◌, true, ◌+◌, ◌≢◌, length, ◌<◌, false, ◌∙◌,
}
use trust_chain.Rpc.{
  CircuitBreaker, allow_request, record_failure, state, record_success, new_breaker, open_state,
  closed, half_open,
}

-- Open exactly when the failures have reached the threshold.
abbrev pub IsConsistent : CircuitBreaker → Type 0
IsConsistent b = elim b.opened_at [
  | none ↦ b.consecutive_failures < b.failure_threshold
  | some _ ↦ b.failure_threshold ≤ b.consecutive_failures
]

-- A request is allowed in the states closed and half open and refused in the state open, and a
-- breaker that an endpoint answered through is closed at every time.
pub allow_request-state :
    (now later : ℕ) (b : CircuitBreaker)
    → (allow_request now b ≡ true → state now b ≢ open_state)
      × (allow_request now b ≡ false → state now b ≡ open_state)
      × (state later (record_success b) ≡ closed)
unfolding allow_request state record_success
allow_request-state now later b = (λ h e. ground arith, λ h. ground arith, refl)

-- Failures at the given times, one after the other.
abbrev pub fail_at : List ℕ → CircuitBreaker → CircuitBreaker
fail_at [] b = b
fail_at (t ∷ ts) b = fail_at ts (record_failure t b)

record_failure-IsConsistent :
    (t : ℕ) (b : CircuitBreaker) → IsConsistent b → IsConsistent (record_failure t b)
unfolding record_failure
record_failure-IsConsistent t b h = ground arith

fail_at-IsConsistent :
    (ts : List ℕ) (b : CircuitBreaker) → IsConsistent b → IsConsistent (fail_at ts b)
fail_at-IsConsistent [] b h = h
fail_at-IsConsistent (t ∷ ts) b h =
    fail_at-IsConsistent ts (record_failure t b) (record_failure-IsConsistent t b h)

failures-fail_at :
    (ts : List ℕ) (b : CircuitBreaker)
    → ((fail_at ts b).consecutive_failures ≡ b.consecutive_failures + length ts)
      × ((fail_at ts b).failure_threshold ≡ b.failure_threshold)
      × ((fail_at ts b).reset_timeout ≡ b.reset_timeout)
unfolding record_failure
failures-fail_at [] b = (omega arith, refl, refl)
failures-fail_at (t ∷ ts) b =
    let (n, m, r) = failures-fail_at ts (record_failure t b) in
    (omega (arith, n, step), m ∙ refl, r ∙ refl)
  where
    step : (record_failure t b).consecutive_failures ≡ b.consecutive_failures + 1
    step = refl

one_more :
    (now t : ℕ) (b : CircuitBreaker)
    → IsConsistent b
    → (b.consecutive_failures + 1 < b.failure_threshold → state now (record_failure t b) ≡ closed)
      × (b.failure_threshold ≤ b.consecutive_failures + 1
          → now < t + b.reset_timeout
          → state now (record_failure t b) ≡ open_state)
      × (b.failure_threshold ≤ b.consecutive_failures + 1
          → t + b.reset_timeout ≤ now
          → state now (record_failure t b) ≡ half_open)
unfolding state record_failure
one_more now t b ok = (λ h. ground arith, λ h k. ground arith, λ h k. ground arith)

-- A fresh breaker with a threshold of one or more stays closed below the threshold of consecutive
-- failures. When a failure at `t` brings them to the threshold or further, it is open, and refuses
-- requests, from `t` until the cooldown has passed, and half open from then on.
pub trips_at_threshold :
    (threshold timeout now t : ℕ) (ts : List ℕ)
    → 1 ≤ threshold
    → let b = record_failure t (fail_at ts (new_breaker threshold timeout)) in
      (length ts + 1 < threshold → state now b ≡ closed)
      × (threshold ≤ length ts + 1 → now < t + timeout → state now b ≡ open_state)
      × (threshold ≤ length ts + 1 → t + timeout ≤ now → state now b ≡ half_open)
trips_at_threshold threshold timeout now t ts p =
    let b = fail_at ts (new_breaker threshold timeout) in
    let (n, m, r) = failures-fail_at ts (new_breaker threshold timeout) in
    let ok : IsConsistent b =
      fail_at-IsConsistent ts (new_breaker threshold timeout) (omega arith) in
    let (c, o, h) = one_more now t b ok in
    (
      λ x. c (omega (arith, n, m)),
      λ x y. o (omega (arith, n, m)) (omega (arith, r)),
      λ x y. h (omega (arith, n, m)) (omega (arith, r)),
    )
