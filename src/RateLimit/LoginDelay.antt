-- ===== src/RateLimit/LoginDelay.antt =====
-- The back-off on failed logins: how long a failure locks the account or the address.
use trust_chain.Prelude.{ℕ, true, none, some, arith, ◌+◌, ◌≤◌, ◌≡◌, ◌<◌, ◌^◌, ◌-◌}
use native.Mathlib.Nat.{pow-le-pow_right}
use trust_chain.RateLimit.{Counter, delay_for, count_failure, check_backoff_key}

-- The delay is at most five minutes, one more failure never makes it shorter, the first three
-- failures cost nothing, and every later one costs two seconds or more.
pub delay_for-bounds :
    (failures : ℕ)
    → (delay_for failures ≤ 300)
      × (delay_for failures ≤ delay_for (failures + 1))
      × (failures ≤ 3 → delay_for failures ≡ 0)
      × (4 ≤ failures → 2 ≤ delay_for failures)
unfolding delay_for
delay_for-bounds n =
    (ground arith, ground (arith, power), λ h. ground arith, λ h. ground (arith, two h))
  where
    power : 2 ^ (n - 3) ≤ 2 ^ ((n + 1) - 3)
    power = pow-le-pow_right {n = 2} (omega arith) (omega arith)

    two : 4 ≤ n → 2 ^ 1 ≤ 2 ^ (n - 3)
    two h = let le : 1 ≤ n - 3 = omega arith in pow-le-pow_right {n = 2} (omega arith) le

-- A failure that is counted at `t`, the counter being live, locks its key: a check at a later time
-- within the window is refused exactly until the delay for the failures so far has passed, and the
-- refusal says how many seconds are left, and one more.
pub failure_locks :
    (t elapsed : ℕ) (c : Counter)
    → t < c.expires_at
    → elapsed < 900
    → let after = count_failure true t (some c) in
      let delay = delay_for (c.failures + 1) in
      (elapsed < delay → check_backoff_key true (t + elapsed) after ≡ some (delay - elapsed + 1))
      × (delay ≤ elapsed → check_backoff_key true (t + elapsed) after ≡ none)
unfolding count_failure check_backoff_key
failure_locks t elapsed c alive window =
    (λ h. ground (arith, h, alive, window), λ h. ground (arith, h, alive, window))
