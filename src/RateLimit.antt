-- ===== src/RateLimit.antt =====
-- backend/rate_limit.py: the token bucket of the Lua script and the back-off on failed logins.
-- Redis is a parameter: a bucket or a counter is the value stored under the key, `none` when the key is
-- missing or has expired. Tokens are counted in units of 1/scale token and time in ticks, so the
-- rate is the units that a tick adds; the floats' rounding is left out, and so is the script's EXPIRE.
pub mod Refill
pub mod LoginDelay
mod Tests
use trust_chain.Prelude.{
  ℕ, ◌+◌, ◌-◌, ◌*◌, ◌/◌, ◌^◌, min, max, Bool, true, false, Option, none, some, if◌then◌else◌, leb,
  ltb,
}

pub record Bucket : Type 0 where
  pub tokens : ℕ
  pub updated_at : ℕ

-- The bucket as the script reads it: a missing key is a full bucket.
abbrev pub stored : (capacity now : ℕ) → Option Bucket → Bucket
stored capacity now none = record { tokens = capacity; updated_at = now }
stored capacity now (some b) = b

-- `elapsed` is 0 when the clock went back, as the subtraction on ℕ has it.
abbrev pub refilled : (capacity rate now : ℕ) → Bucket → ℕ
refilled capacity rate now b = min capacity (b.tokens + (now - b.updated_at) * rate)

-- The script: whether the request is allowed, and the bucket it stores.
unfoldable pub token_bucket : (capacity rate now requested : ℕ) → Option Bucket → Bool × Bucket
token_bucket capacity rate now requested bucket =
    let tokens = refilled capacity rate now (stored capacity now bucket) in
    if leb requested tokens
    then (true, record { tokens = tokens - requested; updated_at = now })
    else (false, record { tokens = tokens; updated_at = now })

-- What a caller of `check_rate_limit` gets: the call returns, or raises with a time to wait.
pub data Limited : Type 0 where
  admitted : Limited
  exceeded : (retry_after : ℕ) → Limited

-- `available` is false when Redis cannot be reached: the request is let through and nothing is
-- stored. Redis truncates the tokens that the script returns to whole ones, of `scale` units each.
-- `floor` is the 0.1 seconds in ticks; the quotient rounds down here.
unfoldable pub check_rate_limit :
    (available : Bool) (scale floor capacity rate now cost : ℕ)
    → Option Bucket
    → Option Bucket × Limited
check_rate_limit available scale floor capacity rate now cost bucket =
    if available
    then (let (allowed, after) = token_bucket capacity rate now cost bucket in
        let remaining = after.tokens / scale * scale in
        (
          some after,
          if allowed then admitted else exceeded (max floor ((cost - remaining) / rate)),
        ))
    else (bucket, admitted)

-- The response of `enforce_rate_limit`: status 429 with `Retry-After` in whole seconds.
pub data Response : Type 0 where
  pass : Response
  too_many : (retry_after_header : ℕ) → Response

unfoldable pub enforce_rate_limit :
    (available : Bool) (scale floor ticks_per_second capacity rate now cost : ℕ)
    → Option Bucket
    → Option Bucket × Response
enforce_rate_limit available scale floor ticks_per_second capacity rate now cost bucket =
    let (after, limited) = check_rate_limit available scale floor capacity rate now cost bucket in
    (
      after,
      elim limited [ admitted ↦ pass | exceeded wait ↦ too_many (wait / ticks_per_second + 1) ],
    )

abbrev pub backoff_cap_seconds : ℕ
backoff_cap_seconds = 300

abbrev pub backoff_window_seconds : ℕ
backoff_window_seconds = 900

abbrev pub backoff_free_attempts : ℕ
backoff_free_attempts = 3

-- `_delay_for`; the base is one second.
unfoldable pub delay_for : (failures : ℕ) → ℕ
delay_for failures =
    if leb failures backoff_free_attempts
    then 0
    else min backoff_cap_seconds (2 ^ (failures - backoff_free_attempts))

-- The failures counted under one key and when the key expires.
pub record Counter : Type 0 where
  pub failures : ℕ
  pub expires_at : ℕ

-- What GET gives: a counter whose time is over is gone.
abbrev pub live : (now : ℕ) → Option Counter → Option Counter
live now none = none
live now (some c) = if leb c.expires_at now then none else some c

-- One pass of the loop of `check_login_backoff`: `some n` is the 429 with that `Retry-After`.
-- Nothing is refused when Redis cannot be read.
unfoldable pub check_backoff_key : (available : Bool) (now : ℕ) → Option Counter → Option ℕ
check_backoff_key available now counter =
    if available
    then (elim (live now counter) [
      | none ↦ none
      | some c ↦
          let delay = delay_for c.failures in
          let elapsed = backoff_window_seconds - (c.expires_at - now) in
          if leb delay 0
          then none
          else if ltb elapsed delay
          then some (delay - elapsed + 1)
          else none
    ])
    else none

-- The two counters of a login: the account's and the address's.
pub record LoginCounters : Type 0 where
  pub email : Option Counter
  pub ip : Option Counter

unfoldable pub check_login_backoff :
    (email_available ip_available : Bool) (now : ℕ) → LoginCounters → Option ℕ
check_login_backoff email_available ip_available now c =
    elim (check_backoff_key email_available now c.email) [
      | some wait ↦ some wait
      | none ↦ check_backoff_key ip_available now c.ip
    ]

-- INCR and EXPIRE of one key.
unfoldable pub count_failure : (available : Bool) (now : ℕ) → Option Counter → Option Counter
count_failure available now counter =
    if available
    then some (record {
      failures = elim (live now counter) [ none ↦ 1 | some c ↦ c.failures + 1 ];
      expires_at = now + backoff_window_seconds;
    })
    else counter

unfoldable pub record_login_failure :
    (email_available ip_available : Bool) (now : ℕ) → LoginCounters → LoginCounters
record_login_failure email_available ip_available now c = record {
  email = count_failure email_available now c.email;
  ip = count_failure ip_available now c.ip;
}

-- One DELETE of both keys.
unfoldable pub clear_login_failures : (available : Bool) → LoginCounters → LoginCounters
clear_login_failures available c = if available then (record { email = none; ip = none }) else c
