-- ===== src/RateLimit/Refill.antt =====
-- How much a bucket lets through.
use trust_chain.Prelude.{
  ℕ, Bool, true, false, some, List, [], ◌∷◌, arith, inl, inr, ◌+◌, ◌*◌, ◌≤◌, if◌then◌else◌, ◌≡◌,
  ◌-◌, Bool-cases, leb, min, ap,
}
use trust_chain.RateLimit.{Bucket, token_bucket, refilled}

-- A request: the ticks since the one before it, and its cost.
abbrev pub Arrival : Type 0
Arrival = ℕ × ℕ

abbrev pub cost_if : Bool → ℕ → ℕ
cost_if allowed cost = if allowed then cost else 0

-- The cost granted to the requests one after the other, and the bucket afterwards.
abbrev pub serve : (capacity rate : ℕ) → List Arrival → Bucket → ℕ × Bucket
serve capacity rate [] b = (0, b)
serve capacity rate ((wait, cost) ∷ rest) b =
    let (allowed, after) = token_bucket capacity rate (b.updated_at + wait) cost (some b) in
    let (granted, last) = serve capacity rate rest after in (cost_if allowed cost + granted, last)

abbrev pub total_wait : List Arrival → ℕ
total_wait [] = 0
total_wait ((wait, cost) ∷ rest) = wait + total_wait rest

spend :
    (tokens cost now : ℕ)
    → let r : Bool × Bucket =
        if leb cost tokens
        then (true, record { tokens = tokens - cost; updated_at = now })
        else (false, record { tokens = tokens; updated_at = now }) in
      (cost_if (r.0) cost + r.1.tokens ≤ tokens) × (r.1.tokens ≤ tokens) × (r.1.updated_at ≡ now)
spend tokens cost now = elim (Bool-cases (leb cost tokens)) [
  | inl enough ↦ (ground (arith, enough), ground (arith, enough), ground (arith, enough))
  | inr short ↦ (ground (arith, short), ground (arith, short), ground (arith, short))
]

-- One request: what is granted and what is left come out of what was there and the refill, the
-- bucket stays within its capacity, and it is stamped with the time of the request.
one_request :
    (capacity rate wait cost : ℕ) (b : Bucket)
    → b.tokens ≤ capacity
    → let (allowed, after) = token_bucket capacity rate (b.updated_at + wait) cost (some b) in
      (cost_if allowed cost + after.tokens ≤ b.tokens + wait * rate)
      × (after.tokens ≤ capacity)
      × (after.updated_at ≡ b.updated_at + wait)
unfolding token_bucket
one_request capacity rate wait cost b h =
    let same : (b.updated_at + wait) - b.updated_at ≡ wait = omega arith in
    let refill : refilled capacity rate (b.updated_at + wait) b
        ≡ min capacity (b.tokens + wait * rate) =
      ap (λ e. min capacity (b.tokens + e * rate)) same in
    let (spent, less, stamped) =
      spend (refilled capacity rate (b.updated_at + wait) b) cost (b.updated_at + wait) in
    (omega (arith, spent, refill), omega (arith, less, refill), stamped)

-- The bucket bounds the spending. Of a bucket within its capacity, any sequence of requests, each
-- some ticks after the one before, is granted at most the tokens that were there and the refill of
-- the time that passed; the bucket stays within its capacity.
pub granted_bound :
    (capacity rate : ℕ) (requests : List Arrival) (b : Bucket)
    → b.tokens ≤ capacity
    → let (granted, last) = serve capacity rate requests b in
      (granted + last.tokens ≤ b.tokens + total_wait requests * rate)
      × (last.tokens ≤ capacity)
      × (last.updated_at ≡ b.updated_at + total_wait requests)
granted_bound capacity rate [] b h = (omega arith, h, omega arith)
granted_bound capacity rate ((wait, cost) ∷ rest) b h =
    let (spent, within, stamped) = one_request capacity rate wait cost b h in
    let (granted, kept, last) =
      granted_bound capacity rate rest
        (token_bucket capacity rate (b.updated_at + wait) cost (some b)).1 within in
    let shared : (wait + total_wait rest) * rate ≡ wait * rate + total_wait rest * rate =
      grind arith in
    (omega (arith, spent, granted, shared), kept, omega (arith, stamped, last))
