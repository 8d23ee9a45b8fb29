-- ===== src/RateLimit/Tests.antt =====
-- A bucket of ten tokens, on which the bound of its requests is applied.
use trust_chain.Prelude.{refl, [], List, ◌∷◌, ◌+◌, ◌≡◌, ◌≤◌, ◌*◌, arith}
use trust_chain.RateLimit.{Bucket, token_bucket}
use trust_chain.RateLimit.Refill.{granted_bound, serve, total_wait, Arrival}

abbrev full : Bucket
full = record { tokens = 10; updated_at = 100 }

abbrev requests : List Arrival
requests = (0, 6) ∷ (1, 6) ∷ (1, 6) ∷ []

granted_bound_example :
    let (granted, last) = serve 10 2 requests full in
    (granted + last.tokens ≤ 10 + total_wait requests * 2)
    × (last.tokens ≤ 10)
    × (last.updated_at ≡ 100 + total_wait requests)
granted_bound_example = granted_bound 10 2 requests full (omega arith)

-- Three requests of six: the second comes before the refill is enough.
grants : (serve 10 2 requests full).0 ≡ 12
unfolding token_bucket
grants = refl
