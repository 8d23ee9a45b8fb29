-- ===== src/Rpc/Failover.antt =====
-- Which endpoint serves a request, and when none does.
use trust_chain.Prelude.{
  ℕ, [], none, some, true, false, inl, inr, List, ◌≡◌, ◌∷◌, Bool, ◌⊎◌, arith, Bool-cases,
  Option-cases, ◌≢◌, All, false≢true, sym, ◌∙◌, refl,
}
use trust_chain.Rpc.{
  Endpoint, answered, allow_request, request_from, call_with_retry, make_request, all_open,
  breakers,
}

module _ {R : Type 0} (retries : ℕ) where
  -- The endpoint may be tried now, and one of its attempts gives `r` before the retries run out.
  abbrev pub Answers : R → Endpoint R → Type 0
  Answers r e =
      (allow_request e.asked_at e.breaker ≡ true) × (call_with_retry retries 0 e.attempt ≡ some r)

  -- The endpoint is skipped, or every attempt at it raises.
  abbrev pub Passes : Endpoint R → Type 0
  Passes e =
      (allow_request e.asked_at e.breaker ≡ false) ⊎ (call_with_retry retries 0 e.attempt ≡ none)

  -- `r` is what the first endpoint that answers gives; those before it pass.
  pub data Served (r : R) : List (Endpoint R) → Type 0 where
    first : {e : Endpoint R} {es : List (Endpoint R)} → Answers r e → Served r (e ∷ es)
    later : {e : Endpoint R} {es : List (Endpoint R)} → Passes e → Served r es → Served r (e ∷ es)

  request_from-Served :
      (any : Bool) (es : List (Endpoint R)) (r : R)
      → (request_from retries any es).1 ≡ answered r
      → Served r es
  unfolding request_from
  request_from-Served false [] r h = ground arith
  request_from-Served true [] r h = ground arith
  request_from-Served any (e ∷ es) r h = elim (Bool-cases (allow_request e.asked_at e.breaker)) [
    | inr skipped ↦ later (inl skipped) (request_from-Served any es r (ground (arith, skipped, h)))
    | inl allowed ↦ elim (Option-cases (call_with_retry retries 0 e.attempt)) [
      | inl fails ↦
          later (inr fails) (request_from-Served true es r (ground (arith, allowed, fails, h)))
      | inr (x, gives) ↦ first (allowed, ground (arith, allowed, gives, h))
    ]
  ]

  Served-request_from :
      {r : R} {es : List (Endpoint R)}
      → Served r es
      → (any : Bool) → (request_from retries any es).1 ≡ answered r
  unfolding request_from
  Served-request_from (first (a, b)) any = ground (arith, a, b)
  Served-request_from (later (inl skipped) s) any =
      ground (arith, skipped, Served-request_from s any)
  Served-request_from (later {e = e} (inr fails) s) any =
      ground (arith, fails, Served-request_from s any, Served-request_from s true)

  -- A request returns `r` exactly when the first endpoint whose breaker lets it through and one of
  -- whose attempts gives a response gives `r`: the endpoints before it are skipped or fail.
  pub make_request-serves :
      (es : List (Endpoint R)) (r : R)
      → ((make_request retries es).1 ≡ answered r → Served r es)
        × (Served r es → (make_request retries es).1 ≡ answered r)
  unfolding make_request
  make_request-serves es r = (request_from-Served false es r, λ s. Served-request_from s false)

  abbrev pub IsSkipped : Endpoint R → Type 0
  IsSkipped e = allow_request e.asked_at e.breaker ≡ false

  tried-not_all_open : (es : List (Endpoint R)) → (request_from retries true es).1 ≢ all_open
  unfolding request_from
  tried-not_all_open [] h = ground (arith, h)
  tried-not_all_open (e ∷ es) h = elim (Bool-cases (allow_request e.asked_at e.breaker)) [
    | inr skipped ↦ tried-not_all_open es (ground (arith, skipped, h))
    | inl allowed ↦ elim (Option-cases (call_with_retry retries 0 e.attempt)) [
      | inl fails ↦ tried-not_all_open es (ground (arith, allowed, fails, h))
      | inr (x, gives) ↦ ground (arith, allowed, gives, h)
    ]
  ]

  still_refused :
      (e : Endpoint R) (es : List (Endpoint R))
      → allow_request e.asked_at e.breaker ≡ true
      → (request_from retries false (e ∷ es)).1 ≢ all_open
  unfolding request_from
  still_refused e es allowed h = elim (Option-cases (call_with_retry retries 0 e.attempt)) [
    | inl fails ↦ tried-not_all_open es (ground (arith, allowed, fails, h))
    | inr (x, gives) ↦ ground (arith, allowed, gives, h)
  ]

  -- The error that says every circuit is open is raised exactly when every breaker refuses the
  -- request, and then no breaker changes.
  pub make_request-all_open :
      (es : List (Endpoint R))
      → ((make_request retries es).1 ≡ all_open → All IsSkipped es)
        × (All IsSkipped es → make_request retries es ≡ (breakers es, all_open))
  unfolding make_request request_from
  make_request-all_open [] = (λ _. tt, λ _. refl)
  make_request-all_open (e ∷ es) =
      let (to, from) = make_request-all_open es in
      elim (Bool-cases (allow_request e.asked_at e.breaker)) [
        | inr skipped ↦ (
          λ h. (skipped, to (ground (arith, skipped, h))),
          λ (_, t). ground (arith, skipped, from t),
        )
        | inl allowed ↦ (
          λ h. absurd (still_refused e es allowed h),
          λ (s, _). absurd (false≢true (sym s ∙ allowed)),
        )
      ]
