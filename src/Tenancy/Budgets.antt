-- ===== src/Tenancy/Budgets.antt =====
-- backend/db/tenancy.py: what spending does to the budgets' status.
use trust_chain.Prelude.{
  ℕ, ◌+◌, ◌≤◌, ◌≡◌, ◌≢◌, refl, true, false, some, List, [], ◌∷◌, ◌==◌, inl, inr, Bool-cases,
  Option-cases, arith, some-injective, false≢true, le→leb, leb→le,
}
use trust_chain.Tenancy.{
  Organization, find_org, get_org_gas_budget_status, get_org_token_budget_status, record_gas_spend,
}

-- A charge to one organization is seen in that row alone.
pub find_org-record_gas_spend :
    (i j wei : ℕ) (orgs : List Organization)
    → i ≢ j
    → find_org i (record_gas_spend j wei orgs) ≡ find_org i orgs
unfolding record_gas_spend
find_org-record_gas_spend i j wei [] ne = refl
find_org-record_gas_spend i j wei (o ∷ orgs) ne = elim (Bool-cases (o.id == j)) [
  | inl hit ↦
      let miss : (o.id == i) ≡ false = ground (arith, ne) in
      rw (hit, miss) (find_org-record_gas_spend i j wei orgs ne)
  | inr other ↦ elim (Bool-cases (o.id == i)) [
    | inl mine ↦ rw (other, mine) refl
    | inr theirs ↦ rw (other, theirs) (find_org-record_gas_spend i j wei orgs ne)
  ]
]

charged :
    (i wei : ℕ) (orgs : List Organization) (o : Organization)
    → find_org i orgs ≡ some o
    → find_org i (record_gas_spend i wei orgs)
      ≡ some (record o { gas_spent_wei = o.gas_spent_wei + wei })
unfolding record_gas_spend
charged i wei [] o h = cc
charged i wei (p ∷ orgs) o h = elim (Bool-cases (p.id == i)) [
  | inl hit ↦ rw (hit, ← some-injective _ _ (rw (find_org, hit) at h), find_org, hit) refl
  | inr other ↦ rw (other, find_org, other) (charged i wei orgs o (rw (find_org, other) at h))
]

-- Charges add up and a breach is final: after a charge to an existing organization its gas status
-- has the old spending and the charge as its spending, the same budget, and is breached if it was
-- breached before or the sum has reached the budget; the token status is as it was.
pub record_gas_spend-status :
    (i wei : ℕ) (orgs : List Organization) (o : Organization)
    → find_org i orgs ≡ some o
    → let after = get_org_gas_budget_status i (record_gas_spend i wei orgs) in
      (after.spent ≡ (get_org_gas_budget_status i orgs).spent + wei)
      × (after.budget ≡ (get_org_gas_budget_status i orgs).budget)
      × ((get_org_gas_budget_status i orgs).breached ≡ true → after.breached ≡ true)
      × ((ceiling : ℕ)
          → o.gas_budget_wei ≡ some ceiling
          → ceiling ≤ o.gas_spent_wei + wei
          → after.breached ≡ true)
      × (get_org_token_budget_status i (record_gas_spend i wei orgs)
          ≡ get_org_token_budget_status i orgs)
unfolding get_org_gas_budget_status get_org_token_budget_status
record_gas_spend-status i wei orgs o found =
    rw (get_org_gas_budget_status, get_org_token_budget_status, charged i wei orgs o found, found)
      (
        refl,
        refl,
        λ breached. elim (Option-cases o.gas_budget_wei) [
          | inl e ↦ absurd (false≢true (rw e at breached))
          | inr (ceiling, e) ↦ rw e (le→leb _ _ (omega (arith, leb→le _ _ (rw e at breached))))
        ],
        λ ceiling e reached. rw e (le→leb _ _ reached),
        refl,
      )
