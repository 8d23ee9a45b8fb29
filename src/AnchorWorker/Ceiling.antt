-- ===== src/AnchorWorker/Ceiling.antt =====
-- anchor_worker/main.py and db/tenancy.py: what the gas ceiling of an organization keeps out.
use trust_chain.Prelude.{
  ℕ, ◌≡◌, ◌≢◌, refl, sym, ap, ◌∙◌, true, Option, none, some, List, [], ◌∷◌, ◌++◌, inl, inr,
  Option-cases, ◌*◌, none-ne-some,
}
use trust_chain.Tenancy.{
  Organization, Tenants, find_org, get_org_id_for_run, get_org_gas_budget_status,
}
use trust_chain.Tenancy.Budgets.{find_org-record_gas_spend}
use trust_chain.AnchorWorker.Batch.{Batch}
use trust_chain.AnchorWorker.Tables.{Db}
use trust_chain.AnchorWorker.Submission.{
  Transaction, Outcome, anchored_for, submit_error, other_error, submit_batch,
}
use trust_chain.AnchorWorker.Worker.{
  Settings, Outside, World, over_budget, charge, publish_evidence, after_submit, process_batch,
  process_batches,
}

-- The organization is over its budget, in every list of rows with this row for it.
status-find_org :
    (i : ℕ) (xs ys : List Organization)
    → find_org i xs ≡ find_org i ys
    → get_org_gas_budget_status i xs ≡ get_org_gas_budget_status i ys
unfolding get_org_gas_budget_status
status-find_org i xs ys e = rw (get_org_gas_budget_status, e) refl

-- A charge is seen in another organization's row only.
charge-other :
    (i : ℕ) (b : Batch) (gas_used : ℕ) (price : Option ℕ) (t : Tenants)
    → ((org : ℕ) → get_org_id_for_run b.run_id t ≡ some org → i ≢ org)
    → find_org i (charge b gas_used price t).orgs ≡ find_org i t.orgs
charge-other i b gas_used price t other = elim (Option-cases (get_org_id_for_run b.run_id t)) [
  | inl unknown ↦ rw (charge, unknown) refl
  | inr (org, e) ↦ elim (Option-cases price) [
    | inl free ↦ rw (charge, e, free) refl
    | inr (wei, p) ↦
        rw (charge, e, p) (find_org-record_gas_spend i org (gas_used * wei) t.orgs (other org e))
  ]
]

after_submit-other :
    (s : Settings) (o : Outside) (i : ℕ) (b : Batch) (w : World) (db : Db) (sent : List Transaction)
    (outcome : Outcome)
    → ((org : ℕ) → get_org_id_for_run b.run_id w.tenants ≡ some org → i ≢ org)
    → find_org i (after_submit s o b w (db, sent, outcome)).0.tenants.orgs
      ≡ find_org i w.tenants.orgs
unfolding after_submit
after_submit-other s o i b w db sent (anchored_for gas_used price) other =
    charge-other i b gas_used price w.tenants other
after_submit-other s o i b w db sent (submit_error reason) other = refl
after_submit-other s o i b w db sent other_error other = refl

-- A batch within the budget is not of an organization that is over it.
within-other :
    (i : ℕ) (b : Batch) (t : Tenants)
    → (get_org_gas_budget_status i t.orgs).breached ≡ true
    → over_budget b t ≡ none
    → (org : ℕ) → get_org_id_for_run b.run_id t ≡ some org
    → i ≢ org
within-other i b t breached within org e same =
    let over : (get_org_gas_budget_status org t.orgs).breached ≡ true = rw same at breached in
    none-ne-some _ (sym (rw (over_budget, e, over) at within))

process_batch-other :
    (s : Settings) (o : Outside) (i : ℕ) (b : Batch) (w : World)
    → (get_org_gas_budget_status i w.tenants.orgs).breached ≡ true
    → find_org i (process_batch s o b w).0.tenants.orgs ≡ find_org i w.tenants.orgs
unfolding process_batch
process_batch-other s o i b w breached = elim (Option-cases (over_budget b w.tenants)) [
  | inr (org, e) ↦ rw (process_batch, e) refl
  | inl within ↦
      let (db, sent, outcome) =
        submit_batch o.now s.anchor_rbf_max_attempts s.anchor_rbf_fee_bump_fraction
          (o.node b.batch_id) b.batch_id (publish_evidence o b w.db) in
      rw (process_batch, within)
        (after_submit-other s o i b w db sent outcome (within-other i b w.tenants breached within))
]

-- The ceiling holds. An organization that is over its gas budget when the worker starts on its
-- batches is not charged for any of them: after all of them, however the submissions end, its row
-- is the same, and so is its budget's status.
pub process_batches-ceiling :
    (s : Settings) (o : Outside) (i : ℕ) (batches : List Batch) (w : World)
    (sent : List Transaction) (steps : Option ℕ)
    → (get_org_gas_budget_status i w.tenants.orgs).breached ≡ true
    → let after = (process_batches s o batches (w, sent, steps)).0.tenants.orgs in
      (find_org i after ≡ find_org i w.tenants.orgs)
      × (get_org_gas_budget_status i after ≡ get_org_gas_budget_status i w.tenants.orgs)
unfolding process_batches
process_batches-ceiling s o i [] w sent steps breached = (refl, refl)
process_batches-ceiling s o i (b ∷ batches) w sent none breached = (refl, refl)
process_batches-ceiling s o i (b ∷ batches) w sent (some n) breached =
    let row = process_batch-other s o i b w breached in
    let status = status-find_org i (process_batch s o b w).0.tenants.orgs w.tenants.orgs row in
    let (row', status') =
      process_batches-ceiling s o i batches (process_batch s o b w).0
        (sent ++ (process_batch s o b w).1) _ (ap (λ t. t.breached) status ∙ breached) in
    (row' ∙ row, status' ∙ status)
