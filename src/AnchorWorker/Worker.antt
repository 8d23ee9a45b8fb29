-- ===== src/AnchorWorker/Worker.antt =====
-- anchor_worker/main.py: one iteration of the anchor worker, `run_once`, with all it calls. The
-- clock is read once; the chain, the publisher, the rows locked by others and the texts of errors
-- are arguments. Logs, metrics, traces and the sample of the wallet's balance are left out.
use trust_chain.Prelude.{
  ℕ, ◌+◌, ◌*◌, String, Bool, false, ◌||◌, Option, none, some, List, [], ◌∷◌, ◌++◌, length, leb,
  if◌then◌else◌, select,
}
use trust_chain.Merkle.{Bytes}
use trust_chain.Idempotency.{IdempotencyKey, purge_expired}
use trust_chain.Tenancy.{Tenants, get_org_id_for_run, get_org_gas_budget_status, record_gas_spend}
use trust_chain.AnchorWorker.Tables.{AnchorOutbox, Db}
use trust_chain.AnchorWorker.Outbox.{
  is_pending, claim_batch, reap_stale_claims, Backoff, handle_submit_failure,
  handle_gas_ceiling_skip,
}
use trust_chain.AnchorWorker.Batch.{Batch, build_batches}
use trust_chain.AnchorWorker.Submission.{
  Fraction, Node, Transaction, SubmitReason, Outcome, anchored_for, submit_error, other_error,
  record_evidence, submit_batch,
}

pub record Settings : Type 0 where
  pub anchor_claim_timeout_seconds : ℕ
  pub anchor_max_attempts : ℕ
  pub idempotency_key_retention_seconds : ℕ
  pub anchor_max_batch_size : ℕ
  pub anchor_max_batch_age_seconds : ℕ
  pub anchor_rbf_max_attempts : ℕ
  pub anchor_rbf_fee_bump_fraction : Fraction
  pub anchor_backoff : Backoff

-- What the iteration meets outside the database; nodes and texts can differ from batch to batch.
pub record Outside : Type 0 where
  pub keccak : Bytes → Bytes
  pub keccak_text : String → Bytes
  pub now : ℕ
  pub next_batch_id : ℕ
  pub locked : ℕ → Bool
  pub publish : Batch → Option String
  pub node : (batch : ℕ) → Node
  pub failure_text : (batch : ℕ) → SubmitReason → String
  pub ceiling_text : (org : ℕ) → String

pub record World : Type 0 where
  pub db : Db
  pub tenants : Tenants
  pub keys : List IdempotencyKey

-- The state after some batches, the transactions sent, and the steps anchored; `none` for an
-- exception, which ends the iteration.
abbrev pub Progress : Type 0
Progress = World × List Transaction × Option ℕ

-- The organization of the batch's run, if it is known and over its gas budget.
abbrev pub over_budget : Batch → Tenants → Option ℕ
over_budget b t = elim (get_org_id_for_run b.run_id t) [
  | none ↦ none
  | some org ↦ if (get_org_gas_budget_status org t.orgs).breached then some org else none
]

-- `publish_evidence`: the address is stored before the batch is submitted.
abbrev pub publish_evidence : Outside → Batch → Db → Db
publish_evidence o b db = elim (o.publish b) [
  | none ↦ db
  | some uri ↦ record_evidence uri b.batch_id db
]

-- The gas of a confirmed batch counts against the organization of its run.
abbrev pub charge : Batch → (gas_used : ℕ) → Option ℕ → Tenants → Tenants
charge b gas_used price t = elim (get_org_id_for_run b.run_id t) [
  | none ↦ t
  | some org ↦ elim price [
    | none ↦ t
    | some wei ↦ record t { orgs = record_gas_spend org (gas_used * wei) t.orgs }
  ]
]

-- After `submit_batch`: the `try` block's rest and its handler.
unfoldable pub after_submit :
    Settings → Outside → Batch → World → Db × List Transaction × Outcome → Progress
after_submit s o b w (db, sent, anchored_for gas_used price) =
    (record w { db = db; tenants = charge b gas_used price w.tenants }, sent, some b.step_count)
after_submit s o b w (db, sent, submit_error reason) = (
  record w {
    db =
        handle_submit_failure o.now b.batch_id (o.failure_text b.batch_id reason)
          s.anchor_max_attempts s.anchor_backoff db;
  },
  sent,
  some 0,
)
after_submit s o b w (db, sent, other_error) = (record w { db = db }, sent, none)

-- The body of the loop over the batches.
unfoldable pub process_batch : Settings → Outside → Batch → World → Progress
unfolding after_submit
process_batch s o b w = elim (over_budget b w.tenants) [
  | some org ↦
      (record w { db = handle_gas_ceiling_skip b.batch_id (o.ceiling_text org) w.db }, [], some 0)
  | none ↦ after_submit s o b w (
      submit_batch o.now s.anchor_rbf_max_attempts s.anchor_rbf_fee_bump_fraction
        (o.node b.batch_id) b.batch_id (publish_evidence o b w.db))
]

-- The loop over the batches, with what the one before it gave.
unfoldable pub process_batches : Settings → Outside → List Batch → Progress → Progress
unfolding process_batch
process_batches s o [] p = p
process_batches s o (b ∷ batches) (w, sent, none) = (w, sent, none)
process_batches s o (b ∷ batches) (w, sent, some anchored) =
    let (w', sent', steps) = process_batch s o b w in
    process_batches s o batches
      (w', sent ++ sent', elim steps [ none ↦ none | some n ↦ some (anchored + n) ])

-- `MIN(created_at)`.
abbrev pub oldest_created : List AnchorOutbox → Option ℕ
oldest_created [] = none
oldest_created (r ∷ rows) = elim (oldest_created rows) [
  | none ↦ some r.created_at
  | some t ↦ if leb r.created_at t then some r.created_at else some t
]

-- Whether there is something pending, and it is a full batch or old enough.
abbrev pub should_flush : Settings → (now : ℕ) → List AnchorOutbox → Bool
should_flush s now rows = elim (oldest_created rows) [
  | none ↦ false
  | some oldest ↦
      leb s.anchor_max_batch_size (length rows) || leb (oldest + s.anchor_max_batch_age_seconds) now
]

-- The reaper and the purge, in front of everything.
abbrev pub maintain : Settings → Outside → World → World
maintain s o w = record w {
  db = (reap_stale_claims o.now s.anchor_claim_timeout_seconds s.anchor_max_attempts w.db).0;
  keys = (purge_expired o.now s.idempotency_key_retention_seconds w.keys).0;
}

-- From the claim on.
unfoldable pub claim_and_submit : Settings → Outside → (worker_id : String) → World → Progress
unfolding process_batches
claim_and_submit s o worker_id w =
    let (db, claimed_steps) = claim_batch o.now worker_id o.locked s.anchor_max_batch_size w.db in
    elim claimed_steps [
      | none ↦ (record w { db = db }, [], none)
      | some [] ↦ (record w { db = db }, [], some 0)
      | some (step ∷ steps) ↦
          elim (build_batches o.keccak o.keccak_text o.now o.next_batch_id (step ∷ steps) db) [
            | none ↦ (record w { db = db }, [], none)
            | some (db', batches) ↦ process_batches s o batches (record w { db = db' }, [], some 0)
          ]
    ]

unfoldable pub run_once : Settings → Outside → (worker_id : String) → World → Progress
unfolding claim_and_submit
run_once s o worker_id w =
    let w' = maintain s o w in
    let go = claim_and_submit s o worker_id w' in
    if should_flush s o.now (select (λ (r : AnchorOutbox). is_pending r.status) w'.db.outbox)
    then go
    else (w', [], some 0)
