-- ===== src/AnchorWorker/WorkerTests.antt =====
-- A node, a batch and an iteration on which the theorems about the submission are applied.
use trust_chain.Prelude.{
  ℕ, ◌+◌, ◌≤◌, ◌<◌, ◌≡◌, refl, false, none, some, [], ◌∷◌, All, length, leb, if◌then◌else◌, arith,
}
use trust_chain.Merkle.{Bytes}
use trust_chain.Tenancy.{Organization, find_org, get_org_gas_budget_status}
use trust_chain.AnchorWorker.Tables.{rendered, AnchorOutbox, Step, Db, pending}
use trust_chain.AnchorWorker.Batch.{Batch}
use trust_chain.AnchorWorker.Submission.{
  Fraction, FeeHistory, Receipt, mined, timed_out, Node, submit_batch, submit_error, build_or_send,
  anchored_for,
}
use trust_chain.AnchorWorker.Fees.{
  Rising, submit_batch-replaces_by_fee, replacement-needs_fee_history,
}
use trust_chain.AnchorWorker.Outcomes.{Means, Healthy, submit_batch-outcome, submit_batch-confirms}
use trust_chain.AnchorWorker.Worker.{Settings, Outside, World, process_batches, run_once}
use trust_chain.AnchorWorker.Iteration.{Reaches, run_once-Reaches}
use trust_chain.AnchorWorker.Ceiling.{process_batches-ceiling}

abbrev waiting_row : AnchorOutbox
waiting_row = record {
  id = 1;
  step_id = 11;
  status = pending;
  attempts = 0;
  claimed_by = none;
  claimed_at = none;
  next_attempt_at = 5;
  last_error = none;
  batch_id = none;
  created_at = 5;
}

abbrev a_step : Step
a_step = record {
  id = 11;
  run_id = "run";
  agent_id = "agent";
  step_index = 0;
  action = "fetch";
  input_hash = 1 ∷ [];
  output_hash = 2 ∷ [];
  leaf_hash = rendered (3 ∷ []);
  timestamp = 5;
  anchor_batch_id = none;
  created_at = 5;
  agent_code_hash = none;
  leaf_schema_version = 1;
}

abbrev a_db : Db
a_db = record { outbox = waiting_row ∷ []; batches = []; steps = a_step ∷ [] }

-- 15 %.
abbrev bump : Fraction
bump = record { numerator = 15; denominator = 100 }

abbrev a_receipt : Receipt
a_receipt = record {
  status = 1;
  block_number = 100;
  block_hash = none;
  gas_used = 90_000;
  effective_gas_price = some 20;
  anchor_id = some 4;
}

abbrev a_history : FeeHistory
a_history = record { base_fees = 10 ∷ 12 ∷ []; rewards = 0 ∷ 2 ∷ 3 ∷ [] }

-- The first transaction is not mined in time, a later one is.
abbrev slow_node : Node
slow_node = record {
  transaction_count = some 7;
  gas_estimate = some 100_000;
  fees = λ attempt. record { fee_history = some a_history; gas_price = some 9 };
  send = λ attempt tx. some (attempt ∷ []);
  wait = λ attempt tx_hash. if leb attempt 1 then timed_out else mined a_receipt;
  sent_gas_price = λ tx_hash. none;
}

-- The fee history is read once only.
abbrev flaky_node : Node
flaky_node = record slow_node {
  fees = λ attempt. record {
    fee_history = if leb attempt 1 then some a_history else none;
    gas_price = some 9;
  };
}

submit_batch-replaces_by_fee_example :
    (length (submit_batch 50 3 bump slow_node 1 a_db).1 ≤ 3)
    × All (λ tx. (tx.nonce ≡ 7) × (tx.gas ≡ 120_000)) (submit_batch 50 3 bump slow_node 1 a_db).1
    × Rising bump none (submit_batch 50 3 bump slow_node 1 a_db).1
submit_batch-replaces_by_fee_example =
    submit_batch-replaces_by_fee 50 3 bump slow_node 1 7 a_db refl

replacement-needs_fee_history_example :
    ((submit_batch 50 3 bump flaky_node 1 a_db).2 ≡ submit_error build_or_send)
    × (length (submit_batch 50 3 bump flaky_node 1 a_db).1 ≡ 1)
replacement-needs_fee_history_example =
    replacement-needs_fee_history 50 1 bump flaky_node 1 7 12 a_history (1 ∷ []) a_db refl refl refl
      (λ tx. refl) refl

submit_batch-outcome_example :
    Means 1 a_db
      (submit_batch 50 3 bump slow_node 1 a_db).0
      (submit_batch 50 3 bump slow_node 1 a_db).2
    × ((submit_batch 50 3 bump slow_node 1 a_db).0.steps ≡ a_db.steps)
submit_batch-outcome_example = submit_batch-outcome 50 3 bump slow_node 1 a_db

slow_node-Healthy : Healthy slow_node
slow_node-Healthy = record {
  base_fee = λ attempt. 12;
  history = λ attempt. a_history;
  reads = λ attempt. refl;
  tx_hash = λ attempt tx. attempt ∷ [];
  sends = λ attempt tx. refl;
}

first_late : (a : ℕ) (h : Bytes) → a < 1 + 1 → slow_node.wait a h ≡ timed_out
first_late a h l = ground arith

submit_batch-confirms_example :
    (submit_batch 50 3 bump slow_node 1 a_db).2 ≡ anchored_for 90_000 (some 20)
submit_batch-confirms_example =
    submit_batch-confirms 50 3 bump slow_node 1 7 1 20 a_receipt a_db refl slow_node-Healthy
      (omega arith) first_late (λ h. refl) refl refl

abbrev settings : Settings
settings = record {
  anchor_claim_timeout_seconds = 300;
  anchor_max_attempts = 8;
  idempotency_key_retention_seconds = 86_400;
  anchor_max_batch_size = 256;
  anchor_max_batch_age_seconds = 30;
  anchor_rbf_max_attempts = 3;
  anchor_rbf_fee_bump_fraction = bump;
  anchor_backoff = record { base = 2; cap = 300; scale = 1 };
}

abbrev outside : Outside
outside = record {
  keccak = λ b. b;
  keccak_text = λ text. 1 ∷ [];
  now = 50;
  next_batch_id = 1;
  locked = λ i. false;
  publish = λ b. some "ipfs://x";
  node = λ b. slow_node;
  failure_text = λ b reason. "failed";
  ceiling_text = λ org. "ceiling";
}

-- The organization of the run has spent its budget.
abbrev poor : Organization
poor = record {
  id = 6;
  gas_budget_wei = some 1_000;
  gas_spent_wei = 1_000;
  token_budget = none;
  tokens_spent = 0;
}

abbrev a_world : World
a_world = record {
  db = a_db;
  tenants = record {
    orgs = poor ∷ [];
    projects = record { id = 5; org_id = 6 } ∷ [];
    runs = record { run_id = "run"; project_id = 5 } ∷ [];
  };
  keys = [];
}

run_once-Reaches_example :
    Reaches
      (λ vs. [])
      (λ text. 1 ∷ [])
      settings
      outside
      a_db
      (run_once settings outside "w1" a_world).0.db
run_once-Reaches_example =
    run_once-Reaches (λ vs. []) (λ text. 1 ∷ []) settings outside "w1" a_world

abbrev a_batch : Batch
a_batch = record {
  batch_id = 1;
  run_id = "run";
  run_id_hash = 1 ∷ [];
  merkle_root = 3 ∷ [];
  step_count = 1;
  leaf_order = 11 ∷ [];
  leaf_hashes = rendered (3 ∷ []) ∷ [];
  outbox_ids = 1 ∷ [];
}

process_batches-ceiling_example :
    (find_org 6
        (process_batches settings outside (a_batch ∷ []) (a_world, [], some 0)).0.tenants.orgs
      ≡ some poor)
    × (get_org_gas_budget_status 6
          (process_batches settings outside (a_batch ∷ []) (a_world, [], some 0)).0.tenants.orgs
        ≡ get_org_gas_budget_status 6 (poor ∷ []))
unfolding get_org_gas_budget_status
process_batches-ceiling_example =
    process_batches-ceiling settings outside 6 (a_batch ∷ []) a_world [] (some 0) refl
