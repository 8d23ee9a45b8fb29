-- ===== src/AnchorWorker/Tests.antt =====
-- A small database on which the theorems about the anchor worker are applied.
use trust_chain.AnchorWorker.Batch.{Batch, make_batch, build_batches}
use trust_chain.Prelude.{
  ℕ, refl, [], none, some, true, false, List, ◌∷◌, String, Among, here, there, All, Bool, ◌≡◌,
  arith, ◌≤◌, if◌then◌else◌, length, ◌+◌, leb, eq_col, pos, ◌⊎◌, ◌<◌,
}
use trust_chain.Merkle.{
  Bytes, AbiValue, MerkleTree, build_tree, tree_proof, verify_proof, build_levels, bytes_eq,
  next_level, climb, hash_pair, root,
}
use trust_chain.AnchorWorker.Tables.{
  rendered, fromhex, fromhex_all, AnchorOutbox, AnchorBatch, Step, Db, pending, claimed, failed,
}
use trust_chain.AnchorWorker.Outbox.{
  ClaimedStep, Backoff, BatchAnchored, claimed_ids, any_of, reap_stale_claims,
  handle_submit_failure, claim_row, reconcile_batch_anchored, claim_batch, confirm_batch, stale,
  in_batch, has_id, reap_dead, failure_dead, claimable, reap_reset, failure_requeue,
}
use trust_chain.AnchorWorker.Claims.{claim_batch-oldest_first, claims_disjoint}
use trust_chain.AnchorWorker.Lifecycle.{never_dropped, at_start, followed_by, reaps, IsSound}
use trust_chain.AnchorWorker.Recovery.{reap_recovers, handle_submit_failure-detaches}
use trust_chain.AnchorWorker.BatchProofs.{ReadableStep, make_batch-verifies, build_batches-total}
use trust_chain.AnchorWorker.Reconciliation.{reconcile-reconcile, reconcile-misses_second}
use trust_chain.AnchorWorker.Invariant.{RowIsValid, IsValid}

abbrev outbox_row : (id created_at : ℕ) → AnchorOutbox
outbox_row id created_at = record {
  id = id;
  step_id = id;
  status = pending;
  attempts = 0;
  claimed_by = none;
  claimed_at = none;
  next_attempt_at = created_at;
  last_error = none;
  batch_id = none;
  created_at = created_at;
}

abbrev stale_row : AnchorOutbox
stale_row = record (outbox_row 3 5) {
  status = claimed;
  attempts = 2;
  claimed_at = some 10;
  claimed_by = some "w0";
  batch_id = some 8;
}

abbrev step_row : (id index : ℕ) → Step
step_row id index = record {
  id = id;
  run_id = "run";
  agent_id = "agent";
  step_index = index;
  action = "fetch";
  input_hash = 1 ∷ [];
  output_hash = 2 ∷ [];
  leaf_hash = rendered (id ∷ []);
  timestamp = 5;
  anchor_batch_id = none;
  created_at = 5;
  agent_code_hash = none;
  leaf_schema_version = 1;
}

abbrev batch_row : (id : ℕ) → AnchorBatch
batch_row id = record {
  id = id;
  run_id_hash = 4 ∷ [];
  merkle_root = 9 ∷ [];
  step_count = 1;
  leaf_order = 3 ∷ [];
  status = failed;
  tx_hash = none;
  onchain_anchor_id = none;
  block_number = none;
  block_hash = none;
  evidence_cid = none;
  gas_used = none;
  gas_price_wei = none;
  last_error = none;
  created_at = 5;
  submitted_at = none;
  confirmed_at = none;
}

abbrev database : Db
database = record {
  outbox = outbox_row 1 20 ∷ outbox_row 2 15 ∷ stale_row ∷ [];
  batches = batch_row 7 ∷ batch_row 8 ∷ [];
  steps = step_row 1 0 ∷ step_row 2 1 ∷ step_row 3 2 ∷ [];
}

abbrev three_steps : List ClaimedStep
three_steps =
    record { outbox_id = 1; step = step_row 1 0 }
    ∷ record { outbox_id = 2; step = step_row 2 1 }
    ∷ record { outbox_id = 3; step = step_row 3 2 }
    ∷ []

abbrev event : BatchAnchored
event = record {
  merkle_root = 9 ∷ [];
  transaction_hash = 6 ∷ [];
  block_number = 40;
  block_hash = 7 ∷ [];
  anchor_id = 2;
}

abbrev nothing_locked : ℕ → Bool
nothing_locked _ = false

abbrev delays : Backoff
delays = record { base = 2; cap = 60; scale = 1 }

abbrev join_bytes : Bytes → Bytes
join_bytes b = b

abbrev text_bytes : String → Bytes
text_bytes _ = 1 ∷ []

abbrev encode : List AbiValue → Bytes
encode _ = []

-- The older of the two due rows is claimed first.
claims_older : claimed_ids 30 nothing_locked 1 database.outbox ≡ 2 ∷ []
unfolding claimed_ids
claims_older = refl

claimed_here : any_of 2 (claimed_ids 30 nothing_locked 1 database.outbox) ≡ true
unfolding claimed_ids
claimed_here = refl

database-IsValid : IsValid 2 database
database-IsValid =
    ((omega arith, refl), ((omega arith, refl), ((omega arith, omega arith, refl), tt)))

database-IsSound : IsSound join_bytes encode text_bytes text_bytes 2 database
database-IsSound = (database-IsValid, (refl, (refl, (refl, tt))))

claim_batch-oldest_first_example :
    let ids = claimed_ids 30 nothing_locked 1 database.outbox in
    let after = (claim_batch 30 "w1" nothing_locked 1 database).0.outbox in
    (length ids ≤ 1)
    × ((r : AnchorOutbox)
        → Among r database.outbox
        → (has_id ids r ≡ true)
            × (r.status ≡ pending)
            × (r.next_attempt_at ≤ 30)
            × (nothing_locked r.id ≡ false)
            × Among (claim_row 30 "w1" r) after
          ⊎ (has_id ids r ≡ false) × Among r after)
    × ((r s : AnchorOutbox)
        → Among r database.outbox
        → Among s database.outbox
        → has_id ids r ≡ true
        → has_id ids s ≡ false
        → claimable 30 nothing_locked s ≡ true
        → r.created_at ≤ s.created_at)
claim_batch-oldest_first_example =
    claim_batch-oldest_first 30 "w1" nothing_locked 1 database (refl, (refl, (refl, tt)))

claims_disjoint_example :
    any_of 2
      (claimed_ids 31 nothing_locked 5 (claim_batch 30 "w1" nothing_locked 1 database).0.outbox)
    ≡ false
claims_disjoint_example =
    claims_disjoint 30 31 "w1" nothing_locked nothing_locked 1 5 database 2 claimed_here

never_dropped_example :
    (r' : AnchorOutbox) × Among r' (reap_stale_claims 99 60 2 database).0.outbox
    × (r'.id ≡ 3)
    × RowIsValid 2 r'
never_dropped_example =
    never_dropped join_bytes encode text_bytes text_bytes 2 stale_row (omega arith) database-IsSound
      (followed_by at_start (reaps 99 60 refl)) (there (there (here refl)))

reap_recovers_example :
    let after = (reap_stale_claims 99 60 2 database).0.outbox in
    ((r : AnchorOutbox)
      → Among r database.outbox
      → Among
          (if stale 99 60 r then (if leb 2 r.attempts then reap_dead r else reap_reset 99 r) else r)
          after)
    × ((r : AnchorOutbox)
        → Among r after
        → r.status ≡ claimed
        → (t : ℕ) × (r.claimed_at ≡ some t) × (99 < t + 60))
reap_recovers_example = reap_recovers 99 60 2 database database-IsValid

handle_submit_failure-detaches_example :
    let after = handle_submit_failure 30 8 "reverted" 5 delays database in
    ((r : AnchorOutbox)
      → Among r database.outbox
      → Among
          (if in_batch 8 r
            then (if leb 5 r.attempts
                then failure_dead "reverted" r
                else failure_requeue 30 delays "reverted" r)
            else r)
          after.outbox)
    × All (λ r. in_batch 8 r ≡ false) after.outbox
    × All (λ s. eq_col s.anchor_batch_id 8 ≡ false) after.steps
    × All (λ a. a.id ≡ 8 → a.status ≡ failed) after.batches
handle_submit_failure-detaches_example =
    handle_submit_failure-detaches 30 8 "reverted" 5 delays database

abbrev batched : AnchorOutbox
batched = record (claim_row 30 "w1" (outbox_row 1 20)) { batch_id = some 7 }

abbrev batched_database : Db
batched_database = record database { outbox = batched ∷ outbox_row 2 15 ∷ [] }

abbrev made : Batch
made = record {
  batch_id = 9;
  run_id = "run";
  run_id_hash = 1 ∷ [];
  merkle_root = 1 ∷ 2 ∷ 3 ∷ [];
  step_count = 3;
  leaf_order = 1 ∷ 2 ∷ 3 ∷ [];
  leaf_hashes = rendered (1 ∷ []) ∷ rendered (2 ∷ []) ∷ rendered (3 ∷ []) ∷ [];
  outbox_ids = 1 ∷ 2 ∷ 3 ∷ [];
}

is_made : make_batch join_bytes text_bytes 9 ("run", three_steps) ≡ some made
unfolding make_batch build_tree build_levels next_level climb hash_pair root
is_made = refl

make_batch-verifies_example :
    (leaves : List Bytes) × (leaf : Bytes) × (tree : MerkleTree) × (proof : List Bytes)
    × (fromhex_all made.leaf_hashes ≡ some leaves)
    × (fromhex (rendered (3 ∷ [])) ≡ some leaf)
    × (build_tree join_bytes leaves ≡ some tree)
    × (tree_proof tree (pos 2) ≡ some proof)
    × (verify_proof join_bytes leaf proof made.merkle_root ≡ true)
make_batch-verifies_example =
    make_batch-verifies join_bytes text_bytes 9 "run" three_steps made 2 (rendered (3 ∷ [])) is_made
      refl

build_batches-total_example :
    (All ReadableStep three_steps
      → (r : Db × List Batch) × (build_batches join_bytes text_bytes 30 9 three_steps database
          ≡ some r))
    × ((r : Db × List Batch)
        → build_batches join_bytes text_bytes 30 9 three_steps database ≡ some r
        → All ReadableStep three_steps)
build_batches-total_example = build_batches-total join_bytes text_bytes 30 9 three_steps database

reconcile-reconcile_example :
    let after = (reconcile_batch_anchored 50 event database).0 in
    ((reconcile_batch_anchored 51 event after).1 ≡ false)
    × ((reconcile_batch_anchored 51 event after).0.outbox ≡ after.outbox)
reconcile-reconcile_example = reconcile-reconcile 50 51 event database

-- The retry, batch 8, has the root of the failed batch 7, and the stale row 3.
reconcile-misses_second_example :
    let after = (reconcile_batch_anchored 50 event database).0 in
    Among (confirm_batch 50 event (batch_row 8)) after.batches × Among stale_row after.outbox
unfolding bytes_eq
reconcile-misses_second_example =
    reconcile-misses_second 50 event database 7 (batch_row 8) stale_row refl (there (here refl))
      refl (omega arith) (there (there (here refl))) refl
