-- ===== src/AnchorWorker/Invariant.antt =====
-- The outbox invariant: how status, attempts and claim time of a row go together, and that every
-- operation of the worker, the indexer and the API keeps it.
use trust_chain.Merkle.{Bytes, AbiValue}
use trust_chain.AnchorWorker.Batch.{
  store_groups, store_batch, Batch, Groups, make_batch, build_batches, group_by_run,
}
use trust_chain.AnchorWorker.Outbox.{
  any_of, reap_stale_claims, handle_submit_failure, handle_gas_ceiling_skip, anchor_rows,
  reconcile_batch_anchored, claim_row, has_id, stale_exhausted, stale_retriable, exhausted_in,
  Backoff, gas_requeue, in_batch, unanchored_in, BatchAnchored, reap_dead, reap_reset, failure_dead,
  retriable_in, set_anchored, failure_requeue, first_outstanding, ClaimedStep,
}
use trust_chain.AnchorWorker.Submission.{Receipt, confirm_submitted}
use trust_chain.AnchorWorker.LogStep.{log_step, StepInput}
use mathlib.Core.Option.{none-ne-some, some-injective}
use trust_chain.Prelude.{
  Option, refl, [], ℕ, ◌≤◌, ◌<◌, ◌≡◌, true, none, is_some, arith, All, String, List, update_where,
  All-update_where, ◌∷◌, Bool-cases, inl, inr, Option-cases, some, ap, All-append, ◌+◌,
}
use trust_chain.AnchorWorker.Tables.{pending, claimed, anchored, dead_letter, AnchorOutbox, Db}

-- A pending row has an attempt left and no claim, a claimed row has used one and carries its
-- claim time, no row has used more than `max_attempts`, and a dead letter has used all.
abbrev pub RowIsValid : (max_attempts : ℕ) → AnchorOutbox → Type 0
RowIsValid m r = elim r.status [
  | pending ↦ (r.attempts < m) × (r.claimed_at ≡ none)
  | claimed ↦ (1 ≤ r.attempts) × (r.attempts ≤ m) × (is_some r.claimed_at ≡ true)
  | anchored ↦ r.attempts ≤ m
  | dead_letter ↦ r.attempts ≡ m
]

abbrev pub IsValid : (max_attempts : ℕ) → Db → Type 0
IsValid m db = All (RowIsValid m) db.outbox

-- What every `store_batch` keeps, the loop keeps.
pub store_groups_induction :
    (keccak : Bytes → Bytes) (keccak_text : String → Bytes) (P : Db → Type 0) (now : ℕ)
    → ((b : Batch) (db : Db) → P db → P (store_batch now b db))
    → (id : ℕ) (groups : Groups) (db db' : Db) (created : List Batch) → P db
    → store_groups keccak keccak_text now id groups db ≡ some (db', created)
    → P db'
unfolding store_groups
store_groups_induction k t P now keep id [] db db' created h e =
    rw (ap (λ (r : Db × List Batch). r.0) (some-injective _ _ e)) at h
store_groups_induction k t P now keep id (g ∷ groups) db db' created h e =
    elim (Option-cases (make_batch k t id g)) [
      | inl raised ↦ absurd (none-ne-some _ (rw (raised, store_groups) at e))
      | inr (b, made) ↦
          elim (Option-cases (store_groups k t now (id + 1) groups (store_batch now b db))) [
            | inl raised ↦ absurd (none-ne-some _ (rw (made, raised, store_groups) at e))
            | inr ((db'', rest), stored) ↦
                let same : db'' ≡ db' =
                  ap (λ (r : Db × List Batch). r.0)
                    (some-injective _ _ (rw (made, stored, store_groups) at e)) in
                rw same at (
                  store_groups_induction k t P now keep (id + 1) groups (store_batch now b db) db''
                    rest (keep b db h) stored)
          ]
    ]

row_bound : (m : ℕ) (r : AnchorOutbox) → RowIsValid m r → r.attempts ≤ m
row_bound m r h = ground arith

module _ (m : ℕ) where
  pub log_step-IsValid :
      (keccak : Bytes → Bytes) (abi_encode : List AbiValue → Bytes)
      (keccak_text solidity_keccak : String → Bytes) (now step_id outbox_id : ℕ) (input : StepInput)
      (db : Db)
      → 1 ≤ m
      → IsValid m db
      → IsValid m
          (log_step keccak abi_encode keccak_text solidity_keccak now step_id outbox_id input db)
  unfolding log_step
  log_step-IsValid k a t s now step_id outbox_id input db p h =
      All-append (RowIsValid m) db.outbox _ h ((p, refl), tt)

  -- A claim of rows that were all pending.
  pub claim_rows-IsValid :
      (now : ℕ) (worker_id : String) (ids : List ℕ) (rows : List AnchorOutbox)
      → All (λ r. any_of r.id ids ≡ true → r.status ≡ pending) rows
      → All (RowIsValid m) rows
      → All (RowIsValid m) (update_where (has_id ids) (claim_row now worker_id) rows)
  claim_rows-IsValid now w ids [] p h = tt
  claim_rows-IsValid now w ids (r ∷ rows) (pr, p) (hr, h) = elim (Bool-cases (any_of r.id ids)) [
    | inl hit ↦ rw hit (one (pr hit) hr, claim_rows-IsValid now w ids rows p h)
    | inr miss ↦ rw miss (hr, claim_rows-IsValid now w ids rows p h)
  ]
    where
      one : r.status ≡ pending → RowIsValid m r → RowIsValid m (claim_row now w r)
      one e v = ground arith

  reap_dead-RowIsValid :
      (now timeout : ℕ) (r : AnchorOutbox)
      → stale_exhausted now timeout m r ≡ true
      → RowIsValid m r
      → RowIsValid m (reap_dead r)
  reap_dead-RowIsValid now timeout r hit v = ground (arith, row_bound m r v)

  reap_reset-RowIsValid :
      (now timeout : ℕ) (r : AnchorOutbox)
      → stale_retriable now timeout m r ≡ true
      → RowIsValid m r
      → RowIsValid m (reap_reset now r)
  reap_reset-RowIsValid now timeout r hit v = ground arith

  pub reap-IsValid :
      (now timeout : ℕ) (db : Db) → IsValid m db → IsValid m (reap_stale_claims now timeout m db).0
  unfolding reap_stale_claims
  reap-IsValid now timeout db h =
      All-update_where (stale_retriable now timeout m) (reap_reset now)
        (reap_reset-RowIsValid now timeout)
        (update_where (stale_exhausted now timeout m) reap_dead db.outbox)
        (All-update_where (stale_exhausted now timeout m) reap_dead
          (reap_dead-RowIsValid now timeout) db.outbox h)

  failure_dead-RowIsValid :
      (batch : ℕ) (error : String) (r : AnchorOutbox)
      → exhausted_in batch m r ≡ true
      → RowIsValid m r
      → RowIsValid m (failure_dead error r)
  failure_dead-RowIsValid batch error r hit v = ground (arith, row_bound m r v)

  failure_requeue-RowIsValid :
      (now batch : ℕ) (b : Backoff) (error : String) (r : AnchorOutbox)
      → retriable_in batch m r ≡ true
      → RowIsValid m r
      → RowIsValid m (failure_requeue now b error r)
  failure_requeue-RowIsValid now batch b error r hit v = ground arith

  pub failure-IsValid :
      (now batch : ℕ) (error : String) (b : Backoff) (db : Db)
      → IsValid m db
      → IsValid m (handle_submit_failure now batch error m b db)
  unfolding handle_submit_failure
  failure-IsValid now batch error b db h =
      All-update_where (retriable_in batch m) (failure_requeue now b error)
        (failure_requeue-RowIsValid now batch b error)
        (update_where (exhausted_in batch m) (failure_dead error) db.outbox)
        (All-update_where (exhausted_in batch m) (failure_dead error)
          (failure_dead-RowIsValid batch error) db.outbox h)

  gas_requeue-RowIsValid :
      (batch : ℕ) (error : String) (r : AnchorOutbox)
      → 1 ≤ m
      → RowIsValid m r
      → RowIsValid m (gas_requeue error r)
  gas_requeue-RowIsValid batch error r p v = ground (arith, row_bound m r v)

  pub gas_skip-IsValid :
      (batch : ℕ) (error : String) (db : Db)
      → 1 ≤ m
      → IsValid m db
      → IsValid m (handle_gas_ceiling_skip batch error db)
  unfolding handle_gas_ceiling_skip
  gas_skip-IsValid batch error db p h =
      All-update_where (in_batch batch) (gas_requeue error)
        (λ r hit. gas_requeue-RowIsValid batch error r p) db.outbox h

  pub anchor_rows-IsValid :
      (batch : ℕ) (rows : List AnchorOutbox)
      → All (RowIsValid m) rows
      → All (RowIsValid m) (anchor_rows batch rows)
  anchor_rows-IsValid batch rows h =
      All-update_where (unanchored_in batch) set_anchored (λ r hit v. row_bound m r v) rows h

  pub confirm-IsValid :
      (now batch : ℕ) (receipt : Receipt) (price : Option ℕ) (db : Db)
      → IsValid m db
      → IsValid m (confirm_submitted now batch receipt price db)
  unfolding confirm_submitted
  confirm-IsValid now batch receipt price db h =
      All-update_where (in_batch batch) set_anchored (λ r hit v. row_bound m r v) db.outbox h

  pub reconcile-IsValid :
      (now : ℕ) (event : BatchAnchored) (db : Db)
      → IsValid m db
      → IsValid m (reconcile_batch_anchored now event db).0
  unfolding reconcile_batch_anchored
  reconcile-IsValid now event db h =
      elim (Option-cases (first_outstanding event.merkle_root db.batches)) [
        | inl no_batch ↦ rw (no_batch, reconcile_batch_anchored) h
        | inr (batch, found) ↦
            rw (found, reconcile_batch_anchored) (anchor_rows-IsValid batch db.outbox h)
      ]

  store_batch-IsValid :
      (now : ℕ) (b : Batch) (db : Db) → IsValid m db → IsValid m (store_batch now b db)
  unfolding store_batch
  store_batch-IsValid now b db h =
      All-update_where (has_id b.outbox_ids) (λ r. record r { batch_id = some b.batch_id })
        (λ r hit v. v) db.outbox h

  pub build_batches-IsValid :
      (keccak : Bytes → Bytes) (keccak_text : String → Bytes) (now id : ℕ)
      (steps : List ClaimedStep) (db db' : Db) (created : List Batch)
      → IsValid m db
      → build_batches keccak keccak_text now id steps db ≡ some (db', created)
      → IsValid m db'
  unfolding build_batches
  build_batches-IsValid k t now id steps db db' created h e =
      store_groups_induction k t (IsValid m) now (λ b d v. store_batch-IsValid now b d v) id
        (group_by_run [] steps) db db' created h e
