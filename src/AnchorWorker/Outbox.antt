-- ===== src/AnchorWorker/Outbox.antt =====
-- The operations on the outbox: anchor_worker/claim.py, reaper.py, main.py's two failure
-- handlers, and indexer/reconcile.py.
-- `now` is the clock's whole seconds.
use trust_chain.Prelude.{
  ℕ, ◌+◌, ◌-◌, ◌*◌, ◌/◌, ◌^◌, String, Bool, true, false, not, ◌&&◌, ◌||◌, Option, none, some, List,
  [], ◌∷◌, map, leb, ltb, ◌==◌, if◌then◌else◌, eq_col, min, max, select, take, update_where,
  sort_by,
}
use trust_chain.Merkle.{Bytes, bytes_eq}
use trust_chain.AnchorWorker.Tables.{
  OutboxStatus, pending, claimed, anchored, dead_letter, AnchorOutbox, BatchStatus, confirmed,
  failed, AnchorBatch, Step, Db,
}

abbrev pub is_pending : OutboxStatus → Bool
is_pending pending = true
is_pending _ = false

abbrev pub is_claimed : OutboxStatus → Bool
is_claimed claimed = true
is_claimed _ = false

abbrev pub is_anchored : OutboxStatus → Bool
is_anchored anchored = true
is_anchored _ = false

abbrev pub is_confirmed : BatchStatus → Bool
is_confirmed confirmed = true
is_confirmed _ = false

-- `id = ANY(:ids)`.
abbrev pub any_of : ℕ → List ℕ → Bool
any_of i [] = false
any_of i (j ∷ ids) = i == j || any_of i ids

abbrev pub has_id : List ℕ → AnchorOutbox → Bool
has_id ids r = any_of r.id ids

-- The WHERE clause of the claim, with the rows that another transaction has locked left out
-- (SKIP LOCKED).
abbrev pub claimable : (now : ℕ) (locked : ℕ → Bool) → AnchorOutbox → Bool
claimable now locked r = is_pending r.status && leb r.next_attempt_at now && not (locked r.id)

-- The CTE `claimed`: the oldest `batch_size` of the claimable rows.
abbrev pub claimed_rows :
    (now : ℕ) (locked : ℕ → Bool) (batch_size : ℕ) → List AnchorOutbox → List AnchorOutbox
claimed_rows now locked batch_size rows =
    take batch_size
      (sort_by (λ (r : AnchorOutbox). r.created_at) (select (claimable now locked) rows))

unfoldable pub claimed_ids :
    (now : ℕ) (locked : ℕ → Bool) (batch_size : ℕ) → List AnchorOutbox → List ℕ
claimed_ids now locked batch_size rows =
    map (λ (r : AnchorOutbox). r.id) (claimed_rows now locked batch_size rows)

abbrev pub claim_row : (now : ℕ) (worker_id : String) → AnchorOutbox → AnchorOutbox
claim_row now worker_id r = record r {
  status = claimed;
  claimed_by = some worker_id;
  claimed_at = some now;
  attempts = r.attempts + 1;
}

-- One element of `claim_batch`'s result.
pub record ClaimedStep : Type 0 where
  pub outbox_id : ℕ
  pub step : Step

abbrev pub find_step : ℕ → List Step → Option Step
find_step i [] = none
find_step i (s ∷ steps) = if s.id == i then some s else find_step i steps

-- The join with `steps_by_id`; `none` is a KeyError.
unfoldable pub join_steps : List Step → List AnchorOutbox → Option (List ClaimedStep)
join_steps steps [] = some []
join_steps steps (r ∷ rows) = elim (find_step r.step_id steps) [
  | none ↦ none
  | some s ↦ elim (join_steps steps rows) [
    | none ↦ none
    | some rest ↦ some (record { outbox_id = r.id; step = s } ∷ rest)
  ]
]

unfoldable pub claim_batch :
    (now : ℕ) (worker_id : String) (locked : ℕ → Bool) (batch_size : ℕ)
    → Db
    → Db × Option (List ClaimedStep)
unfolding join_steps
claim_batch now worker_id locked batch_size db =
    let ids = claimed_ids now locked batch_size db.outbox in
    (
      record db { outbox = update_where (has_id ids) (claim_row now worker_id) db.outbox },
      join_steps db.steps (select (has_id ids) db.outbox),
    )

-- `status = 'claimed' AND claimed_at <= now - timeout`. With whole numbers the comparison is
-- written without the subtraction, which could be negative.
abbrev pub stale : (now timeout : ℕ) → AnchorOutbox → Bool
stale now timeout r =
    is_claimed r.status && elim r.claimed_at [ none ↦ false | some at ↦ leb (at + timeout) now ]

-- The WHERE clauses of the reaper's two statements.
abbrev pub stale_exhausted : (now timeout max_attempts : ℕ) → AnchorOutbox → Bool
stale_exhausted now timeout max_attempts r = stale now timeout r && leb max_attempts r.attempts

abbrev pub stale_retriable : (now timeout max_attempts : ℕ) → AnchorOutbox → Bool
stale_retriable now timeout max_attempts r = stale now timeout r && ltb r.attempts max_attempts

abbrev pub reap_dead : AnchorOutbox → AnchorOutbox
reap_dead r = record r {
  status = dead_letter;
  last_error = some "exceeded max_attempts after stale claim";
}

abbrev pub reap_reset : (now : ℕ) → AnchorOutbox → AnchorOutbox
reap_reset now r = record r {
  status = pending;
  claimed_by = none;
  claimed_at = none;
  next_attempt_at = now;
}

-- What `reap_stale_claims` returns.
pub record Reaped : Type 0 where
  pub reset : List ℕ
  pub dead_lettered : List ℕ

unfoldable pub reap_stale_claims : (now timeout max_attempts : ℕ) → Db → Db × Reaped
reap_stale_claims now timeout max_attempts db =
    let buried = update_where (stale_exhausted now timeout max_attempts) reap_dead db.outbox in
    (
      record db {
        outbox = update_where (stale_retriable now timeout max_attempts) (reap_reset now) buried;
      },
      record {
        reset =
            map (λ (r : AnchorOutbox). r.id)
              (select (stale_retriable now timeout max_attempts) buried);
        dead_lettered =
            map (λ (r : AnchorOutbox). r.id)
              (select (stale_exhausted now timeout max_attempts) db.outbox);
      },
    )

-- `anchor_backoff_base_seconds` and `anchor_backoff_max_seconds`, in units of `1 / scale` seconds.
pub record Backoff : Type 0 where
  pub base : ℕ
  pub cap : ℕ
  pub scale : ℕ

-- FLOOR(LEAST(base * POWER(2, GREATEST(attempts, 1) - 1), max)), in seconds.
unfoldable pub backoff_seconds : Backoff → ℕ → ℕ
backoff_seconds b attempts = min (b.base * 2 ^ (max attempts 1 - 1)) b.cap / b.scale

abbrev pub fail_batch : (batch : ℕ) (error : String) → List AnchorBatch → List AnchorBatch
fail_batch batch error =
    update_where (λ b. b.id == batch) (λ b. record b { status = failed; last_error = some error })

abbrev pub detach_steps : (batch : ℕ) → List Step → List Step
detach_steps batch =
    update_where (λ s. eq_col s.anchor_batch_id batch) (λ s. record s { anchor_batch_id = none })

-- The WHERE clauses on the outbox: by batch, and by the attempts used.
abbrev pub in_batch : (batch : ℕ) → AnchorOutbox → Bool
in_batch batch r = eq_col r.batch_id batch

abbrev pub exhausted_in : (batch max_attempts : ℕ) → AnchorOutbox → Bool
exhausted_in batch max_attempts r = in_batch batch r && leb max_attempts r.attempts

abbrev pub retriable_in : (batch max_attempts : ℕ) → AnchorOutbox → Bool
retriable_in batch max_attempts r = in_batch batch r && ltb r.attempts max_attempts

abbrev pub unanchored_in : (batch : ℕ) → AnchorOutbox → Bool
unanchored_in batch r = in_batch batch r && not (is_anchored r.status)

abbrev pub failure_dead : (error : String) → AnchorOutbox → AnchorOutbox
failure_dead error r = record r { status = dead_letter; last_error = some error; batch_id = none }

abbrev pub failure_requeue : (now : ℕ) (b : Backoff) (error : String) → AnchorOutbox → AnchorOutbox
failure_requeue now b error r = record r {
  status = pending;
  batch_id = none;
  claimed_by = none;
  claimed_at = none;
  next_attempt_at = now + backoff_seconds b r.attempts;
  last_error = some error;
}

unfoldable pub handle_submit_failure :
    (now : ℕ) (batch : ℕ) (error : String) (max_attempts : ℕ) (b : Backoff) → Db → Db
handle_submit_failure now batch error max_attempts b db = record db {
  batches = fail_batch batch error db.batches;
  outbox =
      update_where (retriable_in batch max_attempts) (failure_requeue now b error)
        (update_where (exhausted_in batch max_attempts) (failure_dead error) db.outbox);
  steps = detach_steps batch db.steps;
}

abbrev pub gas_requeue : (error : String) → AnchorOutbox → AnchorOutbox
gas_requeue error r = record r {
  status = pending;
  batch_id = none;
  claimed_by = none;
  claimed_at = none;
  attempts = r.attempts - 1;
  last_error = some error;
}

-- `error` is "org <org_id> gas-spend ceiling reached".
unfoldable pub handle_gas_ceiling_skip : (batch : ℕ) (error : String) → Db → Db
handle_gas_ceiling_skip batch error db = record db {
  batches = fail_batch batch error db.batches;
  outbox = update_where (in_batch batch) (gas_requeue error) db.outbox;
  steps = detach_steps batch db.steps;
}

-- A BatchAnchored event of AgentAuditLogV2.
pub record BatchAnchored : Type 0 where
  pub merkle_root : Bytes
  pub transaction_hash : Bytes
  pub block_number : ℕ
  pub block_hash : Bytes
  pub anchor_id : ℕ

abbrev pub confirm_batch : (now : ℕ) → BatchAnchored → AnchorBatch → AnchorBatch
confirm_batch now event b = record b {
  status = confirmed;
  tx_hash = some event.transaction_hash;
  block_number = some event.block_number;
  block_hash = some event.block_hash;
  onchain_anchor_id = some event.anchor_id;
  confirmed_at = some now;
}

-- `merkle_root = :merkle_root AND status != 'confirmed'`.
abbrev pub outstanding : Bytes → AnchorBatch → Bool
outstanding merkle_root b = bytes_eq b.merkle_root merkle_root && not (is_confirmed b.status)

abbrev pub set_anchored : AnchorOutbox → AnchorOutbox
set_anchored r = record r { status = anchored }

-- The rows of one batch are anchored.
abbrev pub anchor_rows : (batch : ℕ) → List AnchorOutbox → List AnchorOutbox
anchor_rows batch = update_where (unanchored_in batch) set_anchored

-- `result.first()` of the RETURNING clause, in table order.
abbrev pub first_outstanding : Bytes → List AnchorBatch → Option ℕ
first_outstanding merkle_root [] = none
first_outstanding merkle_root (b ∷ batches) =
    if outstanding merkle_root b then some b.id else first_outstanding merkle_root batches

unfoldable pub reconcile_batch_anchored : (now : ℕ) → BatchAnchored → Db → Db × Bool
unfolding bytes_eq
reconcile_batch_anchored now event db =
    let batches =
      update_where (outstanding event.merkle_root) (confirm_batch now event) db.batches in
    elim (first_outstanding event.merkle_root db.batches) [
      | none ↦ (record db { batches = batches }, false)
      | some batch ↦ (record db { batches = batches; outbox = anchor_rows batch db.outbox }, true)
    ]
