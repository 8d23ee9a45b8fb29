-- ===== src/AnchorWorker/Submission.antt =====
-- anchor_worker/submit.py and the estimate of blockchain/gas.py: one batch sent to the chain, with
-- replacements at a higher fee. The node is a parameter: what each of its calls answers, `none`
-- where the call raises. A fraction of a fee is a quotient of two numbers, so the rounding of the
-- floats is left out. The signature, the log and the metrics are left out too.
use trust_chain.Prelude.{
  ℕ, zero, suc, ◌+◌, ◌*◌, ◌/◌, max, Option, none, some, List, [], ◌∷◌, length, get_elem?, get_last?,
  select, sort_by, update_where, ltb, ◌==◌, if◌then◌else◌, ◌≡◌, ◌⊎◌, inl, inr, refl, String,
}
use trust_chain.Merkle.{Bytes}
use trust_chain.AnchorWorker.Tables.{submitted, confirmed, AnchorBatch, Db}
use trust_chain.AnchorWorker.Outbox.{in_batch, set_anchored}

-- maxPriorityFeePerGas and maxFeePerGas, or gasPrice.
pub data FeeParams : Type 0 where
  dynamic : (priority_fee max_fee : ℕ) → FeeParams
  legacy : (gas_price : ℕ) → FeeParams

-- `rbf_fee_bump_fraction`.
pub record Fraction : Type 0 where
  pub numerator : ℕ
  pub denominator : ℕ

-- `int(x * (1.0 + rbf_fee_bump_fraction))`.
abbrev pub bumped : Fraction → ℕ → ℕ
bumped f x = x * (f.denominator + f.numerator) / f.denominator

abbrev pub gwei : ℕ
gwei = 1_000_000_000

-- baseFeePerGas, and of each row of reward the first entry.
pub record FeeHistory : Type 0 where
  pub base_fees : List ℕ
  pub rewards : List ℕ

-- The upper median of the positive rewards, at least one gwei.
abbrev pub fresh_priority_fee : FeeHistory → ℕ
fresh_priority_fee history =
    let rewards = sort_by (λ r. r) (select (ltb 0) history.rewards) in
    elim (get_elem? rewards (length rewards / 2)) [ none ↦ gwei | some r ↦ max r gwei ]

-- The two reads of `_fee_params`.
pub record FeeAnswers : Type 0 where
  pub fee_history : Option FeeHistory
  pub gas_price : Option ℕ

-- `history["baseFeePerGas"][-1]`, `none` for any exception.
abbrev pub read_history : FeeAnswers → Option (ℕ × FeeHistory)
read_history answers = elim answers.fee_history [
  | none ↦ none
  | some history ↦ elim (get_last? history.base_fees) [
    | none ↦ none
    | some base_fee ↦ some (base_fee, history)
  ]
]

-- `none` is an exception: a failed read of the gas price, or a KeyError where `previous` lacks the
-- key that is read.
unfoldable pub fee_params : Fraction → FeeAnswers → Option FeeParams → Option FeeParams
fee_params bump answers previous = elim (read_history answers) [
  | some (base_fee, history) ↦
      let fresh = fresh_priority_fee history in
      elim previous [
        | none ↦ some (dynamic fresh (base_fee * 2 + fresh))
        | some (dynamic priority_fee max_fee) ↦
            let priority = max (bumped bump priority_fee) fresh in
            some (dynamic priority (max (bumped bump max_fee) (base_fee * 2 + priority)))
        | some (legacy _) ↦ none
      ]
  | none ↦ elim answers.gas_price [
    | none ↦ none
    | some price ↦ elim previous [
      | none ↦ some (legacy price)
      | some (dynamic _ _) ↦ none
      | some (legacy old) ↦ some (legacy (max (bumped bump old) price))
    ]
  ]
]

pub record Transaction : Type 0 where
  pub nonce : ℕ
  pub gas : ℕ
  pub fee : FeeParams

-- A receipt, with the anchor id that the event in it carries.
pub record Receipt : Type 0 where
  pub status : ℕ
  pub block_number : ℕ
  pub block_hash : Option Bytes
  pub gas_used : ℕ
  pub effective_gas_price : Option ℕ
  pub anchor_id : Option ℕ

-- What waiting for a receipt gives; `wait_failed` is any other exception than the two timeouts.
pub data Waited : Type 0 where
  mined : Receipt → Waited
  timed_out wait_failed : Waited

pub Waited-cases :
    (w : Waited)
    → ((receipt : Receipt) × (w ≡ mined receipt)) ⊎ ((w ≡ timed_out) ⊎ (w ≡ wait_failed))
Waited-cases (mined receipt) = inl (receipt, refl)
Waited-cases timed_out = inr (inl refl)
Waited-cases wait_failed = inr (inr refl)

-- The node, as one call of `submit_batch` meets it; attempts count from 1.
pub record Node : Type 0 where
  pub transaction_count : Option ℕ
  pub gas_estimate : Option ℕ
  pub fees : (attempt : ℕ) → FeeAnswers
  pub send : (attempt : ℕ) → Transaction → Option Bytes
  pub wait : (attempt : ℕ) → Bytes → Waited
  pub sent_gas_price : Bytes → Option (Option ℕ)

-- The reasons of a SubmitError.
pub data SubmitReason : Type 0 where
  build_or_send timeout revert : SubmitReason

-- How the loop over the attempts ends.
pub data LoopEnd : Type 0 where
  in_block : (tx_hash : Bytes) → Receipt → LoopEnd
  refused : SubmitReason → LoopEnd
  crashed : LoopEnd

abbrev pub mark_submitted : (now : ℕ) (tx_hash : Bytes) (batch : ℕ) → Db → Db
mark_submitted now tx_hash batch db = record db {
  batches =
      update_where (λ (b : AnchorBatch). b.id == batch)
        (λ b. record b { status = submitted; tx_hash = some tx_hash; submitted_at = some now })
        db.batches;
}

-- The statement of `publish_evidence` (anchor_worker/main.py).
abbrev pub record_evidence : (content_uri : String) (batch : ℕ) → Db → Db
record_evidence content_uri batch db = record db {
  batches =
      update_where (λ (b : AnchorBatch). b.id == batch)
        (λ b. record b { evidence_cid = some content_uri }) db.batches;
}

-- The loop `for attempt in range(attempt, attempt + left)`: the database, the transactions sent, in
-- order, and the end. Without an attempt left the assertion after the loop fails.
unfoldable pub send_attempts :
    (now batch : ℕ) (bump : Fraction) (node : Node) (nonce gas left attempt : ℕ)
    → Option FeeParams
    → Db
    → Db × List Transaction × LoopEnd
unfolding fee_params
send_attempts now batch bump node nonce gas zero attempt previous db = (db, [], crashed)
send_attempts now batch bump node nonce gas (suc left) attempt previous db =
    elim (fee_params bump (node.fees attempt) previous) [
      | none ↦ (db, [], refused build_or_send)
      | some fee ↦
          let tx : Transaction = record { nonce = nonce; gas = gas; fee = fee } in
          elim (node.send attempt tx) [
            | none ↦ (db, [], refused build_or_send)
            | some tx_hash ↦
                let db' = mark_submitted now tx_hash batch db in
                let (last, sent, end) =
                  send_attempts now batch bump node nonce gas left (attempt + 1) (some fee) db' in
                elim (node.wait attempt tx_hash) [
                  | mined receipt ↦ (db', tx ∷ [], in_block tx_hash receipt)
                  | wait_failed ↦ (db', tx ∷ [], crashed)
                  | timed_out ↦
                      if left == 0 then (db', tx ∷ [], refused timeout) else (last, tx ∷ sent, end)
                ]
          ]
    ]

-- `int(estimated * 1.2)`, or the fallback.
abbrev pub estimate_gas_with_margin : Option ℕ → ℕ
estimate_gas_with_margin none = 300_000
estimate_gas_with_margin (some estimated) = estimated * 12 / 10

-- `receipt.get("effectiveGasPrice")`, or else the sent transaction's price. `none` is an exception.
abbrev pub gas_price_paid : Node → Bytes → Receipt → Option (Option ℕ)
gas_price_paid node tx_hash receipt = elim receipt.effective_gas_price [
  | none ↦ node.sent_gas_price tx_hash
  | some price ↦ some (some price)
]

-- The last two statements.
unfoldable pub confirm_submitted : (now batch : ℕ) → Receipt → Option ℕ → Db → Db
confirm_submitted now batch receipt gas_price_wei db = record db {
  batches =
      update_where (λ (b : AnchorBatch). b.id == batch)
        (λ b. record b {
          status = confirmed;
          block_number = some receipt.block_number;
          block_hash = receipt.block_hash;
          confirmed_at = some now;
          onchain_anchor_id = receipt.anchor_id;
          gas_used = some receipt.gas_used;
          gas_price_wei = gas_price_wei;
        })
        db.batches;
  outbox = update_where (in_batch batch) set_anchored db.outbox;
}

-- What `submit_batch` returns or raises.
pub data Outcome : Type 0 where
  anchored_for : (gas_used : ℕ) (gas_price_wei : Option ℕ) → Outcome
  submit_error : SubmitReason → Outcome
  other_error : Outcome

unfoldable pub finish_submit :
    (now batch : ℕ) (node : Node)
    → Db × List Transaction × LoopEnd
    → Db × List Transaction × Outcome
unfolding confirm_submitted
finish_submit now batch node (db, sent, refused reason) = (db, sent, submit_error reason)
finish_submit now batch node (db, sent, crashed) = (db, sent, other_error)
finish_submit now batch node (db, sent, in_block tx_hash receipt) =
    if receipt.status == 1
    then (elim (gas_price_paid node tx_hash receipt) [
      | none ↦ (db, sent, other_error)
      | some price ↦
          (confirm_submitted now batch receipt price db, sent, anchored_for receipt.gas_used price)
    ])
    else (db, sent, submit_error revert)

unfoldable pub submit_batch :
    (now : ℕ) (max_attempts : ℕ) (bump : Fraction) (node : Node) (batch : ℕ)
    → Db
    → Db × List Transaction × Outcome
unfolding send_attempts finish_submit
submit_batch now max_attempts bump node batch db = elim node.transaction_count [
  | none ↦ (db, [], submit_error build_or_send)
  | some nonce ↦ finish_submit now batch node (
      send_attempts now batch bump node nonce (estimate_gas_with_margin node.gas_estimate)
        max_attempts 1 none db)
]
