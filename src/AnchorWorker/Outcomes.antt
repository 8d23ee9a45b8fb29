-- ===== src/AnchorWorker/Outcomes.antt =====
-- anchor_worker/submit.py: what a submission leaves in the database, and when it succeeds.
use trust_chain.Prelude.{
  ℕ, zero, suc, ◌+◌, ◌<◌, ◌≡◌, refl, ap, true, false, Option, none, some, List, [], ◌∷◌, All, inl,
  inr, Bool-cases, Option-cases, ◌==◌, update_where, arith, ◌⊎◌, ◌*◌, max,
}
use trust_chain.Merkle.{Bytes}
use trust_chain.AnchorWorker.Tables.{Db, AnchorBatch, confirmed}
use trust_chain.AnchorWorker.Outbox.{in_batch, set_anchored}
use trust_chain.AnchorWorker.Submission.{
  FeeParams, dynamic, Fraction, FeeHistory, read_history, fee_params, Transaction, Receipt, mined,
  timed_out, LoopEnd, in_block, refused, crashed, Node, mark_submitted, send_attempts,
  finish_submit, submit_batch, confirm_submitted, gas_price_paid, estimate_gas_with_margin, Outcome,
  anchored_for, submit_error, other_error, fresh_priority_fee, bumped,
}
use trust_chain.AnchorWorker.Sending.{send_attempts_induction}

-- The tables that a submission in progress does not touch.
abbrev Untouched : Db → Db → Type 0
Untouched db db' = (db'.outbox ≡ db.outbox) × (db'.steps ≡ db.steps)

send_attempts-Untouched :
    (now batch : ℕ) (f : Fraction) (node : Node) (nonce gas left attempt : ℕ)
    (previous : Option FeeParams) (db : Db)
    → Untouched db (send_attempts now batch f node nonce gas left attempt previous db).0
send_attempts-Untouched now batch f node nonce gas =
    send_attempts_induction now batch f node nonce gas (λ left previous db r. Untouched db r.0)
      (λ left previous db end. (refl, refl))
      (λ left previous db answers fee tx_hash end found. (refl, refl))
      (λ left previous db answers fee tx_hash last sent end found rest. rest)

-- The batch's row after a confirmation.
abbrev pub IsConfirmed : (batch gas_used : ℕ) → Option ℕ → AnchorBatch → Type 0
IsConfirmed batch gas_used price b =
    b.id ≡ batch → (b.status ≡ confirmed) × (b.gas_used ≡ some gas_used) × (b.gas_price_wei ≡ price)

-- The outbox and the batch's row, by how the submission ends.
abbrev pub Means : (batch : ℕ) → Db → Db → Outcome → Type 0
Means batch db db' (anchored_for gas_used price) =
    (db'.outbox ≡ update_where (in_batch batch) set_anchored db.outbox)
    × All (IsConfirmed batch gas_used price) db'.batches
Means batch db db' (submit_error reason) = db'.outbox ≡ db.outbox
Means batch db db' other_error = db'.outbox ≡ db.outbox

confirm-AllConfirmed :
    (now batch : ℕ) (receipt : Receipt) (price : Option ℕ) (db : Db)
    → All
        (IsConfirmed batch receipt.gas_used price)
        (confirm_submitted now batch receipt price db).batches
unfolding confirm_submitted
confirm-AllConfirmed now batch receipt price db = rows db.batches
  where
    rows :
        (bs : List AnchorBatch)
        → All
            (IsConfirmed batch receipt.gas_used price)
            (confirm_submitted now batch receipt price (record db { batches = bs })).batches
    rows [] = tt
    rows (b ∷ bs) = elim (Bool-cases (b.id == batch)) [
      | inl hit ↦ rw (update_where, hit) (λ e. (refl, refl, refl), rows bs)
      | inr other ↦ rw (update_where, other) (λ e. absurd (ground (arith, other, e)), rows bs)
    ]

finish_submit-Means :
    (now batch : ℕ) (node : Node) (db db' : Db) (sent : List Transaction) (end : LoopEnd)
    → Untouched db db'
    → let r = finish_submit now batch node (db', sent, end) in
      Means batch db r.0 r.2 × (r.0.steps ≡ db.steps)
unfolding finish_submit
finish_submit-Means now batch node db db' sent (refused reason) u = u
finish_submit-Means now batch node db db' sent crashed u = u
finish_submit-Means now batch node db db' sent (in_block tx_hash receipt) (outbox, steps) =
    elim (Bool-cases (receipt.status == 1)) [
      | inl good ↦ elim (Option-cases (gas_price_paid node tx_hash receipt)) [
        | inl raised ↦ rw (finish_submit, good, raised) (outbox, steps)
        | inr (price, e) ↦
            rw (finish_submit, good, e)
              (
                (
                  ap (update_where (in_batch batch) set_anchored) outbox,
                  confirm-AllConfirmed now batch receipt price db',
                ),
                steps,
              )
      ]
      | inr bad ↦ rw (finish_submit, bad) (outbox, steps)
    ]

-- All or nothing. If a submission succeeds, the outbox is the old one with every row of the batch
-- anchored, and every batch row with its id is confirmed with the gas that is reported; if it
-- raises, with a SubmitError or another exception, the outbox is as it was. The steps are
-- never changed.
pub submit_batch-outcome :
    (now max_attempts : ℕ) (f : Fraction) (node : Node) (batch : ℕ) (db : Db)
    → let r = submit_batch now max_attempts f node batch db in
      Means batch db r.0 r.2 × (r.0.steps ≡ db.steps)
unfolding submit_batch
submit_batch-outcome now max_attempts f node batch db = elim (Option-cases node.transaction_count) [
  | inl raised ↦ rw (submit_batch, raised) (refl, refl)
  | inr (nonce, e) ↦
      let gas = estimate_gas_with_margin node.gas_estimate in
      let (db', sent, end) = send_attempts now batch f node nonce gas max_attempts 1 none db in
      rw (submit_batch, e)
        (finish_submit-Means now batch node db db' sent end
          (send_attempts-Untouched now batch f node nonce gas max_attempts 1 none db))
]

-- A node that reads the fee history and sends at every attempt.
pub record Healthy (node : Node) : Type 0 where
  pub base_fee : ℕ → ℕ
  pub history : ℕ → FeeHistory
  pub reads :
      (attempt : ℕ) → read_history (node.fees attempt) ≡ some (base_fee attempt, history attempt)
  pub tx_hash : ℕ → Transaction → Bytes
  pub sends : (attempt : ℕ) (tx : Transaction) → node.send attempt tx ≡ some (tx_hash attempt tx)

-- No fee yet, or one of the mode with two parts.
abbrev IsDynamic : Option FeeParams → Type 0
IsDynamic previous = (previous ≡ none) ⊎ ((p : ℕ) × (m : ℕ) × (previous ≡ some (dynamic p m)))

dynamic_fee :
    (f : Fraction) (node : Node) (attempt : ℕ) (previous : Option FeeParams)
    → Healthy node
    → IsDynamic previous
    → (p : ℕ) × (m : ℕ) × (fee_params f (node.fees attempt) previous ≡ some (dynamic p m))
unfolding fee_params
dynamic_fee f node attempt previous h (inl e) =
    let fresh = fresh_priority_fee (h.history attempt) in
    (fresh, h.base_fee attempt * 2 + fresh, rw (fee_params, h.reads attempt, e) refl)
dynamic_fee f node attempt previous h (inr (p, m, e)) =
    let priority = max (bumped f p) (fresh_priority_fee (h.history attempt)) in
    (
      priority,
      max (bumped f m) (h.base_fee attempt * 2 + priority),
      rw (fee_params, h.reads attempt, e) refl,
    )

in_time :
    (now batch : ℕ) (f : Fraction) (node : Node) (nonce gas : ℕ) (receipt : Receipt)
    (waits left attempt : ℕ) (previous : Option FeeParams) (db : Db)
    → Healthy node
    → IsDynamic previous
    → waits < left
    → ((a : ℕ) (h : Bytes) → a < attempt + waits → node.wait a h ≡ timed_out)
    → ((h : Bytes) → node.wait (attempt + waits) h ≡ mined receipt)
    → (tx_hash : Bytes) × ((send_attempts now batch f node nonce gas left attempt previous db).2
        ≡ in_block tx_hash receipt)
unfolding send_attempts
in_time now batch f node nonce gas receipt waits zero attempt previous db h d l late good =
    absurd (omega arith)
in_time now batch f node nonce gas receipt zero (suc left) attempt previous db h d l late good =
    let (p, m, fee) = dynamic_fee f node attempt previous h d in
    let tx : Transaction = record { nonce = nonce; gas = gas; fee = dynamic p m } in
    let here_now : attempt + 0 ≡ attempt = omega arith in
    let mined_now : node.wait attempt (h.tx_hash attempt tx) ≡ mined receipt =
      rw here_now at (good (h.tx_hash attempt tx)) in
    (h.tx_hash attempt tx, rw (send_attempts, fee, h.sends attempt tx, mined_now) refl)
in_time now batch f node nonce gas receipt (suc waits) (suc left) attempt previous db h d l late
      good =
    let (p, m, fee) = dynamic_fee f node attempt previous h d in
    let tx : Transaction = record { nonce = nonce; gas = gas; fee = dynamic p m } in
    let not_yet : node.wait attempt (h.tx_hash attempt tx) ≡ timed_out =
      late attempt (h.tx_hash attempt tx) (omega arith) in
    let more : (left == 0) ≡ false = ground arith in
    let shift : attempt + suc waits ≡ (attempt + 1) + waits = omega arith in
    let (tx_hash, e) =
      in_time now batch f node nonce gas receipt waits left (attempt + 1) (some (dynamic p m))
        (mark_submitted now (h.tx_hash attempt tx) batch db) h (inr (p, m, refl)) (omega arith)
        (λ a x b. late a x (omega arith)) (rw shift at good) in
    (tx_hash, rw (send_attempts, fee, h.sends attempt tx, not_yet, more) e)

finish_submit-confirms :
    (now batch price : ℕ) (node : Node) (tx_hash : Bytes) (receipt : Receipt) (db : Db)
    (sent : List Transaction) (end : LoopEnd)
    → end ≡ in_block tx_hash receipt
    → receipt.status ≡ 1
    → receipt.effective_gas_price ≡ some price
    → (finish_submit now batch node (db, sent, end)).2 ≡ anchored_for receipt.gas_used (some price)
unfolding finish_submit
finish_submit-confirms now batch price node tx_hash receipt db sent end e status priced =
    let good : (receipt.status == 1) ≡ true = ground (arith, status) in
    rw (e, finish_submit, good, gas_price_paid, priced) refl

-- A healthy node confirms in the end. If the node knows its nonce, reads the fee history and
-- sends at every attempt, the waits before some attempt within the limit time out, and that
-- attempt's transaction is mined with status 1 and a gas price, then the submission succeeds with
-- the gas of that receipt.
pub submit_batch-confirms :
    (now max_attempts : ℕ) (f : Fraction) (node : Node) (batch nonce waits price : ℕ)
    (receipt : Receipt) (db : Db)
    → node.transaction_count ≡ some nonce
    → Healthy node
    → waits < max_attempts
    → ((a : ℕ) (h : Bytes) → a < 1 + waits → node.wait a h ≡ timed_out)
    → ((h : Bytes) → node.wait (1 + waits) h ≡ mined receipt)
    → receipt.status ≡ 1
    → receipt.effective_gas_price ≡ some price
    → (submit_batch now max_attempts f node batch db).2 ≡ anchored_for receipt.gas_used (some price)
unfolding submit_batch finish_submit
submit_batch-confirms now max_attempts f node batch nonce waits price receipt db counted h l late
      good status priced =
    let gas = estimate_gas_with_margin node.gas_estimate in
    let (tx_hash, e) =
      in_time now batch f node nonce gas receipt waits max_attempts 1 none db h (inl refl) l late
        good in
    let r = send_attempts now batch f node nonce gas max_attempts 1 none db in
    rw (submit_batch, counted)
      (finish_submit-confirms now batch price node tx_hash receipt r.0 r.1 r.2 e status priced)
