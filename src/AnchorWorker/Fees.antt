-- ===== src/AnchorWorker/Fees.antt =====
-- anchor_worker/submit.py: the fees of the replacements of one transaction.
use mathlib.Core.Option.{none-ne-some, some-injective}
use trust_chain.Prelude.{
  ℕ, suc, ◌+◌, ◌≤◌, ◌≡◌, refl, Option, none, some, List, [], ◌∷◌, length, All, inl, inr, Bool-cases,
  Option-cases, ◌==◌, arith, ◌*◌, false,
}
use trust_chain.Merkle.{Bytes}
use trust_chain.AnchorWorker.Tables.{Db}
use trust_chain.AnchorWorker.Sending.{send_attempts_induction}
use trust_chain.AnchorWorker.Submission.{
  FeeParams, dynamic, legacy, Fraction, bumped, FeeHistory, FeeAnswers, read_history, fee_params,
  Transaction, timed_out, Node, build_or_send, LoopEnd, refused, send_attempts,
  estimate_gas_with_margin, submit_error, finish_submit, submit_batch, in_block, gas_price_paid,
  crashed, fresh_priority_fee,
}

-- A fee of the same mode, each part at least the bumped part of the old one.
abbrev pub Above : Fraction → FeeParams → FeeParams → Type 0
Above f (dynamic p m) (dynamic p' m') = (bumped f p ≤ p') × (bumped f m ≤ m')
Above f (dynamic p m) (legacy g) = ⊥
Above f (legacy g) (dynamic p m) = ⊥
Above f (legacy g) (legacy g') = bumped f g ≤ g'

-- Each fee is above the one sent before it, if there is one.
abbrev pub Rising : Fraction → Option FeeParams → List Transaction → Type 0
Rising f previous [] = Unit
Rising f none (tx ∷ sent) = Rising f (some tx.fee) sent
Rising f (some old) (tx ∷ sent) = Above f old tx.fee × Rising f (some tx.fee) sent

fee_params-Above :
    (f : Fraction) (answers : FeeAnswers) (old fee : FeeParams)
    → fee_params f answers (some old) ≡ some fee
    → Above f old fee
unfolding fee_params
fee_params-Above f answers (dynamic p m) fee h = elim (Option-cases (read_history answers)) [
  | inl gone ↦ elim (Option-cases answers.gas_price) [
    | inl e ↦ absurd (none-ne-some _ (rw (fee_params, gone, e) at h))
    | inr (price, e) ↦ absurd (none-ne-some _ (rw (fee_params, gone, e) at h))
  ]
  | inr ((base, history), e) ↦
      rw (← some-injective _ _ (rw (fee_params, e) at h)) (omega arith, omega arith)
]
fee_params-Above f answers (legacy g) fee h = elim (Option-cases (read_history answers)) [
  | inl gone ↦ elim (Option-cases answers.gas_price) [
    | inl e ↦ absurd (none-ne-some _ (rw (fee_params, gone, e) at h))
    | inr (price, e) ↦ rw (← some-injective _ _ (rw (fee_params, gone, e) at h)) (omega arith)
  ]
  | inr ((base, history), e) ↦ absurd (none-ne-some _ (rw (fee_params, e) at h))
]

fee_params-Rising :
    (f : Fraction) (answers : FeeAnswers) (previous : Option FeeParams) (tx : Transaction)
    (sent : List Transaction)
    → fee_params f answers previous ≡ some tx.fee
    → Rising f (some tx.fee) sent
    → Rising f previous (tx ∷ sent)
fee_params-Rising f answers none tx sent h rising = rising
fee_params-Rising f answers (some old) tx sent h rising =
    (fee_params-Above f answers old tx.fee h, rising)

-- What holds of the transactions of some attempts.
abbrev GoodSends :
    (f : Fraction) (nonce gas left : ℕ) → Option FeeParams → List Transaction → Type 0
GoodSends f nonce gas left previous sent =
    (length sent ≤ left)
    × All (λ tx. (tx.nonce ≡ nonce) × (tx.gas ≡ gas)) sent
    × Rising f previous sent

send_attempts-GoodSends :
    (now batch : ℕ) (f : Fraction) (node : Node) (nonce gas left attempt : ℕ)
    (previous : Option FeeParams) (db : Db)
    → GoodSends f nonce gas left previous
        (send_attempts now batch f node nonce gas left attempt previous db).1
send_attempts-GoodSends now batch f node nonce gas =
    send_attempts_induction now batch f node nonce gas
      (λ left previous db r. GoodSends f nonce gas left previous r.1)
      (λ left previous db end. (omega arith, tt, tt))
      (λ left previous db answers fee tx_hash end found. (
        omega arith,
        ((refl, refl), tt),
        fee_params-Rising f answers previous (record { nonce = nonce; gas = gas; fee = fee }) []
            found tt,
      ))
      (λ left previous db answers fee tx_hash last sent end found (few, same, rising). (
        omega arith,
        ((refl, refl), same),
        fee_params-Rising f answers previous (record { nonce = nonce; gas = gas; fee = fee }) sent
            found rising,
      ))

finish_submit-sent :
    (now batch : ℕ) (node : Node) (db : Db) (sent : List Transaction) (end : LoopEnd)
    → (finish_submit now batch node (db, sent, end)).1 ≡ sent
unfolding finish_submit
finish_submit-sent now batch node db sent (refused reason) = refl
finish_submit-sent now batch node db sent crashed = refl
finish_submit-sent now batch node db sent (in_block tx_hash receipt) =
    elim (Bool-cases (receipt.status == 1)) [
      | inl good ↦ elim (Option-cases (gas_price_paid node tx_hash receipt)) [
        | inl raised ↦ rw (finish_submit, good, raised) refl
        | inr (price, e) ↦ rw (finish_submit, good, e) refl
      ]
      | inr bad ↦ rw (finish_submit, bad) refl
    ]

-- Submitting a batch sends at most the configured number of transactions, all with the nonce that
-- the node reported and the gas limit of the one estimate, and each fee after the first is of the
-- mode of the one before it and in every part at least its bumped part.
pub submit_batch-replaces_by_fee :
    (now max_attempts : ℕ) (f : Fraction) (node : Node) (batch nonce : ℕ) (db : Db)
    → node.transaction_count ≡ some nonce
    → (length (submit_batch now max_attempts f node batch db).1 ≤ max_attempts)
      × All
          (λ tx. (tx.nonce ≡ nonce) × (tx.gas ≡ estimate_gas_with_margin node.gas_estimate))
          (submit_batch now max_attempts f node batch db).1
      × Rising f none (submit_batch now max_attempts f node batch db).1
unfolding submit_batch
submit_batch-replaces_by_fee now max_attempts f node batch nonce db e =
    let gas = estimate_gas_with_margin node.gas_estimate in
    let (db', sent, end) = send_attempts now batch f node nonce gas max_attempts 1 none db in
    rw (submit_batch, e, finish_submit-sent now batch node db' sent end)
      (send_attempts-GoodSends now batch f node nonce gas max_attempts 1 none db)

-- A replacement whose reads of the chain's fees are of another mode is not sent: if the first
-- transaction's fee came from the fee history, it was not mined in time, and the history cannot
-- be read for the second attempt, then the batch fails after one transaction, however many
-- attempts are allowed and whatever the gas price.
pub replacement-needs_fee_history :
    (now left : ℕ) (f : Fraction) (node : Node) (batch nonce base_fee : ℕ) (history : FeeHistory)
    (tx_hash : Bytes) (db : Db)
    → node.transaction_count ≡ some nonce
    → read_history (node.fees 1) ≡ some (base_fee, history)
    → read_history (node.fees 2) ≡ none
    → ((tx : Transaction) → node.send 1 tx ≡ some tx_hash)
    → node.wait 1 tx_hash ≡ timed_out
    → ((submit_batch now (suc (suc left)) f node batch db).2 ≡ submit_error build_or_send)
      × (length (submit_batch now (suc (suc left)) f node batch db).1 ≡ 1)
unfolding submit_batch finish_submit
replacement-needs_fee_history now left f node batch nonce base_fee history tx_hash db counted first
      second sends late =
    let gas = estimate_gas_with_margin node.gas_estimate in
    let fresh = fresh_priority_fee history in
    let fee = dynamic fresh (base_fee * 2 + fresh) in
    let tx : Transaction = record { nonce = nonce; gas = gas; fee = fee } in
    let e1 : fee_params f (node.fees 1) none ≡ some fee = rw (fee_params, first) refl in
    let e2 : fee_params f (node.fees 2) (some fee) ≡ none =
      elim (Option-cases (node.fees 2).gas_price) [
        | inl e ↦ rw (fee_params, second, e) refl
        | inr (price, e) ↦ rw (fee_params, second, e) refl
      ] in
    let more : (suc left == 0) ≡ false = ground arith in
    rw (submit_batch, counted, send_attempts, e1, sends tx, late, e2, more) (refl, refl)
