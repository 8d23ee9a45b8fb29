-- ===== src/AnchorWorker/Sending.antt =====
-- anchor_worker/submit.py: the cases of the loop over the attempts, as a principle of induction.
use trust_chain.Prelude.{
  ℕ, zero, suc, ◌+◌, ◌≡◌, Option, some, List, [], ◌∷◌, inl, inr, Bool-cases, Option-cases, ◌==◌,
}
use trust_chain.Merkle.{Bytes}
use trust_chain.AnchorWorker.Tables.{Db}
use trust_chain.AnchorWorker.Submission.{
  refused, FeeParams, Fraction, FeeAnswers, fee_params, Transaction, Waited-cases, Node, LoopEnd,
  mark_submitted, send_attempts, crashed, build_or_send, in_block, timeout,
}

-- A property of the loop's result holds if it holds where nothing is sent, where one transaction
-- is sent and ends the loop, and where one is sent in front of the rest of the loop.
pub send_attempts_induction :
    (now batch : ℕ) (f : Fraction) (node : Node) (nonce gas : ℕ)
    (P : ℕ → Option FeeParams → Db → Db × List Transaction × LoopEnd → Type 0)
    → ((left : ℕ) (previous : Option FeeParams) (db : Db) (end : LoopEnd)
        → P left previous db (db, [], end))
    → ((left : ℕ) (previous : Option FeeParams) (db : Db) (answers : FeeAnswers) (fee : FeeParams)
          (tx_hash : Bytes) (end : LoopEnd)
        → fee_params f answers previous ≡ some fee
        → P (suc left) previous db (
          mark_submitted now tx_hash batch db,
          record { nonce = nonce; gas = gas; fee = fee } ∷ [],
          end,
        ))
    → ((left : ℕ) (previous : Option FeeParams) (db : Db) (answers : FeeAnswers) (fee : FeeParams)
          (tx_hash : Bytes) (last : Db) (sent : List Transaction) (end : LoopEnd)
        → fee_params f answers previous ≡ some fee
        → P left (some fee) (mark_submitted now tx_hash batch db) (last, sent, end)
        → P
            (suc left)
            previous
            db
            (last, record { nonce = nonce; gas = gas; fee = fee } ∷ sent, end))
    → (left attempt : ℕ) (previous : Option FeeParams) (db : Db)
    → P left previous db (send_attempts now batch f node nonce gas left attempt previous db)
unfolding send_attempts
send_attempts_induction now batch f node nonce gas P stop one more zero attempt previous db =
    stop zero previous db crashed
send_attempts_induction now batch f node nonce gas P stop one more (suc left) attempt previous db =
    elim (Option-cases (fee_params f (node.fees attempt) previous)) [
      | inl raised ↦
          rw (send_attempts, raised) (stop (suc left) previous db (refused build_or_send))
      | inr (fee, found) ↦
          let tx : Transaction = record { nonce = nonce; gas = gas; fee = fee } in
          let answers = node.fees attempt in
          elim (Option-cases (node.send attempt tx)) [
            | inl raised ↦
                rw (send_attempts, found, raised)
                  (stop (suc left) previous db (refused build_or_send))
            | inr (tx_hash, sent) ↦ elim (Waited-cases (node.wait attempt tx_hash)) [
              | inl (receipt, e) ↦
                  rw (send_attempts, found, sent, e)
                    (one left previous db answers fee tx_hash (in_block tx_hash receipt) found)
              | inr (inr e) ↦
                  rw (send_attempts, found, sent, e)
                    (one left previous db answers fee tx_hash crashed found)
              | inr (inl e) ↦ elim (Bool-cases (left == 0)) [
                | inl done ↦
                    rw (send_attempts, found, sent, e, done)
                      (one left previous db answers fee tx_hash (refused timeout) found)
                | inr again ↦
                    rw (send_attempts, found, sent, e, again)
                      (more left previous db answers fee tx_hash _ _ _ found (
                        send_attempts_induction now batch f node nonce gas P stop one more left
                          (attempt + 1) (some fee) (mark_submitted now tx_hash batch db)))
              ]
            ]
          ]
    ]
