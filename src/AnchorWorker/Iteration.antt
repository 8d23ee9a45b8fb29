-- ===== src/AnchorWorker/Iteration.antt =====
-- anchor_worker/main.py: an iteration of the worker as a sequence of the operations on the outbox.
use trust_chain.AnchorWorker.Outbox.{ClaimedStep, claim_batch, is_pending}
use trust_chain.Prelude.{
  ℕ, refl, String, Option, none, some, List, [], ◌∷◌, ◌++◌, inl, inr, Bool-cases, Option-cases,
  ◌==◌, ◌≡◌, select,
}
use trust_chain.Merkle.{Bytes, AbiValue}
use trust_chain.AnchorWorker.Tables.{Db, AnchorOutbox}
use trust_chain.AnchorWorker.Batch.{Batch, build_batches}
use trust_chain.AnchorWorker.Submission.{
  FeeParams, Fraction, Transaction, LoopEnd, in_block, refused, crashed, Node, send_attempts,
  finish_submit, submit_batch, gas_price_paid, estimate_gas_with_margin, Outcome, anchored_for,
  submit_error, other_error,
}
use trust_chain.AnchorWorker.Sending.{send_attempts_induction}
use trust_chain.AnchorWorker.Lifecycle.{
  fails, skips, sends, confirms, publishes, Reach, at_start, followed_by, Reach-trans, reaps,
  batches, claims,
}
use trust_chain.AnchorWorker.Worker.{
  Settings, Outside, World, over_budget, publish_evidence, after_submit, process_batch,
  process_batches, claim_and_submit, run_once, maintain, should_flush,
}

module _ (abi_encode : List AbiValue → Bytes) (solidity_keccak : String → Bytes) (s : Settings)
    (o : Outside) where
  -- Any sequence of the operations, with the worker's hash functions and settings.
  abbrev pub Reaches : Db → Db → Type 0
  Reaches = Reach o.keccak abi_encode o.keccak_text solidity_keccak s.anchor_max_attempts

  send_attempts-Reaches :
      (batch : ℕ) (f : Fraction) (node : Node) (nonce gas left attempt : ℕ)
      (previous : Option FeeParams) (db : Db)
      → Reaches db (send_attempts o.now batch f node nonce gas left attempt previous db).0
  send_attempts-Reaches batch f node nonce gas =
      send_attempts_induction o.now batch f node nonce gas (λ left previous db r. Reaches db r.0)
        (λ left previous db end. at_start)
        (λ left previous db answers fee tx_hash end found.
          followed_by at_start (sends o.now batch tx_hash refl))
        (λ left previous db answers fee tx_hash last sent end found rest.
          Reach-trans o.keccak abi_encode o.keccak_text solidity_keccak s.anchor_max_attempts
            (followed_by at_start (sends o.now batch tx_hash refl)) rest)

  finish_submit-Reaches :
      (batch : ℕ) (node : Node) (db db' : Db) (sent : List Transaction) (end : LoopEnd)
      → Reaches db db'
      → Reaches db (finish_submit o.now batch node (db', sent, end)).0
  unfolding finish_submit
  finish_submit-Reaches batch node db db' sent (refused reason) r = r
  finish_submit-Reaches batch node db db' sent crashed r = r
  finish_submit-Reaches batch node db db' sent (in_block tx_hash receipt) r =
      elim (Bool-cases (receipt.status == 1)) [
        | inl good ↦ elim (Option-cases (gas_price_paid node tx_hash receipt)) [
          | inl raised ↦ rw (finish_submit, good, raised) r
          | inr (price, e) ↦
              rw (finish_submit, good, e) (followed_by r (confirms o.now batch receipt price refl))
        ]
        | inr bad ↦ rw (finish_submit, bad) r
      ]

  submit_batch-Reaches :
      (max_attempts : ℕ) (f : Fraction) (node : Node) (batch : ℕ) (db : Db)
      → Reaches db (submit_batch o.now max_attempts f node batch db).0
  unfolding submit_batch
  submit_batch-Reaches max_attempts f node batch db = elim (Option-cases node.transaction_count) [
    | inl raised ↦ rw (submit_batch, raised) at_start
    | inr (nonce, e) ↦
        let gas = estimate_gas_with_margin node.gas_estimate in
        let (db', sent, end) = send_attempts o.now batch f node nonce gas max_attempts 1 none db in
        rw (submit_batch, e)
          (finish_submit-Reaches batch node db db' sent end
            (send_attempts-Reaches batch f node nonce gas max_attempts 1 none db))
  ]

  after_submit-Reaches :
      (b : Batch) (w : World) (db' : Db) (sent : List Transaction) (outcome : Outcome)
      → Reaches w.db db'
      → Reaches w.db (after_submit s o b w (db', sent, outcome)).0.db
  unfolding after_submit
  after_submit-Reaches b w db' sent (anchored_for used price) r = r
  after_submit-Reaches b w db' sent (submit_error reason) r =
      followed_by r
        (fails o.now b.batch_id (o.failure_text b.batch_id reason) s.anchor_backoff refl)
  after_submit-Reaches b w db' sent other_error r = r

  publish-Reaches : (b : Batch) (db : Db) → Reaches db (publish_evidence o b db)
  publish-Reaches b db = elim (Option-cases (o.publish b)) [
    | inl nothing ↦ rw (publish_evidence, nothing) at_start
    | inr (uri, e) ↦ rw (publish_evidence, e) (followed_by at_start (publishes b.batch_id uri refl))
  ]

  process_batch-Reaches : (b : Batch) (w : World) → Reaches w.db (process_batch s o b w).0.db
  unfolding process_batch
  process_batch-Reaches b w = elim (Option-cases (over_budget b w.tenants)) [
    | inr (org, e) ↦
        rw (process_batch, e) (followed_by at_start (skips b.batch_id (o.ceiling_text org) refl))
    | inl within ↦
        let published = publish_evidence o b w.db in
        let (db', sent, outcome) =
          submit_batch o.now s.anchor_rbf_max_attempts s.anchor_rbf_fee_bump_fraction
            (o.node b.batch_id) b.batch_id published in
        rw (process_batch, within)
          (after_submit-Reaches b w db' sent outcome (
            Reach-trans o.keccak abi_encode o.keccak_text solidity_keccak s.anchor_max_attempts
              (publish-Reaches b w.db)
              (submit_batch-Reaches s.anchor_rbf_max_attempts s.anchor_rbf_fee_bump_fraction
                (o.node b.batch_id) b.batch_id published)))
  ]

  process_batches-Reaches :
      (bs : List Batch) (db : Db) (w : World) (sent : List Transaction) (steps : Option ℕ)
      → Reaches db w.db
      → Reaches db (process_batches s o bs (w, sent, steps)).0.db
  unfolding process_batches
  process_batches-Reaches [] db w sent steps r = r
  process_batches-Reaches (b ∷ bs) db w sent none r = r
  process_batches-Reaches (b ∷ bs) db w sent (some n) r =
      let (w', sent', steps) = process_batch s o b w in
      process_batches-Reaches bs db w' (sent ++ sent') _ (
        Reach-trans o.keccak abi_encode o.keccak_text solidity_keccak s.anchor_max_attempts r
          (process_batch-Reaches b w))

  build_batches-Reaches :
      (db db' : Db) (steps : List ClaimedStep) (created : List Batch) (w : World)
      → build_batches o.keccak o.keccak_text o.now o.next_batch_id steps db ≡ some (db', created)
      → Reaches db (process_batches s o created (record w { db = db' }, [], some 0)).0.db
  build_batches-Reaches db db' steps created w e =
      process_batches-Reaches created db (record w { db = db' }) [] (some 0)
        (followed_by at_start (batches o.now o.next_batch_id steps created e))

  claim_and_submit-Reaches :
      (worker_id : String) (w : World) → Reaches w.db (claim_and_submit s o worker_id w).0.db
  unfolding claim_and_submit
  claim_and_submit-Reaches worker_id w =
      by_claim (claim_batch o.now worker_id o.locked s.anchor_max_batch_size w.db).1 refl
    where
      by_claim :
          (claimed_steps : Option (List ClaimedStep))
          → (claim_batch o.now worker_id o.locked s.anchor_max_batch_size w.db).1 ≡ claimed_steps
          → Reaches w.db (claim_and_submit s o worker_id w).0.db
      by_claim none e =
          rw (claim_and_submit, e)
            (followed_by at_start (claims o.now worker_id o.locked s.anchor_max_batch_size refl))
      by_claim (some []) e =
          rw (claim_and_submit, e)
            (followed_by at_start (claims o.now worker_id o.locked s.anchor_max_batch_size refl))
      by_claim (some (step ∷ steps)) e =
          let db = (claim_batch o.now worker_id o.locked s.anchor_max_batch_size w.db).0 in
          let claimed_first : Reaches w.db db =
            followed_by at_start (claims o.now worker_id o.locked s.anchor_max_batch_size refl) in
          elim (Option-cases
            (build_batches o.keccak o.keccak_text o.now o.next_batch_id (step ∷ steps) db)) [
              | inl raised ↦ rw (claim_and_submit, e, raised) claimed_first
              | inr ((db', created), built) ↦
                  rw (claim_and_submit, e, built)
                    (Reach-trans o.keccak abi_encode o.keccak_text solidity_keccak
                      s.anchor_max_attempts claimed_first
                      (build_batches-Reaches db db' (step ∷ steps) created w built))
            ]

  -- An iteration of the worker, whatever the node, the publisher and the clock give, also when it
  -- ends with an exception, changes the database by a sequence of the operations of the outbox's
  -- step relation, so every invariant of the relation survives it.
  pub run_once-Reaches :
      (worker_id : String) (w : World) → Reaches w.db (run_once s o worker_id w).0.db
  unfolding run_once
  run_once-Reaches worker_id w =
      let w' = maintain s o w in
      let reaped : Reaches w.db w'.db =
        followed_by at_start (reaps o.now s.anchor_claim_timeout_seconds refl) in
      elim (Bool-cases
        (should_flush s o.now (select (λ (r : AnchorOutbox). is_pending r.status) w'.db.outbox))) [
          | inl flush ↦
              rw (run_once, flush)
                (Reach-trans o.keccak abi_encode o.keccak_text solidity_keccak s.anchor_max_attempts
                  reaped (claim_and_submit-Reaches worker_id w'))
          | inr hold ↦ rw (run_once, hold) reaped
        ]
