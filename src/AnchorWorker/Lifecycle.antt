-- ===== src/AnchorWorker/Lifecycle.antt =====
-- Any sequence of the operations, as a step relation on the database, and the ids of its rows.
use trust_chain.AnchorWorker.Batch.{store_batch, build_batches, Batch, group_by_run}
use trust_chain.AnchorWorker.Claims.{
  UniqueIds, claim_batch-IsValid, ids_of, any_of-Among, Among-any_of,
}
use trust_chain.AnchorWorker.Outbox.{
  any_of, claim_batch, reap_stale_claims, ClaimedStep, handle_submit_failure,
  handle_gas_ceiling_skip, reconcile_batch_anchored, Backoff, BatchAnchored, has_id,
  stale_retriable, retriable_in, in_batch, claimed_ids, reap_reset, failure_requeue, gas_requeue,
  first_outstanding, claim_row, stale_exhausted, exhausted_in, reap_dead, failure_dead,
  unanchored_in, set_anchored,
}
use trust_chain.AnchorWorker.Invariant.{
  IsValid, log_step-IsValid, reap-IsValid, failure-IsValid, gas_skip-IsValid, reconcile-IsValid,
  build_batches-IsValid, store_groups_induction, RowIsValid, confirm-IsValid,
}
use trust_chain.AnchorWorker.Submission.{
  Receipt, mark_submitted, confirm_submitted, record_evidence,
}
use trust_chain.AnchorWorker.LogStep.{StepInput, log_step, new_outbox}
use trust_chain.Merkle.{Bytes, AbiValue}
use trust_chain.Prelude.{
  Option, ℕ, refl, [], List, String, ◌≤◌, ◌≡◌, false, Bool, map-update_where, Option-cases, some,
  update_where, inl, ◌∙◌, inr, ◌≢◌, true, ◌++◌, Among, ◌∷◌, arith, Among-All,
}
use trust_chain.AnchorWorker.Tables.{Db, AnchorOutbox}

any_of-append :
    (i : ℕ) (rows : List AnchorOutbox) (r : AnchorOutbox)
    → any_of i (ids_of rows) ≡ false
    → r.id ≢ i
    → any_of i (ids_of (rows ++ r ∷ [])) ≡ false
any_of-append i [] r h ne = ground arith
any_of-append i (s ∷ rows) r h ne = ground (arith, any_of-append i rows r)

any_of-append_old :
    (i : ℕ) (rows : List AnchorOutbox) (r : AnchorOutbox)
    → any_of i (ids_of rows) ≡ true
    → any_of i (ids_of (rows ++ r ∷ [])) ≡ true
any_of-append_old i [] r h = cc
any_of-append_old i (s ∷ rows) r h = ground (arith, any_of-append_old i rows r)

Unique-append :
    (rows : List AnchorOutbox) (r : AnchorOutbox)
    → any_of r.id (ids_of rows) ≡ false
    → UniqueIds rows
    → UniqueIds (rows ++ r ∷ [])
Unique-append [] r h u = (refl, tt)
Unique-append (s ∷ rows) r h (fresh, u) =
    (any_of-append s.id rows r fresh (ground arith), Unique-append rows r (ground arith) u)

ids-claim :
    (now : ℕ) (w : String) (locked : ℕ → Bool) (n : ℕ) (db : Db)
    → ids_of (claim_batch now w locked n db).0.outbox ≡ ids_of db.outbox
unfolding claim_batch
ids-claim now w locked n db =
    map-update_where (λ (r : AnchorOutbox). r.id) (has_id (claimed_ids now locked n db.outbox))
      (claim_row now w) (λ r. refl) db.outbox

ids-reap :
    (now timeout m : ℕ) (db : Db)
    → ids_of (reap_stale_claims now timeout m db).0.outbox ≡ ids_of db.outbox
unfolding reap_stale_claims
ids-reap now timeout m db =
    map-update_where (λ (r : AnchorOutbox). r.id) (stale_retriable now timeout m) (reap_reset now)
      (λ r. refl) (update_where (stale_exhausted now timeout m) reap_dead db.outbox)
    ∙ map-update_where (λ (r : AnchorOutbox). r.id) (stale_exhausted now timeout m) reap_dead
        (λ r. refl) db.outbox

ids-failure :
    (now batch : ℕ) (error : String) (m : ℕ) (b : Backoff) (db : Db)
    → ids_of (handle_submit_failure now batch error m b db).outbox ≡ ids_of db.outbox
unfolding handle_submit_failure
ids-failure now batch error m b db =
    map-update_where (λ (r : AnchorOutbox). r.id) (retriable_in batch m)
      (failure_requeue now b error) (λ r. refl)
      (update_where (exhausted_in batch m) (failure_dead error) db.outbox)
    ∙ map-update_where (λ (r : AnchorOutbox). r.id) (exhausted_in batch m) (failure_dead error)
        (λ r. refl) db.outbox

ids-skip :
    (batch : ℕ) (error : String) (db : Db)
    → ids_of (handle_gas_ceiling_skip batch error db).outbox ≡ ids_of db.outbox
unfolding handle_gas_ceiling_skip
ids-skip batch error db =
    map-update_where (λ (r : AnchorOutbox). r.id) (in_batch batch) (gas_requeue error) (λ r. refl)
      db.outbox

ids-reconcile :
    (now : ℕ) (event : BatchAnchored) (db : Db)
    → ids_of (reconcile_batch_anchored now event db).0.outbox ≡ ids_of db.outbox
unfolding reconcile_batch_anchored
ids-reconcile now event db = elim (Option-cases (first_outstanding event.merkle_root db.batches)) [
  | inl no_batch ↦ rw (no_batch, reconcile_batch_anchored)
  | inr (batch, found) ↦
      rw (found, reconcile_batch_anchored)
        (map-update_where (λ (r : AnchorOutbox). r.id) (unanchored_in batch) set_anchored
          (λ r. refl) db.outbox)
]

ids-confirm :
    (now batch : ℕ) (receipt : Receipt) (price : Option ℕ) (db : Db)
    → ids_of (confirm_submitted now batch receipt price db).outbox ≡ ids_of db.outbox
unfolding confirm_submitted
ids-confirm now batch receipt price db =
    map-update_where (λ (r : AnchorOutbox). r.id) (in_batch batch) set_anchored (λ r. refl)
      db.outbox

ids-store_batch :
    (now : ℕ) (b : Batch) (db : Db) → ids_of (store_batch now b db).outbox ≡ ids_of db.outbox
unfolding store_batch
ids-store_batch now b db =
    map-update_where (λ (r : AnchorOutbox). r.id) (has_id b.outbox_ids)
      (λ r. record r { batch_id = some b.batch_id }) (λ r. refl) db.outbox

ids-build_batches :
    (keccak : Bytes → Bytes) (keccak_text : String → Bytes) (now id : ℕ) (steps : List ClaimedStep)
    (db db' : Db) (created : List Batch)
    → build_batches keccak keccak_text now id steps db ≡ some (db', created)
    → ids_of db'.outbox ≡ ids_of db.outbox
unfolding build_batches
ids-build_batches k t now id steps db db' created e =
    store_groups_induction k t (λ d. ids_of d.outbox ≡ ids_of db.outbox) now
      (λ b d h. ids-store_batch now b d ∙ h) id (group_by_run [] steps) db db' created refl e

module _ (keccak : Bytes → Bytes) (abi_encode : List AbiValue → Bytes)
    (keccak_text solidity_keccak : String → Bytes) (max_attempts : ℕ) where
  -- One operation of the API, of a worker or of the indexer, each in its own transaction.
  pub data Operation (db db' : Db) : Type 0 where
    logged :
        (now step_id outbox_id : ℕ) (input : StepInput)
        → any_of outbox_id (ids_of db.outbox) ≡ false
        → db'
          ≡ log_step keccak abi_encode keccak_text solidity_keccak now step_id outbox_id input db
        → Operation db db'
    claims :
        (now : ℕ) (worker_id : String) (locked : ℕ → Bool) (batch_size : ℕ)
        → db' ≡ (claim_batch now worker_id locked batch_size db).0
        → Operation db db'
    reaps :
        (now timeout : ℕ)
        → db' ≡ (reap_stale_claims now timeout max_attempts db).0
        → Operation db db'
    batches :
        (now next_id : ℕ) (steps : List ClaimedStep) (created : List Batch)
        → build_batches keccak keccak_text now next_id steps db ≡ some (db', created)
        → Operation db db'
    fails :
        (now batch : ℕ) (error : String) (b : Backoff)
        → db' ≡ handle_submit_failure now batch error max_attempts b db
        → Operation db db'
    skips :
        (batch : ℕ) (error : String)
        → db' ≡ handle_gas_ceiling_skip batch error db
        → Operation db db'
    reconciles :
        (now : ℕ) (event : BatchAnchored)
        → db' ≡ (reconcile_batch_anchored now event db).0
        → Operation db db'
    -- The commits of submit_batch, and that of publish_evidence.
    sends :
        (now batch : ℕ) (tx_hash : Bytes)
        → db' ≡ mark_submitted now tx_hash batch db
        → Operation db db'
    confirms :
        (now batch : ℕ) (receipt : Receipt) (price : Option ℕ)
        → db' ≡ confirm_submitted now batch receipt price db
        → Operation db db'
    publishes : (batch : ℕ) (uri : String) → db' ≡ record_evidence uri batch db → Operation db db'

  pub data Reach (db : Db) : Db → Type 0 where
    at_start : Reach db db
    followed_by : {db' db'' : Db} → Reach db db' → Operation db' db'' → Reach db db''

  -- The invariant, with the primary key.
  abbrev pub IsSound : Db → Type 0
  IsSound db = IsValid max_attempts db × UniqueIds db.outbox

  Operation-IsSound : {db db' : Db} → 1 ≤ max_attempts → IsSound db → Operation db db' → IsSound db'
  Operation-IsSound {db} p (v, u) (logged now step_id outbox_id input fresh e) = rw e (
    log_step-IsValid max_attempts keccak abi_encode keccak_text solidity_keccak now step_id
        outbox_id input db p v,
    unfold log_step in
        Unique-append db.outbox
          (new_outbox keccak abi_encode keccak_text solidity_keccak now outbox_id step_id) fresh u,
  )
  Operation-IsSound {db} p (v, u) (claims now w locked n e) =
      rw e
        (claim_batch-IsValid max_attempts now w locked n db u v, rw (ids-claim now w locked n db) u)
  Operation-IsSound {db} p (v, u) (reaps now timeout e) =
      rw e (reap-IsValid max_attempts now timeout db v, rw (ids-reap now timeout max_attempts db) u)
  Operation-IsSound {db} p (v, u) (batches now next_id steps created e) = (
    build_batches-IsValid max_attempts keccak keccak_text now next_id steps db _ created v e,
    rw (ids-build_batches keccak keccak_text now next_id steps db _ created e) u,
  )
  Operation-IsSound {db} p (v, u) (fails now batch error b e) = rw e (
    failure-IsValid max_attempts now batch error b db v,
    rw (ids-failure now batch error max_attempts b db) u,
  )
  Operation-IsSound {db} p (v, u) (skips batch error e) =
      rw e (gas_skip-IsValid max_attempts batch error db p v, rw (ids-skip batch error db) u)
  Operation-IsSound {db} p (v, u) (reconciles now event e) =
      rw e (reconcile-IsValid max_attempts now event db v, rw (ids-reconcile now event db) u)
  Operation-IsSound {db} p h (sends now batch tx_hash e) = rw e h
  Operation-IsSound {db} p (v, u) (confirms now batch receipt price e) = rw e (
    confirm-IsValid max_attempts now batch receipt price db v,
    rw (ids-confirm now batch receipt price db) u,
  )
  Operation-IsSound {db} p h (publishes batch uri e) = rw e h

  -- Under any sequence of operations a sound database stays sound.
  pub Reach-IsSound : {db db' : Db} → 1 ≤ max_attempts → IsSound db → Reach db db' → IsSound db'
  Reach-IsSound p h at_start = h
  Reach-IsSound p h (followed_by reached op) = Operation-IsSound p (Reach-IsSound p h reached) op

  Operation-keeps_id :
      {db db' : Db} (i : ℕ)
      → Operation db db'
      → any_of i (ids_of db.outbox) ≡ true
      → any_of i (ids_of db'.outbox) ≡ true
  Operation-keeps_id {db} i (logged now step_id outbox_id input fresh e) h = rw e (
      unfold log_step in
      any_of-append_old i db.outbox
        (new_outbox keccak abi_encode keccak_text solidity_keccak now outbox_id step_id) h)
  Operation-keeps_id {db} i (claims now w locked n e) h = rw e (rw (ids-claim now w locked n db) h)
  Operation-keeps_id {db} i (reaps now timeout e) h =
      rw e (rw (ids-reap now timeout max_attempts db) h)
  Operation-keeps_id {db} i (batches now next_id steps created e) h =
      rw (ids-build_batches keccak keccak_text now next_id steps db _ created e) h
  Operation-keeps_id {db} i (fails now batch error b e) h =
      rw e (rw (ids-failure now batch error max_attempts b db) h)
  Operation-keeps_id {db} i (skips batch error e) h = rw e (rw (ids-skip batch error db) h)
  Operation-keeps_id {db} i (reconciles now event e) h = rw e (rw (ids-reconcile now event db) h)
  Operation-keeps_id {db} i (sends now batch tx_hash e) h = rw e h
  Operation-keeps_id {db} i (confirms now batch receipt price e) h =
      rw e (rw (ids-confirm now batch receipt price db) h)
  Operation-keeps_id {db} i (publishes batch uri e) h = rw e h

  Reach-keeps_id :
      {db db' : Db} (i : ℕ)
      → Reach db db'
      → any_of i (ids_of db.outbox) ≡ true
      → any_of i (ids_of db'.outbox) ≡ true
  Reach-keeps_id i at_start h = h
  Reach-keeps_id i (followed_by reached op) h = Operation-keeps_id i op (Reach-keeps_id i reached h)

  pub Reach-trans : {db db' db'' : Db} → Reach db db' → Reach db' db'' → Reach db db''
  Reach-trans r at_start = r
  Reach-trans r (followed_by s op) = followed_by (Reach-trans r s) op

  -- No step is silently dropped. If attempts are allowed and the database is sound, then after any
  -- sequence of operations every outbox row is still there under its id, and is in one of the
  -- four states as the invariant says: pending with an attempt left, claimed with its claim time,
  -- anchored, or a dead letter whose attempts are all used.
  pub never_dropped :
      {db db' : Db} (r : AnchorOutbox)
      → 1 ≤ max_attempts
      → IsSound db
      → Reach db db'
      → Among r db.outbox
      → (r' : AnchorOutbox) × Among r' db'.outbox × (r'.id ≡ r.id) × RowIsValid max_attempts r'
  never_dropped {db} {db'} r p h reached m =
      let (r', m', e) =
        any_of-Among r.id db'.outbox (Reach-keeps_id r.id reached (Among-any_of r db.outbox m)) in
      (
        r',
        m',
        e,
        Among-All (RowIsValid max_attempts) r' db'.outbox (Reach-IsSound p h reached).0 m',
      )
