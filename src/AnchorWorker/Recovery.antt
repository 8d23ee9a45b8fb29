-- ===== src/AnchorWorker/Recovery.antt =====
-- Failure and recovery: what the reaper and the two failure handlers do to each row.
use trust_chain.AnchorWorker.Invariant.{RowIsValid, IsValid}
use native.Mathlib.Nat.{pow-le-pow_right}
use trust_chain.AnchorWorker.Outbox.{
  backoff_seconds, Backoff, stale, stale_exhausted, reap_dead, stale_retriable, reap_reset,
  reap_stale_claims, handle_submit_failure, in_batch, retriable_in, exhausted_in, failure_dead,
  failure_requeue, claim_row, gas_requeue, detach_steps, fail_batch, handle_gas_ceiling_skip,
}
use trust_chain.Prelude.{
  ℕ, refl, ◌≤◌, ◌≡◌, ◌/◌, false, ◌+◌, min, true, ◌<◌, arith, ◌^◌, ◌*◌, if◌then◌else◌, max, leb, ◌-◌,
  some, Among, List, update_where, Option-cases, sym, Among-update_where, String, inl, ◌∙◌,
  update_where-Among, inr, ap, Among-All, All, eq_col, none, ◌==◌, All-Among, subst,
}
use trust_chain.AnchorWorker.Tables.{Db, AnchorOutbox, claimed, pending, failed, Step, AnchorBatch}

div_mono : (a b s : ℕ) → a ≤ b → a / s ≤ b / s
div_mono a b s h = grind arith

pow_step : (n : ℕ) → 2 ^ (max n 1 - 1) ≤ 2 ^ (max (n + 1) 1 - 1)
pow_step n = pow-le-pow_right {n = 2} (omega arith) (omega arith)

-- The delay never passes the cap, one more attempt never waits less, and the first failure waits
-- the base delay, if that is below the cap.
pub backoff_bounds :
    (b : Backoff) (attempts : ℕ)
    → (backoff_seconds b attempts ≤ b.cap / b.scale)
      × (backoff_seconds b attempts ≤ backoff_seconds b (attempts + 1))
      × (backoff_seconds b 1 ≡ min b.base b.cap / b.scale)
unfolding backoff_seconds
backoff_bounds b attempts = (
  div_mono _ _ b.scale (omega arith),
  div_mono _ _ b.scale (min_step b attempts),
  rw (one_delay b),
)
  where
    min_step :
        (b : Backoff) (n : ℕ)
        → min (b.base * 2 ^ (max n 1 - 1)) b.cap ≤ min (b.base * 2 ^ (max (n + 1) 1 - 1)) b.cap
    min_step b n = grind (arith, pow_step n)

    one_delay : (b : Backoff) → b.base * 2 ^ (max 1 1 - 1) ≡ b.base
    one_delay b = omega arith

-- The row after the reaper's two statements.
abbrev reaped : (now timeout m : ℕ) → AnchorOutbox → AnchorOutbox
reaped now timeout m r =
    if stale now timeout r then (if leb m r.attempts then reap_dead r else reap_reset now r) else r

abbrev reset_row : (now timeout m : ℕ) → AnchorOutbox → AnchorOutbox
reset_row now timeout m buried = elim (stale_retriable now timeout m buried) [
  | true ↦ reap_reset now buried
  | false ↦ buried
]

reap_row :
    (now timeout m : ℕ) (r : AnchorOutbox)
    → (let buried : AnchorOutbox = elim (stale_exhausted now timeout m r) [
      | true ↦ reap_dead r
      | false ↦ r
    ] in
        let last : AnchorOutbox = elim (stale_retriable now timeout m buried) [
          | true ↦ reap_reset now buried
          | false ↦ buried
        ] in
        last ≡ reaped now timeout m r)
reap_row now timeout m r = ground arith

fresh_claim :
    (now timeout m : ℕ) (x : AnchorOutbox)
    → RowIsValid m x
    → (reaped now timeout m x).status ≡ claimed
    → (t : ℕ) × ((reaped now timeout m x).claimed_at ≡ some t) × (now < t + timeout)
fresh_claim now timeout m x v c = elim (Option-cases x.claimed_at) [
  | inl unstamped ↦ absurd (ground arith)
  | inr (t, stamped) ↦ (t, ground arith, ground arith)
]

not_stale :
    (now timeout m : ℕ) (x y r : AnchorOutbox)
    → RowIsValid m x
    → elim (stale_exhausted now timeout m x) [ true ↦ reap_dead x | false ↦ x ] ≡ y
    → elim (stale_retriable now timeout m y) [ true ↦ reap_reset now y | false ↦ y ] ≡ r
    → r.status ≡ claimed
    → (t : ℕ) × (r.claimed_at ≡ some t) × (now < t + timeout)
not_stale now timeout m x y r v ex ey c =
    let same : reaped now timeout m x ≡ r =
      sym (reap_row now timeout m x) ∙ ap (reset_row now timeout m) ex ∙ ey in
    let (t, e, lt) = fresh_claim now timeout m x v (ap (λ (s : AnchorOutbox). s.status) same ∙ c) in
    (t, ap (λ (s : AnchorOutbox). s.claimed_at) (sym same) ∙ e, lt)

-- A sweep recovers every stale claim. Of a table where the outbox invariant holds, each row comes
-- back as it was, or, if its claim is at least `timeout` old, as a dead letter when its attempts
-- are used up and pending and due at once otherwise; and every row that is still claimed afterwards
-- was claimed less than `timeout` ago.
pub reap_recovers :
    (now timeout max_attempts : ℕ) (db : Db)
    → IsValid max_attempts db
    → let after = (reap_stale_claims now timeout max_attempts db).0.outbox in
      ((r : AnchorOutbox)
        → Among r db.outbox
        → Among
            (if stale now timeout r
              then (if leb max_attempts r.attempts then reap_dead r else reap_reset now r)
              else r)
            after)
      × ((r : AnchorOutbox)
          → Among r after
          → r.status ≡ claimed
          → (t : ℕ) × (r.claimed_at ≡ some t) × (now < t + timeout))
unfolding reap_stale_claims
reap_recovers now timeout m db v = (λ r mr. each r mr, λ r mr c. fresh r mr c)
  where
    buried : List AnchorOutbox
    buried = update_where (stale_exhausted now timeout m) reap_dead db.outbox

    each :
        (r : AnchorOutbox)
        → Among r db.outbox
        → Among
            (reaped now timeout m r)
            (update_where (stale_retriable now timeout m) (reap_reset now) buried)
    each r mr =
        subst (λ z. Among z (update_where (stale_retriable now timeout m) (reap_reset now) buried))
          (reap_row now timeout m r)
          (Among-update_where (stale_retriable now timeout m) (reap_reset now) _ buried
            (Among-update_where (stale_exhausted now timeout m) reap_dead r db.outbox mr))

    fresh :
        (r : AnchorOutbox)
        → Among r (update_where (stale_retriable now timeout m) (reap_reset now) buried)
        → r.status ≡ claimed
        → (t : ℕ) × (r.claimed_at ≡ some t) × (now < t + timeout)
    fresh r mr c =
        let (y, my, ey) =
          update_where-Among (stale_retriable now timeout m) (reap_reset now) r buried mr in
        let (x, mx, ex) =
          update_where-Among (stale_exhausted now timeout m) reap_dead y db.outbox my in
        not_stale now timeout m x y r (Among-All (RowIsValid m) x db.outbox v mx) ex ey c

-- The row after a batch's submission has failed.
abbrev failed_row :
    (now batch : ℕ) (error : String) (m : ℕ) (b : Backoff) → AnchorOutbox → AnchorOutbox
failed_row now batch error m b r =
    if in_batch batch r
    then (if leb m r.attempts then failure_dead error r else failure_requeue now b error r)
    else r

abbrev requeue_row :
    (now batch : ℕ) (error : String) (m : ℕ) (b : Backoff) → AnchorOutbox → AnchorOutbox
requeue_row now batch error m b r = elim (retriable_in batch m r) [
  | true ↦ failure_requeue now b error r
  | false ↦ r
]

failure_row :
    (now batch : ℕ) (error : String) (m : ℕ) (b : Backoff) (r : AnchorOutbox)
    → requeue_row now batch error m b
        (elim (exhausted_in batch m r) [ true ↦ failure_dead error r | false ↦ r ])
      ≡ failed_row now batch error m b r
failure_row now batch error m b r = ground arith

failed_row_detached :
    (now batch : ℕ) (error : String) (m : ℕ) (b : Backoff) (r : AnchorOutbox)
    → in_batch batch (failed_row now batch error m b r) ≡ false
failed_row_detached now batch error m b r = ground arith

detach_steps-detached :
    (batch : ℕ) (steps : List Step)
    → All (λ s. eq_col s.anchor_batch_id batch ≡ false) (detach_steps batch steps)
detach_steps-detached batch steps = All-Among (detach_steps batch steps) (λ s ms. detached s ms)
  where
    detached :
        (s : Step) → Among s (detach_steps batch steps) → eq_col s.anchor_batch_id batch ≡ false
    detached s ms =
        let (x, _, e) =
          update_where-Among (λ (s : Step). eq_col s.anchor_batch_id batch)
            (λ s. record s { anchor_batch_id = none }) s steps ms in
        ground arith

-- After a failed submission every outbox row of the batch is a dead letter if its attempts are used
-- up, and otherwise pending again, due after the delay for its attempts; every other row comes back
-- as it was; no outbox row and no step refers to the batch any more, and the batch is failed.
pub handle_submit_failure-detaches :
    (now batch : ℕ) (error : String) (max_attempts : ℕ) (b : Backoff) (db : Db)
    → let after = handle_submit_failure now batch error max_attempts b db in
      ((r : AnchorOutbox)
        → Among r db.outbox
        → Among
            (if in_batch batch r
              then (if leb max_attempts r.attempts
                  then failure_dead error r
                  else failure_requeue now b error r)
              else r)
            after.outbox)
      × All (λ r. in_batch batch r ≡ false) after.outbox
      × All (λ s. eq_col s.anchor_batch_id batch ≡ false) after.steps
      × All (λ a. a.id ≡ batch → a.status ≡ failed) after.batches
unfolding handle_submit_failure
handle_submit_failure-detaches now batch error m b db = (
  λ r mr.
      subst (λ z. Among z (update_where (retriable_in batch m) (failure_requeue now b error) dead))
        (failure_row now batch error m b r)
        (Among-update_where (retriable_in batch m) (failure_requeue now b error) _ dead
          (Among-update_where (exhausted_in batch m) (failure_dead error) r db.outbox mr)),
  All-Among (update_where (retriable_in batch m) (failure_requeue now b error) dead)
      (λ r mr. apart r mr),
  detach_steps-detached batch db.steps,
  All-Among (fail_batch batch error db.batches) (λ a ma. marked a ma),
)
  where
    dead : List AnchorOutbox
    dead = update_where (exhausted_in batch m) (failure_dead error) db.outbox

    apart :
        (r : AnchorOutbox)
        → Among r (update_where (retriable_in batch m) (failure_requeue now b error) dead)
        → in_batch batch r ≡ false
    apart r mr =
        let (y, my, ey) =
          update_where-Among (retriable_in batch m) (failure_requeue now b error) r dead mr in
        let (x, _, ex) =
          update_where-Among (exhausted_in batch m) (failure_dead error) y db.outbox my in
        let same : failed_row now batch error m b x ≡ r =
          sym (failure_row now batch error m b x) ∙ ap (requeue_row now batch error m b) ex ∙ ey in
        ap (in_batch batch) (sym same) ∙ failed_row_detached now batch error m b x

    marked :
        (a : AnchorBatch)
        → Among a (fail_batch batch error db.batches)
        → a.id ≡ batch
        → a.status ≡ failed
    marked a ma same =
        let (x, _, e) =
          update_where-Among (λ (a : AnchorBatch). a.id == batch)
            (λ a. record a { status = failed; last_error = some error }) a db.batches ma in
        ground arith

-- The gas ceiling costs no attempt: if a row was claimed and put in a batch, then after the skip of
-- that batch it is pending in no batch with the attempts that it had before the claim, and no
-- outbox row and no step refers to the batch.
pub gas_skip_costs_nothing :
    (now batch : ℕ) (worker_id error : String) (db : Db) (r : AnchorOutbox)
    → Among (record (claim_row now worker_id r) { batch_id = some batch }) db.outbox
    → let after = handle_gas_ceiling_skip batch error db in
      ((r' : AnchorOutbox) × Among r' after.outbox
        × (r'.id ≡ r.id)
        × (r'.status ≡ pending)
        × (r'.attempts ≡ r.attempts)
        × (r'.batch_id ≡ none))
      × All (λ s. in_batch batch s ≡ false) after.outbox
      × All (λ s. eq_col s.anchor_batch_id batch ≡ false) after.steps
unfolding handle_gas_ceiling_skip
gas_skip_costs_nothing now batch worker_id error db r m = (
  (
    gas_requeue error batched,
    subst (λ z. Among z (update_where (in_batch batch) (gas_requeue error) db.outbox)) taken
        (Among-update_where (in_batch batch) (gas_requeue error) batched db.outbox m),
    refl,
    refl,
    omega arith,
    refl,
  ),
  All-Among (update_where (in_batch batch) (gas_requeue error) db.outbox) (λ s ms. apart s ms),
  detach_steps-detached batch db.steps,
)
  where
    batched : AnchorOutbox
    batched = record (claim_row now worker_id r) { batch_id = some batch }

    taken :
        elim (in_batch batch batched) [ true ↦ gas_requeue error batched | false ↦ batched ]
        ≡ gas_requeue error batched
    taken = ground arith

    apart :
        (s : AnchorOutbox)
        → Among s (update_where (in_batch batch) (gas_requeue error) db.outbox)
        → in_batch batch s ≡ false
    apart s ms =
        let (x, _, e) = update_where-Among (in_batch batch) (gas_requeue error) s db.outbox ms in
        ground arith
