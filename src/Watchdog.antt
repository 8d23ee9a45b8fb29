-- ===== src/Watchdog.antt =====
-- backend/integrity_watchdog: the detectors of detectors/step_rows.py, merkle_roots.py and
-- liveness.py, the sweep over batches of main.py and the rolling cursor of cursor.py.
-- Hashes are byte strings here and "0x..." texts in the database, whose comparison ignores case.
-- The rows of `anchor_batches` and `steps` are the arguments; `get_batch` is the contract's call,
-- `none` where it raises. How alerts are spread over organizations, their forensics and the
-- metrics are left out.
pub mod Silent
pub mod Authentic
pub mod Caching
pub mod Rolling
pub mod Stalling
mod Tests
use mathlib.Core.Option
use trust_chain.Prelude.{
  zero, suc, ℕ, ◌+◌, ◌*◌, String, Bool, true, false, ◌&&◌, ◌||◌, Option, none, some, List, [], ◌∷◌,
  ◌++◌, map, length, leb, ltb, ◌==◌, is_some, if◌then◌else◌, select, take, get_last?, update_where,
  suc,
}
use trust_chain.Merkle.{
  Bytes, bytes_eq, AbiValue, LeafFields, leaf_hash, leaf_hash_v2, build_tree, root,
}
use trust_chain.AnchorWorker.{
  AnchorOutbox, dead_letter, OutboxStatus, AnchorBatch, Step, HexText, rendered, fromhex_all,
}
use trust_chain.AnchorWorker.LogStep.{given}
use trust_chain.AnchorWorker.Outbox.{find_step, is_pending, is_claimed}

-- The comparison of `expected` with the stored text, without regard to case.
abbrev pub is_rendering : Bytes → HexText → Bool
is_rendering leaf (rendered b) = bytes_eq leaf b
is_rendering leaf _ = false

module _ (keccak : Bytes → Bytes) (abi_encode : List AbiValue → Bytes)
    (keccak_text : String → Bytes) where
  -- The dict `common`.
  abbrev pub stored_fields : Step → LeafFields
  stored_fields s = record {
    run_id_hash = keccak_text s.run_id;
    agent_id_hash = keccak_text s.agent_id;
    action_hash = keccak_text s.action;
    input_hash = s.input_hash;
    output_hash = s.output_hash;
    step_index = s.step_index;
    timestamp = s.timestamp;
  }

  -- The condition of the `if`, and the code hash where it holds.
  abbrev pub bound_code : Step → Option Bytes
  bound_code s =
      if s.leaf_schema_version == 2 && given s.agent_code_hash then s.agent_code_hash else none

  unfoldable pub recompute_leaf : Step → Bytes
  recompute_leaf s = elim (bound_code s) [
    | none ↦ leaf_hash keccak abi_encode (stored_fields s)
    | some code ↦ leaf_hash_v2 keccak abi_encode (stored_fields s) code
  ]

  -- The rows whose stored leaf is not the recomputed one, each with the latter.
  unfoldable pub check_steps : List Step → List (Step × Bytes)
  unfolding recompute_leaf bytes_eq
  check_steps [] = []
  check_steps (s ∷ steps) =
      let rest = check_steps steps in
      if is_rendering (recompute_leaf s) s.leaf_hash then rest else ((s, recompute_leaf s) ∷ rest)

-- `missing` and the rows of `present_order`.
abbrev pub missing_of : List Step → List ℕ → List ℕ
missing_of steps [] = []
missing_of steps (i ∷ order) =
    let rest = missing_of steps order in
    elim (find_step i steps) [ none ↦ i ∷ rest | some _ ↦ rest ]

abbrev pub present_of : List Step → List ℕ → List Step
present_of steps [] = []
present_of steps (i ∷ order) =
    let rest = present_of steps order in
    elim (find_step i steps) [ none ↦ rest | some s ↦ s ∷ rest ]

abbrev pub stored_leaves : List Step → Option (List Bytes)
stored_leaves present = fromhex_all (map (λ (s : Step). s.leaf_hash) present)

-- The rebuilt root, "" where no step is present, with the missing ids. `none` is an exception.
unfoldable pub rebuilt_from :
    (keccak : Bytes → Bytes) (present : List Step) (missing : List ℕ) → Option (Bytes × List ℕ)
rebuilt_from keccak [] missing = some ([], missing)
rebuilt_from keccak (s ∷ rest) missing = elim (stored_leaves (s ∷ rest)) [
  | none ↦ none
  | some leaves ↦ elim (build_tree keccak leaves) [
    | none ↦ none
    | some tree ↦ elim (root tree) [ none ↦ none | some r ↦ some (r, missing) ]
  ]
]

unfoldable pub rebuild_root :
    (keccak : Bytes → Bytes) → List Step → List ℕ → Option (Bytes × List ℕ)
unfolding rebuilt_from
rebuild_root keccak steps leaf_order =
    rebuilt_from keccak (present_of steps leaf_order) (missing_of steps leaf_order)

-- `(matches, onchain_root)`; `none` where the call raises.
abbrev pub check_onchain_root :
    (get_batch : ℕ → Option Bytes) (anchor_id : ℕ) → AnchorBatch → Option (Bool × Bytes)
check_onchain_root get_batch anchor_id batch = elim (get_batch anchor_id) [
  | none ↦ none
  | some onchain ↦ some (bytes_eq onchain batch.merkle_root, onchain)
]

-- The row of `batch_verifications`.
pub record BatchVerification : Type 0 where
  pub batch_id : ℕ
  pub onchain_root_verified_at : Option ℕ
  pub onchain_root : Option Bytes
  pub last_rebuilt_at : Option ℕ
  pub last_result : Option String

-- An alert that the sweep over batches raises.
pub data Alert : Type 0 where
  step_missing : (batch : ℕ) (missing : List ℕ) → Alert
  batch_root_mismatch : (batch : ℕ) (stored rebuilt : Bytes) → Alert
  onchain_root_mismatch : (batch : ℕ) (stored onchain : Bytes) → Alert

-- The row exists and `onchain_root_verified_at` is not NULL.
abbrev pub is_verified_onchain : (batch : ℕ) → List BatchVerification → Bool
is_verified_onchain batch [] = false
is_verified_onchain batch (v ∷ rows) =
    (v.batch_id == batch && is_some v.onchain_root_verified_at) || is_verified_onchain batch rows

-- INSERT ... ON CONFLICT (batch_id) DO UPDATE.
abbrev pub put_verification : BatchVerification → List BatchVerification → List BatchVerification
put_verification row [] = row ∷ []
put_verification row (v ∷ rows) =
    let rest = put_verification row rows in
    if v.batch_id == row.batch_id then row ∷ rows else v ∷ rest

-- The first `if` of the loop's body: detectors 4(a) and 4(b).
abbrev pub rebuild_alerts : AnchorBatch → Bytes × List ℕ → List Alert
rebuild_alerts batch (rebuilt, []) =
    if bytes_eq rebuilt batch.merkle_root
    then []
    else (batch_root_mismatch batch.id batch.merkle_root rebuilt ∷ [])
rebuild_alerts batch (rebuilt, i ∷ missing) = step_missing batch.id (i ∷ missing) ∷ []

-- What one batch, or one sweep, adds: the alerts (the counters of mismatches count them by kind),
-- `onchainCheckFailures`, and the table of verifications.
pub record Sweep : Type 0 where
  pub alerts : List Alert
  pub onchain_check_failures : ℕ
  pub verifications : List BatchVerification

abbrev pub result_text : Bool → String
result_text true = "ok"
result_text false = "mismatch"

-- The second `if` of the loop's body: detector 4(c), for a batch with no missing step.
unfoldable pub check_chain :
    (now : ℕ) (get_batch : ℕ → Option Bytes) → AnchorBatch → List BatchVerification → Sweep
unfolding bytes_eq
check_chain now get_batch batch rows =
    let quiet : Sweep = record { alerts = []; onchain_check_failures = 0; verifications = rows } in
    elim batch.onchain_anchor_id [
      | none ↦ quiet
      | some anchor_id ↦
          if is_verified_onchain batch.id rows
          then quiet
          else (elim (check_onchain_root get_batch anchor_id batch) [
            | none ↦ record { alerts = []; onchain_check_failures = 1; verifications = rows }
            | some (matches, onchain) ↦ record {
              alerts =
                  if matches
                  then []
                  else (onchain_root_mismatch batch.id batch.merkle_root onchain ∷ []);
              onchain_check_failures = 0;
              verifications =
                  put_verification
                    (record {
                      batch_id = batch.id;
                      onchain_root_verified_at = some now;
                      onchain_root = some onchain;
                      last_rebuilt_at = some now;
                      last_result = some (result_text matches);
                    })
                    rows;
            }
          ])
    ]

-- The body of the loop of `sweep_merkle_roots`.
unfoldable pub sweep_batch :
    (keccak : Bytes → Bytes) (now : ℕ) (get_batch : ℕ → Option Bytes) (check_onchain : Bool)
    → List Step
    → AnchorBatch
    → List BatchVerification
    → Option Sweep
unfolding rebuild_root check_chain
sweep_batch keccak now get_batch check_onchain steps batch rows =
    elim (rebuild_root keccak steps batch.leaf_order) [
      | none ↦ none
      | some (rebuilt, missing) ↦
          let chain : Sweep =
            if check_onchain && leb (length missing) 0
            then check_chain now get_batch batch rows
            else record { alerts = []; onchain_check_failures = 0; verifications = rows } in
          some (record chain { alerts = rebuild_alerts batch (rebuilt, missing) ++ chain.alerts })
    ]

unfoldable pub sweep_merkle_roots :
    (keccak : Bytes → Bytes) (now : ℕ) (get_batch : ℕ → Option Bytes) (check_onchain : Bool)
    → List Step
    → List AnchorBatch
    → List BatchVerification
    → Option Sweep
unfolding sweep_batch
sweep_merkle_roots keccak now get_batch check_onchain steps [] rows =
    some (record { alerts = []; onchain_check_failures = 0; verifications = rows })
sweep_merkle_roots keccak now get_batch check_onchain steps (batch ∷ batches) rows =
    elim (sweep_batch keccak now get_batch check_onchain steps batch rows) [
      | none ↦ none
      | some first ↦
          elim (sweep_merkle_roots keccak now get_batch check_onchain steps batches
            first.verifications) [
              | none ↦ none
              | some rest ↦ some (record {
                alerts = first.alerts ++ rest.alerts;
                onchain_check_failures = first.onchain_check_failures + rest.onchain_check_failures;
                verifications = rest.verifications;
              })
            ]
    ]

-- `status IN ('pending', 'claimed')`.
abbrev pub unfinished : AnchorOutbox → Bool
unfinished r = is_pending r.status || is_claimed r.status

-- The row with the least `created_at`.
abbrev pub oldest_of : List AnchorOutbox → Option AnchorOutbox
oldest_of [] = none
oldest_of (r ∷ rows) = elim (oldest_of rows) [
  | none ↦ some r
  | some s ↦ if leb r.created_at s.created_at then some r else some s
]

-- The answer of `check_stalled`, with the age left out.
pub record Stalled : Type 0 where
  pub pending_count : ℕ
  pub oldest_step_id : Option ℕ
  pub stalled : Bool

-- `now - oldest >= threshold` is written as a sum, since the age can be negative.
unfoldable pub check_stalled : (now stall_threshold_seconds : ℕ) → List AnchorOutbox → Stalled
check_stalled now stall_threshold_seconds outbox =
    let rows = select unfinished outbox in
    elim (oldest_of rows) [
      | none ↦ record { pending_count = length rows; oldest_step_id = none; stalled = false }
      | some r ↦ record {
        pending_count = length rows;
        oldest_step_id = some r.step_id;
        stalled = ltb 0 (length rows) && leb (r.created_at + stall_threshold_seconds) now;
      }
    ]

abbrev pub is_dead_letter : OutboxStatus → Bool
is_dead_letter dead_letter = true
is_dead_letter _ = false

-- `stepIds` of `check_dead_lettered`.
unfoldable pub check_dead_lettered : List AnchorOutbox → List ℕ
check_dead_lettered outbox =
    map (λ (r : AnchorOutbox). r.step_id) (select (λ r. is_dead_letter r.status) outbox)

-- One cycle of the rolling tier over a table with these ids, in order: the ids that are swept
-- and the cursor that is saved.
unfoldable pub rolling_cycle : (per_cycle : ℕ) (ids : List ℕ) (last_id : ℕ) → List ℕ × ℕ
rolling_cycle per_cycle ids last_id =
    let page = take per_cycle (select (ltb last_id) ids) in
    let new_last : ℕ = elim (get_last? page) [ none ↦ last_id | some i ↦ i ] in
    let wrapped = leb (length page) 0 && ltb 0 last_id in (page, if wrapped then 0 else new_last)

-- The ids that several cycles sweep, and the cursor after them.
unfoldable pub rolling_cycles : (cycles per_cycle : ℕ) (ids : List ℕ) (last_id : ℕ) → List ℕ × ℕ
rolling_cycles zero per_cycle ids last_id = ([], last_id)
rolling_cycles (suc cycles) per_cycle ids last_id =
    let (page, next) = rolling_cycle per_cycle ids last_id in
    let (pages, cursor) = rolling_cycles cycles per_cycle ids next in (page ++ pages, cursor)
