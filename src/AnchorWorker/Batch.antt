-- ===== src/AnchorWorker/Batch.antt =====
-- anchor_worker/batch.py: claimed steps grouped by run, one Merkle tree for each group. Errors of the
-- database are left out: every statement goes through.
use text.Mathlib.Text.{◌==◌ as str_eq}
use mathlib.Core.Option
use trust_chain.Prelude.{
  ℕ, ◌+◌, String, Option, none, some, List, [], ◌∷◌, ◌++◌, map, length, if◌then◌else◌, update_where,
  sort_by,
}
use trust_chain.Merkle.{Bytes, root, build_tree}
use trust_chain.AnchorWorker.Tables.{building, HexText, fromhex_all, Db}
use trust_chain.AnchorWorker.Outbox.{ClaimedStep, any_of, has_id}

-- The dict `by_run`, in insertion order.
abbrev pub Groups : Type 0
Groups = List (String × List ClaimedStep)

-- `by_run.setdefault(step["run_id"], []).append(step)`.
unfoldable pub add_to_run : ClaimedStep → Groups → Groups
add_to_run s [] = (s.step.run_id, s ∷ []) ∷ []
add_to_run s ((run, steps) ∷ groups) =
    if str_eq run s.step.run_id
    then (run, steps ++ s ∷ []) ∷ groups
    else (run, steps) ∷ add_to_run s groups

unfoldable pub group_by_run : Groups → List ClaimedStep → Groups
unfolding add_to_run
group_by_run groups [] = groups
group_by_run groups (s ∷ steps) = group_by_run (add_to_run s groups) steps

-- One element of `created`.
pub record Batch : Type 0 where
  pub batch_id : ℕ
  pub run_id : String
  pub run_id_hash : Bytes
  pub merkle_root : Bytes
  pub step_count : ℕ
  pub leaf_order : List ℕ
  pub leaf_hashes : List HexText
  pub outbox_ids : List ℕ

abbrev pub by_index : List ClaimedStep → List ClaimedStep
by_index = sort_by (λ s. s.step.step_index)

abbrev pub texts_of : List ClaimedStep → List HexText
texts_of = map (λ s. s.step.leaf_hash)

module _ (keccak : Bytes → Bytes) (keccak_text : String → Bytes) where
  -- The body of the loop, up to the statements: `none` where a leaf hash is not hexadecimal, or
  -- where `build_tree` or its root raises.
  unfoldable pub make_batch : (batch_id : ℕ) → String × List ClaimedStep → Option Batch
  make_batch batch_id (run, group) =
      let steps = by_index group in
      elim (fromhex_all (texts_of steps)) [
        | none ↦ none
        | some leaves ↦ elim (build_tree keccak leaves) [
          | none ↦ none
          | some tree ↦ elim (root tree) [
            | none ↦ none
            | some root_hash ↦ some (record {
              batch_id = batch_id;
              run_id = run;
              run_id_hash = keccak_text run;
              merkle_root = root_hash;
              step_count = length steps;
              leaf_order = map (λ (s : ClaimedStep). s.step.id) steps;
              leaf_hashes = texts_of steps;
              outbox_ids = map (λ (s : ClaimedStep). s.outbox_id) steps;
            })
          ]
        ]
      ]

-- The three statements for one batch.
unfoldable pub store_batch : (now : ℕ) → Batch → Db → Db
store_batch now b db = record db {
  batches =
      db.batches
      ++ record {
        id = b.batch_id;
        run_id_hash = b.run_id_hash;
        merkle_root = b.merkle_root;
        step_count = b.step_count;
        leaf_order = b.leaf_order;
        status = building;
        tx_hash = none;
        onchain_anchor_id = none;
        block_number = none;
        block_hash = none;
        evidence_cid = none;
        gas_used = none;
        gas_price_wei = none;
        last_error = none;
        created_at = now;
        submitted_at = none;
        confirmed_at = none;
      }
        ∷ [];
  steps =
      update_where (λ s. any_of s.id b.leaf_order)
        (λ s. record s { anchor_batch_id = some b.batch_id }) db.steps;
  outbox =
      update_where (has_id b.outbox_ids) (λ r. record r { batch_id = some b.batch_id }) db.outbox;
}

module _ (keccak : Bytes → Bytes) (keccak_text : String → Bytes) where
  -- The loop, with batch ids counted up from `batch_id`. `none` is an exception: the transaction
  -- is rolled back.
  unfoldable pub store_groups : (now batch_id : ℕ) → Groups → Db → Option (Db × List Batch)
  store_groups now batch_id [] db = some (db, [])
  store_groups now batch_id (group ∷ groups) db =
      elim (make_batch keccak keccak_text batch_id group) [
        | none ↦ none
        | some b ↦
            Option.map (λ (r : Db × List Batch). (r.0, b ∷ r.1))
              (store_groups now (batch_id + 1) groups (store_batch now b db))
      ]

  unfoldable pub build_batches :
      (now next_id : ℕ) → List ClaimedStep → Db → Option (Db × List Batch)
  unfolding group_by_run store_groups
  build_batches now next_id claimed_steps db =
      store_groups now next_id (group_by_run [] claimed_steps) db
