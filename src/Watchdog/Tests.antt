-- ===== src/Watchdog/Tests.antt =====
-- Inputs on which the theorems about the watchdog are applied, with a sum in the place of keccak.
use trust_chain.Prelude.{
  ℕ, ◌+◌, ◌*◌, ◌≤◌, ◌≡◌, refl, ◌⊎◌, true, none, some, String, List, [], ◌∷◌, map, All, Any, arith,
  Option,
}
use trust_chain.Merkle.{
  Bytes, MerkleTree, root, hash_pair, build_tree, leaf_hash, leaf_hash_v2, next_level,
}
use trust_chain.Merkle.Soundness.{Is32, Collision}
use trust_chain.Merkle.Samples.{toy_encode, toy_abi, h32}
use trust_chain.AnchorWorker.{rendered, AnchorBatch, Step, confirmed}
use trust_chain.Watchdog.{
  recompute_leaf, check_steps, rebuild_root, rebuilt_from, check_chain, sweep_batch, rolling_cycles,
  present_of, missing_of, Sweep,
}
use trust_chain.Watchdog.Authentic.{StepInRange, SameContent, silence-authentic}
use trust_chain.Watchdog.Caching.{compared_once-never_again}
use trust_chain.Watchdog.Rolling.{rolling_cycles-sweep_every}

sum : Bytes → ℕ
sum [] = 0
sum (x ∷ b) = x + sum b

checksum : Bytes → Bytes
unfolding sum
checksum b = h32 (sum b)

checksum-Is32 : (b : Bytes) → Is32 (checksum b)
unfolding checksum
checksum-Is32 b = refl

toy_text : String → Bytes
toy_text s = h32 7

-- A step of the second schema version, with the leaf that its columns give.
abbrev step_of : (id index : ℕ) (leaf : Bytes) → Step
step_of id index leaf = record {
  id = id;
  run_id = "run";
  agent_id = "agent";
  step_index = index;
  action = "fetch";
  input_hash = h32 1;
  output_hash = h32 2;
  leaf_hash = rendered leaf;
  timestamp = 5;
  anchor_batch_id = some 1;
  created_at = 5;
  agent_code_hash = some (h32 3);
  leaf_schema_version = 2;
}

abbrev first : Step
first = step_of 11 0 (h32 32)

abbrev second : Step
second = step_of 12 1 (h32 33)

abbrev recorded : List Step
recorded = first ∷ second ∷ []

leaves_fit : check_steps checksum toy_encode toy_text recorded ≡ []
unfolding check_steps recompute_leaf leaf_hash leaf_hash_v2 checksum toy_encode toy_text
leaves_fit = refl

abbrev steps_tree : MerkleTree
steps_tree = record {
  leaves = h32 32 ∷ h32 33 ∷ [];
  levels = (h32 32 ∷ h32 33 ∷ []) ∷ (h32 65 ∷ []) ∷ [];
}

steps_tree_built :
    build_tree checksum (map (recompute_leaf checksum toy_encode toy_text) recorded)
    ≡ some steps_tree
unfolding build_tree next_level hash_pair checksum recompute_leaf leaf_hash leaf_hash_v2 toy_encode
    toy_text
steps_tree_built = refl

abbrev batch : AnchorBatch
batch = record {
  id = 1;
  run_id_hash = h32 7;
  merkle_root = h32 65;
  step_count = 2;
  leaf_order = 11 ∷ 12 ∷ [];
  status = confirmed;
  tx_hash = none;
  onchain_anchor_id = some 40;
  block_number = some 100;
  block_hash = none;
  evidence_cid = none;
  gas_used = none;
  gas_price_wei = none;
  last_error = none;
  created_at = 5;
  submitted_at = none;
  confirmed_at = some 9;
}

abbrev chain : ℕ → Option Bytes
chain _ = some (h32 65)

recorded-InRange : All (StepInRange checksum checksum-Is32 toy_encode toy_abi toy_text) recorded
unfolding toy_text
recorded-InRange = ground arith

abbrev swept : Sweep
swept = record {
  alerts = [];
  onchain_check_failures = 0;
  verifications =
      record {
        batch_id = 1;
        onchain_root_verified_at = some 50;
        onchain_root = some (h32 65);
        last_rebuilt_at = some 50;
        last_result = some "ok";
      }
      ∷ [];
}

silence-authentic_example :
    Collision checksum
    ⊎ ((missing_of recorded batch.leaf_order ≡ [])
        × All
            (λ row.
              Any (SameContent checksum checksum-Is32 toy_encode toy_abi toy_text row) recorded)
            (present_of recorded batch.leaf_order)
        × All
            (λ old.
              Any
                (SameContent checksum checksum-Is32 toy_encode toy_abi toy_text old)
                (present_of recorded batch.leaf_order))
            recorded)
unfolding sweep_batch rebuild_root rebuilt_from build_tree check_chain checksum root hash_pair
    next_level
silence-authentic_example =
    silence-authentic checksum checksum-Is32 toy_encode toy_abi toy_text 50 chain recorded recorded
      batch [] 40 steps_tree swept (omega arith) (omega arith) recorded-InRange recorded-InRange
      steps_tree_built refl refl refl leaves_fit refl refl refl

-- After a consistent rewrite the batch holds one step and another root.
abbrev rewritten : AnchorBatch
rewritten = record batch { leaf_order = 11 ∷ []; merkle_root = h32 32 }

compared_once-never_again_example :
    sweep_batch checksum 60 chain true recorded rewritten
      (check_chain 50 chain batch []).verifications
    ≡ some (record {
      alerts = [];
      onchain_check_failures = 0;
      verifications = (check_chain 50 chain batch []).verifications;
    })
unfolding rebuild_root rebuilt_from build_tree checksum root
compared_once-never_again_example =
    compared_once-never_again checksum 50 60 chain chain true batch rewritten [] recorded 40
      (h32 65) refl refl refl refl

rolling_cycles-sweep_every_example :
    (cycles : ℕ) × (cycles ≤ 2 * 4)
    × (rolling_cycles cycles 2 (3 ∷ 4 ∷ 8 ∷ []) 3 ≡ (4 ∷ 8 ∷ 3 ∷ 4 ∷ 8 ∷ [], 0))
rolling_cycles-sweep_every_example =
    rolling_cycles-sweep_every 2 3 (3 ∷ 4 ∷ 8 ∷ []) (omega arith)
      ((omega arith, (omega arith, tt)), ((omega arith, tt), (tt, tt)))
      (omega arith, (omega arith, (omega arith, tt)))
