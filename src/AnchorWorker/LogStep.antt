-- ===== src/AnchorWorker/LogStep.antt =====
-- `log_step` of agents/base.py: the step's row and its outbox row, in one transaction. The hash
-- functions of web3 and the encoder of eth_abi are parameters; ids are those the database gives.
-- The metrics, the log lines, the identity check after the commit and the event for the
-- browser are left out.
use trust_chain.Prelude.{
  ℕ, String, Bool, true, false, Option, none, some, List, [], ◌∷◌, if◌then◌else◌, ◌++◌,
}
use trust_chain.Merkle.{Bytes, AbiValue, LeafFields, leaf_hash, leaf_hash_v2}
use trust_chain.AnchorWorker.Tables.{rendered, AnchorOutbox, pending, Step, Db}

-- `if agent_code_hash`. `none` is None or the empty text, which are falsy alike; the text "0x" is
-- not, and stands for `some []`.
abbrev pub given : Option Bytes → Bool
given none = false
given (some _) = true

-- The arguments of `log_step` that reach the database.
pub record StepInput : Type 0 where
  pub agent_id : String
  pub action : String
  pub input_text : String
  pub output_text : String
  pub step_index : ℕ
  pub run_id : String
  pub agent_code_hash : Option Bytes

module _ (keccak : Bytes → Bytes) (abi_encode : List AbiValue → Bytes)
    (keccak_text : String → Bytes) (solidity_keccak : String → Bytes) where
  abbrev pub leaf_fields : (now : ℕ) → StepInput → LeafFields
  leaf_fields now input = record {
    run_id_hash = keccak_text input.run_id;
    agent_id_hash = keccak_text input.agent_id;
    action_hash = keccak_text input.action;
    input_hash = solidity_keccak input.input_text;
    output_hash = solidity_keccak input.output_text;
    step_index = input.step_index;
    timestamp = now;
  }

  -- The leaf of the schema version that `leaf_schema_version` says.
  unfoldable pub step_leaf : (now : ℕ) → StepInput → Bytes
  step_leaf now input = elim input.agent_code_hash [
    | none ↦ leaf_hash keccak abi_encode (leaf_fields now input)
    | some code ↦ leaf_hash_v2 keccak abi_encode (leaf_fields now input) code
  ]

  abbrev pub new_step : (now step_id : ℕ) → StepInput → Step
  new_step now step_id input = record {
    id = step_id;
    run_id = input.run_id;
    agent_id = input.agent_id;
    step_index = input.step_index;
    action = input.action;
    input_hash = solidity_keccak input.input_text;
    output_hash = solidity_keccak input.output_text;
    leaf_hash = rendered (step_leaf now input);
    timestamp = now;
    anchor_batch_id = none;
    created_at = now;
    agent_code_hash = input.agent_code_hash;
    leaf_schema_version = if given input.agent_code_hash then 2 else 1;
  }

  abbrev pub new_outbox : (now outbox_id step_id : ℕ) → AnchorOutbox
  new_outbox now outbox_id step_id = record {
    id = outbox_id;
    step_id = step_id;
    status = pending;
    attempts = 0;
    claimed_by = none;
    claimed_at = none;
    next_attempt_at = now;
    last_error = none;
    batch_id = none;
    created_at = now;
  }

  unfoldable pub log_step : (now step_id outbox_id : ℕ) → StepInput → Db → Db
  unfolding step_leaf
  log_step now step_id outbox_id input db = record db {
    steps = db.steps ++ new_step now step_id input ∷ [];
    outbox = db.outbox ++ new_outbox now outbox_id step_id ∷ [];
  }
