-- ===== src/Merkle.antt =====
-- blockchain/merkle.py: leaf hashing, the tree's levels, proofs and their verification. `keccak`
-- (web3's Web3.keccak) and `abi_encode` (eth_abi) are parameters.
mod ByteStrings
pub mod Completeness
pub mod Soundness
pub mod Leaves
pub mod Trees
pub mod Binding
pub mod Samples
mod Tests
pub use ByteStrings.{Bytes, bytes_eq_refl, bytes_eq→eq, bytes_dec}
unfoldable pub use ByteStrings.{bytes_lt, bytes_eq}
use trust_chain.Prelude.{
  ℕ, zero, suc, ◌+◌, ◌-◌, ◌/◌, ◌%◌, Bool, Option, none, some, List, [], ◌∷◌, ◌++◌, map, ltb, ◌==◌,
  if◌then◌else◌, length, get_elem?, to_list, drop_last, get_last?, ℤ, pos, negsuc,
}

-- A value of one of the two fixed-width ABI types in a leaf's preimage.
pub data AbiValue : Type 0 where
  bytes32 : Bytes → AbiValue
  uint64 : ℕ → AbiValue

-- The arguments of `leaf_hash`.
pub record LeafFields : Type 0 where
  pub run_id_hash : Bytes
  pub agent_id_hash : Bytes
  pub action_hash : Bytes
  pub input_hash : Bytes
  pub output_hash : Bytes
  pub step_index : ℕ
  pub timestamp : ℕ

abbrev pub leaf_values : LeafFields → List AbiValue
leaf_values f =
    bytes32 f.run_id_hash
    ∷ bytes32 f.agent_id_hash
    ∷ bytes32 f.action_hash
    ∷ bytes32 f.input_hash
    ∷ bytes32 f.output_hash
    ∷ uint64 f.step_index
    ∷ uint64 f.timestamp
    ∷ []

module _ (keccak : Bytes → Bytes) (abi_encode : List AbiValue → Bytes) where
  unfoldable pub leaf_hash : LeafFields → Bytes
  leaf_hash f = keccak (keccak (abi_encode (leaf_values f)))

  -- The identity-bound leaf: one more bytes32, the agent's code hash.
  unfoldable pub leaf_hash_v2 : LeafFields → Bytes → Bytes
  leaf_hash_v2 f agent_code_hash =
      keccak (keccak (abi_encode (leaf_values f ++ bytes32 agent_code_hash ∷ [])))

-- levels: leaves first, root last.
pub record MerkleTree : Type 0 where
  pub leaves : List Bytes
  pub levels : List (List Bytes)

-- `levels[-1][0]`; `none` is an IndexError.
abbrev pub root_of : List (List Bytes) → Option Bytes
root_of levels = elim (get_last? levels) [ none ↦ none | some level ↦ get_elem? level 0 ]

-- The property `MerkleTree.root`.
unfoldable pub root : MerkleTree → Option Bytes
root t = root_of t.levels

-- One round of the loop in `proof_for`: the sibling's hash, or nothing for an unpaired node.
abbrev pub sibling : List Bytes → ℕ → List Bytes
sibling level idx =
    let sibling_idx = if idx % 2 == 0 then idx + 1 else idx - 1 in
    to_list (get_elem? level sibling_idx)

pub siblings : List (List Bytes) → ℕ → List Bytes
siblings [] idx = []
siblings (level ∷ above) idx = sibling level idx ++ siblings above (idx / 2)

-- `none` is the IndexError on an index out of range.
pub proof_for : List (List Bytes) → ℤ → Option (List Bytes)
unfolding siblings
proof_for levels (negsuc _) = none
proof_for [] (pos index) = none
proof_for (level ∷ above) (pos index) =
    if ltb index (length level) then some (siblings (drop_last (level ∷ above)) index) else none

module _ (keccak : Bytes → Bytes) where
  unfoldable pub hash_pair : Bytes → Bytes → Bytes
  unfolding bytes_lt
  hash_pair a b = if bytes_lt a b then keccak (a ++ b) else keccak (b ++ a)

  -- The inner loop of `build_levels`: pairs are hashed, an odd node is promoted unchanged.
  unfoldable pub next_level : List Bytes → List Bytes
  next_level [] = []
  next_level (a ∷ []) = a ∷ []
  next_level (a ∷ b ∷ rest) = hash_pair a b ∷ next_level rest

  -- The outer loop: the levels above `current`, while it has more than one node.
  unfoldable pub climb : ℕ → List Bytes → List (List Bytes)
  climb zero current = []
  climb (suc fuel) current =
      let rest = climb fuel (next_level current) in
      if ltb 1 (length current) then next_level current ∷ rest else []

  -- `none` is the ValueError on an empty list.
  unfoldable pub build_levels : List Bytes → Option (List (List Bytes))
  unfolding climb
  build_levels [] = none
  build_levels (leaf ∷ leaves) =
      some ((leaf ∷ leaves) ∷ climb (length (leaf ∷ leaves)) (leaf ∷ leaves))

  unfoldable pub build_tree : List Bytes → Option MerkleTree
  unfolding build_levels
  build_tree leaves = elim (build_levels leaves) [
    | none ↦ none
    | some levels ↦ some (record { leaves = leaves; levels = levels })
  ]

  -- The loop of `verify_proof`.
  pub fold_proof : Bytes → List Bytes → Bytes
  fold_proof computed [] = computed
  fold_proof computed (s ∷ proof) = fold_proof (hash_pair computed s) proof

  pub verify_proof : Bytes → List Bytes → Bytes → Bool
  unfolding fold_proof bytes_eq
  verify_proof leaf proof root_hash = bytes_eq (fold_proof leaf proof) root_hash

-- `MerkleTree.proof`.
pub tree_proof : MerkleTree → ℤ → Option (List Bytes)
unfolding proof_for
tree_proof t index = proof_for t.levels index
