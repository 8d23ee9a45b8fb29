-- ===== src/Merkle/Tests.antt =====
-- Inputs on which the theorems about blockchain/merkle.py are applied.
use trust_chain.Prelude.{ℕ, ◌≡◌, refl, ◌⊎◌, true, some, List, [], ◌∷◌, Any, pos, arith}
use trust_chain.Merkle.{
  Bytes, MerkleTree, root, hash_pair, next_level, climb, build_tree, fold_proof, verify_proof,
  tree_proof,
}
use trust_chain.Merkle.Completeness.{proof_verifies}
use trust_chain.Merkle.Samples.{toy_keccak, toy_width, h32}
use trust_chain.Merkle.Soundness.{DoubleHashed, Collision, verify_sound}
use mathlib.Core.List.{Perm}
use trust_chain.Merkle.Binding.{root-binds}
use trust_chain.Merkle.Trees.{Tree, frontier, tree_hash, build_tree-refines}

-- Five leaves: the last one is promoted twice.
abbrev five : List Bytes
five = h32 9 ∷ h32 4 ∷ h32 7 ∷ h32 1 ∷ h32 3 ∷ []

abbrev five_tree : MerkleTree
five_tree = record {
  leaves = five;
  levels = five ∷ (h32 4 ∷ h32 1 ∷ h32 3 ∷ []) ∷ (h32 1 ∷ h32 3 ∷ []) ∷ (h32 1 ∷ []) ∷ [];
}

build_five : build_tree toy_keccak five ≡ some five_tree
unfolding build_tree climb next_level hash_pair toy_keccak
build_five = refl

proof_five : tree_proof five_tree (pos 4) ≡ some (h32 1 ∷ [])
unfolding tree_proof
proof_five = refl

proof_verifies_example :
    (tree : MerkleTree) × (root_hash : Bytes) × (proof : List Bytes) × (build_tree toy_keccak five
      ≡ some tree)
    × (root tree ≡ some root_hash)
    × (tree_proof tree (pos 3) ≡ some proof)
    × (verify_proof toy_keccak (h32 1) proof root_hash ≡ true)
proof_verifies_example = proof_verifies toy_keccak five 3 (h32 1) refl

doubled : (n : ℕ) → DoubleHashed toy_keccak (h32 n)
unfolding toy_keccak
doubled n = (h32 n, refl)

verify_sound_example : Collision toy_keccak ⊎ Any (λ leaf. leaf ≡ h32 3) five
unfolding root verify_proof fold_proof hash_pair toy_keccak
verify_sound_example =
    verify_sound toy_keccak toy_width five
      (doubled 9, (doubled 4, (doubled 7, (doubled 1, (doubled 3, tt))))) five_tree (h32 1)
      build_five refl (h32 3) (h32 1 ∷ []) (doubled 3) (refl, tt) refl

build_tree-refines_example :
    (t : Tree) × (built : MerkleTree) × (build_tree toy_keccak five ≡ some built)
    × (frontier t ≡ five)
    × (root built ≡ some (tree_hash toy_keccak t))
build_tree-refines_example = build_tree-refines toy_keccak five (omega arith)

-- Neighbours in the other order have the same root.
abbrev swapped : List Bytes
swapped = h32 4 ∷ h32 9 ∷ h32 7 ∷ h32 1 ∷ h32 3 ∷ []

abbrev swapped_tree : MerkleTree
swapped_tree = record {
  leaves = swapped;
  levels = swapped ∷ (h32 4 ∷ h32 1 ∷ h32 3 ∷ []) ∷ (h32 1 ∷ h32 3 ∷ []) ∷ (h32 1 ∷ []) ∷ [];
}

root-binds_example : Collision toy_keccak ⊎ Perm five swapped
unfolding build_tree climb next_level hash_pair toy_keccak root
root-binds_example =
    root-binds toy_keccak toy_width five swapped (omega arith) (omega arith)
      (doubled 9, (doubled 4, (doubled 7, (doubled 1, (doubled 3, tt)))))
      (doubled 4, (doubled 9, (doubled 7, (doubled 1, (doubled 3, tt))))) five_tree swapped_tree
      build_five refl refl
