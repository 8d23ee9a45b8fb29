-- ===== src/Merkle/Trees.antt =====
-- blockchain/merkle.py as binary trees: the level lists of `build_levels` hash a tree whose leaves,
-- from left to right, are the list it was given.
use mathlib.Core.List.{append_assoc, append-nil}
use trust_chain.Prelude.{
  ℕ, zero, suc, ◌≤◌, ◌≡◌, refl, sym, ap, ◌∙◌, List, [], ◌∷◌, ◌++◌, map, length, length-map, arith,
  some, ltb, lt→ltb, true,
}
use trust_chain.Merkle.{Bytes, MerkleTree, root, root_of, hash_pair, next_level, climb, build_tree}

pub data Tree : Type 0 where
  leaf : Bytes → Tree
  node : Tree → Tree → Tree

-- The leaves from left to right.
unfoldable pub frontier : Tree → List Bytes
frontier (leaf x) = x ∷ []
frontier (node s t) = frontier s ++ frontier t

unfoldable pub frontiers : List Tree → List Bytes
unfolding frontier
frontiers [] = []
frontiers (t ∷ ts) = frontier t ++ frontiers ts

unfoldable pub tree_hash : (Bytes → Bytes) → Tree → Bytes
unfolding hash_pair
tree_hash keccak (leaf x) = x
tree_hash keccak (node s t) = hash_pair keccak (tree_hash keccak s) (tree_hash keccak t)

-- One level up: neighbours become the children of a node, an odd tree stays.
pair_up : List Tree → List Tree
pair_up [] = []
pair_up (s ∷ []) = s ∷ []
pair_up (s ∷ t ∷ ts) = node s t ∷ pair_up ts

frontiers-pair_up : (ts : List Tree) → frontiers (pair_up ts) ≡ frontiers ts
unfolding frontiers pair_up frontier
frontiers-pair_up [] = refl
frontiers-pair_up (s ∷ []) = refl
frontiers-pair_up (s ∷ t ∷ ts) =
    append_assoc (frontier s) (frontier t) (frontiers (pair_up ts))
    ∙ ap (λ l. frontier s ++ (frontier t ++ l)) (frontiers-pair_up ts)

length-pair_up : (ts : List Tree) → 2 ≤ length ts → suc (length (pair_up ts)) ≤ length ts
unfolding pair_up
length-pair_up [] h = absurd (omega arith)
length-pair_up (s ∷ []) h = absurd (omega arith)
length-pair_up (s ∷ t ∷ []) h = omega arith
length-pair_up (s ∷ t ∷ u ∷ []) h = omega arith
length-pair_up (s ∷ t ∷ u ∷ v ∷ ts) h = omega (arith, length-pair_up (u ∷ v ∷ ts) (omega arith))

pair_up-nonempty : (ts : List Tree) → 1 ≤ length ts → 1 ≤ length (pair_up ts)
unfolding pair_up
pair_up-nonempty [] h = h
pair_up-nonempty (s ∷ []) h = h
pair_up-nonempty (s ∷ t ∷ ts) h = omega arith

frontiers-leaves : (l : List Bytes) → frontiers (map leaf l) ≡ l
unfolding frontiers frontier
frontiers-leaves [] = refl
frontiers-leaves (x ∷ l) = ap (λ (t : List Bytes). x ∷ t) (frontiers-leaves l)

frontiers-one : (t : Tree) → frontiers (t ∷ []) ≡ frontier t
unfolding frontiers frontier
frontiers-one t = append-nil (frontier t)

module _ (keccak : Bytes → Bytes) where
  hashes-pair_up :
      (ts : List Tree)
      → map (tree_hash keccak) (pair_up ts) ≡ next_level keccak (map (tree_hash keccak) ts)
  unfolding pair_up next_level tree_hash
  hashes-pair_up [] = refl
  hashes-pair_up (s ∷ []) = refl
  hashes-pair_up (s ∷ t ∷ ts) =
      ap (λ (l : List Bytes). hash_pair keccak (tree_hash keccak s) (tree_hash keccak t) ∷ l)
        (hashes-pair_up ts)

  hashes-leaves : (l : List Bytes) → map (tree_hash keccak) (map leaf l) ≡ l
  unfolding tree_hash
  hashes-leaves [] = refl
  hashes-leaves (x ∷ l) = ap (λ (t : List Bytes). x ∷ t) (hashes-leaves l)

  climb-Tree :
      (fuel : ℕ) (ts : List Tree) (current : List Bytes)
      → map (tree_hash keccak) ts ≡ current
      → 1 ≤ length ts
      → length ts ≤ suc fuel
      → (t : Tree) × (frontier t ≡ frontiers ts)
        × (root_of (current ∷ climb keccak fuel current) ≡ some (tree_hash keccak t))
  unfolding climb
  climb-Tree fuel [] current e h l = absurd (omega arith)
  climb-Tree zero (t ∷ []) current e h l = (t, sym (frontiers-one t), rw (← e) refl)
  climb-Tree (suc fuel) (t ∷ []) current e h l = (t, sym (frontiers-one t), rw (← e) refl)
  climb-Tree zero (s ∷ t ∷ ts) current e h l = absurd (omega arith)
  climb-Tree (suc fuel) (s ∷ t ∷ ts) current e h l =
      let (tree, leaves, top) =
        climb-Tree fuel (pair_up (s ∷ t ∷ ts)) (next_level keccak current)
          (hashes-pair_up (s ∷ t ∷ ts) ∙ ap (next_level keccak) e)
          (pair_up-nonempty (s ∷ t ∷ ts) (omega arith))
          (omega (arith, length-pair_up (s ∷ t ∷ ts) (omega arith))) in
      let more : ltb 1 (length current) ≡ true =
        lt→ltb 1 (length current)
          (omega (arith, ap length e, length-map (tree_hash keccak) (s ∷ t ∷ ts))) in
      (tree, leaves ∙ frontiers-pair_up (s ∷ t ∷ ts), rw more top)

-- Building a tree of a nonempty list succeeds and refines the hashing of a binary tree: there is
-- a tree whose leaves from left to right are the list, and the root computed level by level is
-- that tree's hash, a node's hash being the pair hash of its children's.
pub build_tree-refines :
    (keccak : Bytes → Bytes) (leaves : List Bytes)
    → 1 ≤ length leaves
    → (t : Tree) × (built : MerkleTree) × (build_tree keccak leaves ≡ some built)
      × (frontier t ≡ leaves)
      × (root built ≡ some (tree_hash keccak t))
unfolding build_tree root
build_tree-refines keccak [] h = absurd (omega arith)
build_tree-refines keccak (x ∷ rest) h =
    let (t, leaves, top) =
      climb-Tree keccak (length (x ∷ rest)) (map leaf (x ∷ rest)) (x ∷ rest)
        (hashes-leaves keccak (x ∷ rest)) (omega arith)
        (omega (arith, length-map leaf (x ∷ rest))) in
    (
      t,
      record {
        leaves = x ∷ rest;
        levels = (x ∷ rest) ∷ climb keccak (length (x ∷ rest)) (x ∷ rest);
      },
      refl,
      leaves ∙ frontiers-leaves (x ∷ rest),
      top,
    )
