-- ===== src/Merkle/Binding.antt =====
-- What a Merkle root (blockchain/merkle.py) says of the list of leaves it was built from.
use mathlib.Core.List.Perm
use mathlib.Core.List.{Perm, perm_append_comm}
use trust_chain.Prelude.{
  ◌≤◌, ◌≡◌, sym, ap, ◌∙◌, List, [], ◌∷◌, ◌++◌, length, some, ◌⊎◌, inl, inr, All, subst,
}
use mathlib.Core.Option.{some-injective}
use trust_chain.Merkle.{Bytes, MerkleTree, root, hash_pair, build_tree}
use trust_chain.Merkle.ByteStrings.{append_inj}
use trust_chain.Merkle.Soundness.{
  Is32, Collision, DoubleHashed, same_input, pair_lengths, pair_input, pair_not_double,
}
use trust_chain.Merkle.Trees.{Tree, leaf, node, frontier, tree_hash, build_tree-refines}

-- Two pairs with one concatenation are equal up to the order in each.
joined_pairs :
    (a s b c u v u' v' : Bytes)
    → u ≡ u'
    → v ≡ v'
    → ((u ≡ a) × (v ≡ s)) ⊎ ((u ≡ s) × (v ≡ a))
    → ((u' ≡ b) × (v' ≡ c)) ⊎ ((u' ≡ c) × (v' ≡ b))
    → ((a ≡ b) × (s ≡ c)) ⊎ ((a ≡ c) × (s ≡ b))
joined_pairs a s b c u v u' v' p q (inl (ua, vs)) (inl (ub, vc)) =
    inl (sym ua ∙ p ∙ ub, sym vs ∙ q ∙ vc)
joined_pairs a s b c u v u' v' p q (inl (ua, vs)) (inr (uc, vb)) =
    inr (sym ua ∙ p ∙ uc, sym vs ∙ q ∙ vb)
joined_pairs a s b c u v u' v' p q (inr (us, va)) (inl (ub, vc)) =
    inr (sym va ∙ q ∙ vc, sym us ∙ p ∙ ub)
joined_pairs a s b c u v u' v' p q (inr (us, va)) (inr (uc, vb)) =
    inl (sym va ∙ q ∙ vb, sym us ∙ p ∙ uc)

All-split : (P : Bytes → Type 0) (xs ys : List Bytes) → All P (xs ++ ys) → All P xs × All P ys
All-split P [] ys h = (tt, h)
All-split P (x ∷ xs) ys (hx, h) = let (hxs, hys) = All-split P xs ys h in ((hx, hxs), hys)

module _ (keccak : Bytes → Bytes) (width : (b : Bytes) → Is32 (keccak b)) where
  pair_both :
      (a s b c : Bytes)
      → Is32 a
      → Is32 s
      → Is32 b
      → Is32 c
      → hash_pair keccak a s ≡ hash_pair keccak b c
      → Collision keccak ⊎ (((a ≡ b) × (s ≡ c)) ⊎ ((a ≡ c) × (s ≡ b)))
  pair_both a s b c la ls lb lc e =
      let (u, v, h, m) = pair_input keccak width a s in
      let (u', v', h', m') = pair_input keccak width b c in
      elim (same_input keccak width (u ++ v) (u' ++ v') (sym h ∙ e ∙ h')) [
        | inl collision ↦ inl collision
        | inr joined ↦
            let (lu, _) = pair_lengths a s u v la ls m in
            let (lu', _) = pair_lengths b c u' v' lb lc m' in
            let (p, q) = append_inj u v u' v' (lu ∙ sym lu') joined in
            inr (joined_pairs a s b c u v u' v' p q m m')
      ]

  tree_hash-Is32 : (t : Tree) → All (DoubleHashed keccak) (frontier t) → Is32 (tree_hash keccak t)
  unfolding tree_hash frontier
  tree_hash-Is32 (leaf x) (dx, _) = rw (dx.1) (width (keccak dx.0))
  tree_hash-Is32 (node s t) d =
      let (u, v, h, _) = pair_input keccak width (tree_hash keccak s) (tree_hash keccak t) in
      rw h (width (u ++ v))

  leaf_not_node :
      (x : Bytes) (s t : Tree)
      → DoubleHashed keccak x
      → All (DoubleHashed keccak) (frontier (node s t))
      → x ≡ tree_hash keccak (node s t)
      → Collision keccak
  unfolding tree_hash frontier
  leaf_not_node x s t dx d e =
      let (ds, dt) = All-split (DoubleHashed keccak) (frontier s) (frontier t) d in
      pair_not_double keccak width (tree_hash keccak s) (tree_hash keccak t) x (tree_hash-Is32 s ds)
        (tree_hash-Is32 t dt) dx e

  -- Two trees over hashed leaves with one hash have the same leaves up to order.
  tree_hash-binds :
      (s t : Tree)
      → All (DoubleHashed keccak) (frontier s)
      → All (DoubleHashed keccak) (frontier t)
      → tree_hash keccak s ≡ tree_hash keccak t
      → Collision keccak ⊎ Perm (frontier s) (frontier t)
  unfolding tree_hash frontier
  tree_hash-binds (leaf x) (leaf y) ds dt e =
      inr (subst (λ z. Perm (x ∷ []) (z ∷ [])) e (Perm.refl (x ∷ [])))
  tree_hash-binds (leaf x) (node t t') ds dt e = inl (leaf_not_node x t t' ds.0 dt e)
  tree_hash-binds (node s s') (leaf y) ds dt e = inl (leaf_not_node y s s' dt.0 ds (sym e))
  tree_hash-binds (node s s') (node t t') ds dt e =
      let (d1, d2) = All-split (DoubleHashed keccak) (frontier s) (frontier s') ds in
      let (d3, d4) = All-split (DoubleHashed keccak) (frontier t) (frontier t') dt in
      elim (pair_both (tree_hash keccak s) (tree_hash keccak s') (tree_hash keccak t)
        (tree_hash keccak t') (tree_hash-Is32 s d1) (tree_hash-Is32 s' d2) (tree_hash-Is32 t d3)
        (tree_hash-Is32 t' d4) e) [
          | inl collision ↦ inl collision
          | inr (inl (p, q)) ↦
              both_halves (tree_hash-binds s t d1 d3 p) (tree_hash-binds s' t' d2 d4 q)
                (λ a b. Perm.append a b)
          | inr (inr (p, q)) ↦
              both_halves (tree_hash-binds s t' d1 d4 p) (tree_hash-binds s' t d2 d3 q)
                (λ a b. Perm.trans (Perm.append a b) (perm_append_comm (frontier t') (frontier t)))
        ]
    where
      both_halves :
          {A B C : Type 0}
          → Collision keccak ⊎ A
          → Collision keccak ⊎ B
          → (A → B → C)
          → Collision keccak ⊎ C
      both_halves (inl collision) _ f = inl collision
      both_halves (inr a) (inl collision) f = inl collision
      both_halves (inr a) (inr b) f = inr (f a b)

-- If keccak's outputs have 32 bytes, then two nonempty lists of leaves, each a hash of a hash,
-- whose trees have the same root are permutations of each other, or two different strings are at
-- hand on which keccak collides. The lists may differ in length.
pub root-binds :
    (keccak : Bytes → Bytes)
    → ((b : Bytes) → Is32 (keccak b))
    → (xs ys : List Bytes) → 1 ≤ length xs
    → 1 ≤ length ys
    → All (DoubleHashed keccak) xs
    → All (DoubleHashed keccak) ys
    → (tree other : MerkleTree) → build_tree keccak xs ≡ some tree
    → build_tree keccak ys ≡ some other
    → root tree ≡ root other
    → Collision keccak ⊎ Perm xs ys
root-binds keccak width xs ys nx ny dx dy tree other bx by' e =
    let (s, tree', bx', leaves, rs) = build_tree-refines keccak xs nx in
    let (t, other', by'', leaves', rt) = build_tree-refines keccak ys ny in
    let same_tree : tree' ≡ tree = some-injective _ _ (sym bx' ∙ bx) in
    let same_other : other' ≡ other = some-injective _ _ (sym by'' ∙ by') in
    let hashes : tree_hash keccak s ≡ tree_hash keccak t =
      some-injective _ _ (sym rs ∙ ap root same_tree ∙ e ∙ ap root (sym same_other) ∙ rt) in
    subst (λ l. Collision keccak ⊎ Perm l ys) leaves
      (subst (λ l. Collision keccak ⊎ Perm (frontier s) l) leaves'
        (tree_hash-binds keccak width s t (rw leaves dx) (rw leaves' dy) hashes))
