-- ===== src/Merkle/Completeness.antt =====
-- The proofs that `proof_for` generates, against the root that `build_levels` computes.
use trust_chain.Prelude.{
  ℕ, zero, suc, ◌+◌, ◌/◌, ◌%◌, ◌-◌, ◌*◌, ◌≤◌, ◌≡◌, refl, inl, inr, true, false, some, List, none,
  ◌⊎◌, [], ◌∷◌, ◌++◌, ltb, ◌==◌, lt→ltb, Bool-cases, arith, length, get_elem?, get_elem?-some_lt,
  tests, drop_last, pos, get_last?,
}
use trust_chain.Merkle.{
  Bytes, bytes_lt, MerkleTree, root, root_of, sibling, siblings, hash_pair, build_levels,
  next_level, climb, build_levels, build_tree, fold_proof, verify_proof, tree_proof,
}
use trust_chain.Merkle.ByteStrings.{bytes_lt_total, bytes_lt_asym, bytes_eq_refl}

sibling_step :
    (a b : Bytes) (rest : List Bytes) (i : ℕ)
    → sibling (a ∷ b ∷ rest) (suc (suc i)) ≡ sibling rest i
sibling_step a b rest i = elim (Bool-cases (i % 2 == 0)) [
  | inl even ↦
      let even' : (suc (suc i) % 2 == 0) ≡ true = ground arith in
      let up : suc (suc i) + 1 ≡ suc (suc (i + 1)) = omega arith in rw (even, even', up)
  | inr odd ↦
      let odd' : (suc (suc i) % 2 == 0) ≡ false = ground arith in
      let down : suc (suc i) - 1 ≡ suc (suc (i - 1)) = ground arith in rw (odd, odd', down)
]

module _ (keccak : Bytes → Bytes) where
  pub hash_pair_comm : (a b : Bytes) → hash_pair keccak a b ≡ hash_pair keccak b a
  unfolding hash_pair
  hash_pair_comm a b = elim (Bool-cases (bytes_lt a b)) [
    | inl lt ↦ rw (lt, bytes_lt_asym a b lt)
    | inr ge ↦ elim (Bool-cases (bytes_lt b a)) [
      | inl gt ↦ rw (ge, gt)
      | inr same ↦ rw (bytes_lt_total a b ge same)
    ]
  ]

  fold-sibling :
      (current : List Bytes) (i : ℕ) (x : Bytes)
      → get_elem? current i ≡ some x
      → get_elem? (next_level keccak current) (i / 2)
        ≡ some (fold_proof keccak x (sibling current i))
  unfolding next_level fold_proof
  fold-sibling [] i x h = cc
  fold-sibling (a ∷ []) zero x h = h
  fold-sibling (a ∷ []) (suc i) x h = cc
  fold-sibling (a ∷ b ∷ rest) zero x h = cc
  fold-sibling (a ∷ b ∷ rest) (suc zero) x h = cc (hash_pair_comm a b)
  fold-sibling (a ∷ b ∷ rest) (suc (suc i)) x h =
      rw (half_step, sibling_step a b rest i) (fold-sibling rest i x h)
    where
      half_step : suc (suc i) / 2 ≡ suc (i / 2)
      half_step = omega arith

  length-next_level :
      (current : List Bytes) → 2 * length (next_level keccak current) ≤ length current + 1
  unfolding next_level
  length-next_level [] = omega arith
  length-next_level (a ∷ []) = omega arith
  length-next_level (a ∷ b ∷ rest) = omega (arith, length-next_level rest)

  fold_proof-append :
      (x : Bytes) (p q : List Bytes)
      → fold_proof keccak x (p ++ q) ≡ fold_proof keccak (fold_proof keccak x p) q
  unfolding fold_proof
  fold_proof-append x [] q = refl
  fold_proof-append x (s ∷ p) q = fold_proof-append (hash_pair keccak x s) p q

  single :
      (current : List Bytes) (i : ℕ) (x : Bytes)
      → length current ≤ 1
      → get_elem? current i ≡ some x
      → get_elem? current 0 ≡ some (fold_proof keccak x [])
  unfolding fold_proof
  single [] i x l h = h
  single (a ∷ []) zero x l h = h
  single (a ∷ []) (suc i) x l h = cc
  single (a ∷ b ∷ rest) i x l h = absurd (omega arith)

  -- From any level up, with enough fuel for the loop.
  climb-verifies :
      (fuel : ℕ) (current : List Bytes) (i : ℕ) (x : Bytes)
      → length current ≤ suc fuel
      → get_elem? current i ≡ some x
      → root_of (current ∷ climb keccak fuel current)
        ≡ some (fold_proof keccak x (siblings (drop_last (current ∷ climb keccak fuel current)) i))
  unfolding climb siblings
  climb-verifies zero current i x l h = single current i x l h
  climb-verifies (suc fuel) current i x l h = elim (Bool-cases (ltb 1 (length current))) [
    | inl more ↦
        rw
          (
            more,
            fold_proof-append x (sibling current i) (
                siblings
                  (drop_last
                    (next_level keccak current ∷ climb keccak fuel (next_level keccak current)))
                  (i / 2)),
          )
          (climb-verifies fuel (next_level keccak current) (i / 2)
            (fold_proof keccak x (sibling current i)) (shorter more) (fold-sibling current i x h))
    | inr done ↦ rw done (single current i x (ground arith) h)
  ]
    where
      shorter : ltb 1 (length current) ≡ true → length (next_level keccak current) ≤ suc fuel
      shorter more = omega (tests, length-next_level current)

-- For every leaf of a list, the generated proof verifies against the root of the tree that is
-- built: the tree has a root, the index has a proof, and `verify_proof` accepts it.
pub proof_verifies :
    (keccak : Bytes → Bytes) (leaves : List Bytes) (i : ℕ) (leaf : Bytes)
    → get_elem? leaves i ≡ some leaf
    → (tree : MerkleTree) × (root_hash : Bytes) × (proof : List Bytes) × (build_tree keccak leaves
        ≡ some tree)
      × (root tree ≡ some root_hash)
      × (tree_proof tree (pos i) ≡ some proof)
      × (verify_proof keccak leaf proof root_hash ≡ true)
unfolding build_tree root tree_proof verify_proof
proof_verifies keccak [] i leaf h = cc
proof_verifies keccak (a ∷ rest) i leaf h =
    let levels = (a ∷ rest) ∷ climb keccak (length (a ∷ rest)) (a ∷ rest) in
    let proof = siblings (drop_last levels) i in
    (
      record { leaves = a ∷ rest; levels = levels },
      fold_proof keccak leaf proof,
      proof,
      refl,
      climb-verifies keccak (length (a ∷ rest)) (a ∷ rest) i leaf (omega arith) h,
      rw (lt→ltb i (length (a ∷ rest)) (get_elem?-some_lt (a ∷ rest) i h)),
      bytes_eq_refl (fold_proof keccak leaf proof),
    )

climb-top :
    (keccak : Bytes → Bytes) (fuel : ℕ) (current : List Bytes)
    → 1 ≤ length current
    → length current ≤ suc fuel
    → (r : Bytes) × (get_last? (current ∷ climb keccak fuel current) ≡ some (r ∷ []))
unfolding climb
climb-top keccak fuel [] l h = absurd (omega arith)
climb-top keccak zero (a ∷ []) l h = (a, refl)
climb-top keccak zero (a ∷ b ∷ rest) l h = absurd (omega arith)
climb-top keccak (suc fuel) (a ∷ []) l h = (a, refl)
climb-top keccak (suc fuel) (a ∷ b ∷ rest) l h =
    let current = a ∷ b ∷ rest in
    rw (lt→ltb 1 (length current) (omega arith)) (
      climb-top keccak fuel (next_level keccak current) (unfold next_level in omega arith)
        (omega (arith, length-next_level keccak current)))

-- The loop of `build_levels` ends with a single node on top for every list of leaves but the
-- empty one, for which it raises.
pub build_levels-top :
    (keccak : Bytes → Bytes) (leaves : List Bytes)
    → (leaves ≡ []) × (build_levels keccak leaves ≡ none)
      ⊎ (levels : List (List Bytes)) × (r : Bytes) × (build_levels keccak leaves ≡ some levels)
        × (get_elem? levels 0 ≡ some leaves)
        × (get_last? levels ≡ some (r ∷ []))
unfolding build_levels
build_levels-top keccak [] = inl (refl, refl)
build_levels-top keccak (a ∷ rest) =
    let (r, top) = climb-top keccak (length (a ∷ rest)) (a ∷ rest) (omega arith) (omega arith) in
    inr ((a ∷ rest) ∷ climb keccak (length (a ∷ rest)) (a ∷ rest), r, refl, refl, top)
