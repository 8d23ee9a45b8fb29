-- ===== src/Merkle/Soundness.antt =====
-- What a verified proof shows of the leaf it starts from.
use trust_chain.Prelude.{
  ℕ, zero, suc, ◌≡◌, refl, sym, ap, ◌∙◌, ◌≢◌, ◌⊎◌, inl, inr, true, some, List, [], ◌∷◌, ◌++◌, ltb,
  Bool-cases, arith, length, length-append, get_elem?, All, Any, here, there,
}
use mathlib.Core.Option.{some-injective}
use trust_chain.Merkle.{
  Bytes, bytes_lt, MerkleTree, root, root_of, hash_pair, next_level, climb, build_tree, fold_proof,
  verify_proof,
}
use trust_chain.Merkle.ByteStrings.{bytes_dec, bytes_eq→eq, append_inj}

abbrev pub Is32 : Bytes → Type 0
Is32 b = length b ≡ 32

Any-Is32 : (v : Bytes) (l : List Bytes) → All Is32 l → Any (λ n. n ≡ v) l → Is32 v
Any-Is32 v [] w m = elim m [ ]
Any-Is32 v (x ∷ l) (lx, w) (here e) = rw (← e) lx
Any-Is32 v (x ∷ l) (lx, w) (there m) = Any-Is32 v l w m

first_member : (l : List Bytes) (r : Bytes) → get_elem? l 0 ≡ some r → Any (λ n. n ≡ r) l
first_member [] r h = cc
first_member (x ∷ l) r h = here (cc)

-- Two different byte strings with one hash.
pub record Collision (keccak : Bytes → Bytes) : Type 0 where
  pub left : Bytes
  pub right : Bytes
  pub differ : left ≢ right
  pub same : keccak left ≡ keccak right

-- A value that `leaf_hash` or `leaf_hash_v2` can return: a hash of a hash.
abbrev pub DoubleHashed : (Bytes → Bytes) → Bytes → Type 0
DoubleHashed keccak x = (preimage : Bytes) × (x ≡ keccak (keccak preimage))

Any-DoubleHashed :
    (keccak : Bytes → Bytes) (v : Bytes) (l : List Bytes)
    → All (DoubleHashed keccak) l
    → Any (λ n. n ≡ v) l
    → DoubleHashed keccak v
Any-DoubleHashed keccak v [] w m = elim m [ ]
Any-DoubleHashed keccak v (x ∷ l) (dx, w) (here e) = (dx.0, sym e ∙ dx.1)
Any-DoubleHashed keccak v (x ∷ l) (dx, w) (there m) = Any-DoubleHashed keccak v l w m

pub pair_lengths :
    (a s u v : Bytes)
    → Is32 a
    → Is32 s
    → ((u ≡ a) × (v ≡ s)) ⊎ ((u ≡ s) × (v ≡ a))
    → (length u ≡ 32) × (length v ≡ 32)
pair_lengths a s u v la ls (inl (p, q)) = (ap length p ∙ la, ap length q ∙ ls)
pair_lengths a s u v la ls (inr (p, q)) = (ap length p ∙ ls, ap length q ∙ la)

split_members :
    (a s b c u v u' v' : Bytes)
    → Is32 a
    → Is32 s
    → Is32 b
    → Is32 c
    → u ++ v ≡ u' ++ v'
    → ((u ≡ a) × (v ≡ s)) ⊎ ((u ≡ s) × (v ≡ a))
    → ((u' ≡ b) × (v' ≡ c)) ⊎ ((u' ≡ c) × (v' ≡ b))
    → (a ≡ b) ⊎ (a ≡ c)
split_members a s b c u v u' v' la ls lb lc joined m m' =
    let (lu, lv) = pair_lengths a s u v la ls m in
    let (lu', lv') = pair_lengths b c u' v' lb lc m' in
    let (p, q) = append_inj u v u' v' (lu ∙ sym lu') joined in by_order m m' p q
  where
    by_order :
        ((u ≡ a) × (v ≡ s)) ⊎ ((u ≡ s) × (v ≡ a))
        → ((u' ≡ b) × (v' ≡ c)) ⊎ ((u' ≡ c) × (v' ≡ b))
        → u ≡ u'
        → v ≡ v'
        → (a ≡ b) ⊎ (a ≡ c)
    by_order (inl (ua, vs)) (inl (ub, vc)) p q = inl (sym ua ∙ p ∙ ub)
    by_order (inl (ua, vs)) (inr (uc, vb)) p q = inr (sym ua ∙ p ∙ uc)
    by_order (inr (us, va)) (inl (ub, vc)) p q = inr (sym va ∙ q ∙ vc)
    by_order (inr (us, va)) (inr (uc, vb)) p q = inl (sym va ∙ q ∙ vb)

module _ (keccak : Bytes → Bytes) (width : (b : Bytes) → Is32 (keccak b)) where
  -- One hash, two inputs: the inputs are equal or collide.
  pub same_input : (a b : Bytes) → keccak a ≡ keccak b → Collision keccak ⊎ (a ≡ b)
  same_input a b e = elim (bytes_dec a b) [
    | inl eq ↦ inr eq
    | inr ne ↦ inl (record { left = a; right = b; differ = ne; same = e })
  ]

  -- The string that `hash_pair` hashes: its arguments in one order or the other.
  pub pair_input :
      (a b : Bytes)
      → (u : Bytes) × (v : Bytes) × (hash_pair keccak a b ≡ keccak (u ++ v))
        × (((u ≡ a) × (v ≡ b)) ⊎ ((u ≡ b) × (v ≡ a)))
  unfolding hash_pair
  pair_input a b = elim (Bool-cases (bytes_lt a b)) [
    | inl lt ↦ (a, b, rw lt, inl (refl, refl))
    | inr ge ↦ (b, a, rw ge, inr (refl, refl))
  ]

  -- The first member of a hashed pair is one of the two, up to a collision.
  pair_members :
      (a s b c : Bytes)
      → Is32 a
      → Is32 s
      → Is32 b
      → Is32 c
      → hash_pair keccak a s ≡ hash_pair keccak b c
      → Collision keccak ⊎ ((a ≡ b) ⊎ (a ≡ c))
  pair_members a s b c la ls lb lc e =
      let (u, v, h, m) = pair_input a s in
      let (u', v', h', m') = pair_input b c in
      elim (same_input (u ++ v) (u' ++ v') (sym h ∙ e ∙ h')) [
        | inl collision ↦ inl collision
        | inr joined ↦ inr (split_members a s b c u v u' v' la ls lb lc joined m m')
      ]

  -- A pair's hash is not a hash of a hash, up to a collision.
  pub pair_not_double :
      (a s x : Bytes)
      → Is32 a
      → Is32 s
      → DoubleHashed keccak x
      → x ≡ hash_pair keccak a s
      → Collision keccak
  pair_not_double a s x la ls (preimage, e) p =
      let (u, v, h, m) = pair_input a s in
      elim (same_input (keccak preimage) (u ++ v) (sym e ∙ p ∙ h)) [
        | inl collision ↦ collision
        | inr joined ↦ absurd (
            omega (
              arith,
              ap length joined,
              width preimage,
              length-append u v,
              pair_lengths a s u v la ls m,
            ))
      ]

  -- Down one level: what stands in the next level up stands in this one or is a pair of it.
  below :
      (v : Bytes) (current : List Bytes)
      → Any (λ n. n ≡ v) (next_level keccak current)
      → Any (λ n. n ≡ v) current
        ⊎ ((b : Bytes) × (c : Bytes) × Any (λ n. n ≡ b) current
            × Any (λ n. n ≡ c) current
            × (v ≡ hash_pair keccak b c))
  unfolding next_level
  below v [] m = elim m [ ]
  below v (a ∷ []) m = inl m
  below v (a ∷ b ∷ rest) (here p) = inr (a, b, here refl, there (here refl), sym p)
  below v (a ∷ b ∷ rest) (there m) = elim (below v rest m) [
    | inl up ↦ inl (there (there up))
    | inr (c, d, mc, md, p) ↦ inr (c, d, there (there mc), there (there md), p)
  ]

  next_level-Is32 : (current : List Bytes) → All Is32 current → All Is32 (next_level keccak current)
  unfolding next_level
  next_level-Is32 [] w = tt
  next_level-Is32 (a ∷ []) w = w
  next_level-Is32 (a ∷ b ∷ rest) (wa, (wb, w)) =
      let (u, v, h, _) = pair_input a b in (rw h (width (u ++ v)), next_level-Is32 rest w)

  -- The values that a walk from `x` passes, with siblings of 32 bytes.
  data Chain (x : Bytes) : Bytes → Type 0 where
    start : {v : Bytes} → v ≡ x → Chain x v
    up :
        {v : Bytes} (a s : Bytes)
        → Is32 a
        → Is32 s
        → Chain x a
        → v ≡ hash_pair keccak a s
        → Chain x v

  fold-Chain :
      (x v : Bytes) (proof : List Bytes)
      → Is32 v
      → All Is32 proof
      → Chain x v
      → Chain x (fold_proof keccak v proof)
  unfolding fold_proof
  fold-Chain x v [] lv w ch = ch
  fold-Chain x v (s ∷ proof) lv (ls, w) ch =
      let (a, b, h, _) = pair_input v s in
      fold-Chain x (hash_pair keccak v s) proof (rw h (width (a ++ b))) w (up v s lv ls ch refl)

  -- The walk from `x` meets a node of the level.
  abbrev Meets : Bytes → List Bytes → Type 0
  Meets x current = (v : Bytes) × Any (λ n. n ≡ v) current × Chain x v

  -- A walk that meets a level meets the level below, or shows a collision.
  step_down :
      (x : Bytes) (current : List Bytes)
      → DoubleHashed keccak x
      → All Is32 current
      → Meets x (next_level keccak current)
      → Collision keccak ⊎ Meets x current
  step_down x current dx w (v, m, ch) = elim (below v current m) [
    | inl promoted ↦ inr (v, promoted, ch)
    | inr (b, c, mb, mc, p) ↦ by_chain b c mb mc p ch
  ]
    where
      by_chain :
          (b c : Bytes)
          → Any (λ n. n ≡ b) current
          → Any (λ n. n ≡ c) current
          → v ≡ hash_pair keccak b c
          → Chain x v
          → Collision keccak ⊎ Meets x current
      by_chain b c mb mc p (start e) =
          inl (
            pair_not_double b c x (Any-Is32 b current w mb) (Any-Is32 c current w mc) dx
              (sym e ∙ p))
      by_chain b c mb mc p (up a s la ls ch' e) =
          elim (pair_members a s b c la ls (Any-Is32 b current w mb) (Any-Is32 c current w mc)
            (sym e ∙ p)) [
              | inl collision ↦ inl collision
              | inr (inl q) ↦ inr (b, mb, rw q at ch')
              | inr (inr q) ↦ inr (c, mc, rw q at ch')
            ]

  climb_down :
      (fuel : ℕ) (x r : Bytes) (current : List Bytes)
      → DoubleHashed keccak x
      → All Is32 current
      → root_of (current ∷ climb keccak fuel current) ≡ some r
      → Chain x r
      → Collision keccak ⊎ Meets x current
  unfolding climb
  climb_down zero x r current dx w h ch = inr (r, first_member current r h, ch)
  climb_down (suc fuel) x r current dx w h ch = elim (Bool-cases (ltb 1 (length current))) [
    | inl more ↦
        elim (climb_down fuel x r (next_level keccak current) dx (next_level-Is32 current w)
          (rw more at h) ch) [
            | inl collision ↦ inl collision
            | inr met ↦ step_down x current dx w met
          ]
    | inr done ↦ inr (r, first_member current r (rw done at h), ch)
  ]

  -- A walk that meets the leaves began at one.
  at_leaves :
      (x : Bytes) (leaves : List Bytes)
      → All (DoubleHashed keccak) leaves
      → Meets x leaves
      → Collision keccak ⊎ Any (λ leaf. leaf ≡ x) leaves
  at_leaves x leaves doubled (v, m, start e) = inr (rw e at m)
  at_leaves x leaves doubled (v, m, up a s la ls ch e) =
      inl (pair_not_double a s v la ls (Any-DoubleHashed keccak v leaves doubled m) e)

pub doubled-Is32 :
    (keccak : Bytes → Bytes)
    → ((b : Bytes) → Is32 (keccak b))
    → (l : List Bytes) → All (DoubleHashed keccak) l
    → All Is32 l
doubled-Is32 keccak width [] d = tt
doubled-Is32 keccak width (x ∷ l) (dx, d) =
    (rw (dx.1) (width (keccak dx.0)), doubled-Is32 keccak width l d)

-- If keccak's outputs have 32 bytes, every leaf is a hash of a hash, and a proof of 32-byte
-- siblings for such a value verifies against the root of the tree, then the value is one of the
-- leaves, or two different strings are at hand on which keccak collides.
pub verify_sound :
    (keccak : Bytes → Bytes)
    → ((b : Bytes) → Is32 (keccak b))
    → (leaves : List Bytes) → All (DoubleHashed keccak) leaves
    → (tree : MerkleTree) (root_hash : Bytes) → build_tree keccak leaves ≡ some tree
    → root tree ≡ some root_hash
    → (x : Bytes) (proof : List Bytes) → DoubleHashed keccak x
    → All Is32 proof
    → verify_proof keccak x proof root_hash ≡ true
    → Collision keccak ⊎ Any (λ leaf. leaf ≡ x) leaves
unfolding build_tree root verify_proof
verify_sound keccak width [] doubled tree root_hash built rooted x proof dx w v = cc
verify_sound keccak width (a ∷ rest) doubled tree root_hash built rooted x proof dx w v =
    let walk : Chain keccak width x (fold_proof keccak x proof) =
      fold-Chain keccak width x x proof (rw (dx.1) (width (keccak dx.0))) w (start refl) in
    let reached : Chain keccak width x root_hash =
      rw (bytes_eq→eq (fold_proof keccak x proof) root_hash v) at walk in
    let rooted' : root_of ((a ∷ rest) ∷ climb keccak (length (a ∷ rest)) (a ∷ rest))
        ≡ some root_hash =
      ap (λ (t : MerkleTree). root_of t.levels) (some-injective _ _ built) ∙ rooted in
    elim (climb_down keccak width (length (a ∷ rest)) x root_hash (a ∷ rest) dx
      (doubled-Is32 keccak width (a ∷ rest) doubled) rooted' reached) [
        | inl collision ↦ inl collision
        | inr met ↦ at_leaves keccak width x (a ∷ rest) doubled met
      ]
