-- ===== src/Watchdog/Authentic.antt =====
-- backend/integrity_watchdog: what silence of the detectors on the steps, the batch and the chain
-- says of the steps' rows.
use trust_chain.Merkle.Binding.{root-binds}
use trust_chain.Watchdog.Silent.{sweep_batch-silent, rebuilt_from_complete, present_of-nonempty}
use mathlib.Core.HLevel.{⊥_prop}
use mathlib.Core.Logic.Or
use mathlib.Core.List.Perm
use mathlib.Core.List.{
  Mem, not-mem-nil, mem-cons_self, mem-cons_of_mem, eq-or-mem_of_mem-cons, cons≢nil,
}
use trust_chain.Prelude.{
  length-map, some-injective, subst, false≢true, ℕ, ◌≤◌, ◌≡◌, refl, sym, ap, ◌∙◌, ◌⊎◌, inl, inr,
  true, false, Option, none, some, String, List, [], ◌∷◌, map, length, All, Any, here, there,
  Bool-cases, Option-cases, arith,
}
use trust_chain.Merkle.{
  Bytes, bytes_eq→eq, bytes_dec, AbiValue, LeafFields, leaf_hash, leaf_hash_v2, MerkleTree, root,
  build_tree,
}
use trust_chain.Merkle.Soundness.{Is32, Collision, DoubleHashed}
use trust_chain.Merkle.Leaves.{
  AbiLaws, FieldsInRange, leaf_hash-binds, leaf_hash_v2-binds, leaf_versions_differ,
  leaf_hash-DoubleHashed, leaf_hash_v2-DoubleHashed,
}
use trust_chain.AnchorWorker.{
  HexText, rendered, other_spelling, malformed, fromhex, fromhex_all, Step, AnchorBatch,
}
use trust_chain.Watchdog.{
  is_rendering, stored_fields, bound_code, recompute_leaf, check_steps, stored_leaves, rebuild_root,
  BatchVerification, Sweep, sweep_batch, is_verified_onchain, present_of, missing_of,
}

-- A byte string is in a list or not.
search : (x : Bytes) (l : List Bytes) → Any (λ n. x ≡ n) l ⊎ (Mem x l → ⊥)
search x [] = inr not-mem-nil
search x (y ∷ l) = elim (bytes_dec x y) [
  | inl e ↦ inl (here e)
  | inr ne ↦ elim (search x l) [
    | inl found ↦ inl (there found)
    | inr nowhere ↦ inr (λ m. Or.elim ⊥_prop (eq-or-mem_of_mem-cons m) ne nowhere)
  ]
]

Mem-Any : (x : Bytes) (l : List Bytes) → Mem x l → Any (λ n. x ≡ n) l
Mem-Any x l m = elim (search x l) [ inl found ↦ found | inr nowhere ↦ absurd (nowhere m) ]

module _ (keccak : Bytes → Bytes) (width : (b : Bytes) → Is32 (keccak b))
    (abi_encode : List AbiValue → Bytes) (abi : AbiLaws abi_encode)
    (keccak_text : String → Bytes) where
  abbrev CodeInRange : Option Bytes → Type 0
  CodeInRange none = Unit
  CodeInRange (some code) = Is32 code

  -- Columns that the leaf's ABI types hold.
  abbrev pub StepInRange : Step → Type 0
  StepInRange s =
      FieldsInRange (stored_fields keccak abi_encode keccak_text s)
      × CodeInRange (bound_code keccak abi_encode keccak_text s)

  -- The same hashes of run, agent, action, input and output, the same index and time, and the same
  -- code hash where one is bound.
  abbrev pub SameContent : Step → Step → Type 0
  SameContent s r =
      (stored_fields keccak abi_encode keccak_text s
        ≡ stored_fields keccak abi_encode keccak_text r)
      × (bound_code keccak abi_encode keccak_text s ≡ bound_code keccak abi_encode keccak_text r)

  abbrev recomputed : Step → Bytes
  recomputed = recompute_leaf keccak abi_encode keccak_text

  abbrev leaf_of : LeafFields → Option Bytes → Bytes
  leaf_of f none = leaf_hash keccak abi_encode f
  leaf_of f (some code) = leaf_hash_v2 keccak abi_encode f code

  leaf_of-binds :
      (f g : LeafFields) (c d : Option Bytes)
      → FieldsInRange f
      → FieldsInRange g
      → CodeInRange c
      → CodeInRange d
      → leaf_of f c ≡ leaf_of g d
      → Collision keccak ⊎ ((f ≡ g) × (c ≡ d))
  leaf_of-binds f g none none rf rg rc rd e =
      elim (leaf_hash-binds keccak width abi_encode abi f g rf rg e) [
        | inl collision ↦ inl collision
        | inr same ↦ inr (same, refl)
      ]
  leaf_of-binds f g none (some d) rf rg rc rd e =
      inl (leaf_versions_differ keccak width abi_encode abi f g d rf rg rd e)
  leaf_of-binds f g (some c) none rf rg rc rd e =
      inl (leaf_versions_differ keccak width abi_encode abi g f c rg rf rc (sym e))
  leaf_of-binds f g (some c) (some d) rf rg rc rd e =
      elim (leaf_hash_v2-binds keccak width abi_encode abi f g c d rf rg rc rd e) [
        | inl collision ↦ inl collision
        | inr (same, code) ↦ inr (same, ap some code)
      ]

  leaf_of-recomputed :
      (s : Step)
      → recomputed s
        ≡ leaf_of
            (stored_fields keccak abi_encode keccak_text s)
            (bound_code keccak abi_encode keccak_text s)
  unfolding recompute_leaf
  leaf_of-recomputed s = elim (Option-cases (bound_code keccak abi_encode keccak_text s)) [
    | inl e ↦ rw (recompute_leaf, e) refl
    | inr (code, e) ↦ rw (recompute_leaf, e) refl
  ]

  recomputed-binds :
      (s r : Step)
      → StepInRange s
      → StepInRange r
      → recomputed s ≡ recomputed r
      → Collision keccak ⊎ SameContent s r
  recomputed-binds s r (rs, cs) (rr, cr) e =
      leaf_of-binds _ _ _ _ rs rr cs cr (sym (leaf_of-recomputed s) ∙ e ∙ leaf_of-recomputed r)

  leaf_of-DoubleHashed : (f : LeafFields) (c : Option Bytes) → DoubleHashed keccak (leaf_of f c)
  leaf_of-DoubleHashed f none = leaf_hash-DoubleHashed keccak abi_encode f
  leaf_of-DoubleHashed f (some c) = leaf_hash_v2-DoubleHashed keccak abi_encode f c

  recomputed-AllDoubleHashed :
      (steps : List Step) → All (DoubleHashed keccak) (map recomputed steps)
  recomputed-AllDoubleHashed [] = tt
  recomputed-AllDoubleHashed (s ∷ steps) =
      (rw (leaf_of-recomputed s) (leaf_of-DoubleHashed _ _), recomputed-AllDoubleHashed steps)

  -- Among the steps with one leaf, the content is the same, up to a collision.
  find_content :
      (s : Step) (recorded : List Step)
      → StepInRange s
      → All StepInRange recorded
      → Any (λ n. recomputed s ≡ n) (map recomputed recorded)
      → Collision keccak ⊎ Any (SameContent s) recorded
  find_content s [] rs w m = elim m [ ]
  find_content s (r ∷ recorded) rs (rr, w) (here e) = elim (recomputed-binds s r rs rr e) [
    | inl collision ↦ inl collision
    | inr same ↦ inr (here same)
  ]
  find_content s (r ∷ recorded) rs (rr, w) (there m) = elim (find_content s recorded rs w m) [
    | inl collision ↦ inl collision
    | inr found ↦ inr (there found)
  ]

  each_content :
      (steps recorded : List Step)
      → All StepInRange steps
      → All StepInRange recorded
      → ((x : Bytes) → Mem x (map recomputed steps) → Mem x (map recomputed recorded))
      → Collision keccak ⊎ All (λ s. Any (SameContent s) recorded) steps
  each_content [] recorded ws wr sub = inr tt
  each_content (s ∷ steps) recorded (rs, ws) wr sub =
      elim (find_content s recorded rs wr (Mem-Any _ _ (sub (recomputed s) mem-cons_self))) [
        | inl collision ↦ inl collision
        | inr found ↦
            elim (each_content steps recorded ws wr (λ x m. sub x (mem-cons_of_mem _ m))) [
              | inl collision ↦ inl collision
              | inr others ↦ inr (found, others)
            ]
      ]

  rendering-read :
      (leaf : Bytes) (text : HexText) → is_rendering leaf text ≡ true → fromhex text ≡ some leaf
  rendering-read leaf (rendered b) h = ap some (sym (bytes_eq→eq leaf b h))
  rendering-read leaf (other_spelling b) h = absurd (false≢true h)
  rendering-read leaf malformed h = absurd (false≢true h)

  check_steps-silent :
      (steps : List Step)
      → check_steps keccak abi_encode keccak_text steps ≡ []
      → stored_leaves steps ≡ some (map recomputed steps)
  unfolding check_steps
  check_steps-silent [] h = refl
  check_steps-silent (s ∷ steps) h = elim (Bool-cases (is_rendering (recomputed s) s.leaf_hash)) [
    | inl same ↦
        let read = rendering-read (recomputed s) s.leaf_hash same in
        let rest = check_steps-silent steps (rw same at h) in
        rw (stored_leaves, fromhex_all, read, rest) refl
    | inr other ↦ absurd (cons≢nil (rw other at h))
  ]

  -- Silence is evidence. Let the steps that were anchored have columns in range and let the chain
  -- hold the root of the tree over their leaves. If a batch that was not compared with the chain
  -- before has a nonempty leaf order, its rows have columns in range, the check of the rows
  -- reports none of them and the sweep of the batch, with the chain's check on, raises no alert
  -- and counts no failure, then no id of the leaf order is missing, every row of the batch has the
  -- content of an anchored step and every anchored step the content of a row, or two different
  -- strings are at hand on which keccak collides.
  pub silence-authentic :
      (now : ℕ) (get_batch : ℕ → Option Bytes) (steps recorded : List Step) (batch : AnchorBatch)
      (rows : List BatchVerification) (anchor : ℕ) (tree : MerkleTree) (s : Sweep)
      → 1 ≤ length batch.leaf_order
      → 1 ≤ length recorded
      → All StepInRange (present_of steps batch.leaf_order)
      → All StepInRange recorded
      → build_tree keccak (map recomputed recorded) ≡ some tree
      → get_batch anchor ≡ root tree
      → batch.onchain_anchor_id ≡ some anchor
      → is_verified_onchain batch.id rows ≡ false
      → check_steps keccak abi_encode keccak_text (present_of steps batch.leaf_order) ≡ []
      → sweep_batch keccak now get_batch true steps batch rows ≡ some s
      → s.alerts ≡ []
      → s.onchain_check_failures ≡ 0
      → Collision keccak
        ⊎ ((missing_of steps batch.leaf_order ≡ [])
            × All (λ row. Any (SameContent row) recorded) (present_of steps batch.leaf_order)
            × All (λ old. Any (SameContent old) (present_of steps batch.leaf_order)) recorded)
  unfolding rebuild_root
  silence-authentic now get_batch steps recorded batch rows anchor tree s n n' w w' built chain
        anchored fresh checked swept quiet answered =
      let present = present_of steps batch.leaf_order in
      let (rebuilt, on_chain) =
        sweep_batch-silent keccak now get_batch steps batch rows anchor s anchored fresh swept quiet
          answered in
      let (complete, then_built) =
        rebuilt_from_complete keccak present (missing_of steps batch.leaf_order) batch.merkle_root
          rebuilt in
      let nonempty = present_of-nonempty steps batch.leaf_order complete n in
      let (read_leaves, now_tree, read, now_built, now_root) = then_built nonempty in
      let leaves : read_leaves ≡ map recomputed present =
        some-injective _ _ (sym read ∙ check_steps-silent present checked) in
      elim (root-binds keccak width (map recomputed present) (map recomputed recorded)
        (omega (arith, length-map recomputed present))
        (omega (arith, length-map recomputed recorded)) (recomputed-AllDoubleHashed present)
        (recomputed-AllDoubleHashed recorded) now_tree tree
        (subst (λ l. build_tree keccak l ≡ some now_tree) leaves now_built) built
        (now_root ∙ sym on_chain ∙ chain)) [
          | inl collision ↦ inl collision
          | inr same_leaves ↦
              elim (each_content present recorded w w' (λ x. (Perm.mem_iff same_leaves).0)) [
                | inl collision ↦ inl collision
                | inr forth ↦
                    elim (each_content recorded present w' w (λ x. (Perm.mem_iff same_leaves).1)) [
                      | inl collision ↦ inl collision
                      | inr back ↦ inr (complete, forth, back)
                    ]
              ]
        ]
