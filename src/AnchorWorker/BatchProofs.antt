-- ===== src/AnchorWorker/BatchProofs.antt =====
-- The batches that build_batches stores: their groups, and the proofs of their leaves.
use trust_chain.AnchorWorker.Tables.{Db, HexText, fromhex, fromhex_all}
use trust_chain.Merkle.Completeness.{proof_verifies}
use trust_chain.AnchorWorker.Outbox.{ClaimedStep}
use trust_chain.Merkle.{Bytes, MerkleTree, build_tree, root, tree_proof, verify_proof}
use trust_chain.Prelude.{
  All-Among, Among-All, sort_by-Among, Among-sort_by, length-map, ℕ, refl, [], String, List, ◌≤◌,
  All, ◌≡◌, some, length, arith, ◌+◌, get_elem?, ◌∷◌, Option-cases, pos, true, inl, none-ne-some,
  some-injective, length-sort_by, inr, sym, subst, ◌∙◌, ap,
}
use trust_chain.AnchorWorker.HexTexts.{
  Readable, fromhex_all-Readable, Readable-fromhex_all, get_elem?-fromhex_all,
}
use trust_chain.AnchorWorker.Grouping.{IsGroup, AllSteps, group_by_run-parts, group_by_run-AllSteps}
use trust_chain.AnchorWorker.Batch.{
  Groups, make_batch, group_by_run, Batch, texts_of, by_index, store_groups, build_batches,
  store_batch,
}

-- A batch as `make_batch` builds it, from the tree of its leaves.
make_batch-tree :
    (keccak : Bytes → Bytes) (keccak_text : String → Bytes) (batch_id : ℕ) (run : String)
    (group : List ClaimedStep) (b : Batch)
    → make_batch keccak keccak_text batch_id (run, group) ≡ some b
    → (leaves : List Bytes) × (tree : MerkleTree) × (fromhex_all b.leaf_hashes ≡ some leaves)
      × (build_tree keccak leaves ≡ some tree)
      × (root tree ≡ some b.merkle_root)
      × (texts_of (by_index group) ≡ b.leaf_hashes)
unfolding make_batch
make_batch-tree keccak keccak_text batch_id run group b e =
    elim (Option-cases (fromhex_all (texts_of (by_index group)))) [
      | inl bad ↦ absurd (none-ne-some _ (rw (bad, make_batch) at e))
      | inr (leaves, read) ↦ elim (Option-cases (build_tree keccak leaves)) [
        | inl raised ↦ absurd (none-ne-some _ (rw (read, raised, make_batch) at e))
        | inr (tree, built) ↦ elim (Option-cases (root tree)) [
          | inl raised ↦ absurd (none-ne-some _ (rw (read, built, raised, make_batch) at e))
          | inr (root_hash, rooted) ↦
              let made = some-injective _ _ (rw (read, built, rooted, make_batch) at e) in
              let texts : texts_of (by_index group) ≡ b.leaf_hashes =
                ap (λ (c : Batch). c.leaf_hashes) made in
              (
                leaves,
                tree,
                subst (λ t. fromhex_all t ≡ some leaves) texts read,
                built,
                rooted ∙ ap (λ (c : Batch). some c.merkle_root) made,
                texts,
              )
        ]
      ]
    ]

-- Every leaf of a batch can be proved: the stored leaf hashes are read as bytes, and the tree of
-- these leaves has a proof for each index that verifies the leaf against the root that the batch
-- stores and submits.
pub make_batch-verifies :
    (keccak : Bytes → Bytes) (keccak_text : String → Bytes) (batch_id : ℕ) (run : String)
    (group : List ClaimedStep) (b : Batch) (i : ℕ) (text : HexText)
    → make_batch keccak keccak_text batch_id (run, group) ≡ some b
    → get_elem? b.leaf_hashes i ≡ some text
    → (leaves : List Bytes) × (leaf : Bytes) × (tree : MerkleTree) × (proof : List Bytes)
      × (fromhex_all b.leaf_hashes ≡ some leaves)
      × (fromhex text ≡ some leaf)
      × (build_tree keccak leaves ≡ some tree)
      × (tree_proof tree (pos i) ≡ some proof)
      × (verify_proof keccak leaf proof b.merkle_root ≡ true)
make_batch-verifies keccak keccak_text batch_id run group b i text e h =
    let (leaves, tree, read, built, rooted, _) =
      make_batch-tree keccak keccak_text batch_id run group b e in
    let (leaf, reads, placed) = get_elem?-fromhex_all b.leaf_hashes leaves i text read h in
    let (tree', root', proof, built', rooted', proved, verified) =
      proof_verifies keccak leaves i leaf placed in
    let same : tree' ≡ tree = some-injective _ _ (sym built' ∙ built) in
    let same_root : root' ≡ b.merkle_root =
      some-injective _ _ (sym rooted' ∙ ap root same ∙ rooted) in
    (
      leaves,
      leaf,
      tree',
      proof,
      read,
      reads,
      built',
      proved,
      subst (λ r. verify_proof keccak leaf proof r ≡ true) same_root verified,
    )

abbrev pub ReadableStep : ClaimedStep → Type 0
ReadableStep s = Readable s.step.leaf_hash

texts_of-Readable :
    (steps : List ClaimedStep)
    → (All ReadableStep steps → All Readable (texts_of steps))
      × (All Readable (texts_of steps) → All ReadableStep steps)
texts_of-Readable [] = (λ h. h, λ h. h)
texts_of-Readable (s ∷ steps) =
    let rest = texts_of-Readable steps in (λ h. (h.0, rest.0 h.1), λ h. (h.0, rest.1 h.1))

-- A group with a step makes a batch, if its leaf hashes can be read.
make_batch-total :
    (keccak : Bytes → Bytes) (keccak_text : String → Bytes) (batch_id : ℕ)
    (group : String × List ClaimedStep)
    → IsGroup group
    → All ReadableStep group.1
    → (b : Batch) × (make_batch keccak keccak_text batch_id group ≡ some b)
unfolding make_batch
make_batch-total keccak keccak_text batch_id (run, group) (n, r) readable =
    let sorted = by_index group in
    let all_readable : All ReadableStep sorted = All-Among sorted (λ s m.
      Among-All ReadableStep s group readable
        (sort_by-Among (λ (t : ClaimedStep). t.step.step_index) s group m)) in
    let (leaves, read, same) =
      fromhex_all-Readable (texts_of sorted) ((texts_of-Readable sorted).0 all_readable) in
    let (leaf, first) = first_leaf leaves (
      omega (
        arith,
        same,
        length-map (λ (s : ClaimedStep). s.step.leaf_hash) sorted,
        length-sort_by {0} (λ (s : ClaimedStep). s.step.step_index) group,
      )) in
    let (tree, root_hash, proof, built, rooted, _, _) = proof_verifies keccak leaves 0 leaf first in
    elim (Option-cases (make_batch keccak keccak_text batch_id (run, group))) [
      | inl raised ↦ absurd (none-ne-some _ (sym (rw (read, built, rooted, make_batch) at raised)))
      | inr made ↦ made
    ]
  where
    first_leaf : (l : List Bytes) → 1 ≤ length l → (leaf : Bytes) × (get_elem? l 0 ≡ some leaf)
    first_leaf [] h = absurd (omega arith)
    first_leaf (b ∷ l) h = (b, refl)

-- A batch that was made had leaf hashes that can be read.
make_batch-Readable :
    (keccak : Bytes → Bytes) (keccak_text : String → Bytes) (batch_id : ℕ)
    (group : String × List ClaimedStep) (b : Batch)
    → make_batch keccak keccak_text batch_id group ≡ some b
    → All ReadableStep group.1
make_batch-Readable keccak keccak_text batch_id (run, group) b e =
    let (leaves, tree, read, _, _, texts) =
      make_batch-tree keccak keccak_text batch_id run group b e in
    let sorted : All ReadableStep (by_index group) = (texts_of-Readable (by_index group)).1 (
      Readable-fromhex_all (texts_of (by_index group)) leaves
        (subst (λ t. fromhex_all t ≡ some leaves) (sym texts) read)) in
    All-Among group (λ s m.
      Among-All ReadableStep s (by_index group) sorted
        (Among-sort_by (λ (t : ClaimedStep). t.step.step_index) s group m))

store_groups-total :
    (keccak : Bytes → Bytes) (keccak_text : String → Bytes) (now id : ℕ) (groups : Groups) (db : Db)
    → All IsGroup groups
    → AllSteps ReadableStep groups
    → (r : Db × List Batch) × (store_groups keccak keccak_text now id groups db ≡ some r)
unfolding store_groups
store_groups-total k t now id [] db h readable = ((db, []), refl)
store_groups-total k t now id (g ∷ groups) db (hg, h) (rg, readable) =
    let (b, made) = make_batch-total k t id g hg rg in
    let (r, stored) =
      store_groups-total k t now (id + 1) groups (store_batch now b db) h readable in
    ((r.0, b ∷ r.1), rw (made, stored, store_groups))

store_groups-Readable :
    (keccak : Bytes → Bytes) (keccak_text : String → Bytes) (now id : ℕ) (groups : Groups) (db : Db)
    (r : Db × List Batch)
    → store_groups keccak keccak_text now id groups db ≡ some r
    → AllSteps ReadableStep groups
unfolding store_groups
store_groups-Readable k t now id [] db r e = tt
store_groups-Readable k t now id (g ∷ groups) db r e = elim (Option-cases (make_batch k t id g)) [
  | inl raised ↦ absurd (none-ne-some _ (rw (raised, store_groups) at e))
  | inr (b, made) ↦
      elim (Option-cases (store_groups k t now (id + 1) groups (store_batch now b db))) [
        | inl raised ↦ absurd (none-ne-some _ (rw (made, raised, store_groups) at e))
        | inr (r', stored) ↦ (
          make_batch-Readable k t id g b made,
          store_groups-Readable k t now (id + 1) groups (store_batch now b db) r' stored,
        )
      ]
]

-- The batcher gets through exactly where the leaf hashes can be read: if the stored leaf hash of
-- every claimed step is hexadecimal, `build_batches` stores a list of batches and returns it,
-- whatever their runs and indexes; if it returns, then every one of them was hexadecimal.
pub build_batches-total :
    (keccak : Bytes → Bytes) (keccak_text : String → Bytes) (now id : ℕ) (steps : List ClaimedStep)
    (db : Db)
    → (All ReadableStep steps
        → (r : Db × List Batch) × (build_batches keccak keccak_text now id steps db ≡ some r))
      × ((r : Db × List Batch)
          → build_batches keccak keccak_text now id steps db ≡ some r
          → All ReadableStep steps)
unfolding build_batches
build_batches-total k t now id steps db =
    let groups = group_by_run [] steps in
    let same = group_by_run-AllSteps ReadableStep steps [] in
    (
      λ readable.
          store_groups-total k t now id groups db (group_by_run-parts steps [] tt).0
            (same.0 readable tt),
      λ r e. (same.1 (store_groups-Readable k t now id groups db r e)).0,
    )
