-- ===== src/Watchdog/Silent.antt =====
-- backend/integrity_watchdog/main.py: what a silent sweep of one batch found.
use mathlib.Core.List.{cons≢nil}
use trust_chain.AnchorWorker.Outbox.{find_step}
use trust_chain.Merkle.{Bytes, bytes_eq, MerkleTree, bytes_eq→eq, build_tree, root}
use trust_chain.AnchorWorker.{AnchorBatch, Step}
use mathlib.Core.Option.{some-injective, Option, none-ne-some}
use trust_chain.Prelude.{
  refl, [], some, true, false, inl, inr, List, ℕ, ◌++◌, ◌≡◌, ◌≤◌, ◌∷◌, Bool-cases, length,
  Option-cases, arith, ◌∙◌, ap, leb,
}
use trust_chain.Watchdog.{
  sweep_batch, rebuilt_from, check_chain, missing_of, rebuild_alerts, BatchVerification,
  is_verified_onchain, Sweep, present_of, rebuild_root, stored_leaves,
}

-- A rebuild without a missing step is a build of the tree of the present ones.
pub rebuilt_from_complete :
    (keccak : Bytes → Bytes) (present : List Step) (missing : List ℕ) (r : Bytes)
    → rebuilt_from keccak present missing ≡ some (r, [])
    → (missing ≡ [])
      × (1 ≤ length present
          → (leaves : List Bytes) × (tree : MerkleTree) × (stored_leaves present ≡ some leaves)
            × (build_tree keccak leaves ≡ some tree)
            × (root tree ≡ some r))
unfolding rebuilt_from
rebuilt_from_complete keccak [] missing r h =
    (ap (λ (p : Bytes × List ℕ). p.1) (some-injective _ _ h), λ n. absurd (omega arith))
rebuilt_from_complete keccak (s ∷ rest) missing r h =
    elim (Option-cases (stored_leaves (s ∷ rest))) [
      | inl bad ↦ absurd (none-ne-some _ (rw (rebuilt_from, bad) at h))
      | inr (leaves, read) ↦ elim (Option-cases (build_tree keccak leaves)) [
        | inl refused ↦ absurd (none-ne-some _ (rw (rebuilt_from, read, refused) at h))
        | inr (tree, built) ↦ elim (Option-cases (root tree)) [
          | inl refused ↦ absurd (none-ne-some _ (rw (rebuilt_from, read, built, refused) at h))
          | inr (top, rooted) ↦
              let pair : (top, missing) ≡ (r, []) =
                some-injective _ _ (rw (rebuilt_from, read, built, rooted) at h) in
              (
                ap (λ (p : Bytes × List ℕ). p.1) pair,
                λ n. (
                  leaves,
                  tree,
                  read,
                  built,
                  rooted ∙ ap (λ (p : Bytes × List ℕ). some p.0) pair,
                ),
              )
        ]
      ]
    ]

-- Without missing ids the present rows are as many as the ids, so not none.
pub present_of-nonempty :
    (steps : List Step) (order : List ℕ)
    → missing_of steps order ≡ []
    → 1 ≤ length order
    → 1 ≤ length (present_of steps order)
present_of-nonempty steps [] h n = n
present_of-nonempty steps (i ∷ order) h n = elim (Option-cases (find_step i steps)) [
  | inl gone ↦ absurd (cons≢nil (rw (missing_of, gone) at h))
  | inr (s, found) ↦ rw (present_of, found) (omega arith)
]

-- A check against the chain that got an answer and raised nothing found the stored root there.
check_chain-silent :
    (now : ℕ) (get_batch : ℕ → Option Bytes) (batch : AnchorBatch) (rows : List BatchVerification)
    (anchor : ℕ)
    → batch.onchain_anchor_id ≡ some anchor
    → is_verified_onchain batch.id rows ≡ false
    → (check_chain now get_batch batch rows).alerts ≡ []
    → (check_chain now get_batch batch rows).onchain_check_failures ≡ 0
    → get_batch anchor ≡ some batch.merkle_root
unfolding check_chain
check_chain-silent now get_batch batch rows anchor e fresh quiet answered =
    elim (Option-cases (get_batch anchor)) [
      | inl refused ↦ absurd (omega (arith, rw (e, fresh, refused) at answered))
      | inr (onchain, answer) ↦ elim (Bool-cases (bytes_eq onchain batch.merkle_root)) [
        | inl same ↦ answer ∙ ap some (bytes_eq→eq onchain batch.merkle_root same)
        | inr other ↦ absurd (cons≢nil (rw (e, fresh, answer, other) at quiet))
      ]
    ]

append-nil_parts : {A : Type 0} (xs ys : List A) → xs ++ ys ≡ [] → (xs ≡ []) × (ys ≡ [])
append-nil_parts [] ys h = (refl, h)
append-nil_parts (x ∷ xs) ys h = absurd (cons≢nil h)

rebuild_alerts-silent :
    (batch : AnchorBatch) (rebuilt : Bytes) (missing : List ℕ)
    → rebuild_alerts batch (rebuilt, missing) ≡ []
    → (rebuilt ≡ batch.merkle_root) × (missing ≡ [])
rebuild_alerts-silent batch rebuilt [] h = elim (Bool-cases (bytes_eq rebuilt batch.merkle_root)) [
  | inl same ↦ (bytes_eq→eq rebuilt batch.merkle_root same, refl)
  | inr other ↦ absurd (cons≢nil (rw other at h))
]
rebuild_alerts-silent batch rebuilt (i ∷ missing) h = absurd (cons≢nil h)

-- A silent sweep of a batch rebuilt its Merkle root from all steps and found that root on the
-- chain.
pub sweep_batch-silent :
    (keccak : Bytes → Bytes) (now : ℕ) (get_batch : ℕ → Option Bytes) (steps : List Step)
    (batch : AnchorBatch) (rows : List BatchVerification) (anchor : ℕ) (s : Sweep)
    → batch.onchain_anchor_id ≡ some anchor
    → is_verified_onchain batch.id rows ≡ false
    → sweep_batch keccak now get_batch true steps batch rows ≡ some s
    → s.alerts ≡ []
    → s.onchain_check_failures ≡ 0
    → (rebuild_root keccak steps batch.leaf_order ≡ some (batch.merkle_root, []))
      × (get_batch anchor ≡ some batch.merkle_root)
unfolding sweep_batch
sweep_batch-silent keccak now get_batch steps batch rows anchor s e fresh swept quiet answered =
    elim (Option-cases (rebuild_root keccak steps batch.leaf_order)) [
      | inl refused ↦ absurd (none-ne-some _ (rw (sweep_batch, refused) at swept))
      | inr ((rebuilt, missing), found) ↦
          let same = some-injective _ _ (rw (sweep_batch, found) at swept) in
          let (nothing_rebuilt, nothing_chain) =
            append-nil_parts (rebuild_alerts batch (rebuilt, missing)) _
              (ap (λ (t : Sweep). t.alerts) same ∙ quiet) in
          let (root_same, complete) = rebuild_alerts-silent batch rebuilt missing nothing_rebuilt in
          let all_there : leb (length missing) 0 ≡ true = rw complete refl in
          (
            found ∙ ap some (rw (root_same, complete) refl),
            check_chain-silent now get_batch batch rows anchor e fresh
                (rw all_there at nothing_chain)
                (rw all_there at (ap (λ (t : Sweep). t.onchain_check_failures) same ∙ answered)),
          )
    ]
