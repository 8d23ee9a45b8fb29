-- ===== src/Watchdog/Caching.antt =====
-- backend/integrity_watchdog/main.py: the effect of the row in `batch_verifications` on the check
-- against the chain.
use trust_chain.Prelude.{
  ℕ, ◌≡◌, refl, Bool, true, Option, some, List, [], ◌∷◌, Bool-cases, inl, inr, is_some, arith,
  Option-cases,
}
use trust_chain.Merkle.{Bytes, bytes_eq_refl}
use trust_chain.AnchorWorker.{AnchorBatch, Step}
use trust_chain.Watchdog.{
  rebuild_root, BatchVerification, Sweep, check_chain, sweep_batch, is_verified_onchain,
  put_verification,
}

put-IsVerified :
    (row : BatchVerification) (rows : List BatchVerification)
    → is_some row.onchain_root_verified_at ≡ true
    → is_verified_onchain row.batch_id (put_verification row rows) ≡ true
put-IsVerified row [] h = ground (arith, h)
put-IsVerified row (v ∷ rows) h = ground (arith, put-IsVerified row rows h)

quiet : List BatchVerification → Sweep
quiet rows = record { alerts = []; onchain_check_failures = 0; verifications = rows }

check_chain-cached :
    (now : ℕ) (get_batch : ℕ → Option Bytes) (batch : AnchorBatch) (rows : List BatchVerification)
    → is_verified_onchain batch.id rows ≡ true
    → check_chain now get_batch batch rows ≡ quiet rows
unfolding check_chain quiet
check_chain-cached now get_batch batch rows verified = elim (Option-cases batch.onchain_anchor_id) [
  | inl no_anchor ↦ rw no_anchor refl
  | inr (anchor, e) ↦ rw (e, verified) refl
]

-- The row that a check which got an answer leaves behind counts as verified, matching or not.
check_chain-marks :
    (now : ℕ) (get_batch : ℕ → Option Bytes) (batch : AnchorBatch) (rows : List BatchVerification)
    (anchor : ℕ) (onchain : Bytes)
    → batch.onchain_anchor_id ≡ some anchor
    → get_batch anchor ≡ some onchain
    → is_verified_onchain batch.id (check_chain now get_batch batch rows).verifications ≡ true
unfolding check_chain
check_chain-marks now get_batch batch rows anchor onchain e answer =
    elim (Bool-cases (is_verified_onchain batch.id rows)) [
      | inl old ↦ rw (e, old) old
      | inr fresh ↦ rw (e, fresh, answer) (put-IsVerified _ rows refl)
    ]

-- Once a batch was compared with the chain, whether the roots agreed or not, it is never compared
-- again: if a later batch row of the same id rebuilds, without a missing step, to its own Merkle
-- root, then the later sweep raises no alert and counts no failure, whatever the chain answers
-- then, also when that root is not the one that was compared.
pub compared_once-never_again :
    (keccak : Bytes → Bytes) (now later : ℕ) (get_batch get_later : ℕ → Option Bytes)
    (check_onchain : Bool) (batch changed : AnchorBatch) (rows : List BatchVerification)
    (steps : List Step) (anchor : ℕ) (onchain : Bytes)
    → batch.onchain_anchor_id ≡ some anchor
    → get_batch anchor ≡ some onchain
    → changed.id ≡ batch.id
    → rebuild_root keccak steps changed.leaf_order ≡ some (changed.merkle_root, [])
    → sweep_batch keccak later get_later check_onchain steps changed
        (check_chain now get_batch batch rows).verifications
      ≡ some (record {
        alerts = [];
        onchain_check_failures = 0;
        verifications = (check_chain now get_batch batch rows).verifications;
      })
unfolding sweep_batch quiet
compared_once-never_again keccak now later get_batch get_later check_onchain batch changed rows
      steps anchor onchain e answer same rebuilt =
    let after = (check_chain now get_batch batch rows).verifications in
    let verified : is_verified_onchain changed.id after ≡ true =
      rw same (check_chain-marks now get_batch batch rows anchor onchain e answer) in
    elim (Bool-cases check_onchain) [
      | inl on ↦
          rw
            (
              sweep_batch,
              rebuilt,
              on,
              check_chain-cached later get_later changed after verified,
              bytes_eq_refl changed.merkle_root,
            )
            refl
      | inr off ↦ rw (sweep_batch, rebuilt, off, bytes_eq_refl changed.merkle_root) refl
    ]
