-- ===== src/AnchorWorker/Reconciliation.antt =====
-- indexer/reconcile.py: the same event twice, and batches that share a root.
use trust_chain.AnchorWorker.Outbox.{
  BatchAnchored, reconcile_batch_anchored, outstanding, first_outstanding, confirm_batch,
  unanchored_in, set_anchored, anchor_rows,
}
use trust_chain.Merkle.{Bytes}
use trust_chain.Prelude.{
  ℕ, refl, [], List, ◌≡◌, All, update_where, false, none, some, ◌∷◌, Option-cases, Among, arith,
  inl, true, Bool-cases, inr, ◌≢◌, Among-update_where, subst,
}
use trust_chain.AnchorWorker.Tables.{Db, AnchorBatch, AnchorOutbox}

no_outstanding :
    (root : Bytes) (batches : List AnchorBatch)
    → All (λ b. outstanding root b ≡ false) batches
    → first_outstanding root batches ≡ none
no_outstanding root [] h = refl
no_outstanding root (b ∷ batches) (hb, h) = rw hb (no_outstanding root batches h)

confirmed-All :
    (now : ℕ) (event : BatchAnchored) (batches : List AnchorBatch)
    → All
        (λ b. outstanding event.merkle_root b ≡ false)
        (update_where (outstanding event.merkle_root) (confirm_batch now event) batches)
confirmed-All now event [] = tt
confirmed-All now event (b ∷ batches) = elim (Bool-cases (outstanding event.merkle_root b)) [
  | inl hit ↦ rw hit (done b, confirmed-All now event batches)
  | inr miss ↦ rw miss (miss, confirmed-All now event batches)
]
  where
    done : (b : AnchorBatch) → outstanding event.merkle_root (confirm_batch now event b) ≡ false
    done b = ground arith

reconciled_batches :
    (now : ℕ) (event : BatchAnchored) (db : Db)
    → (reconcile_batch_anchored now event db).0.batches
      ≡ update_where (outstanding event.merkle_root) (confirm_batch now event) db.batches
unfolding reconcile_batch_anchored
reconciled_batches now event db =
    elim (Option-cases (first_outstanding event.merkle_root db.batches)) [
      | inl no_batch ↦ rw (no_batch, reconcile_batch_anchored)
      | inr (batch, found) ↦ rw (found, reconcile_batch_anchored)
    ]

reconcile-nothing :
    (now : ℕ) (event : BatchAnchored) (db : Db)
    → first_outstanding event.merkle_root db.batches ≡ none
    → ((reconcile_batch_anchored now event db).1 ≡ false)
      × ((reconcile_batch_anchored now event db).0.outbox ≡ db.outbox)
unfolding reconcile_batch_anchored
reconcile-nothing now event db h =
    (rw (h, reconcile_batch_anchored), rw (h, reconcile_batch_anchored))

-- An event is reconciled at most once: given the same event again, whatever the clock, the handler
-- returns False and leaves the outbox as it is.
pub reconcile-reconcile :
    (now now' : ℕ) (event : BatchAnchored) (db : Db)
    → let after = (reconcile_batch_anchored now event db).0 in
      ((reconcile_batch_anchored now' event after).1 ≡ false)
      × ((reconcile_batch_anchored now' event after).0.outbox ≡ after.outbox)
reconcile-reconcile now now' event db =
    let after = (reconcile_batch_anchored now event db).0 in
    let none_left : first_outstanding event.merkle_root after.batches ≡ none =
      rw (reconciled_batches now event db)
        (no_outstanding event.merkle_root _ (confirmed-All now event db.batches)) in
    reconcile-nothing now' event after none_left

-- Two batches that are not confirmed and have the event's root, as a failed one and its retry do:
-- both become confirmed, but only the rows of the first in the table's order are anchored. A row
-- of the other batch stays exactly as it was.
pub reconcile-misses_second :
    (now : ℕ) (event : BatchAnchored) (db : Db) (first : ℕ) (second : AnchorBatch)
    (r : AnchorOutbox)
    → first_outstanding event.merkle_root db.batches ≡ some first
    → Among second db.batches
    → outstanding event.merkle_root second ≡ true
    → second.id ≢ first
    → Among r db.outbox
    → r.batch_id ≡ some second.id
    → let after = (reconcile_batch_anchored now event db).0 in
      Among (confirm_batch now event second) after.batches × Among r after.outbox
unfolding reconcile_batch_anchored
reconcile-misses_second now event db first second r found ms os ne mr rb = (
  rw (reconciled_batches now event db) (
      subst
        (λ z.
          Among z
            (update_where (outstanding event.merkle_root) (confirm_batch now event) db.batches))
        marked
        (Among-update_where (outstanding event.merkle_root) (confirm_batch now event) second
          db.batches ms)),
  rw (found, reconcile_batch_anchored)
      (subst (λ z. Among z (anchor_rows first db.outbox)) kept
        (Among-update_where (unanchored_in first) set_anchored r db.outbox mr)),
)
  where
    marked :
        elim (outstanding event.merkle_root second) [
          | true ↦ confirm_batch now event second
          | false ↦ second
        ]
        ≡ confirm_batch now event second
    marked = rw os

    kept : elim (unanchored_in first r) [ true ↦ set_anchored r | false ↦ r ] ≡ r
    kept = ground arith
