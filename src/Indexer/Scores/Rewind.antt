-- ===== src/Indexer/Scores/Rewind.antt =====
-- backend/indexer/scores.py: what happens to the scores when the cursor is rewound.
use trust_chain.Prelude.{
  String, ◌==◌, str_eq, eq_iff, Any, here, there, All, ℕ, List, ◌≡◌, ◌&&◌, Bool-cases, ◌++◌, true,
  inl, ◌∙◌, ◌∷◌, false≢true, inr, ap, [], arith, sym, refl,
}
use Prim.Native.String.{◌++◌ as concat}
use trust_chain.Indexer.Scores.{
  ScoreUpdated, Score, has_score, new_score_row, index_score_updated, index_scores,
}

module _ (hex : List ℕ → String) where
  -- The same log entry.
  abbrev pub SameLog : (e e' : ScoreUpdated) → Type 0
  SameLog e e' = (e.transaction_hash ≡ e'.transaction_hash) × (e.log_index ≡ e'.log_index)

  abbrev pub Indexed : ScoreUpdated → List Score → Type 0
  Indexed e rows = has_score (concat "0x" (hex e.transaction_hash)) e.log_index rows ≡ true

  has_score-append :
      (tx : String) (i : ℕ) (rows more : List Score)
      → has_score tx i rows ≡ true
      → has_score tx i (rows ++ more) ≡ true
  has_score-append tx i [] more h = absurd (false≢true h)
  has_score-append tx i (s ∷ rows) more h =
      elim (Bool-cases (str_eq s.tx_hash tx && s.log_index == i)) [
        | inl hit ↦ rw (has_score, hit) refl
        | inr miss ↦
            rw (has_score, miss) (has_score-append tx i rows more (rw (has_score, miss) at h))
      ]

  has_score-last :
      (tx : String) (i : ℕ) (rows : List Score) (s : Score)
      → (str_eq s.tx_hash tx && s.log_index == i) ≡ true
      → has_score tx i (rows ++ s ∷ []) ≡ true
  has_score-last tx i [] s h = rw (has_score, h) refl
  has_score-last tx i (r ∷ rows) s h = elim (Bool-cases (str_eq r.tx_hash tx && r.log_index == i)) [
    | inl hit ↦ rw (has_score, hit) refl
    | inr miss ↦ rw (has_score, miss) (has_score-last tx i rows s h)
  ]

  index-keeps :
      (id now : ℕ) (e e' : ScoreUpdated) (rows : List Score)
      → Indexed e rows
      → Indexed e (index_score_updated hex id now e' rows).0
  unfolding index_score_updated
  index-keeps id now e e' rows h =
      elim (Bool-cases (has_score (concat "0x" (hex e'.transaction_hash)) e'.log_index rows)) [
        | inl there_is ↦ rw (index_score_updated, there_is) h
        | inr new ↦
            rw (index_score_updated, new)
              (has_score-append (concat "0x" (hex e.transaction_hash)) e.log_index rows _ h)
      ]

  index-adds :
      (id now : ℕ) (e : ScoreUpdated) (rows : List Score)
      → Indexed e (index_score_updated hex id now e rows).0
  unfolding index_score_updated
  index-adds id now e rows =
      let tx = concat "0x" (hex e.transaction_hash) in
      elim (Bool-cases (has_score tx e.log_index rows)) [
        | inl there_is ↦ rw (index_score_updated, there_is) there_is
        | inr new ↦
            rw (index_score_updated, new)
              (has_score-last tx e.log_index rows (new_score_row hex id now e)
                (rw ((eq_iff tx tx).1 refl) (ground arith)))
      ]

  index_scores-keeps :
      (e : ScoreUpdated) (events : List (ℕ × ℕ × ScoreUpdated)) (rows : List Score)
      → Indexed e rows
      → Indexed e (index_scores hex events rows)
  index_scores-keeps e [] rows h = h
  index_scores-keeps e ((id, now, e') ∷ events) rows h =
      index_scores-keeps e events _ (index-keeps id now e e' rows h)

  index_scores-adds :
      (e : ScoreUpdated) (events : List (ℕ × ℕ × ScoreUpdated)) (rows : List Score)
      → Any (λ x. SameLog e x.2) events
      → Indexed e (index_scores hex events rows)
  index_scores-adds e [] rows m = elim m [ ]
  index_scores-adds e ((id, now, e') ∷ events) rows (here (tx, log)) =
      index_scores-keeps e events _ (rw (tx, log) (index-adds id now e' rows))
  index_scores-adds e ((id, now, e') ∷ events) rows (there m) = index_scores-adds e events _ m

  index_scores-again :
      (again : List (ℕ × ℕ × ScoreUpdated)) (rows : List Score)
      → All (λ x. Indexed x.2 rows) again
      → index_scores hex again rows ≡ rows
  unfolding index_score_updated
  index_scores-again [] rows h = refl
  index_scores-again ((id, now, e) ∷ again) rows (there_is, h) =
      rw (index_scores, index_score_updated, there_is) (index_scores-again again rows h)

  known-Indexed :
      (events again : List (ℕ × ℕ × ScoreUpdated)) (rows : List Score)
      → All (λ x. Any (λ y. SameLog x.2 y.2) events) again
      → All (λ x. Indexed x.2 (index_scores hex events rows)) again
  known-Indexed events [] rows known = tt
  known-Indexed events (x ∷ again) rows (m, known) =
      (index_scores-adds x.2 events rows m, known-Indexed events again rows known)

  index_scores-append :
      (events more : List (ℕ × ℕ × ScoreUpdated)) (rows : List Score)
      → index_scores hex (events ++ more) rows
        ≡ index_scores hex more (index_scores hex events rows)
  index_scores-append [] more rows = refl
  index_scores-append ((id, now, e) ∷ events) more rows = index_scores-append events more _

  -- A rewind of the cursor leaves no trace: if log entries that were indexed before are indexed
  -- again, in any order and number and at any later time, the table is in the end, row for row,
  -- the one that indexing without the repetition gives.
  pub index_scores-rewind :
      (events again more : List (ℕ × ℕ × ScoreUpdated)) (rows : List Score)
      → All (λ x. Any (λ y. SameLog x.2 y.2) events) again
      → index_scores hex (events ++ (again ++ more)) rows ≡ index_scores hex (events ++ more) rows
  index_scores-rewind events again more rows known =
      index_scores-append events (again ++ more) rows
      ∙ index_scores-append again more (index_scores hex events rows)
      ∙ ap (index_scores hex more) (
          index_scores-again again (index_scores hex events rows)
            (known-Indexed events again rows known))
      ∙ sym (index_scores-append events more rows)
