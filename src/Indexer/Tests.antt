-- ===== src/Indexer/Tests.antt =====
-- A chain of ten blocks that was reorganized since the cursor was saved.
use trust_chain.Prelude.{
  ℕ, here, refl, [], some, true, List, ◌∷◌, String, Option, Bool, ◌≡◌, ◌+◌, ◌≤◌, ◌⊎◌, arith,
}
use trust_chain.Indexer.{Cursor, poll_once, handle_logs, resolve_start_block}
use trust_chain.Indexer.Scores.{ScoreUpdated, index_scores}
use trust_chain.Indexer.Scores.Rewind.{index_scores-rewind}
use trust_chain.Indexer.Coverage.{poll_once-covers}

abbrev saved : Cursor
saved = record { last_block = 5; last_block_hash = "before" }

abbrev hashes : ℕ → Option String
hashes _ = some "now"

-- The logs are the numbers of their blocks; the handler counts them.
abbrev two_logs : ℕ → ℕ → List ℕ
two_logs from to = from ∷ to ∷ []

abbrev count : ℕ → ℕ → ℕ × Bool
count s log = (s + 1, true)

abbrev polled : Cursor
polled = record { last_block = 8; last_block_hash = "now" }

rewinds : poll_once hashes two_logs count 9 2 1 (some saved) 0 ≡ some (some polled, 2, 2)
unfolding poll_once resolve_start_block
rewinds = refl

poll_once-covers_example :
    (some polled ≡ some saved) × (◌≡◌ {A = ℕ} 2 0) × (◌≡◌ {A = ℕ} 2 0)
    ⊎ (resolve_start_block hashes 2 (some saved) ≤ 6)
      × (9 + 1 ≡ 9 + 1)
      × ((2, 2) ≡ handle_logs count (two_logs (resolve_start_block hashes 2 (some saved)) 9) 0)
poll_once-covers_example =
    poll_once-covers hashes two_logs count 9 2 1 2 (some saved) (some polled) 0 2 (omega arith)
      rewinds

abbrev updated : ScoreUpdated
updated = record {
  agent_id = "a";
  run_id = "r";
  new_score = 90;
  reason = "";
  timestamp = 5;
  block_number = 3;
  transaction_hash = 7 ∷ [];
  log_index = 0;
}

abbrev later : ScoreUpdated
later = record updated { log_index = 1; new_score = 95 }

-- The entry is indexed again with another id and at another time.
index_scores-rewind_example :
    index_scores (λ h. "7") ((1, 10, updated) ∷ (2, 20, updated) ∷ (3, 20, later) ∷ []) []
    ≡ index_scores (λ h. "7") ((1, 10, updated) ∷ (3, 20, later) ∷ []) []
index_scores-rewind_example =
    index_scores-rewind (λ h. "7") ((1, 10, updated) ∷ []) ((2, 20, updated) ∷ [])
      ((3, 20, later) ∷ []) [] (here (refl, refl), tt)
