-- ===== src/Indexer/Scores.antt =====
-- backend/indexer/scores.py: the scores of agents, a replay of the ScoreUpdated events. The
-- hexadecimal form of a transaction hash is a parameter; the id and the time of a new row are
-- arguments.
pub mod Rewind
use trust_chain.Prelude.{
  String, ◌||◌, ◌==◌, str_eq, eq_iff, Any, here, there, All, ℕ, List, Bool, ◌≡◌, ◌&&◌, Bool-cases,
  ◌++◌, false, if◌then◌else◌, true, inl, ◌∙◌, ◌∷◌, false≢true, inr, ap, [], arith, sym, refl,
}
use Prim.Native.String.{◌++◌ as concat}

pub record ScoreUpdated : Type 0 where
  pub agent_id : String
  pub run_id : String
  pub new_score : ℕ
  pub reason : String
  pub timestamp : ℕ
  pub block_number : ℕ
  pub transaction_hash : List ℕ
  pub log_index : ℕ

pub record Score : Type 0 where
  pub id : ℕ
  pub agent_id : String
  pub run_id : String
  pub score : ℕ
  pub reason : String
  pub timestamp : ℕ
  pub block_number : ℕ
  pub tx_hash : String
  pub log_index : ℕ
  pub indexed_at : ℕ

-- A row that conflicts with a new one on (tx_hash, log_index).
abbrev pub has_score : (tx_hash : String) (log_index : ℕ) → List Score → Bool
has_score tx_hash log_index [] = false
has_score tx_hash log_index (s ∷ rows) =
    (str_eq s.tx_hash tx_hash && s.log_index == log_index) || has_score tx_hash log_index rows

module _ (hex : List ℕ → String) where
  abbrev pub new_score_row : (id now : ℕ) → ScoreUpdated → Score
  new_score_row id now e = record {
    id = id;
    agent_id = e.agent_id;
    run_id = e.run_id;
    score = e.new_score;
    reason = e.reason;
    timestamp = e.timestamp;
    block_number = e.block_number;
    tx_hash = concat "0x" (hex e.transaction_hash);
    log_index = e.log_index;
    indexed_at = now;
  }

  unfoldable pub index_score_updated : (id now : ℕ) → ScoreUpdated → List Score → List Score × Bool
  index_score_updated id now e rows =
      if has_score (concat "0x" (hex e.transaction_hash)) e.log_index rows
      then (rows, false)
      else (rows ++ new_score_row id now e ∷ [], true)

  -- The events of one poll after the other, each with an id and a time.
  abbrev pub index_scores : List (ℕ × ℕ × ScoreUpdated) → List Score → List Score
  index_scores [] rows = rows
  index_scores ((id, now, e) ∷ events) rows =
      index_scores events (index_score_updated id now e rows).0
