-- ===== src/AnchorWorker/Tables.antt =====
-- The tables of db/models.py that the anchor worker and the indexer's reconciliation write:
-- `AnchorOutbox`, `AnchorBatch` and `Step` (all columns but the unused `metadata_json`).
-- Hashes are byte strings here and "0x..." texts in the database; `leaf_hash` keeps what becomes of
-- a text that does not parse.
use trust_chain.Prelude.{ℕ, String, Option, List, some, none, [], ◌∷◌}
use trust_chain.Merkle.{Bytes}

-- pending | claimed | anchored | dead_letter
pub data OutboxStatus : Type 0 where
  pending claimed anchored dead_letter : OutboxStatus

pub record AnchorOutbox : Type 0 where
  pub id : ℕ
  pub step_id : ℕ
  pub status : OutboxStatus
  pub attempts : ℕ
  pub claimed_by : Option String
  pub claimed_at : Option ℕ
  pub next_attempt_at : ℕ
  pub last_error : Option String
  pub batch_id : Option ℕ
  pub created_at : ℕ

-- building | submitted | confirmed | failed
pub data BatchStatus : Type 0 where
  building submitted confirmed failed : BatchStatus

pub record AnchorBatch : Type 0 where
  pub id : ℕ
  pub run_id_hash : Bytes
  pub merkle_root : Bytes
  pub step_count : ℕ
  pub leaf_order : List ℕ
  pub status : BatchStatus
  pub tx_hash : Option Bytes
  pub onchain_anchor_id : Option ℕ
  pub block_number : Option ℕ
  pub block_hash : Option Bytes
  pub evidence_cid : Option String
  pub gas_used : Option ℕ
  pub gas_price_wei : Option ℕ
  pub last_error : Option String
  pub created_at : ℕ
  pub submitted_at : Option ℕ
  pub confirmed_at : Option ℕ

-- A text column that should hold bytes in hexadecimal: "0x" and their digits in either case, another
-- text that `bytes.fromhex(text.removeprefix("0x"))` reads as the bytes, or a text on which that
-- raises.
pub data HexText : Type 0 where
  rendered other_spelling : Bytes → HexText
  malformed : HexText

abbrev pub fromhex : HexText → Option Bytes
fromhex (rendered b) = some b
fromhex (other_spelling b) = some b
fromhex malformed = none

-- A list comprehension of it.
abbrev pub fromhex_all : List HexText → Option (List Bytes)
fromhex_all [] = some []
fromhex_all (t ∷ texts) =
    let rest = fromhex_all texts in
    elim (fromhex t) [ none ↦ none | some b ↦ elim rest [ none ↦ none | some bs ↦ some (b ∷ bs) ] ]

pub record Step : Type 0 where
  pub id : ℕ
  pub run_id : String
  pub agent_id : String
  pub step_index : ℕ
  pub action : String
  pub input_hash : Bytes
  pub output_hash : Bytes
  pub leaf_hash : HexText
  pub timestamp : ℕ
  pub anchor_batch_id : Option ℕ
  pub created_at : ℕ
  pub agent_code_hash : Option Bytes
  pub leaf_schema_version : ℕ

pub record Db : Type 0 where
  pub outbox : List AnchorOutbox
  pub batches : List AnchorBatch
  pub steps : List Step
