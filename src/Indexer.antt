-- ===== src/Indexer.antt =====
-- backend/indexer/cursor.py and backend/indexer/poll.py: where a poll of one event stream starts, what it
-- scans and the cursor it saves. The chain is a parameter: its tip, the hash of a block (`none` where
-- the call raises) and the logs of a range. The handler is a parameter too.
pub mod Coverage
pub mod Scores
mod Tests
use trust_chain.Prelude.{
  ℕ, ◌+◌, ◌-◌, max, Bool, true, false, Option, none, some, List, [], ◌∷◌, String, str_eq,
  if◌then◌else◌, leb,
}

pub record Cursor : Type 0 where
  pub last_block : ℕ
  pub last_block_hash : String

abbrev pub reorg_rewind_blocks : ℕ
reorg_rewind_blocks = 12

-- `max(deploy_block, last_block - REORG_REWIND_BLOCKS)`
abbrev pub rewound : (deploy_block : ℕ) → Cursor → ℕ
rewound deploy_block cursor = max deploy_block (cursor.last_block - reorg_rewind_blocks)

unfoldable pub resolve_start_block :
    (block_hash : ℕ → Option String) (deploy_block : ℕ) → Option Cursor → ℕ
resolve_start_block block_hash deploy_block none = deploy_block
resolve_start_block block_hash deploy_block (some cursor) = elim (block_hash cursor.last_block) [
  | none ↦ rewound deploy_block cursor
  | some actual ↦
      if str_eq actual cursor.last_block_hash
      then cursor.last_block + 1
      else rewound deploy_block cursor
]

-- The block after `latest_block`, which can be -1.
abbrev pub end_block : (deploy_block chain_tip finality_confirmations : ℕ) → ℕ
end_block deploy_block chain_tip finality_confirmations =
    max deploy_block ((chain_tip + 1) - finality_confirmations)

-- The loop over the logs: the state after the handler's calls, and how many returned True.
abbrev pub handle_logs : {S Log : Type 0} → (S → Log → S × Bool) → List Log → S → S × ℕ
handle_logs handler [] s = (s, 0)
handle_logs handler (log ∷ logs) s =
    let (s', applied) = handler s log in
    let (last, handled) = handle_logs handler logs s' in
    (last, if applied then handled + 1 else handled)

-- `none` is an exception: nothing is committed. The logs are those of the blocks from the first
-- number up to but not including the second.
unfoldable pub poll_once :
    {S Log : Type 0}
    → (block_hash : ℕ → Option String) (logs : ℕ → ℕ → List Log) (handler : S → Log → S × Bool)
    → (chain_tip deploy_block finality_confirmations : ℕ) → Option Cursor
    → S
    → Option (Option Cursor × S × ℕ)
poll_once block_hash logs handler chain_tip deploy_block finality_confirmations cursor s =
    let start = resolve_start_block block_hash deploy_block cursor in
    let stop = end_block deploy_block chain_tip finality_confirmations in
    let (after, handled) = handle_logs handler (logs start stop) s in
    if leb stop start then some (cursor, s, 0) else (elim (block_hash (stop - 1)) [
      | none ↦ none
      | some hash ↦
          some (some (record { last_block = stop - 1; last_block_hash = hash }), after, handled)
    ])
