-- ===== src/Lib.antt =====
-- A model of TrustChain's backend, the service that records the steps of AI agents, anchors them
-- in Merkle batches on a chain and manages the organizations that own them, with proofs about it.
--
-- The parts and the files that model them:
--   Prelude: shared names, Boolean tests on numbers, lists and tables as lists of rows.
--   Merkle: backend/blockchain/merkle.py. Leaf hashes, the levels of a tree, inclusion proofs and
--     their verification over byte strings. keccak and eth_abi's encoder are parameters; what is
--     used of them (32-byte digests, an encoder that is injective on values in range) is a named
--     hypothesis where a theorem needs it. Trees reads the levels as binary trees.
--   AnchorWorker: the outbox of steps to anchor. Tables holds the rows (backend/db/models.py);
--     LogStep is log_step of backend/agents/base.py; Outbox is claim_batch
--     (anchor_worker/claim.py), reap_stale_claims (anchor_worker/reaper.py),
--     handle_submit_failure and handle_gas_ceiling_skip (anchor_worker/main.py) and
--     reconcile_batch_anchored (indexer/reconcile.py), all under backend/; Batch is build_batches
--     (backend/anchor_worker/batch.py); Submission is submit_batch (anchor_worker/submit.py) with
--     the estimate of blockchain/gas.py; Worker is publish_evidence and run_once
--     (anchor_worker/main.py). Lifecycle puts the commits of all these together as a step
--     relation on the database, with Reach for any sequence of them.
--   Watchdog: backend/integrity_watchdog. The detectors on steps, batches, chain roots and
--     liveness, the sweep over batches and the rolling cursor.
--   Tenancy: backend/db/tenancy.py. Gas and token budgets and the organization of a run.
--   Tokens: backend/db/email_verification.py and backend/db/password_reset.py. Tokens sent by
--     email.
--   Invitations: backend/db/invitations.py.
--   Rpc: backend/blockchain/resilient_provider.py. The circuit breaker as a state machine, the
--     retries and the failover over the endpoints.
--   Membership: the roles and require_permission of backend/permissions.py, the membership
--     operations of backend/db/orgs.py and the four endpoints of backend/main.py that change
--     memberships.
--   Alerts: backend/db/alerts.py. Raising with deduplication, acknowledging, resolving, reopening;
--     Alerts/Rows holds the rows and who is mailed.
--   RefreshTokens: backend/refresh.py. Token families, rotation, reuse detection, revocation;
--     Races is about a rotation and what is committed while it is under way.
--   RateLimit: backend/rate_limit.py. The Lua token bucket and the back-off on failed logins.
--   Idempotency: backend/db/idempotency.py. Replay protection by idempotency keys, and their
--     purge.
--   Indexer: backend/indexer/cursor.py and backend/indexer/poll.py. Where a poll of one event
--     stream starts, what it scans and the cursor it saves; Scores is
--     backend/indexer/scores.py, the read model of the scores.
--
-- How they interact: log_step stores the leaf hash of Merkle in a step and adds an outbox row;
-- the worker claims rows, groups their steps by run, builds a Merkle tree for each group and
-- submits its root, if Tenancy's budget allows; failures and the gas ceiling give rows back, the
-- reaper recovers claims of dead workers, and the indexer's events mark batches confirmed and
-- rows anchored. The watchdog compares the steps with the batches and the batches with the chain.
-- The worker and the indexer reach the chain through Rpc; the endpoints are guarded by
-- Membership, RefreshTokens, RateLimit and Idempotency, and Indexer is the loop that hands the
-- events to the handlers.
--
-- Conventions: a SQL table is a list of rows and a statement is an update of it; a call that
-- runs in one transaction is one step. Where a transaction reads before it updates and others
-- can commit in between (Tokens, Invitations, RefreshTokens), the tables read and the tables
-- updated are two arguments. Apart from the constraints that are modelled, statements do not
-- fail. A hash is the byte string that its "0x..." text stands for; the column leaf_hash, which
-- the batcher and the watchdog parse again, may also hold a text that does not parse (HexText).
-- The rows that other transactions hold locked, the clock, fresh ids and random values are
-- arguments. Integers are natural numbers; a subtraction that can pass zero is written as the
-- code has it. Errors are values.
--
-- Bounds and fuel: `climb` runs on fuel, the number of leaves, which is enough since a level has
-- fewer nodes than the one below it until one is left; call_with_retry runs for the configured
-- number of attempts, as does the loop of submit_batch. Everything else is structural recursion.
-- In RateLimit tokens and times are whole units, so the floats' rounding is left out.
--
-- Not modelled: the advisory locks and the outer loops of the workers, the read model of agents,
-- the other HTTP endpoints, API keys and the provisioning of organizations, the forensics and the
-- sending of alerts, metrics and logs, the agents' prompts, the Solidity contracts, the
-- frontend and the SDK. They are input and output around the parts above, or code for which there
-- is no module yet.
pub mod Prelude
pub mod Merkle
pub mod AnchorWorker
pub mod Membership
pub mod RefreshTokens
pub mod RateLimit
pub mod Idempotency
pub mod Indexer
pub mod Rpc
pub mod Watchdog
pub mod Tenancy
pub mod Alerts
pub mod Tokens
pub mod Invitations
