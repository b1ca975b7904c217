-- ===== src/Lib.antt =====
-- The indexer of USDp and sUSDp on HyperEVM: how it reads the logs of finalized blocks into its
-- database, and what it computes from them.
--
-- The parts, and the file that models each (paths from the repository's root):
--   Planner    src/indexer/planner.ts: chunks of blocks, retries, coverage and its gaps
--   Rpc        src/rpc/errors.ts and src/rpc/provider-failover.ts, and the messages that
--              `classifyRpcError` and `providerRangeLimit` of the planner read; `redactSecrets` of
--              src/rpc/alchemy.ts (Rpc/Secrets)
--   Decoder    src/indexer/decoder.ts: which decoder a contract has, and JSON payloads
--   Ingest     src/indexer/service.ts: `fetchLogsWithPolicy` (Ingest/Fetch), `insertBlocks` and
--              `persistChunk` (Ingest/Store), `ingestLogs` (Ingest/Run)
--   Blocks     src/indexer/service.ts: `findBlockAtOrAfterTimestamp`, `fetchBlockWithPolicy`,
--              `fetchBlockBatchWithPolicy` and `fetchBlocksBatched`
--   Status     src/indexer/status.ts: `verifyCoverage`
--   Savings    src/protocol/savings-math.ts and src/analytics/yield-reconciliation.ts
--   Verification   src/verification/evaluators.ts
--   Holders    src/analytics/holders.ts: `replayHolderTransfers`
--   Intervals  src/analytics/range-analytics.ts: `aggregateContiguousYieldIntervals`
--   Flows      src/analytics/economic-events.ts: `aggregateNativeFlows` and
--              `summarizeFlowParticipants`; the readers of payloads (Flows/Payload), `classifyEvent`
--              and `classifyProtocolTransactions` (Flows/Classify); src/analytics/service.ts:
--              `rebuildFlowAnalytics` (Flows/Rebuild)
--   Yield      src/analytics/yield.ts: `calculateYieldForRange`, and `calculateSavingsYieldForRange`
--              of src/analytics/multichain-yield.ts
--   Multichain src/analytics/multichain-snapshots.ts: `captureSavingsChainSnapshot`
--              (Multichain/Capture, its tables in Multichain/Tables) and
--              `createGlobalSavingsSnapshot`;
--              src/analytics/multichain-yield.ts: `createGlobalSavingsYield` (Multichain/Yields)
--   Supply     src/analytics/usdp-supply.ts: the capture of a chain (Supply/Component), the failover
--              (Supply/Rpc), `captureGlobalUsdpSupply` (Supply/Capture), the aggregation and
--              `persistGlobalSnapshot`; the adapters of src/protocol/usdp-chains.ts and a sum of
--              src/analytics/usdp-supply-queries.ts
--   Readiness  src/analytics/dashboard-readiness.ts: `readLifetimeDashboard`
--   History    src/analytics/savings-history.ts: `reuseSavingsHistoryCoverage`
--   Tests      runs on concrete inputs
-- `ingestLogs` plans a batch of chunks with the planner, fetches each with the policy of
-- Ingest/Fetch, and stores what came in one transaction a chunk, which moves the checkpoint. The
-- policy asks Rpc what kind of error a message is. `verifyCoverage` reads the rows that
-- `persistChunk` wrote.
--
-- `reuseSavingsHistoryCoverage` copies the rows of coverage of another scope and asks the planner
-- for the gaps that are left. `rebuildFlowAnalytics` verifies the coverage, classifies the decoded
-- events of the range and adds up their flows. The global captures read the snapshots that the
-- captures of the chains have stored, and the dashboard the aggregates of the rebuilds.
--
-- How the code is translated:
--   * a `bigint` of the source is a block, a time or an amount, never negative, and is a
--     natural number; where it can be below zero, and the source tests that or computes with it,
--     it is an integer;
--   * an error that is thrown is `err`, with the message where the code reads it;
--   * a text that the code searches is the list of its characters' codes (Prelude/Text);
--   * a table is the list of its rows, of one chain and one scope where the code asks for those;
--     `on conflict … do nothing` is written out, and a transaction returns the new tables or an
--     error, after which the old tables stand;
--   * the provider, the clock of retries, the abort signal, a fault of the database and viem's
--     `decodeEventLog` are arguments (the record `Outside`), and so are viem's `isAddress` and
--     `getAddress`, and what the client of a chain answers (`SavingsClient`, `SupplyClient`);
--   * chunks of a batch are fetched one after another. The source starts them together, and awaits
--     them in this order; only counters of retries are shared between them. The chains of a
--     global capture too are captured one after another.
-- Loops that ask the provider run on fuel. `fetch_fuel` counts the calls that the policy can make:
-- each retry uses up an attempt, each reduction makes the chunk smaller. The outer loop of
-- `ingestLogs` has one round for each block that is left. Both amounts are shown to be enough
-- where rate limits are not retried for ever. The loop that cuts blocks into batches (Blocks/Fetch)
-- has one step a number, which is shown to be enough for a positive batch size; with a size of zero
-- it does not end. Where fuel runs out the result is `none`.
--
-- Not modelled: waiting times and pacing, the client of the provider, recorded runs and progress
-- events (they repeat the counters), the choice of addresses, the registry of assets (constants that
-- are copied), the workers (they repeat the captures on a timer), the rebuild of the ledger of
-- holders, the derivation of the savings history and of the lifetime activity, the snapshots of
-- prices, the export for integrations, the web application, the schema, the command line, and those
-- of the readers of the tables that are not named above.
pub mod Prelude
pub mod Planner
pub mod Status
pub mod Rpc
pub mod Decoder
pub mod Ingest
pub mod Blocks
pub mod Flows
pub mod History
pub mod Holders
pub mod Intervals
pub mod Multichain
pub mod Readiness
pub mod Savings
pub mod Supply
pub mod Verification
pub mod Yield
pub mod Tests
