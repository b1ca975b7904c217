-- ===== src/Rpc.antt =====
-- src/rpc/errors.ts, src/rpc/provider-failover.ts and the reading of provider errors in
-- src/indexer/planner.ts. An error is known by its message.
pub mod Messages
pub mod Redaction
pub mod Failover
pub mod Secrets
