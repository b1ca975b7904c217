-- ===== src/Ingest.antt =====
-- src/indexer/service.ts: fetching logs chunk by chunk and storing them with their coverage.
pub mod Types
pub mod Fetch
pub mod Store
pub mod Run
