-- ===== src/Blocks.antt =====
-- src/indexer/service.ts: the search for a block by its time, and the fetches of blocks by their
-- numbers, one by one or in batches.
pub mod Search
pub mod Fetch
