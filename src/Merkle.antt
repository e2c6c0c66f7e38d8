-- ===== src/Merkle.antt =====
-- Merkle trees over content hashes: the text form of a hash, the block-level tree of
-- scripts/lib/block-merkle.ts, and the aggregated timestamps of scripts/lib/provenance-timestamp.ts.
pub mod ContentHash
pub mod Block
pub mod Aggregated
