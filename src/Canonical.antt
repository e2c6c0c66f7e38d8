-- ===== src/Canonical.antt =====
-- scripts/lib/canonicalize.ts: the canonical form of a document's content and metadata.
pub mod Errors
pub mod Paths
pub mod Depth
pub mod Metadata
pub mod Hashes
pub mod StrictJson
pub mod Assets
pub mod Marks
pub mod Runs
pub mod Transform
pub mod StoredBytes
pub mod Anchors
pub mod Ids
pub mod Document
