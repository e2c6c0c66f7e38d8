-- ===== src/Container.antt =====
-- The container layer: scripts/lib/zip-reader.ts, the reader of archives, and zip-crc.ts.
pub mod Bytes
pub mod Platform
pub mod Names
pub mod Directory
pub mod Inflate
pub mod CrossCheck
pub mod Reader
