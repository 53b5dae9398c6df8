-- ===== src/Utils.antt =====
-- internal/utils.
pub mod Backoff
pub mod Pointers
pub mod Convert
pub mod Chain
pub mod Indexer
pub mod Base64
pub mod Deltas
pub mod Signatures
pub mod Parts
pub mod Blocks
pub mod Json
