-- ===== src/BlockFetcher.antt =====
-- internal/blockfetcher/sync.go: the wrapped block that the cache stores, and how it is made.
pub mod Wrap
pub mod Make
