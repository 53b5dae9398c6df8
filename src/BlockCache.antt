-- ===== src/BlockCache.antt =====
-- internal/blockcache.
pub mod Lru
pub mod Heap
pub mod Cache
pub mod Unified
pub mod Valid
pub mod Entries
pub mod Steps
pub mod Safety
pub mod Reach
pub mod GetBlock
pub mod Routing
pub mod Delivery
pub mod Promise
pub mod Spec
pub mod Refines
