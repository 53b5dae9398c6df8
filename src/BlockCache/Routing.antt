-- ===== src/BlockCache/Routing.antt =====
-- Which of the two caches a round goes to: `getCacheWithPeek` of unified.go.
use algo_vnode.Prelude.{ℕ, ◌+◌, ◌≤◌, ◌<◌, ◌≡◌, ◌↔◌, ◌⊎◌, false, some, arith, u64_mod}
use algo_vnode.BlockCache.Cache
use algo_vnode.BlockCache.Cache.{note_last}
use algo_vnode.BlockCache.Lru.{Lru}
use algo_vnode.BlockCache.Unified.{
  Unified, catchup, arch, add_block, add_block_to, get_cache_with_peek,
}
use algo_vnode.BlockFetcher.Wrap.{BlockWrap}

module _ (lru : Lru) {C : Type 0} (u : Unified lru C) where
  -- While the last round of the catchup cache is 0 or at least 1000: a round goes to the catchup
  -- cache exactly if it is positive, the archive cache has no entry of it, and the last round is 0
  -- or less than 1000 beyond it.
  pub get_cache_with_peek_window :
      (round : ℕ)
      → (u.catchup_cache.last ≡ 0) ⊎ (1000 ≤ u.catchup_cache.last)
      → u.catchup_cache.last < u64_mod
      → (get_cache_with_peek lru u round ≡ catchup) ↔ (
          (0 < round)
          × (Cache.is_block_promised lru u.arch_cache round ≡ false)
          × ((u.catchup_cache.last ≡ 0) ⊎ (u.catchup_cache.last < round + 1000)))
  unfolding get_cache_with_peek
  get_cache_with_peek_window round h l = ground arith

  -- While the last round of the catchup cache is between 1 and 999, the difference wraps, and every
  -- round up to 2^64 - 1000 goes to the archive cache.
  pub get_cache_with_peek_young :
      (round : ℕ)
      → 0 < u.catchup_cache.last
      → u.catchup_cache.last < 1000
      → round + 1000 ≤ u64_mod
      → get_cache_with_peek lru u round ≡ arch
  unfolding get_cache_with_peek
  get_cache_with_peek_young round h k l = ground arith

  -- While the last round of the catchup cache is between 1 and 999, `AddBlock` of a block of a round
  -- up to 2^64 - 1000 leaves the catchup cache as it is, its last round too.
  pub add_block_young :
      (w : BlockWrap C) (u' : Unified lru C)
      → 0 < u.catchup_cache.last
      → u.catchup_cache.last < 1000
      → w.round + 1000 ≤ u64_mod
      → add_block lru u w ≡ some u'
      → u'.catchup_cache ≡ u.catchup_cache
  unfolding add_block add_block_to
  add_block_young w u' h k l e = ground (arith, get_cache_with_peek_young w.round h k l)
