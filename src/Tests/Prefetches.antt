-- ===== src/Tests/Prefetches.antt =====
-- Prefetching at concrete inputs.
use algo_vnode.Prelude.{ℕ, ◌+◌, ◌≡◌, refl, true, some, arith, [], ◌∷◌}
use algo_vnode.Algod.Prefetch.{BlockPrefetch, advance}
use algo_vnode.Algod.Prefetch.Ahead
use algo_vnode.Algod.Prefetch.Ahead.{IsAhead, Started, sync_run}
use algo_vnode.Algod.Prefetch.Windows
use algo_vnode.Algod.Prefetch.Windows.{rounds_down}
use algo_vnode.BlockCache.Cache
use algo_vnode.BlockCache.Unified.{Unified, new, is_block_cached, add_block, get_cache_with_peek}
use algo_vnode.Tests.Caches.{fresh}
use algo_vnode.Tests.Instances.{bounded, block, find, newest, find_or_add}

-- The prefetcher after three requests, for the rounds from 5 to 7.
abbrev prefetch : BlockPrefetch
prefetch = record {
  first_req = 5;
  last_req = 7;
  last_pre = 35;
  next_pre = 22;
  hits = 3;
  last_pre_at = 0;
}

is_ahead : IsAhead 0 7 prefetch
is_ahead = record {
  first = omega arith;
  last = refl;
  counted = omega arith;
  within = omega arith;
  recent = omega arith;
  window = refl;
  below = omega arith;
  above = omega arith;
}

-- It goes on to ask for the rounds from 8 to 40.
sync_run-loads_example :
    (b' : BlockPrefetch) × (u' : Unified bounded ℕ) × (sync_run bounded 33 7
        (λ k. 0)
        (prefetch ∷ [])
        fresh
      ≡ (b' ∷ [], u'))
    × IsAhead 0 (7 + 33) b'
    × Started bounded 35 fresh.loads b' u'
sync_run-loads_example =
    Ahead.sync_run-loads bounded 33 7 0 (λ k. 0) prefetch fresh is_ahead (λ k. omega arith)
      (λ k. omega arith) (omega arith)

cached : (u : Unified bounded ℕ) × (add_block bounded fresh (block 7) ≡ some u)
unfolding new add_block get_cache_with_peek Cache.add_block find newest find_or_add
cached = (_, refl)

is_cached : is_block_cached bounded cached.0 7 ≡ true
unfolding new cached is_block_cached Cache.is_block_cached find newest find_or_add
is_cached = refl

abbrev early : BlockPrefetch
early = record prefetch { last_req = 6; last_pre = 5; next_pre = 0; hits = 2 }

loads-advance_cached_example :
    let (b', u') = advance bounded 7 0 early cached.0 in
    (u'.loads ≡ cached.0.loads) × (b'.last_pre ≡ 5 + 30)
loads-advance_cached_example =
    Windows.loads-advance_cached bounded 7 0 early cached.0 (omega arith) (omega arith) refl
      (omega arith) is_cached
