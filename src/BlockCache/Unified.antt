-- ===== src/BlockCache/Unified.antt =====
-- `UnifiedBlockCache` of internal/blockcache/unified.go: two caches over one memory.
use algo_vnode.Prelude.{
  ◌>>=◌, ℕ, ◌||◌, ◌&&◌, Bool, List, [], ◌∷◌, Option, none, some, GoError, message_at, ltb, sub64,
  ◌==◌, if◌then◌else◌,
}
use algo_vnode.BlockCache.Heap.{Heap}
use algo_vnode.BlockCache.Lru.{Lru}
use algo_vnode.BlockCache.Cache.{BlockCache, Read, returned, blocked}
use algo_vnode.BlockCache.Cache
use algo_vnode.BlockFetcher.Wrap.{BlockWrap}

abbrev pub catchup_size : ℕ
catchup_size = 1000

abbrev pub arch_size : ℕ
arch_size = 1000

-- Which of the two caches.
pub data Which : Type 0 where
  catchup arch : Which

-- The calls of `getBlock` that `GetBlock` makes, in order; the promise comes after the second.
pub data Stage : Type 0 where
  first_catchup first_arch second_catchup second_arch : Stage

-- A call of `GetBlock` on its way.
pub data Get (C : Type 0) : Type 0 where
  trying : Stage → Get C
  waiting : Stage → ℕ → ℕ → Get C
  done : Option (BlockWrap C) → Option GoError → Get C

-- What lets a call of `GetBlock` go on: its own next statement, or the end of its context.
pub data Wake : Type 0 where
  go_on : Wake
  ctx_done : GoError → Wake

abbrev pub stage_cache : Stage → Which
stage_cache first_catchup = catchup
stage_cache first_arch = arch
stage_cache second_catchup = catchup
stage_cache second_arch = arch

module _ (lru : Lru) where
  -- `loads` are the rounds for which a goroutine with `LoadBlockSync` has been started, the last
  -- one first.
  pub record Unified (C : Type 0) : Type 0 where
    pub catchup_cache : BlockCache lru
    pub arch_cache : BlockCache lru
    pub heap : Heap C
    pub loads : List ℕ

  module _ {C : Type 0} where
    -- `New`, over a memory that no cache has used.
    unfoldable pub new : Heap C → Unified C
    new h = record {
      catchup_cache = record { c = lru.new catchup_size; last = 0; name = "catchup" };
      arch_cache = record { c = lru.new arch_size; last = 0; name = "archive" };
      heap = h;
      loads = [];
    }

    -- `getCacheWithPeek`. The difference is of unsigned numbers, and wraps.
    unfoldable pub get_cache_with_peek : Unified C → ℕ → Which
    unfolding Cache.is_block_promised
    get_cache_with_peek u round =
        if round == 0 || Cache.is_block_promised lru u.arch_cache round
        then arch
        else (if ltb 0 round
              && (u.catchup_cache.last == 0 || ltb (sub64 u.catchup_cache.last catchup_size) round)
            then catchup
            else arch)

    abbrev pub cache_of : Unified C → Which → BlockCache lru
    cache_of u catchup = u.catchup_cache
    cache_of u arch = u.arch_cache

    abbrev pub with_cache : Unified C → Which → BlockCache lru → Heap C → Unified C
    with_cache u catchup bc h = record u { catchup_cache = bc; heap = h }
    with_cache u arch bc h = record u { arch_cache = bc; heap = h }

    -- `addBlock` of one of the caches.
    unfoldable pub add_block_to : Unified C → Which → BlockWrap C → Option (Unified C)
    unfolding Cache.add_block
    add_block_to u k w =
        Cache.add_block lru (cache_of u k) u.heap w >>= λ (bc, h). some (with_cache u k bc h)

    -- `AddBlock`.
    unfoldable pub add_block : Unified C → BlockWrap C → Option (Unified C)
    unfolding get_cache_with_peek add_block_to
    add_block u w = add_block_to u (get_cache_with_peek u w.round) w

    -- `promiseBlock` of one of the caches, and the goroutine that loads the block.
    unfoldable pub promise_block_in : Unified C → Which → ℕ → Unified C × ℕ
    unfolding Cache.promise_block
    promise_block_in u k round =
        let (bc, h, be) = Cache.promise_block lru (cache_of u k) u.heap round in
        (record (with_cache u k bc h) { loads = round ∷ u.loads }, be)

    -- `PromiseBlock`.
    unfoldable pub promise_block : Unified C → ℕ → Unified C × ℕ
    unfolding get_cache_with_peek promise_block_in
    promise_block u round = promise_block_in u (get_cache_with_peek u round) round

    -- `IsBlockCached`.
    unfoldable pub is_block_cached : Unified C → ℕ → Bool
    unfolding Cache.is_block_cached
    is_block_cached u round =
        Cache.is_block_cached lru u.catchup_cache u.heap round
        || Cache.is_block_cached lru u.arch_cache u.heap round

    -- What `GetBlock` does with the result of a call of `getBlock`: the errors of the first two
    -- are dropped.
    unfoldable pub after_read : Unified C → ℕ → Stage → Read C → Unified C × Get C
    unfolding promise_block
    after_read u round s (blocked a ch) = (u, waiting s a ch)
    after_read u round first_catchup (returned (some w) _) = (u, done (some w) none)
    after_read u round first_catchup (returned none _) = (u, trying first_arch)
    after_read u round first_arch (returned (some w) _) = (u, done (some w) none)
    after_read u round first_arch (returned none _) =
        ((promise_block u round).0, trying second_catchup)
    after_read u round second_catchup (returned (some w) err) = (u, done (some w) err)
    after_read u round second_catchup (returned none (some err)) = (u, done none (some err))
    after_read u round second_catchup (returned none none) = (u, trying second_arch)
    after_read u round second_arch (returned (some w) err) = (u, done (some w) err)
    after_read u round second_arch (returned none (some err)) = (u, done none (some err))
    after_read u round second_arch (returned none none) =
        (u, done none (some (message_at "error getting block %d" round)))

    -- One call of `getBlock`, up to its wait.
    unfoldable pub start_read : Unified C → ℕ → Stage → Unified C × Get C
    unfolding Cache.get_block after_read
    start_read u round s =
        let k = stage_cache s in
        let (bc, r) = Cache.get_block lru (cache_of u k) u.heap round in
        after_read (with_cache u k bc u.heap) round s r

    -- `GetBlock` from one wait to the next. A call that waits goes on when its channel is closed,
    -- and ticks until then.
    unfoldable pub get_step : Wake → Unified C → ℕ → Get C → Option (Unified C × Get C)
    unfolding start_read Cache.woken_block add_block_to after_read
    get_step wake u round (done w err) = some (u, done w err)
    get_step wake u round (trying s) = some (start_read u round s)
    get_step go_on u round (waiting s a ch) =
        if u.heap.closed ch
        then some (after_read u round s (Cache.woken_block lru u.heap a))
        else some (u, waiting s a ch)
    get_step (ctx_done err) u round (waiting s a ch) =
        Cache.cancelled_block lru (cache_of u (stage_cache s)) u.heap round err >>= λ (bc, h, r).
        some (after_read (with_cache u (stage_cache s) bc h) round s r)
