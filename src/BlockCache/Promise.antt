-- ===== src/BlockCache/Promise.antt =====
-- The unified cache between a promise and the delivery: `PromiseBlock`, then `AddBlock`.
use algo_vnode.Prelude.{ℕ, ◌≡◌, true, none, some, arith, GoError, is_some}
use algo_vnode.BlockCache.Cache
use algo_vnode.BlockCache.Cache.{BlockCache, deliver, note_last, returned, read_entry}
use algo_vnode.BlockCache.Heap.{Heap}
use algo_vnode.BlockCache.Delivery.{Delivered, Promised, add_block_found, promise_block-Promised}
use algo_vnode.BlockCache.Lru.{Lru}
use algo_vnode.BlockCache.Safety.{UnifiedIsValid, promise_block-Keeps}
use algo_vnode.BlockCache.Steps.{Indexes}
use algo_vnode.BlockCache.Valid.{HeapIsValid}
use algo_vnode.BlockCache.Unified.{
  Unified, Which, catchup, arch, add_block, add_block_to, cache_of, with_cache, get_cache_with_peek,
  promise_block, promise_block_in, is_block_cached,
}
use algo_vnode.BlockFetcher.Wrap.{BlockWrap}

module _ (lru : Lru) {C : Type 0} where
  promised :
      (u : Unified lru C) (round : ℕ)
      → UnifiedIsValid lru u
      → let k = get_cache_with_peek lru u round in
        let r = promise_block lru u round in
        Promised lru round (cache_of lru u k) (cache_of lru r.0 k) r.0.heap r.1
  unfolding promise_block promise_block_in
  promised u round v = at (get_cache_with_peek lru u round)
    where
      at :
          (k : Which)
          → let r = promise_block_in lru u k round in
            Promised lru round (cache_of lru u k) (cache_of lru r.0 k) r.0.heap r.1
      at catchup = promise_block-Promised lru u.catchup_cache u.heap round v.memory v.catchup_ok
      at arch = promise_block-Promised lru u.arch_cache u.heap round v.memory v.arch_ok

  -- A promise does not change where its round goes.
  same_cache :
      (u : Unified lru C) (round : ℕ)
      → UnifiedIsValid lru u
      → get_cache_with_peek lru (promise_block lru u round).0 round
        ≡ get_cache_with_peek lru u round
  unfolding promise_block promise_block_in get_cache_with_peek
  same_cache u round v = ground (
    arith,
    promise_block-Promised lru u.catchup_cache u.heap round v.memory v.catchup_ok,
    promise_block-Promised lru u.arch_cache u.heap round v.memory v.arch_ok,
  )

  -- A block is delivered to the entry that the chosen cache holds.
  pub add_block_to_found :
      (u : Unified lru C) (k : Which) (w : BlockWrap C) (a : ℕ)
      → UnifiedIsValid lru u
      → lru.peek (cache_of lru u k).c w.round ≡ some a
      → (u' : Unified lru C) × (add_block_to lru u k w ≡ some u')
        × Delivered lru w u.heap u'.heap a
        × (lru.peek (cache_of lru u' k).c w.round ≡ some a)
  unfolding add_block_to note_last
  add_block_to_found u catchup w a v p =
      let (h, runs, d) = add_block_found lru u.catchup_cache u.heap w a v.memory v.catchup_ok p in
      (with_cache lru u catchup (note_last lru w u.catchup_cache) h, rw runs, d, ground arith)
  add_block_to_found u arch w a v p =
      let (h, runs, d) = add_block_found lru u.arch_cache u.heap w a v.memory v.arch_ok p in
      (with_cache lru u arch (note_last lru w u.arch_cache) h, rw runs, d, ground arith)

  is_block_cached_at :
      (u : Unified lru C) (k : Which) (round a : ℕ)
      → lru.peek (cache_of lru u k).c round ≡ some a
      → is_some (u.heap.entries a).b ≡ true
      → is_block_cached lru u round ≡ true
  unfolding is_block_cached Cache.is_block_cached
  is_block_cached_at u catchup round a p q = ground arith
  is_block_cached_at u arch round a p q = ground arith

  -- On a cache in order, after `PromiseBlock` of a round: `AddBlock` of that round succeeds and
  -- closes the channel of the promised entry. If it has no error, a block of the round is then
  -- cached and the entry has no error; if it has one and the entry had no block, the error is the
  -- entry's.
  pub add_block-promise_block :
      (u : Unified lru C) (w : BlockWrap C)
      → UnifiedIsValid lru u
      → let (u₁, be) = promise_block lru u w.round in
        (u₂ : Unified lru C) × (add_block lru u₁ w ≡ some u₂)
        × ((ch : ℕ) → (u₁.heap.entries be).wait_for ≡ some ch → u₂.heap.closed ch ≡ true)
        × (w.error ≡ none
            → (is_block_cached lru u₂ w.round ≡ true) × ((u₂.heap.entries be).error ≡ none))
        × ((err : GoError)
            → w.error ≡ some err
            → (u₁.heap.entries be).b ≡ none
            → (u₂.heap.entries be).error ≡ some err)
  unfolding add_block deliver
  add_block-promise_block u w v =
      let k = get_cache_with_peek lru u w.round in
      let r = promise_block lru u w.round in
      let p = promised u w.round v in
      let (u₂, runs, d, held) =
        add_block_to_found r.0 k w r.1 (promise_block-Keeps lru u w.round v).valid p.held in
      (
        u₂,
        rw (same_cache u w.round v) runs,
        d.woken,
        λ e. (
          is_block_cached_at u₂ k w.round r.1 held (ground (arith, d.content)),
          ground (arith, d.failure, p.armed),
        ),
        λ err e f. ground (arith, d.failure, p.armed),
      )

  -- Where the entry of a round has an error, in a cache in order: `addBlock` of a block of the round
  -- caches a block, and still `getBlock` returns that error.
  pub get_block_late :
      (bc : BlockCache lru) (h : Heap C) (w : BlockWrap C) (a : ℕ) (err : GoError)
      → HeapIsValid h
      → Indexes lru bc.c h
      → lru.peek bc.c w.round ≡ some a
      → (h.entries a).error ≡ some err
      → w.error ≡ none
      → (bc' : BlockCache lru) × (h' : Heap C) × (Cache.add_block lru bc h w ≡ some (bc', h'))
        × (Cache.is_block_cached lru bc' h' w.round ≡ true)
        × ((Cache.get_block lru bc' h' w.round).1 ≡ returned none (some err))
  unfolding Cache.is_block_cached Cache.get_block read_entry deliver note_last
  get_block_late bc h w a err v i p e clean =
      let (h', runs, d) = add_block_found lru bc h w a v i p in
      (
        _,
        h',
        runs,
        ground (arith, d.content),
        ground (arith, d.failure, lru.get_result bc.c w.round),
      )
