-- ===== src/BlockCache/Refines/Adds.antt =====
-- `AddBlock` of unified.go, whatever the cache holds of the round before.
use algo_vnode.Prelude.{
  ℕ, ◌≡◌, refl, ◌∙◌, ap, true, false, Bool, none, some, arith, is_some, some_unique, subst,
}
use algo_vnode.BlockCache.Cache
use algo_vnode.BlockCache.Cache.{BlockCache}
use algo_vnode.BlockCache.Heap.{Heap}
use algo_vnode.BlockCache.Lru.{Lru}
use algo_vnode.BlockCache.Promise.{add_block_to_found}
use algo_vnode.BlockCache.Reach.{add_block-Keeps}
use algo_vnode.BlockCache.Refines.{view, slot_of}
use algo_vnode.BlockCache.Refines.Calls.{add-Allowed}
use algo_vnode.BlockCache.Safety.{UnifiedIsValid, Keeps, index_of}
use algo_vnode.BlockCache.Spec.{Slot, absent, held, add_slot, apply, op_round}
use algo_vnode.BlockCache.Unified.{
  Unified, Which, catchup, arch, add_block, add_block_to, cache_of, with_cache, get_cache_with_peek,
  is_block_cached,
}
use algo_vnode.BlockFetcher.Wrap.{BlockWrap}

module _ (lru : Lru) {C : Type 0} where
  has_block : Slot C → Bool
  has_block absent = false
  has_block (held b e waiting) = is_some b

  is_block_cached-view :
      (bc : BlockCache lru) (h : Heap C) (k : ℕ)
      → Cache.is_block_cached lru bc h k ≡ has_block (view lru bc h k)
  unfolding Cache.is_block_cached view slot_of has_block
  is_block_cached-view bc h k = ground arith

  has_block-add_slot :
      (w : BlockWrap C) (s : Slot C) → w.error ≡ none → has_block (add_slot w s) ≡ true
  unfolding add_slot has_block
  has_block-add_slot w absent e = ground arith
  has_block-add_slot w (held (some b) x waiting) e = refl
  has_block-add_slot w (held none (some x) waiting) e = ground arith
  has_block-add_slot w (held none none waiting) e = ground arith

  cached_in :
      (u : Unified lru C) (k : Which) (bc : BlockCache lru) (h : Heap C) (round : ℕ)
      → Cache.is_block_cached lru bc h round ≡ true
      → is_block_cached lru (with_cache lru u k bc h) round ≡ true
  unfolding is_block_cached
  cached_in u catchup bc h round e = ground arith
  cached_in u arch bc h round e = ground arith

  -- What `AddBlock` does: all stays in order, a block without an error is cached, and those who
  -- wait for the round at the cache it goes to are woken.
  pub record Adds (u u' : Unified lru C) (w : BlockWrap C) : Type 0 where
    pub kept : Keeps lru u u'
    pub cached : w.error ≡ none → is_block_cached lru u' w.round ≡ true
    pub woken :
        (a ch : ℕ)
        → lru.peek (cache_of lru u (get_cache_with_peek lru u w.round)).c w.round ≡ some a
        → (u.heap.entries a).wait_for ≡ some ch
        → u'.heap.closed ch ≡ true

  to_cached :
      (u u' : Unified lru C) (k : Which) (w : BlockWrap C)
      → UnifiedIsValid lru u
      → w.error ≡ none
      → add_block_to lru u k w ≡ some u'
      → is_block_cached lru u' w.round ≡ true
  unfolding add_block_to op_round apply
  to_cached u u' k w v e runs =
      let (bc, h, f, a) =
        add-Allowed lru (cache_of lru u k) u.heap w v.memory (index_of lru u k v) in
      let made : add_block_to lru u k w ≡ some (with_cache lru u k bc h) = rw f refl in
      let c =
        cached_in u k bc h w.round
          (is_block_cached-view bc h w.round ∙ ap has_block a.own ∙ has_block-add_slot w _ e) in
      subst (λ x. is_block_cached lru x w.round ≡ true) (some_unique made runs) c

  pub add_block-Adds :
      (u : Unified lru C) (w : BlockWrap C)
      → UnifiedIsValid lru u
      → (u' : Unified lru C) × (add_block lru u w ≡ some u') × Adds u u' w
  unfolding add_block
  add_block-Adds u w v =
      let (u', runs, kept) = add_block-Keeps lru u w v in
      (
        u',
        runs,
        record {
          kept = kept;
          cached = λ e. to_cached u u' (get_cache_with_peek lru u w.round) w v e runs;
          woken = λ a ch p q.
              let (x, f, d, _) =
                add_block_to_found lru u (get_cache_with_peek lru u w.round) w a v p in
              subst (λ y. y.heap.closed ch ≡ true) (some_unique f runs) (d.woken ch q);
        },
      )
