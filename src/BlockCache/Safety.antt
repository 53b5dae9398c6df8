-- ===== src/BlockCache/Safety.antt =====
-- The operations of the unified cache of unified.go: none of them panics, and each keeps the
-- memory and both caches in order.
use algo_vnode.Prelude.{ℕ, ◌≡◌, refl, none, some, arith, Bool-cases, inl, inr, message}
use algo_vnode.BlockCache.Heap.{Heap}
use algo_vnode.BlockCache.Cache
use algo_vnode.BlockCache.Cache.{BlockCache, Read, returned, blocked}
use algo_vnode.BlockCache.Entries.{Extends, Extends-trans}
use algo_vnode.BlockCache.Lru.{Lru}
use algo_vnode.BlockCache.Steps.{
  Indexes, Extends-Indexes, Steps, add_block-Steps, promise_block-Steps, get_block-Indexes,
}
use algo_vnode.BlockCache.Unified.{
  Unified, Which, catchup, arch, Stage, first_catchup, first_arch, second_catchup, second_arch, Get,
  trying, waiting, done, Wake, go_on, ctx_done, cache_of, with_cache, add_block_to, add_block,
  get_cache_with_peek, promise_block_in, promise_block, after_read, start_read, stage_cache,
  get_step,
}
use algo_vnode.BlockCache.Valid.{HeapIsValid}
use algo_vnode.BlockFetcher.Wrap.{BlockWrap, error_wrap}

module _ (lru : Lru) {C : Type 0} where
  pub record UnifiedIsValid (u : Unified lru C) : Type 0 where
    pub memory : HeapIsValid u.heap
    pub catchup_ok : Indexes lru u.catchup_cache.c u.heap
    pub arch_ok : Indexes lru u.arch_cache.c u.heap

  -- What an operation leaves: all in order, and every entry where it was, with its round.
  pub record Keeps (u u' : Unified lru C) : Type 0 where
    pub valid : UnifiedIsValid u'
    pub extends : Extends u.heap u'.heap

  Extends-refl : (h : Heap C) → Extends h h
  Extends-refl h = record {
    grows = omega arith;
    more_chans = omega arith;
    same_round = λ a l. refl;
    stays_closed = λ ch l e. e;
    waited = λ a ch l m e. inr e;
  }

  pub Keeps-refl : (u : Unified lru C) → UnifiedIsValid u → Keeps u u
  Keeps-refl u v = record { valid = v; extends = Extends-refl u.heap }

  pub Keeps-trans : (u v w : Unified lru C) → Keeps u v → Keeps v w → Keeps u w
  Keeps-trans u v w p q = record {
    valid = q.valid;
    extends = Extends-trans u.heap v.heap w.heap p.extends q.extends;
  }

  pub index_of :
      (u : Unified lru C) (k : Which) → UnifiedIsValid u → Indexes lru (cache_of lru u k).c u.heap
  index_of u catchup v = v.catchup_ok
  index_of u arch v = v.arch_ok

  -- A step of one cache is a step of the whole.
  with_cache-Keeps :
      (u : Unified lru C) (k : Which) (bc : BlockCache lru) (h : Heap C)
      → UnifiedIsValid u
      → Steps lru u.heap bc h
      → Keeps u (with_cache lru u k bc h)
  with_cache-Keeps u catchup bc h v s = record {
    valid = record {
      memory = s.memory;
      catchup_ok = s.indexes;
      arch_ok = Extends-Indexes lru _ u.heap h s.extends v.arch_ok;
    };
    extends = s.extends;
  }
  with_cache-Keeps u arch bc h v s = record {
    valid = record {
      memory = s.memory;
      catchup_ok = Extends-Indexes lru _ u.heap h s.extends v.catchup_ok;
      arch_ok = s.indexes;
    };
    extends = s.extends;
  }

  pub add_block_to-Keeps :
      (u : Unified lru C) (k : Which) (w : BlockWrap C)
      → UnifiedIsValid u
      → (u' : Unified lru C) × (add_block_to lru u k w ≡ some u') × Keeps u u'
  unfolding add_block_to
  add_block_to-Keeps u k w v =
      let (bc, h, runs, steps) =
        add_block-Steps lru (cache_of lru u k) u.heap w v.memory (index_of u k v) in
      (with_cache lru u k bc h, rw runs, with_cache-Keeps u k bc h v steps)

  pub promise_block-Keeps :
      (u : Unified lru C) (round : ℕ) → UnifiedIsValid u → Keeps u (promise_block lru u round).0
  unfolding promise_block promise_block_in
  promise_block-Keeps u round v =
      let k = get_cache_with_peek lru u round in
      let r = Cache.promise_block lru (cache_of lru u k) u.heap round in
      let kept =
        with_cache-Keeps u k r.0 r.1 v
          (promise_block-Steps lru (cache_of lru u k) u.heap round v.memory (index_of u k v)) in
      record {
        valid = record {
          memory = kept.valid.memory;
          catchup_ok = kept.valid.catchup_ok;
          arch_ok = kept.valid.arch_ok;
        };
        extends = kept.extends;
      }

  pub get_block-Keeps :
      (u : Unified lru C) (k : Which) (round : ℕ)
      → UnifiedIsValid u
      → Keeps u (with_cache lru u k (Cache.get_block lru (cache_of lru u k) u.heap round).0 u.heap)
  get_block-Keeps u k round v = with_cache-Keeps u k _ u.heap v (record {
    memory = v.memory;
    indexes = get_block-Indexes lru (cache_of lru u k) u.heap round (index_of u k v);
    extends = Extends-refl u.heap;
  })

  after_read-Keeps :
      (u : Unified lru C) (round : ℕ) (s : Stage) (r : Read C)
      → UnifiedIsValid u
      → Keeps u (after_read lru u round s r).0
  unfolding after_read
  after_read-Keeps u round s (blocked a ch) v = Keeps-refl u v
  after_read-Keeps u round first_catchup (returned (some w) err) v = Keeps-refl u v
  after_read-Keeps u round first_catchup (returned none err) v = Keeps-refl u v
  after_read-Keeps u round first_arch (returned (some w) err) v = Keeps-refl u v
  after_read-Keeps u round first_arch (returned none err) v = promise_block-Keeps u round v
  after_read-Keeps u round second_catchup (returned (some w) err) v = Keeps-refl u v
  after_read-Keeps u round second_catchup (returned none (some err)) v = Keeps-refl u v
  after_read-Keeps u round second_catchup (returned none none) v = Keeps-refl u v
  after_read-Keeps u round second_arch (returned (some w) err) v = Keeps-refl u v
  after_read-Keeps u round second_arch (returned none (some err)) v = Keeps-refl u v
  after_read-Keeps u round second_arch (returned none none) v = Keeps-refl u v

  -- A call of `GetBlock` never panics between two waits.
  pub get_step-Keeps :
      (wake : Wake) (u : Unified lru C) (round : ℕ) (g : Get C)
      → UnifiedIsValid u
      → (u' : Unified lru C) × (g' : Get C) × (get_step lru wake u round g ≡ some (u', g'))
        × Keeps u u'
  unfolding get_step start_read Cache.cancelled_block
  get_step-Keeps wake u round (done w err) v = (u, done w err, refl, Keeps-refl u v)
  get_step-Keeps wake u round (trying s) v =
      let k = stage_cache s in
      let r = Cache.get_block lru (cache_of lru u k) u.heap round in
      let u₁ = with_cache lru u k r.0 u.heap in
      let kept = get_block-Keeps u k round v in
      let next = after_read lru u₁ round s r.1 in
      (
        next.0,
        next.1,
        refl,
        Keeps-trans u u₁ next.0 kept (after_read-Keeps u₁ round s r.1 kept.valid),
      )
  get_step-Keeps go_on u round (waiting s a ch) v =
      let next = after_read lru u round s (Cache.woken_block lru u.heap a) in
      elim (Bool-cases (u.heap.closed ch)) [
        | inl e ↦ (next.0, next.1, rw (e, get_step), after_read-Keeps u round s _ v)
        | inr e ↦ (u, waiting s a ch, rw (e, get_step), Keeps-refl u v)
      ]
  get_step-Keeps (ctx_done err) u round (waiting s a ch) v =
      let k = stage_cache s in
      let w = error_wrap round (message "block timeout") in
      let (bc, h, runs, steps) =
        add_block-Steps lru (cache_of lru u k) u.heap w v.memory (index_of u k v) in
      let u₁ = with_cache lru u k bc h in
      let kept = with_cache-Keeps u k bc h v steps in
      let next = after_read lru u₁ round s (returned none (some err)) in
      (
        next.0,
        next.1,
        rw runs,
        Keeps-trans u u₁ next.0 kept
            (after_read-Keeps u₁ round s (returned none (some err)) kept.valid),
      )

  -- One step of the cache's life: a block or an error is added, a round is promised, or some call
  -- of `GetBlock`, at any point, goes on.
  pub data Step (u : Unified lru C) : Unified lru C → Type 0 where
    adds : {u' : Unified lru C} (w : BlockWrap C) → add_block lru u w ≡ some u' → Step u u'
    promises : (round : ℕ) → Step u (promise_block lru u round).0
    gets :
        {u' : Unified lru C} (wake : Wake) (round : ℕ) (g g' : Get C)
        → get_step lru wake u round g ≡ some (u', g')
        → Step u u'

  pub data Reach (u : Unified lru C) : Unified lru C → Type 0 where
    here : Reach u u
    next : {v w : Unified lru C} → Reach u v → Step v w → Reach u w
