-- ===== src/BlockCache/Reach.antt =====
-- The life of the unified cache as a sequence of steps, and one call of `GetBlock` that goes on
-- among the steps of all others.
use algo_vnode.Prelude.{ℕ, ◌≡◌, ◌≢◌, none, some, arith}
use algo_vnode.BlockCache.Heap.{Heap}
use algo_vnode.BlockCache.Lru.{Lru}
use algo_vnode.BlockCache.Steps.{Indexes}
use algo_vnode.BlockCache.Safety.{
  UnifiedIsValid, Keeps, add_block_to-Keeps, promise_block-Keeps, get_step-Keeps, Step, adds,
  promises, gets, Reach, here, next,
}
use algo_vnode.BlockCache.Unified.{
  Unified, Get, Wake, get_step, add_block, get_cache_with_peek, new,
}
use algo_vnode.BlockFetcher.Wrap.{BlockWrap}

module _ (lru : Lru) {C : Type 0} where
  pub add_block-Keeps :
      (u : Unified lru C) (w : BlockWrap C)
      → UnifiedIsValid lru u
      → (u' : Unified lru C) × (add_block lru u w ≡ some u') × Keeps lru u u'
  unfolding add_block
  add_block-Keeps u w v = add_block_to-Keeps lru u (get_cache_with_peek lru u w.round) w v

  pub Step-Keeps : {u u' : Unified lru C} → UnifiedIsValid lru u → Step lru u u' → Keeps lru u u'
  Step-Keeps {u} v (adds w e) = let (x, f, kept) = add_block-Keeps u w v in same x f e kept
    where
      same :
          {u' : Unified lru C} (x : Unified lru C)
          → add_block lru u w ≡ some x
          → add_block lru u w ≡ some u'
          → Keeps lru u x
          → Keeps lru u u'
      same x f e kept = ground arith
  Step-Keeps v (promises round) = promise_block-Keeps lru _ round v
  Step-Keeps {u} {u'} v (gets wake round g g' e) =
      let (x, y, f, kept) = get_step-Keeps lru wake u round g v in ground arith

  pub Reach-valid :
      {u u' : Unified lru C} → UnifiedIsValid lru u → Reach lru u u' → UnifiedIsValid lru u'
  Reach-valid v here = v
  Reach-valid v (next r s) = (Step-Keeps (Reach-valid v r) s).valid

  pub new-valid : (h : Heap C) → h.next_entry ≡ 0 → UnifiedIsValid lru (new lru h)
  unfolding new
  new-valid h e = record {
    memory = record {
      valid = λ a l. absurd (omega arith);
      made = λ a ch l p. absurd (omega arith);
      opened = λ a ch l p. absurd (omega arith);
      owned = λ a b ch l m p q. absurd (omega arith);
    };
    catchup_ok = empty 1000;
    arch_ok = empty 1000;
  }
    where
      empty : (n : ℕ) → Indexes lru (lru.new n) h
      empty n = record {
        known = λ k a p. absurd (ground (arith, lru.peek-new n k));
        keyed = λ k a p. absurd (ground (arith, lru.peek-new n k));
      }

  -- However the calls on a new cache interleave, over a memory that holds no entry at the start:
  -- `AddBlock` and the steps of `GetBlock` return. So the channel of a promise is never closed
  -- twice, which would panic.
  pub never_panics :
      (h : Heap C) (u : Unified lru C)
      → h.next_entry ≡ 0
      → Reach lru (new lru h) u
      → ((w : BlockWrap C) → add_block lru u w ≢ none)
        × ((wake : Wake) (round : ℕ) (g : Get C) → get_step lru wake u round g ≢ none)
  never_panics h u e r = (λ w. adding w, λ wake round g. getting wake round g)
    where
      v : UnifiedIsValid lru u
      v = Reach-valid (new-valid h e) r

      adding : (w : BlockWrap C) → add_block lru u w ≢ none
      adding w = λ n. let (x, f, _) = add_block-Keeps u w v in ground arith

      getting : (wake : Wake) (round : ℕ) (g : Get C) → get_step lru wake u round g ≢ none
      getting wake round g =
          λ n. let (x, y, f, _) = get_step-Keeps lru wake u round g v in ground arith
