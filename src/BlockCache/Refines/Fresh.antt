-- ===== src/BlockCache/Refines/Fresh.antt =====
-- The calls on one of the caches that `New` of unified.go makes.
use algo_vnode.Prelude.{ℕ, ◌≡◌, sym, subst, List, [], some}
use algo_vnode.BlockCache.Heap.{Heap}
use algo_vnode.BlockCache.Lru.{Lru}
use algo_vnode.BlockCache.Reach.{new-valid}
use algo_vnode.BlockCache.Refines.{view, view_absent, perform_all}
use algo_vnode.BlockCache.Refines.Calls.{perform_all-Traces}
use algo_vnode.BlockCache.Safety.{index_of}
use algo_vnode.BlockCache.Spec.{Op, Answer}
use algo_vnode.BlockCache.Spec.Origins.{Known, FromDeliveries, Traces-FromDeliveries}
use algo_vnode.BlockCache.Unified.{Which, catchup, arch, new, cache_of}

module _ (lru : Lru) {C : Type 0} where
  nothing-Known :
      (h : Heap C) (k : Which) (round : ℕ)
      → Known [] round (view lru (cache_of lru (new lru h) k) h round)
  unfolding new
  nothing-Known h catchup round =
      subst (Known [] round) (sym (view_absent lru _ h round (lru.peek-new 1000 round))) tt
  nothing-Known h arch round =
      subst (Known [] round) (sym (view_absent lru _ h round (lru.peek-new 1000 round))) tt

  -- However calls follow each other on either of the caches of `New`, over a memory that holds no
  -- entry: none panics, and of the calls of `getBlock` that return at once, without a wait, a block
  -- that one returns was added before for the round that was asked for, without an error, and an
  -- error that one returns was added before for that round.
  pub perform_all-FromDeliveries :
      (h : Heap C) (k : Which) (ops : List (Op C))
      → h.next_entry ≡ 0
      → (answers : List (Answer C)) × (perform_all lru (cache_of lru (new lru h) k) h ops
          ≡ some answers)
        × FromDeliveries [] ops answers
  unfolding new
  perform_all-FromDeliveries h k ops e =
      let v = new-valid lru h e in
      let (answers, runs, traces) =
        perform_all-Traces lru (cache_of lru (new lru h) k) h ops v.memory
          (index_of lru (new lru h) k v) in
      (answers, runs, Traces-FromDeliveries _ ops answers [] (nothing-Known h k) traces)
