-- ===== src/Tests/Caches.antt =====
-- The caches at concrete inputs.
use algo_vnode.Prelude.{
  List, [], ◌∷◌, ℕ, ◌+◌, ◌<◌, ◌≡◌, ◌⊎◌, ◌↔◌, inl, refl, Bool, true, false, none, some, arith,
  GoError, message,
}
use algo_vnode.BlockCache.Cache
use algo_vnode.BlockCache.Cache.{BlockCache, returned}
use algo_vnode.BlockCache.Heap.{Heap}
use algo_vnode.BlockCache.Promise
use algo_vnode.BlockCache.Reach
use algo_vnode.BlockCache.Refines.{view, perform_all}
use algo_vnode.BlockCache.Refines.Calls
use algo_vnode.BlockCache.Refines.Fresh
use algo_vnode.BlockCache.Spec.Origins.{FromDeliveries}
use algo_vnode.BlockCache.Routing
use algo_vnode.BlockCache.Spec.{
  Op, promise, add, ask, Answer, done, found, failed, waits, missing, Traces,
}
use algo_vnode.BlockCache.Safety.{UnifiedIsValid, here, next, adds, promises}
use algo_vnode.BlockCache.Unified.{
  Unified, new, add_block, promise_block, is_block_cached, get_step, get_cache_with_peek, catchup,
}
use algo_vnode.BlockFetcher.Wrap.{error_wrap}
use algo_vnode.Tests.Instances.{bounded, block, no_memory, find, newest, find_or_add}

abbrev program : Bool
unfolding new add_block promise_block is_block_cached get_step get_cache_with_peek find newest
    find_or_add Cache.add_block Cache.promise_block Cache.is_block_cached Cache.get_block
program = true

abbrev pub fresh : Unified bounded ℕ
fresh = new bounded no_memory

abbrev pub promised : Unified bounded ℕ
promised = (promise_block bounded fresh 5).0

pub fresh-IsValid : UnifiedIsValid bounded fresh
fresh-IsValid = Reach.new-valid bounded no_memory refl

abbrev retried : List (Op ℕ)
retried =
    promise 5
    ∷ ask 5
    ∷ add (error_wrap 5 (message "refused"))
    ∷ ask 5
    ∷ promise 5
    ∷ add (block 5)
    ∷ ask 5
    ∷ ask 6
    ∷ []

retried_answers :
    perform_all bounded fresh.catchup_cache fresh.heap retried
    ≡ some (
        done
        ∷ waits
        ∷ done
        ∷ failed (message "refused")
        ∷ done
        ∷ done
        ∷ found (block 5)
        ∷ missing
        ∷ [])
unfolding program perform_all
retried_answers = refl

perform_all-FromDeliveries_example :
    (answers : List (Answer ℕ)) × (perform_all bounded fresh.catchup_cache no_memory retried
      ≡ some answers)
    × FromDeliveries [] retried answers
perform_all-FromDeliveries_example =
    Fresh.perform_all-FromDeliveries bounded no_memory catchup retried refl

perform_all-Traces_example :
    (answers : List (Answer ℕ)) × (perform_all bounded fresh.catchup_cache fresh.heap retried
      ≡ some answers)
    × Traces (view bounded fresh.catchup_cache fresh.heap) retried answers
perform_all-Traces_example =
    Calls.perform_all-Traces bounded fresh.catchup_cache fresh.heap retried fresh-IsValid.memory
      fresh-IsValid.catchup_ok

add_block-promise_block_example :
    let (u₁, be) = promise_block bounded fresh 5 in
    (u₂ : Unified bounded ℕ) × (add_block bounded u₁ (block 5) ≡ some u₂)
    × ((ch : ℕ) → (u₁.heap.entries be).wait_for ≡ some ch → u₂.heap.closed ch ≡ true)
    × ((block 5).error ≡ none
        → (is_block_cached bounded u₂ 5 ≡ true) × ((u₂.heap.entries be).error ≡ none))
    × ((err : GoError)
        → (block 5).error ≡ some err
        → (u₁.heap.entries be).b ≡ none
        → (u₂.heap.entries be).error ≡ some err)
add_block-promise_block_example =
    Promise.add_block-promise_block bounded fresh (block 5) fresh-IsValid

-- The last round of the catchup cache is 5.
abbrev young : Unified bounded ℕ
young = record fresh { catchup_cache = record fresh.catchup_cache { last = 5 } }

get_cache_with_peek_window_example : (get_cache_with_peek bounded fresh 5 ≡ catchup) ↔ (
    (0 < 5)
    × (Cache.is_block_promised bounded fresh.arch_cache 5 ≡ false)
    × ((fresh.catchup_cache.last ≡ 0) ⊎ (fresh.catchup_cache.last < 5 + 1000)))
unfolding program
get_cache_with_peek_window_example =
    Routing.get_cache_with_peek_window bounded fresh 5 (inl refl) (omega arith)

added : (u : Unified bounded ℕ) × (add_block bounded young (block 6) ≡ some u)
unfolding program
added = (_, refl)

-- Round 5 has been promised, and its load has failed.
failing :
    (u : Unified bounded ℕ) × (add_block bounded promised (error_wrap 5 (message "gone")) ≡ some u)
unfolding program
failing = (_, refl)

failing-IsValid : UnifiedIsValid bounded failing.0
failing-IsValid =
    Reach.Reach-valid bounded fresh-IsValid
      (next (next here (promises 5)) (adds (error_wrap 5 (message "gone")) failing.1))

get_block_late_example :
    (bc : BlockCache bounded) × (h : Heap ℕ) × (Cache.add_block bounded failing.0.catchup_cache
        failing.0.heap
        (block 5)
      ≡ some (bc, h))
    × (Cache.is_block_cached bounded bc h 5 ≡ true)
    × ((Cache.get_block bounded bc h 5).1 ≡ returned none (some (message "gone")))
unfolding program failing
get_block_late_example =
    Promise.get_block_late bounded failing.0.catchup_cache failing.0.heap (block 5) 0
      (message "gone") failing-IsValid.memory failing-IsValid.catchup_ok refl refl refl
