-- ===== src/Tests/Serves.antt =====
-- A request for a block that is in the cache, and one for the status after a round, at concrete
-- inputs.
use algo_vnode.Prelude.{
  List, [], ◌∷◌, ℕ, zero, suc, ◌≤◌, ◌≡◌, ◌≢◌, refl, Bool, false, Option, none, some, arith, GoError,
  codes,
}
use algo_vnode.Algod.Blocks.{get_block_first, wait_for_status_after}
use algo_vnode.Algod.Cluster.{is_block_in_the_future, ledger_error}
use algo_vnode.Algod.State.{Cluster, Status}
use algo_vnode.BlockCache.Cache
use algo_vnode.BlockCache.GetBlock.{Runs, starts, ours}
use algo_vnode.BlockCache.Reach.{Step-Keeps}
use algo_vnode.BlockCache.Safety.{UnifiedIsValid, adds}
use algo_vnode.BlockCache.Unified.{
  Unified, new, add_block, get_step, get_cache_with_peek, done, go_on,
}
use algo_vnode.BlockFetcher.Wrap.{BlockWrap}
use algo_vnode.Httpsrv.Handlers.Blocks
use algo_vnode.Httpsrv.Handlers.Waits
use algo_vnode.Httpsrv.Handlers.Waits.{Waited}
use algo_vnode.Httpsrv.Handlers.Blocks.{Returns, refuses, reads}
use algo_vnode.Httpsrv.Handlers.{parse_int, block_body, blocks_handler, node_json, wait_handler}
use algo_vnode.Tests.Caches.{fresh, fresh-IsValid}
use algo_vnode.Tests.Instances.{bounded, whole, block, find, newest, find_or_add}
use algo_vnode.Tests.Nodes.{cluster, ahead_at}

-- Block 0 is cached, and the cluster is at round 0.
cached : (u : Unified bounded ℕ) × (add_block bounded fresh (block 0) ≡ some u)
unfolding new add_block get_cache_with_peek find newest find_or_add Cache.add_block
cached = (_, refl)

cached-IsValid : UnifiedIsValid bounded cached.0
cached-IsValid = (Step-Keeps bounded fresh-IsValid (adds (block 0) cached.1)).valid

abbrev early : Cluster whole bounded ℕ
early = record cluster { latest_round = 0; ucache = cached.0 }

-- The archive cache has it.
found : (u : Unified bounded ℕ) × Runs bounded 0 cached.0 u (done (some (block 0)) none)
unfolding new add_block get_step get_cache_with_peek find newest find_or_add Cache.add_block
    Cache.get_block cached
found = (_, ours go_on (ours go_on starts refl) refl)

get_block : ℕ → Bool → Bool × Option (BlockWrap ℕ) × Option GoError
get_block zero msgp = (false, some (block 0), none)
get_block (suc n) msgp = (false, none, some ledger_error)

returns : (n : ℕ) → Returns whole bounded early n false (get_block n false)
unfolding get_block get_block_first is_block_in_the_future
returns zero = reads false found.0 (some (block 0)) none refl found.1
returns (suc n) = refuses false ledger_error (ground arith)

blocks_handler_serves_example :
    let a = blocks_handler get_block (codes "0") node_json in
    (a.status ≢ 204)
    × (a.status ≡ 200
        → (n : ℕ) × (w : BlockWrap ℕ) × (parse_int (codes "0") ≡ some n)
          × ((get_block n false).1 ≡ some w)
          × (w.round ≡ n)
          × (w.error ≡ none)
          × (n ≤ 0)
          × (a.body ≡ block_body node_json w))
blocks_handler_serves_example =
    Blocks.blocks_handler_serves whole bounded early node_json get_block cached-IsValid returns
      (codes "0")

-- A status of round 3 is broadcast, then one of round 9, and then a nil.
abbrev broadcasts : List (Option Status)
broadcasts = some (record ahead_at { last_round = 3 }) ∷ some ahead_at ∷ none ∷ []

wait_handler_answers_example : Waited whole bounded cluster 5 broadcasts (
    wait_handler
      (λ m. (false, wait_for_status_after whole bounded m broadcasts cluster))
      (codes "5"))
unfolding parse_int
wait_handler_answers_example =
    Waits.wait_handler_answers whole bounded cluster broadcasts (codes "5") 5 refl
