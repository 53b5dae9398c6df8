-- ===== src/Tests/Loads.antt =====
-- A load of a promised block at concrete inputs.
use algo_vnode.Prelude.{
  ℕ, ◌≡◌, refl, Bool, true, false, List, [], ◌∷◌, some, arith, err, message, All,
}
use algo_vnode.Algod.Blocks.{load_block_sync}
use algo_vnode.Algod.Client.{Reply, reply, refused}
use algo_vnode.Algod.Loads
use algo_vnode.Algod.Loads.Asks.{Answers}
use algo_vnode.Algod.Loop.{fetch_block_raw}
use algo_vnode.Algod.State.{Cluster}
use algo_vnode.BlockCache.Safety.{UnifiedIsValid, promise_block-Keeps}
use algo_vnode.BlockCache.Unified.{is_block_cached, cache_of, get_cache_with_peek}
use algo_vnode.BlockFetcher.Make.{Codec, make_block_wrap}
use algo_vnode.Tests.Caches.{fresh, fresh-IsValid, promised}
use algo_vnode.Tests.Instances.{bounded, whole, by_round, first_byte}
use algo_vnode.Tests.Nodes.{cluster}

-- Round 5 is promised, and node 0 refuses once before it sends the block.
abbrev awaited : Cluster whole bounded ℕ
awaited = record cluster { ucache = promised; arch_nodes = 0 ∷ [] }

abbrev sends : ℕ → List (Reply (List ℕ))
sends n = refused (message "busy") ∷ reply (5 ∷ []) 100 ∷ []

sends-Answers : (n : ℕ) → All (Answers by_round 0 5) (sends n)
unfolding make_block_wrap first_byte
sends-Answers n = (tt, ((λ block e. (ground arith, λ id. (_, refl))), tt))

load_block_sync_settles_example :
    (gs' : Cluster whole bounded ℕ) × (got : Bool) × (load_block_sync whole bounded 0 by_round sends
        5 awaited
      ≡ some (gs', got))
    × UnifiedIsValid bounded gs'.ucache
    × (got ≡ true → is_block_cached bounded gs'.ucache 5 ≡ true)
    × (is_block_cached bounded promised 5 ≡ false
        → (a ch : ℕ)
        → let k = get_cache_with_peek bounded promised 5 in
          bounded.peek (cache_of bounded promised k).c 5 ≡ some a
          → (promised.heap.entries a).wait_for ≡ some ch
          → gs'.ucache.heap.closed ch ≡ true)
load_block_sync_settles_example =
    Loads.load_block_sync_settles whole bounded 0 by_round sends 5 awaited
      (promise_block-Keeps bounded fresh 5 fresh-IsValid).valid sends-Answers (λ e. ground arith)

-- Blocks of which the program cannot make the indexer's form.
abbrev unprintable : Codec ℕ
unprintable = record by_round { encode_idx = λ c. err (message "not valid") }

fetch_block_raw_unwrapped_example :
    (gs' : Cluster whole bounded ℕ) × (fetch_block_raw whole bounded 0 0 unprintable 5
        (reply (5 ∷ []) 100 ∷ [])
        awaited
      ≡ some (gs', true))
    × (gs'.ucache ≡ promised)
unfolding make_block_wrap first_byte
fetch_block_raw_unwrapped_example =
    Loads.fetch_block_raw_unwrapped whole bounded 0 0 unprintable 5 100 (5 ∷ []) [] 5
      (message "not valid") awaited refl (λ id. refl)
