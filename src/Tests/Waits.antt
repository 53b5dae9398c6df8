-- ===== src/Tests/Waits.antt =====
-- Calls that wait, at concrete inputs: one for round 5, which is promised and then added, and the
-- retries of a call of a node.
use algo_vnode.Prelude.{
  ℕ, ◌-◌, ◌^◌, ◌*◌, ◌<◌, ◌≤◌, ◌≡◌, ◌≢◌, refl, Bool, true, false, Option, none, some, arith, GoError,
  canceled, message, min, ◌==◌, if◌then◌else◌,
}
use algo_vnode.BlockCache.Cache
use algo_vnode.BlockCache.GetBlock
use algo_vnode.BlockCache.GetBlock.{Runs, starts, ours, others}
use algo_vnode.BlockCache.Reach
use algo_vnode.BlockCache.Safety.{UnifiedIsValid, adds, promises}
use algo_vnode.BlockCache.Unified.{
  Unified, new, add_block, promise_block, get_step, get_cache_with_peek, first_catchup, waiting,
  done, go_on,
}
use algo_vnode.BlockFetcher.Wrap.{BlockWrap}
use algo_vnode.Tests.Instances.{bounded, block, no_memory, find, newest, find_or_add}
use algo_vnode.Tests.Caches.{fresh, promised}
use algo_vnode.Utils.Backoff
use algo_vnode.Utils.Backoff.{Attempt, Ends, backoff, turn}
use algo_vnode.Utils.Backoff.Waits
use algo_vnode.Utils.Backoff.Waits.{wait_after}

abbrev program : Bool
unfolding new add_block promise_block get_step get_cache_with_peek find newest find_or_add
    Cache.add_block Cache.promise_block Cache.get_block
program = true

valid : UnifiedIsValid bounded fresh
valid = Reach.new-valid bounded no_memory refl

-- The call finds the promise and waits.
waits : Runs bounded 5 fresh promised (waiting first_catchup 0 0)
unfolding program
waits = ours go_on (others starts (promises 5)) refl

delivered : (u : Unified bounded ℕ) × (add_block bounded promised (block 5) ≡ some u)
unfolding program
delivered = (_, refl)

-- The block comes, and the call goes on and returns it.
ends :
    (r : Unified bounded ℕ × Option (BlockWrap ℕ) × Option GoError) × Runs bounded 5 fresh r.0
      (done r.1 r.2)
unfolding program delivered
ends = ((_, some (block 5), none), ours go_on (others waits (adds (block 5) delivered.1)) refl)

GetBlock_waits_example :
    ((promised.heap.entries 0).wait_for ≡ some 0)
    × ((promised.heap.entries 0).error ≡ none)
    × ((promised.heap.entries 0).round ≡ 5)
    × ((u' : Unified bounded ℕ) × (add_block bounded promised (block 5) ≡ some u')
        × (u'.heap.closed 0 ≡ true))
unfolding program
GetBlock_waits_example =
    GetBlock.GetBlock_waits bounded 5 0 0 first_catchup fresh promised (block 5) valid waits refl
      refl refl

GetBlock_result_example :
    ((w : BlockWrap ℕ) → ends.0.1 ≡ some w → (w.round ≡ 5) × (w.error ≡ none))
    × (ends.0.1 ≡ none → ends.0.2 ≢ none)
GetBlock_result_example =
    GetBlock.GetBlock_result bounded 5 fresh ends.0.0 ends.0.1 ends.0.2 valid ends.1

-- A node that refuses every call, in a world that counts what is left to answer.
refusing : ℕ → ℕ → Attempt × ℕ
refusing timeout left = (record { fatal = false; err = some (message "refused") }, left - 1)

over : ℕ → Option GoError
over left = if left == 0 then some canceled else none

asleep : ℕ → ℕ → ℕ
asleep wait left = left

backoff-Ends_example :
    (e : Option GoError) × (left : ℕ) × (backoff refusing over asleep 3 1000 100 10_000 3 7
      ≡ some (e, left))
    × Ends refusing over asleep 1000 e left
backoff-Ends_example =
    Backoff.backoff-Ends refusing over asleep 3 1000 100 10_000 7 (omega arith) (omega arith)

uses_up : (timeout left : ℕ) → over left ≡ none → (refusing timeout left).1 < left
unfolding refusing over
uses_up timeout left e = ground arith

rests : (wait left : ℕ) → asleep wait left ≤ left
unfolding asleep
rests wait left = omega arith

wait_after-eq_example : wait_after 10_000 4 100 ≡ min (100 * 2 ^ 4) 10_000
wait_after-eq_example = Waits.wait_after-eq 10_000 4 100 (omega arith) (omega arith) (omega arith)
