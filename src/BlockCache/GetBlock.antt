-- ===== src/BlockCache/GetBlock.antt =====
-- One call of `GetBlock` among the steps of all others: what it returns, and when it is woken.
pub mod Right
use algo_vnode.Prelude.{
  ◌>>=◌, ℕ, ◌<◌, ◌≡◌, ◌≢◌, ◌⊎◌, inl, inr, ◌∙◌, true, false, Option, Option-cases, none, some, arith,
  Bool-cases, GoError, message,
}
use algo_vnode.BlockCache.Heap.{Heap}
use algo_vnode.BlockCache.Cache
use algo_vnode.BlockCache.Cache.{BlockCache, Read, returned, blocked, read_entry, woken_block}
use algo_vnode.BlockCache.Lru.{Lru}
use algo_vnode.BlockCache.Promise.{add_block_to_found}
use algo_vnode.BlockCache.Safety.{UnifiedIsValid, Keeps, index_of, Step, gets}
use algo_vnode.BlockCache.Steps.{Indexes, add_block-Steps}
use algo_vnode.BlockFetcher.Wrap.{BlockWrap, error_wrap}
use algo_vnode.BlockCache.Reach.{Step-Keeps}
use algo_vnode.BlockCache.Unified.{
  Unified, Which, catchup, arch, Stage, Get, Wake, go_on, ctx_done, trying, waiting, done,
  first_catchup, first_arch, second_catchup, second_arch, cache_of, with_cache, stage_cache,
  get_step, start_read, after_read, get_cache_with_peek, add_block,
}
use algo_vnode.BlockCache.Valid.{HeapIsValid}
use algo_vnode.BlockCache.GetBlock.Right.{IsRight, Keeps-IsRight, get_step-IsRight}

module _ (lru : Lru) {C : Type 0} where
  -- A call of `GetBlock` for `round`, from its first statement on, while others use the cache too.
  pub data Runs (round : ℕ) (u₀ : Unified lru C) : Unified lru C → Get C → Type 0 where
    starts : Runs round u₀ u₀ (trying first_catchup)
    ours :
        {u u' : Unified lru C} {g g' : Get C} (wake : Wake)
        → Runs round u₀ u g
        → get_step lru wake u round g ≡ some (u', g')
        → Runs round u₀ u' g'
    others :
        {u u' : Unified lru C} {g : Get C} → Runs round u₀ u g → Step lru u u' → Runs round u₀ u' g

  Runs-IsRight :
      {round : ℕ} {u₀ u : Unified lru C} {g : Get C}
      → UnifiedIsValid lru u₀
      → Runs round u₀ u g
      → UnifiedIsValid lru u × IsRight lru u round g
  Runs-IsRight v starts = (v, tt)
  Runs-IsRight {round} v (ours {u} {u'} {g} {g'} wake r e) =
      let (w, h) = Runs-IsRight v r in
      (
        (Step-Keeps lru w (gets wake round g g' e)).valid,
        get_step-IsRight lru wake u u' round g g' w h e,
      )
  Runs-IsRight {round} v (others {u} {u'} {g} r s) =
      let (w, h) = Runs-IsRight v r in
      let kept = Step-Keeps lru w s in (kept.valid, Keeps-IsRight lru u u' round g kept h)

  -- On a cache in order, whatever other calls do in between: a call of `GetBlock` that ends with a
  -- block ends with one of the round that was asked for, which was fetched without an error; and a
  -- call that ends without a block ends with an error.
  pub GetBlock_result :
      (round : ℕ) (u₀ u : Unified lru C) (block : Option (BlockWrap C)) (err : Option GoError)
      → UnifiedIsValid lru u₀
      → Runs round u₀ u (done block err)
      → ((w : BlockWrap C) → block ≡ some w → (w.round ≡ round) × (w.error ≡ none))
        × (block ≡ none → err ≢ none)
  GetBlock_result round u₀ u block err v r = result block (Runs-IsRight v r).1
    where
      result :
          (block : Option (BlockWrap C))
          → IsRight lru u round (done block err)
          → ((w : BlockWrap C) → block ≡ some w → (w.round ≡ round) × (w.error ≡ none))
            × (block ≡ none → err ≢ none)
      result none h = (λ w e. ground arith, λ _. h)
      result (some x) h = (λ w e. ground arith, λ e. cc)

  -- On a cache in order and whatever other calls do: let the channel on which a call of `GetBlock`
  -- waits be open, and the cache to which its round goes hold the entry at which it waits. Then that
  -- entry is one of its round, without an error, and still holds the channel; and `AddBlock` of that
  -- round, with a block or with an error, succeeds and closes the channel.
  pub GetBlock_waits :
      (round a ch : ℕ) (s : Stage) (u₀ u : Unified lru C) (w : BlockWrap C)
      → UnifiedIsValid lru u₀
      → Runs round u₀ u (waiting s a ch)
      → u.heap.closed ch ≡ false
      → lru.peek (cache_of lru u (get_cache_with_peek lru u w.round)).c w.round ≡ some a
      → w.round ≡ round
      → ((u.heap.entries a).wait_for ≡ some ch)
        × ((u.heap.entries a).error ≡ none)
        × ((u.heap.entries a).round ≡ round)
        × ((u' : Unified lru C) × (add_block lru u w ≡ some u') × (u'.heap.closed ch ≡ true))
  unfolding add_block
  GetBlock_waits round a ch s u₀ u w v r e here at =
      let (valid, h) = Runs-IsRight v r in
      let (held, clean, of_round) : ((u.heap.entries a).wait_for ≡ some ch)
          × ((u.heap.entries a).error ≡ none)
          × ((u.heap.entries a).round ≡ round) =
        ground
          (arith, h, (valid.memory.valid a h.0).settled, Option-cases (u.heap.entries a).error) in
      let (u', runs, d, _) =
        add_block_to_found lru u (get_cache_with_peek lru u w.round) w a valid here in
      (held, clean, of_round, (u', runs, d.woken ch held))
