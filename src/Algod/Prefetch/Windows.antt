-- ===== src/Algod/Prefetch/Windows.antt =====
-- What the pruning keeps, and which rounds a window of a prefetcher promises.
use algo_vnode.Prelude.{
  ℕ, zero, suc, ◌+◌, ◌≤◌, ◌<◌, ◌≡◌, refl, sym, subst, List, [], ◌∷◌, ◌++◌, arith, u64_mod, true,
  false, add64,
}
use algo_vnode.BlockCache.Lru.{Lru}
use algo_vnode.BlockCache.Unified.{Unified, promise_block, promise_block_in, is_block_cached}
use algo_vnode.Algod.Prefetch.{
  BlockPrefetch, any_expired, keep_live, prefetch_prune, promise_range, promise_uncached, advance,
  bp_count,
}

none_expired :
    (now : ℕ) (bps : List BlockPrefetch) → any_expired now bps ≡ false → keep_live now bps ≡ bps
unfolding any_expired keep_live
none_expired now [] h = refl
none_expired now (b ∷ bs) h = ground (arith, none_expired now bs)

-- The fast path of the pruning changes nothing: what stays is what has not expired.
pub prefetch_prune-eq :
    (now : ℕ) (bps : List BlockPrefetch) → prefetch_prune now bps ≡ keep_live now bps
unfolding prefetch_prune
prefetch_prune-eq now bps = ground (arith, none_expired now bps)

-- `n` consecutive rounds, the last one first, down to `first`.
unfoldable pub rounds_down : ℕ → ℕ → List ℕ
rounds_down zero first = []
rounds_down (suc n) first = (first + n) ∷ rounds_down n first

rounds_down-append :
    (n first : ℕ) (l : List ℕ)
    → rounds_down n (first + 1) ++ first ∷ l ≡ rounds_down (suc n) first ++ l
unfolding rounds_down
rounds_down-append zero first l = ground arith
rounds_down-append (suc n) first l = ground (arith, rounds_down-append n first l)

module _ (lru : Lru) {C : Type 0} where
  loads-promise_block :
      (u : Unified lru C) (round : ℕ) → (promise_block lru u round).0.loads ≡ round ∷ u.loads
  unfolding promise_block promise_block_in
  loads-promise_block u round = refl

  -- The loop promises each round of its range once, in order.
  loads-promise_range :
      (fuel n i pre_to : ℕ) (u : Unified lru C)
      → suc n ≤ fuel
      → pre_to ≡ i + n
      → i + n + 1 < u64_mod
      → (promise_range lru fuel i pre_to u).loads ≡ rounds_down (suc n) i ++ u.loads
  unfolding promise_range rounds_down
  loads-promise_range zero n i pre_to u h e l = absurd (omega arith)
  loads-promise_range (suc zero) zero i pre_to u h e l = ground (arith, loads-promise_block u i)
  loads-promise_range (suc (suc fuel)) zero i pre_to u h e l =
      ground (arith, loads-promise_block u i)
  loads-promise_range (suc fuel) (suc n) i pre_to u h e l =
      let next : add64 i 1 ≡ i + 1 = omega arith in
      let rest =
        subst
          (λ j.
            (promise_range lru fuel j pre_to (promise_block lru u i).0).loads
            ≡ rounds_down (suc n) (i + 1) ++ (promise_block lru u i).0.loads)
          (sym next)
          (loads-promise_range fuel n (i + 1) pre_to (promise_block lru u i).0 (omega arith)
            (omega arith) (omega arith)) in
      ground (arith, rest, loads-promise_block u i, rounds_down-append (suc n) i u.loads)

  -- From the third request on, and away from 2^64, a prefetcher whose request passes its mark starts
  -- the load of the next 15 rounds, each once and in order, and its last promised round goes on by
  -- 15.
  pub loads-advance :
      (round now : ℕ) (b : BlockPrefetch) (u : Unified lru C)
      → 2 ≤ b.hits
      → b.hits + 1 < u64_mod
      → 0 < b.next_pre
      → b.next_pre < round
      → b.last_pre + 16 < u64_mod
      → let (b', u') = advance lru round now b u in
        (u'.loads ≡ rounds_down 15 (b.last_pre + 1) ++ u.loads) × (b'.last_pre ≡ b.last_pre + 15)
  unfolding advance
  loads-advance round now b u h l n r m =
      let from : add64 b.last_pre 1 ≡ b.last_pre + 1 = omega arith in
      let to : add64 b.last_pre 15 ≡ b.last_pre + 15 = omega arith in
      let window =
        loads-promise_range bp_count 14 (b.last_pre + 1) (b.last_pre + 15) u (omega arith)
          (omega arith) (omega arith) in
      ground (arith, window, from, to)

  promise_uncached-cached :
      (fuel round i pre_to : ℕ) (u : Unified lru C)
      → is_block_cached lru u round ≡ true
      → promise_uncached lru fuel round i pre_to u ≡ u
  unfolding promise_uncached
  promise_uncached-cached zero round i pre_to u c = refl
  promise_uncached-cached (suc fuel) round i pre_to u c =
      rw c (ground (arith, promise_uncached-cached fuel round (add64 i 1) pre_to u c))

  -- The first window, from the third request on and away from 2^64, where the block of the request
  -- is cached already: the last promised round goes on by 30, and no load is started.
  pub loads-advance_cached :
      (round now : ℕ) (b : BlockPrefetch) (u : Unified lru C)
      → 2 ≤ b.hits
      → b.hits + 1 < u64_mod
      → b.next_pre ≡ 0
      → b.last_pre + 30 < u64_mod
      → is_block_cached lru u round ≡ true
      → let (b', u') = advance lru round now b u in
        (u'.loads ≡ u.loads) × (b'.last_pre ≡ b.last_pre + 30)
  unfolding advance
  loads-advance_cached round now b u h l n m c = ground (
    arith,
    promise_uncached-cached bp_count round (add64 b.last_pre 1) (add64 b.last_pre bp_count) u c,
  )
