-- ===== src/Algod/Prefetch.antt =====
-- internal/algod/prefetch.go: requests for consecutive rounds are taken for an indexer that syncs,
-- and the rounds after them are promised ahead of time. Times are numbers of nanoseconds, and one
-- call reads the clock once.
pub mod Windows
pub mod Ahead
use algo_vnode.Prelude.{
  ℕ, zero, suc, ◌+◌, ◌*◌, Bool, true, false, ◌&&◌, not, List, [], ◌∷◌, ◌++◌, Option, none, some,
  ltb, leb, ◌==◌, if◌then◌else◌, add64,
}
use algo_vnode.BlockCache.Lru.{Lru}
use algo_vnode.BlockCache.Unified.{Unified, promise_block, is_block_cached}

abbrev pub bp_count : ℕ
bp_count = 30

-- `time.Minute`.
abbrev pub minute : ℕ
minute = 60 * 1_000_000_000

pub record BlockPrefetch : Type 0 where
  pub first_req : ℕ
  pub last_req : ℕ
  pub last_pre : ℕ
  pub next_pre : ℕ
  pub hits : ℕ
  pub last_pre_at : ℕ

-- The test by which `prefetchDetect` looks for the prefetcher of a request.
unfoldable pub matches : ℕ → BlockPrefetch → Bool
matches round bp = leb bp.first_req round && leb round (add64 bp.last_req 1)

-- The prefetcher that `prefetchDetect` makes for a request that none matches.
abbrev pub new_prefetch : ℕ → ℕ → BlockPrefetch
new_prefetch round now = record {
  first_req = round;
  last_req = round;
  last_pre = round;
  next_pre = 0;
  hits = 0;
  last_pre_at = now;
}

-- `LastPreAt.Before(expire)`, for `expire` a minute before `now`.
unfoldable pub expired : ℕ → BlockPrefetch → Bool
expired now b = ltb (b.last_pre_at + minute) now

-- The first loop of `prefetchPrune`.
unfoldable pub any_expired : ℕ → List BlockPrefetch → Bool
unfolding expired
any_expired now [] = false
any_expired now (b ∷ bs) = if expired now b then true else any_expired now bs

-- Its second loop, the full pruning.
unfoldable pub keep_live : ℕ → List BlockPrefetch → List BlockPrefetch
unfolding expired
keep_live now [] = []
keep_live now (b ∷ bs) = let rest = keep_live now bs in if expired now b then rest else b ∷ rest

-- `prefetchPrune`.
unfoldable pub prefetch_prune : ℕ → List BlockPrefetch → List BlockPrefetch
unfolding any_expired keep_live
prefetch_prune now bps = if any_expired now bps then keep_live now bps else bps

module _ (lru : Lru) {C : Type 0} where
  -- `for i := preFrom; i <= preTo; i++ { PromiseBlock(i) }`, for at most `fuel` rounds.
  unfoldable pub promise_range : ℕ → ℕ → ℕ → Unified lru C → Unified lru C
  promise_range zero i pre_to u = u
  promise_range (suc fuel) i pre_to u =
      let rest = promise_range fuel (add64 i 1) pre_to (promise_block lru u i).0 in
      if leb i pre_to then rest else u

  -- The same loop with its test. The test names the request's `round`, not `i`.
  unfoldable pub promise_uncached : ℕ → ℕ → ℕ → ℕ → Unified lru C → Unified lru C
  promise_uncached zero round i pre_to u = u
  promise_uncached (suc fuel) round i pre_to u =
      let u' = if not (is_block_cached lru u round) then (promise_block lru u i).0 else u in
      let rest = promise_uncached fuel round (add64 i 1) pre_to u' in
      if leb i pre_to then rest else u

  -- What `prefetchDetect` does with the prefetcher of the request.
  unfoldable pub advance : ℕ → ℕ → BlockPrefetch → Unified lru C → BlockPrefetch × Unified lru C
  advance round now bpf u =
      let b = record bpf { last_req = round; hits = add64 bpf.hits 1 } in
      if ltb 2 b.hits
      then (if b.next_pre == 0
          then (
            record b {
              last_pre = add64 b.last_pre bp_count;
              last_pre_at = now;
              next_pre = add64 round 15;
            },
            promise_uncached bp_count round (add64 b.last_pre 1) (add64 b.last_pre bp_count) u,
          )
          else (if ltb b.next_pre round
              then (
                record b {
                  last_pre = add64 b.last_pre 15;
                  last_pre_at = now;
                  next_pre = add64 b.next_pre 15;
                },
                promise_range bp_count (add64 b.last_pre 1) (add64 b.last_pre 15) u,
              )
              else (b, u)))
      else (b, u)

  -- The prefetchers before pruning: the first that matches goes on, or a new one is appended.
  unfoldable pub detect_in :
      ℕ → ℕ → List BlockPrefetch → Unified lru C → List BlockPrefetch × Unified lru C
  detect_in round now [] u =
      let (b, u') = advance round now (new_prefetch round now) u in (b ∷ [], u')
  detect_in round now (b ∷ bs) u =
      let (bs', u₁) = detect_in round now bs u in
      let (b', u₂) = advance round now b u in
      if matches round b then (b' ∷ bs, u₂) else (b ∷ bs', u₁)

  -- `prefetchDetect`.
  unfoldable pub prefetch_detect :
      ℕ → ℕ → List BlockPrefetch → Unified lru C → List BlockPrefetch × Unified lru C
  prefetch_detect round now bps u =
      let (bps', u') = detect_in round now bps u in (prefetch_prune now bps', u')
