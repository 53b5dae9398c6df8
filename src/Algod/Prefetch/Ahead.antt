-- ===== src/Algod/Prefetch/Ahead.antt =====
-- The loads that the prefetcher of a syncing indexer starts: internal/algod/prefetch.go.
use algo_vnode.Prelude.{
  ℕ, zero, suc, ◌+◌, ◌≤◌, ◌<◌, ◌≡◌, refl, ◌∙◌, ap, List, [], ◌∷◌, ◌++◌, arith, u64_mod, Bool-cases,
  inl, inr, ltb, true,
}
use algo_vnode.BlockCache.Lru.{Lru}
use algo_vnode.BlockCache.Unified.{Unified}
use algo_vnode.Algod.Prefetch.{
  BlockPrefetch, minute, matches, expired, any_expired, keep_live, prefetch_prune, advance,
  detect_in, prefetch_detect,
}
use algo_vnode.Algod.Prefetch.Windows.{rounds_down, loads-advance}

prune_recent :
    (now t₀ : ℕ) (b : BlockPrefetch)
    → t₀ ≤ b.last_pre_at
    → now ≤ t₀ + minute
    → prefetch_prune now (b ∷ []) ≡ b ∷ []
unfolding prefetch_prune any_expired keep_live expired
prune_recent now t₀ b h l = ground arith

rounds_down-rounds_down :
    (k m first : ℕ) (l : List ℕ)
    → rounds_down k (first + m) ++ (rounds_down m first ++ l) ≡ rounds_down (m + k) first ++ l
unfolding rounds_down
rounds_down-rounds_down zero m first l = let e : m + 0 ≡ m = omega arith in rw e refl
rounds_down-rounds_down (suc k) m first l =
    let e : m + suc k ≡ suc (m + k) = omega arith in
    let f : first + m + k ≡ first + (m + k) = omega arith in
    rw (e, f) (ap (◌∷◌ (first + (m + k))) (rounds_down-rounds_down k m first l))

-- The prefetcher of an indexer that asks for one round after the other and has asked for `r` last,
-- after its first window: it is at least 13 rounds ahead, and at most 28.
pub record IsAhead (t₀ r : ℕ) (b : BlockPrefetch) : Type 0 where
  pub first : b.first_req ≤ r
  pub last : b.last_req ≡ r
  pub counted : 3 ≤ b.hits
  pub within : b.hits ≤ r + 1
  pub recent : t₀ ≤ b.last_pre_at
  pub window : b.last_pre ≡ b.next_pre + 13
  pub below : r ≤ b.next_pre
  pub above : b.next_pre ≤ r + 15

module _ (lru : Lru) {C : Type 0} where
  -- From `l` on, the loads of the rounds that follow `last` have been started, up to `b.last_pre`.
  pub record Started (last : ℕ) (l : List ℕ) (b : BlockPrefetch) (u : Unified lru C) : Type 0 where
    pub count : ℕ
    pub reached : b.last_pre ≡ last + count
    pub loads : u.loads ≡ rounds_down count (last + 1) ++ l

  advance-IsAhead :
      (t₀ r now : ℕ) (b : BlockPrefetch) (u : Unified lru C)
      → IsAhead t₀ r b
      → t₀ ≤ now
      → r + 64 < u64_mod
      → IsAhead t₀ (r + 1) (advance lru (r + 1) now b u).0
  unfolding advance
  advance-IsAhead t₀ r now b u a t l = record {
    first = ground (arith, a.first);
    last = ground arith;
    counted = ground (arith, a.counted, a.within);
    within = ground (arith, a.counted, a.within);
    recent = ground (arith, a.recent);
    window = ground (arith, a.window, a.below, a.above);
    below = ground (arith, a.below, a.above, a.counted, a.within);
    above = ground (arith, a.below, a.above, a.counted, a.within);
  }

  advance-Started :
      (t₀ r now last : ℕ) (l : List ℕ) (b : BlockPrefetch) (u : Unified lru C)
      → IsAhead t₀ r b
      → r + 64 < u64_mod
      → Started last l b u
      → let (b', u') = advance lru (r + 1) now b u in Started last l b' u'
  unfolding advance
  advance-Started t₀ r now last l b u a room s = elim (Bool-cases (ltb b.next_pre (r + 1))) [
    | inl e ↦
        let (p, q) =
          loads-advance lru (r + 1) now b u (omega (arith, a.counted)) (omega (arith, a.within))
            (omega (arith, a.below, a.counted, a.within)) (ground arith)
            (omega (arith, a.window, a.above)) in
        let at : b.last_pre + 1 ≡ last + 1 + s.count = omega (arith, s.reached) in
        record {
          count = s.count + 15;
          reached = omega (arith, q, s.reached);
          loads =
              p
              ∙ ap (λ x. rounds_down 15 x ++ u.loads) at
              ∙ ap (λ x. rounds_down 15 (last + 1 + s.count) ++ x) s.loads
              ∙ rounds_down-rounds_down 15 s.count (last + 1) l;
        }
    | inr e ↦ record {
      count = s.count;
      reached = ground (arith, s.reached, a.below, a.counted, a.within);
      loads = ground (arith, s.loads, a.below, a.counted, a.within);
    }
  ]

  -- The prefetchers after requests for the rounds from `r + 1` to `r + n`, one by one, the k-th at
  -- the time `clock k`.
  pub sync_run :
      ℕ → ℕ → (ℕ → ℕ) → List BlockPrefetch → Unified lru C → List BlockPrefetch × Unified lru C
  sync_run zero r clock bps u = (bps, u)
  sync_run (suc n) r clock bps u =
      let (bps', u') = sync_run n r clock bps u in
      prefetch_detect lru (r + n + 1) (clock (suc n)) bps' u'

  detect_one :
      (t₀ r now : ℕ) (b : BlockPrefetch) (u : Unified lru C)
      → IsAhead t₀ r b
      → t₀ ≤ now
      → now ≤ t₀ + minute
      → r + 64 < u64_mod
      → let (b', u') = advance lru (r + 1) now b u in
        prefetch_detect lru (r + 1) now (b ∷ []) u ≡ (b' ∷ [], u')
  unfolding prefetch_detect detect_in matches
  detect_one t₀ r now b u a t h l =
      let (b', u') = advance lru (r + 1) now b u in
      let next = advance-IsAhead t₀ r now b u a t l in
      let mine : matches (r + 1) b ≡ true = ground (arith, a.first, a.last) in
      rw mine (ap (λ x. (x, u')) (prune_recent now t₀ b' next.recent h))

  -- Let an indexer go on to ask for one round after the other, within a minute and away from 2^64,
  -- and its prefetcher be ahead after its first window. Then it stays the only prefetcher, the last
  -- round that it has promised lies 13 to 28 rounds beyond the request, and the loads that it has
  -- started since are those of all the rounds up to that one, each once and in order.
  pub sync_run-loads :
      (n r t₀ : ℕ) (clock : ℕ → ℕ) (b : BlockPrefetch) (u : Unified lru C)
      → IsAhead t₀ r b
      → ((k : ℕ) → t₀ ≤ clock k)
      → ((k : ℕ) → clock k ≤ t₀ + minute)
      → r + n + 64 < u64_mod
      → (b' : BlockPrefetch) × (u' : Unified lru C) × (sync_run n r clock (b ∷ []) u
          ≡ (b' ∷ [], u'))
        × IsAhead t₀ (r + n) b'
        × Started b.last_pre u.loads b' u'
  unfolding sync_run rounds_down
  sync_run-loads zero r t₀ clock b u a lo hi l =
      let e : r + 0 ≡ r = omega arith in
      (b, u, refl, rw e a, record { count = 0; reached = omega arith; loads = refl })
  sync_run-loads (suc n) r t₀ clock b u a lo hi l =
      let (b₁, u₁, e, a₁, s₁) = sync_run-loads n r t₀ clock b u a lo hi (omega arith) in
      let now = clock (suc n) in
      let (b₂, u₂) = advance lru (r + n + 1) now b₁ u₁ in
      let f : r + suc n ≡ r + n + 1 = omega arith in
      (
        b₂,
        u₂,
        rw e (detect_one t₀ (r + n) now b₁ u₁ a₁ (lo (suc n)) (hi (suc n)) (omega arith)),
        rw f (advance-IsAhead t₀ (r + n) now b₁ u₁ a₁ (lo (suc n)) (omega arith)),
        advance-Started t₀ (r + n) now b.last_pre u.loads b₁ u₁ a₁ (omega arith) s₁,
      )
