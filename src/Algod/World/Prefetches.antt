-- ===== src/Algod/World/Prefetches.antt =====
-- The turns of `prefetchMonitor` of internal/algod/prefetch.go.
use algo_vnode.Prelude.{
  ℕ, zero, suc, refl, Bool, Bool-cases, true, false, not, List, [], ◌∷◌, Option, Option-cases, none,
  some, inl, inr, arith, ltb, leb, ◌==◌, add64, if◌then◌else◌,
}
use algo_vnode.Algod.Evolve.{Evolves, Evolves-refl}
use algo_vnode.Algod.Float.{Float}
use algo_vnode.Algod.Prefetch.{
  BlockPrefetch, new_prefetch, matches, promise_range, promise_uncached, advance, detect_in,
  prefetch_detect, bp_count,
}
use algo_vnode.Algod.State.{Cluster}
use algo_vnode.BlockCache.Lru.{Lru}
use algo_vnode.BlockCache.Safety.{UnifiedIsValid, promise_block-Keeps}
use algo_vnode.BlockCache.Unified.{Unified, promise_block, is_block_cached}

-- The round that has waited longest in `bpSink`, and the others.
unfoldable pub take_oldest : List ℕ → Option (List ℕ × ℕ)
take_oldest [] = none
take_oldest (r ∷ rs) = elim (take_oldest rs) [
  | none ↦ some ([], r)
  | some (rest, oldest) ↦ some (r ∷ rest, oldest)
]

module _ (fl : Float) (lru : Lru) {C : Type 0} where
  -- One turn of the loop of `prefetchMonitor`, which does nothing while no round waits.
  unfoldable pub prefetch_turn : ℕ → Cluster fl lru C → Cluster fl lru C
  unfolding take_oldest
  prefetch_turn now gs = elim (take_oldest gs.prefetch_queue) [
    | none ↦ gs
    | some (rest, round) ↦
        let r = prefetch_detect lru round now gs.bps gs.ucache in
        record gs { prefetch_queue = rest; bps = r.0; ucache = r.1 }
  ]

module _ (lru : Lru) {C : Type 0} where
  abbrev Valid : Unified lru C → Type 0
  Valid u = UnifiedIsValid lru u

  promised : (round : ℕ) (u : Unified lru C) → Valid u → Valid (promise_block lru u round).0
  promised round u v = (promise_block-Keeps lru u round v).valid

  promise_range-IsValid :
      (fuel i pre_to : ℕ) (u : Unified lru C) → Valid u → Valid (promise_range lru fuel i pre_to u)
  unfolding promise_range
  promise_range-IsValid zero i pre_to u v = v
  promise_range-IsValid (suc fuel) i pre_to u v = elim (Bool-cases (leb i pre_to)) [
    | inl e ↦
        rw (e, promise_range)
          (promise_range-IsValid fuel (add64 i 1) pre_to (promise_block lru u i).0 (promised i u v))
    | inr e ↦ rw (e, promise_range) v
  ]

  promise_uncached-IsValid :
      (fuel round i pre_to : ℕ) (u : Unified lru C)
      → Valid u
      → Valid (promise_uncached lru fuel round i pre_to u)
  unfolding promise_uncached
  promise_uncached-IsValid zero round i pre_to u v = v
  promise_uncached-IsValid (suc fuel) round i pre_to u v = elim (Bool-cases (leb i pre_to)) [
    | inr e ↦ rw (e, promise_uncached) v
    | inl e ↦
        rw (e, promise_uncached)
          (promise_uncached-IsValid fuel round (add64 i 1) pre_to _
            (one (not (is_block_cached lru u round))))
  ]
    where
      one : (b : Bool) → Valid (if b then (promise_block lru u i).0 else u)
      one true = promised i u v
      one false = v

  advance-IsValid :
      (round now : ℕ) (b : BlockPrefetch) (u : Unified lru C)
      → Valid u
      → Valid (advance lru round now b u).1
  unfolding advance
  advance-IsValid round now b u v = elim (Bool-cases (ltb 2 (add64 b.hits 1))) [
    | inr e ↦ rw (e, advance) v
    | inl e ↦ elim (Bool-cases (b.next_pre == 0)) [
      | inl f ↦ rw (e, f, advance) (promise_uncached-IsValid bp_count round _ _ u v)
      | inr f ↦ elim (Bool-cases (ltb b.next_pre round)) [
        | inl h ↦ rw (e, f, h, advance) (promise_range-IsValid bp_count _ _ u v)
        | inr h ↦ rw (e, f, h, advance) v
      ]
    ]
  ]

  detect_in-IsValid :
      (round now : ℕ) (bs : List BlockPrefetch) (u : Unified lru C)
      → Valid u
      → Valid (detect_in lru round now bs u).1
  unfolding detect_in
  detect_in-IsValid round now [] u v = advance-IsValid round now (new_prefetch round now) u v
  detect_in-IsValid round now (b ∷ bs) u v = elim (Bool-cases (matches round b)) [
    | inl e ↦ rw (e, detect_in) (advance-IsValid round now b u v)
    | inr e ↦ rw (e, detect_in) (detect_in-IsValid round now bs u v)
  ]

module _ (fl : Float) (lru : Lru) {C : Type 0} where
  -- A turn of prefetching keeps the cache in order,
  pub prefetch_turn-IsValid :
      (now : ℕ) (gs : Cluster fl lru C)
      → UnifiedIsValid lru gs.ucache
      → UnifiedIsValid lru (prefetch_turn fl lru now gs).ucache
  unfolding prefetch_turn prefetch_detect
  prefetch_turn-IsValid now gs v = elim (Option-cases (take_oldest gs.prefetch_queue)) [
    | inl e ↦ rw (e, prefetch_turn) v
    | inr ((rest, round), e) ↦
        rw (e, prefetch_turn) (detect_in-IsValid lru round now gs.bps gs.ucache v)
  ]

  -- and changes neither the round nor the genesis of the cluster.
  pub prefetch_turn-Evolves :
      (now : ℕ) (gs : Cluster fl lru C) → Evolves fl lru gs (prefetch_turn fl lru now gs)
  unfolding prefetch_turn
  prefetch_turn-Evolves now gs = elim (Option-cases (take_oldest gs.prefetch_queue)) [
    | inl e ↦ rw (e, prefetch_turn) (Evolves-refl fl lru gs)
    | inr ((rest, round), e) ↦
        rw (e, prefetch_turn)
          (record { later = omega arith; genesis_kept = λ _. refl; one_genesis = λ ok. ok })
  ]
