-- ===== src/Algod/World/Loads.antt =====
-- A load of a block returns, whatever the nodes answer, if no `GenerateBlock` panics:
-- LoadBlockSync of internal/algod/cluster.go.
use mathlib.Core.Option
use algo_vnode.Prelude.{
  ℕ, ◌≢◌, refl, Bool, Bool-cases, true, false, List, [], ◌∷◌, Option, none, some, inl, inr, ltb,
  add64, sub64, arith, subst, some_unique,
}
use algo_vnode.Algod.Blocks.{try_nodes, then_nodes, load_block_sync}
use algo_vnode.Algod.Client.{Reply}
use algo_vnode.Algod.Cluster.{sink_error, ledger_error}
use algo_vnode.Algod.Float.{Float}
use algo_vnode.Algod.State.{Cluster}
use algo_vnode.Algod.Total.Turns.{fetch_block_raw-Returns}
use algo_vnode.Algod.Total.{Returns}
use algo_vnode.BlockCache.Lru.{Lru}
use algo_vnode.BlockCache.Reach.{add_block-Keeps}
use algo_vnode.BlockCache.Safety.{UnifiedIsValid}
use algo_vnode.BlockCache.Unified.{catchup_size}
use algo_vnode.BlockFetcher.Make.{Codec}
use algo_vnode.BlockFetcher.Wrap.{error_wrap}

module _ (fl : Float) (lru : Lru) {C : Type 0} (now : ℕ) (cd : Codec C)
    (replies : ℕ → List (Reply (List ℕ)))
    (sound : (block : C) → cd.generate_block block ≢ none) where
  try_nodes-Returns :
      (round : ℕ) (ns : List ℕ) (gs : Cluster fl lru C)
      → UnifiedIsValid lru gs.ucache
      → Returns fl lru (try_nodes fl lru now cd replies round ns gs)
  unfolding try_nodes
  try_nodes-Returns round [] gs v = (gs, false, refl, v)
  try_nodes-Returns round (n ∷ ns) gs v =
      let (g, got, e, w) = fetch_block_raw-Returns fl lru now n cd sound round (replies n) gs v in
      elim (Bool-cases got) [
        | inl t ↦ (g, true, rw (e, try_nodes) (rw (t, try_nodes) refl), w)
        | inr t ↦
            let (h, b, f, x) = try_nodes-Returns round ns g w in
            (h, b, rw (e, try_nodes) (rw (t, try_nodes) f), x)
      ]

  then_nodes-Returns :
      (round : ℕ) (ns : List ℕ) (r : Option (Cluster fl lru C × Bool))
      → Returns fl lru r
      → Returns fl lru (then_nodes fl lru now cd replies round ns r)
  then_nodes-Returns round ns none (g, b, e, v) = absurd (ground arith)
  then_nodes-Returns round ns (some (g, true)) r = r
  then_nodes-Returns round ns (some (g, false)) (h, b, e, v) =
      try_nodes-Returns round ns g
        (subst (λ x. UnifiedIsValid lru x.0.ucache) (some_unique e refl) v)

  refused-Returns :
      (round : ℕ) (gs : Cluster fl lru C)
      → UnifiedIsValid lru gs.ucache
      → Returns fl lru (Option.map (λ g. (g, false)) (sink_error fl lru round none gs))
  unfolding sink_error
  refused-Returns round gs v =
      let (u, e, k) = add_block-Keeps lru gs.ucache (error_wrap round ledger_error) v in
      (record gs { ucache = u }, false, rw e refl, k.valid)

  -- The load comes back, and the cache is in order.
  pub load_block_sync-Returns :
      (round : ℕ) (gs : Cluster fl lru C)
      → UnifiedIsValid lru gs.ucache
      → Returns fl lru (load_block_sync fl lru now cd replies round gs)
  unfolding load_block_sync
  load_block_sync-Returns round gs v = elim (Bool-cases (ltb gs.latest_round round)) [
    | inl e ↦ rw (e, load_block_sync) (refused-Returns round gs v)
    | inr e ↦ elim (Bool-cases (ltb (add64 (sub64 gs.latest_round catchup_size) 4) round)) [
      | inl f ↦
          rw (e, f, load_block_sync)
            (then_nodes-Returns round gs.arch_nodes _
              (try_nodes-Returns round gs.catchup_nodes gs v))
      | inr f ↦ rw (e, f, load_block_sync) (try_nodes-Returns round gs.arch_nodes gs v)
    ]
  ]
