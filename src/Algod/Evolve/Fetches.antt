-- ===== src/Algod/Evolve/Fetches.antt =====
-- What the load of a block over the nodes, and a request for one, do not undo: `LoadBlockSync` and
-- `GetBlock` of internal/algod/cluster.go.
use algo_vnode.Prelude.{
  ℕ, Bool, Bool-cases, true, false, List, [], ◌∷◌, Option, none, some, arith, inl, inr, ltb, add64,
  sub64,
}
use algo_vnode.Algod.Blocks.{
  try_nodes, then_nodes, load_block_sync, get_block_first, prefetch_notify,
}
use algo_vnode.Algod.Client.{Reply}
use algo_vnode.Algod.Cluster.{sink_error, is_block_in_the_future}
use algo_vnode.Algod.Evolve.{
  Evolves, Evolves-refl, OutcomeEvolves, Outcome-trans, cache_map-Evolves,
}
use algo_vnode.Algod.Evolve.Calls.{fetch_block_raw-Evolves}
use algo_vnode.Algod.Float.{Float}
use algo_vnode.Algod.State.{Cluster}
use algo_vnode.BlockCache.Lru.{Lru}
use algo_vnode.BlockCache.Unified.{catchup_size}
use algo_vnode.BlockFetcher.Make.{Codec}

module _ (fl : Float) (lru : Lru) {C : Type 0} (now : ℕ) (cd : Codec C)
    (replies : ℕ → List (Reply (List ℕ))) where
  try_nodes-Evolves :
      (round : ℕ) (ns : List ℕ) (gs : Cluster fl lru C)
      → OutcomeEvolves fl lru gs (try_nodes fl lru now cd replies round ns gs)
  unfolding try_nodes
  try_nodes-Evolves round [] gs = Evolves-refl fl lru gs
  try_nodes-Evolves round (n ∷ ns) gs =
      first (try_nodes-Evolves round ns) _
        (fetch_block_raw-Evolves fl lru now n cd round (replies n) gs)
    where
      first :
          ((g : Cluster fl lru C)
            → OutcomeEvolves fl lru g (try_nodes fl lru now cd replies round ns g))
          → (r : Option (Cluster fl lru C × Bool)) → OutcomeEvolves fl lru gs r
          → OutcomeEvolves fl lru gs (elim r [
            | none ↦ none
            | some (gs', true) ↦ some (gs', true)
            | some (gs', false) ↦ try_nodes fl lru now cd replies round ns gs'
          ])
      first rest none p = tt
      first rest (some (g, true)) p = p
      first rest (some (g, false)) p = Outcome-trans fl lru gs g _ p (rest g)

  then_nodes-Evolves :
      (round : ℕ) (ns : List ℕ) (gs : Cluster fl lru C) (r : Option (Cluster fl lru C × Bool))
      → OutcomeEvolves fl lru gs r
      → OutcomeEvolves fl lru gs (then_nodes fl lru now cd replies round ns r)
  then_nodes-Evolves round ns gs none p = tt
  then_nodes-Evolves round ns gs (some (g, true)) p = p
  then_nodes-Evolves round ns gs (some (g, false)) p =
      Outcome-trans fl lru gs g _ p (try_nodes-Evolves round ns g)

  pub load_block_sync-Evolves :
      (round : ℕ) (gs : Cluster fl lru C)
      → OutcomeEvolves fl lru gs (load_block_sync fl lru now cd replies round gs)
  unfolding load_block_sync sink_error
  load_block_sync-Evolves round gs = elim (Bool-cases (ltb gs.latest_round round)) [
    | inl e ↦ rw (e, load_block_sync) (cache_map-Evolves fl lru false gs _)
    | inr e ↦ elim (Bool-cases (ltb (add64 (sub64 gs.latest_round catchup_size) 4) round)) [
      | inl f ↦
          rw (e, f, load_block_sync)
            (then_nodes-Evolves round gs.arch_nodes gs _
              (try_nodes-Evolves round gs.catchup_nodes gs))
      | inr f ↦ rw (e, f, load_block_sync) (try_nodes-Evolves round gs.arch_nodes gs)
    ]
  ]

module _ (fl : Float) (lru : Lru) {C : Type 0} where
  pub get_block_first-Evolves :
      (round : ℕ) (msgp : Bool) (gs : Cluster fl lru C)
      → Evolves fl lru gs (get_block_first fl lru round msgp gs).0
  unfolding get_block_first prefetch_notify is_block_in_the_future
  get_block_first-Evolves round msgp gs = record {
    later = ground arith;
    genesis_kept = λ n. ground arith;
    one_genesis = λ ok j n. ground (arith, ok j);
  }
