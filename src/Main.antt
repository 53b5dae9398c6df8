-- ===== src/Main.antt =====
-- The start of cmd/algovnode/main.go: the configuration, the cache, the cluster and the servers.
-- Signals, logging and the shutdown are calls of libraries.
pub mod Starts
pub mod Ready
pub mod Logging
pub mod Ends
pub mod Life
use algo_vnode.Prelude.{
  ◌>>=◌, ℕ, ◌+◌, ◌≡◌, ◌≢◌, ◌⊎◌, ◌↔◌, inl, inr, refl, sym, ◌∙◌, ap, Bool, true, false, List, [], ◌∷◌,
  Option, none, some, String, GoError, arith, if◌then◌else◌, length, Option-cases, Bool-cases,
  List-cases, some_unique, subst,
}
use algo_vnode.Algod.Blocks.{new_cluster, add_nodes, add_node}
use algo_vnode.Algod.Float.{Float}
use algo_vnode.Algod.State.{Node, NodeCfg, Cluster}
use algo_vnode.BlockCache.Heap.{Heap}
use algo_vnode.BlockCache.Lru.{Lru}
use algo_vnode.BlockCache.Reach.{new-valid}
use algo_vnode.BlockCache.Safety.{UnifiedIsValid}
use algo_vnode.BlockCache.Unified.{new}
use algo_vnode.Config.{
  AlgodCfg, IdxCfg, AlgoVNodeConfig, default_config, load_config, config_error,
  config_error-eq-none_iff,
}
use algo_vnode.Httpsrv.Servers.{Server, new_algod_proxy, new_indexer_proxy}

-- The server of the indexer's API, if it is configured and enabled.
unfoldable pub start_indexer : Option IdxCfg → Option (Option Server)
unfolding new_indexer_proxy
start_indexer none = some none
start_indexer (some i) =
    let server = new_indexer_proxy i in
    if i.enabled then (server >>= λ s. some (some s)) else some none

-- The configurations that `addNode` reads, one after another; it panics at one that is nil.
unfoldable pub present_nodes : List (Option NodeCfg) → Option (List NodeCfg)
present_nodes [] = some []
present_nodes (o ∷ os) = o >>= λ cfg. present_nodes os >>= λ cfgs. some (cfg ∷ cfgs)

module _ (fl : Float) (lru : Lru) (C : Type 0) where
  -- What `main` has made when it starts to wait for an error.
  pub record Program : Type 0 where
    pub cluster : Cluster fl lru C
    pub algod_srv : Server
    pub idx_srv : Option Server

  -- `main` gives up, or goes on.
  pub data Start : Type 0 where
    gives_up : GoError → Start
    runs : Program → Start

module _ (fl : Float) (lru : Lru) {C : Type 0} where
  module _ (now : ℕ) (free : Node fl) (memory : Heap C) where
    unfoldable pub start_with : AlgoVNodeConfig → Option AlgodCfg → Option (Start fl lru C)
    unfolding present_nodes new_algod_proxy start_indexer
    start_with cfg none = none
    start_with cfg (some a) = do
      cfgs ← present_nodes a.nodes
      node_srv ← new_algod_proxy a
      idx ← start_indexer cfg.indexer
      some (
          runs (record {
            cluster = new_cluster fl lru now free cfgs (new lru memory);
            algod_srv = node_srv;
            idx_srv = idx;
          }))

    -- `main` up to its wait; `none` is a panic.
    unfoldable pub start :
        (AlgoVNodeConfig → AlgoVNodeConfig × Option GoError) → Option (Start fl lru C)
    unfolding load_config start_with
    start load =
        let r = load_config load in
        elim r.1 [ some e ↦ some (gives_up e) | none ↦ start_with r.0 r.0.algod ]
