-- ===== src/Algod/Blocks.antt =====
-- How internal/algod/cluster.go loads a block, serves one and waits for the next round, and how a
-- cluster is made.
use algo_vnode.Prelude.{
  ℕ, ◌+◌, Bool, true, false, List, [], ◌∷◌, Option, none, some, GoError, ltb, if◌then◌else◌, length,
  add64, sub64, is_some, ◌&&◌,
}
use algo_vnode.Algod.Client.{Reply}
use algo_vnode.Algod.Cluster.{ledger_error, sink_error, is_block_in_the_future}
use algo_vnode.Algod.Float.{Float}
use algo_vnode.Algod.Loop.{fetch_block_raw}
use algo_vnode.Algod.State.{Status, Node, NodeCfg, Cluster, set_node, config}
use algo_vnode.BlockCache.Lru.{Lru}
use algo_vnode.BlockCache.Unified.{Unified, catchup_size}
use algo_vnode.BlockFetcher.Make.{Codec}
use mathlib.Core.Option

-- The loop of `WaitForStatusAfter`, over the statuses that are broadcast until the context ends: it
-- panics, with `none`, at one that is nil.
unfoldable pub await_status : ℕ → List (Option Status) → Option (Option Status)
await_status round [] = some none
await_status round (none ∷ rest) = none
await_status round (some st ∷ rest) =
    let later = await_status round rest in if ltb round st.last_round then some (some st) else later

module _ (fl : Float) where
  -- The node that `addNode` makes.
  unfoldable pub new_node : ℕ → NodeCfg → Node fl
  new_node now cfg = record {
    cfg = cfg;
    genesis = "";
    catchup = true;
    rtt_ewma = fl.never;
    latest_round = 0;
    state = config;
    state_at = now;
    last_status = none;
  }

module _ (fl : Float) (lru : Lru) {C : Type 0} where
  -- The replies of the nodes to one load: those of the node `n` are `replies n`.
  module _ (now : ℕ) (cd : Codec C) (replies : ℕ → List (Reply (List ℕ))) where
    -- A loop over a list of nodes, up to the first one that delivers the block.
    unfoldable pub try_nodes : ℕ → List ℕ → Cluster fl lru C → Option (Cluster fl lru C × Bool)
    try_nodes round [] gs = some (gs, false)
    try_nodes round (n ∷ ns) gs = elim (fetch_block_raw fl lru now n cd round (replies n) gs) [
      | none ↦ none
      | some (gs', true) ↦ some (gs', true)
      | some (gs', false) ↦ try_nodes round ns gs'
    ]

    abbrev pub then_nodes :
        ℕ → List ℕ → Option (Cluster fl lru C × Bool) → Option (Cluster fl lru C × Bool)
    then_nodes round ns none = none
    then_nodes round ns (some (gs, true)) = some (gs, true)
    then_nodes round ns (some (gs, false)) = try_nodes round ns gs

    -- `LoadBlockSync`, as one step: no other call runs between its fetches. The difference of rounds
    -- is of unsigned numbers, and wraps.
    unfoldable pub load_block_sync : ℕ → Cluster fl lru C → Option (Cluster fl lru C × Bool)
    load_block_sync round gs =
        if ltb gs.latest_round round
        then Option.map (λ gs'. (gs', false)) (sink_error fl lru round none gs)
        else (if ltb (add64 (sub64 gs.latest_round catchup_size) 4) round
            then then_nodes round gs.arch_nodes (try_nodes round gs.catchup_nodes gs)
            else try_nodes round gs.arch_nodes gs)

  -- `prefetchNotify`: the round is dropped if a hundred wait in the channel.
  unfoldable pub prefetch_notify : ℕ → Cluster fl lru C → Cluster fl lru C
  prefetch_notify round gs =
      if ltb (length gs.prefetch_queue) 100
      then record gs { prefetch_queue = round ∷ gs.prefetch_queue }
      else gs

  -- `GetBlock` of the cluster, up to the call of the cache's.
  unfoldable pub get_block_first : ℕ → Bool → Cluster fl lru C → Cluster fl lru C × Option GoError
  unfolding is_block_in_the_future prefetch_notify
  get_block_first round msgp gs =
      if is_block_in_the_future fl lru round gs
      then (gs, some ledger_error)
      else (if msgp then prefetch_notify round gs else gs, none)

  -- The status of the node that reported the latest round.
  unfoldable pub source_status : Cluster fl lru C → Option Status
  source_status gs = elim gs.last_src [ none ↦ none | some n ↦ (gs.nodes n).last_status ]

  -- `WaitForStatusAfter`, with `none` where it panics.
  unfoldable pub wait_for_status_after :
      ℕ → List (Option Status) → Cluster fl lru C → Option (Option Status)
  unfolding await_status source_status
  wait_for_status_after round events gs =
      if is_some (source_status gs) && ltb round gs.latest_round
      then some (source_status gs)
      else await_status round events

  -- `addNode`.
  unfoldable pub add_node : ℕ → NodeCfg → Cluster fl lru C → Cluster fl lru C
  unfolding new_node
  add_node now cfg gs = record (set_node fl gs.node_count (new_node fl now cfg) gs) {
    node_count = gs.node_count + 1;
  }

  -- The loop of `NewCluster` over the configured nodes.
  unfoldable pub add_nodes : ℕ → List NodeCfg → Cluster fl lru C → Cluster fl lru C
  unfolding add_node
  add_nodes now [] gs = gs
  add_nodes now (cfg ∷ cfgs) gs = add_nodes now cfgs (add_node now cfg gs)

  -- `NewCluster`; `free` stands at the numbers of no node.
  unfoldable pub new_cluster : ℕ → Node fl → List NodeCfg → Unified lru C → Cluster fl lru C
  unfolding add_nodes
  new_cluster now free cfgs u = add_nodes now cfgs (record {
    latest_round = 0;
    last_src = none;
    last_at = 0;
    genesis = "";
    node_count = 0;
    nodes = λ _. free;
    catchup_nodes = [];
    arch_nodes = [];
    state_signals = 0;
    submitted = [];
    prefetch_queue = [];
    bps = [];
    fatal_errs = [];
    ucache = u;
  })
