-- ===== src/Algod/Cluster.antt =====
-- `NodeCluster` of internal/algod/cluster.go: the round, the genesis and the node lists of the
-- cluster, and where a block is loaded from. Each operation runs as a whole, as it does under the
-- cluster's lock.
pub mod Lists
pub mod Rounds
use algo_vnode.Prelude.{
  insert_stable, sort_stable, ℕ, ◌+◌, zero, suc, Bool, true, false, not, List, [], ◌∷◌, ◌++◌, map,
  reverse, Option, none, some, String, GoError, message, ltb, if◌then◌else◌, add64, sub64, length,
  str_eq,
}
use mathlib.Core.Option
use algo_vnode.Algod.Float.{Float}
use algo_vnode.Algod.State.{
  NodeState, config, booting, syncing, synced, failing, failed, Status, Node, Cluster,
}
use algo_vnode.BlockCache.Lru.{Lru}
use algo_vnode.BlockCache.Unified
use algo_vnode.BlockCache.Unified.{Unified, catchup_size}
use algo_vnode.BlockFetcher.Wrap.{BlockWrap, error_wrap}

abbrev pub ledger_error : GoError
ledger_error = message "failed to retrieve information from the ledger"

-- `AnsSynced == state`.
abbrev pub is_synced : NodeState → Bool
is_synced synced = true
is_synced _ = false

-- The numbers of the nodes, in order.
unfoldable pub node_ids : ℕ → ℕ → List ℕ
node_ids first zero = []
node_ids first (suc n) = first ∷ node_ids (suc first) n

module _ (fl : Float) (lru : Lru) {C : Type 0} where
  -- `GetLatestRound`.
  unfoldable pub get_latest_round : Cluster fl lru C → ℕ
  get_latest_round gs = gs.latest_round

  -- `SetLatestRound`, by the node `src` at the time `now`.
  unfoldable pub set_latest_round : ℕ → ℕ → ℕ → Cluster fl lru C → Cluster fl lru C × Bool
  set_latest_round now lr src gs =
      if ltb gs.latest_round lr
      then (
        record gs {
          latest_round = lr;
          last_at = now;
          last_src = some src;
          submitted = (gs.nodes src).last_status ∷ gs.submitted;
        },
        true,
      )
      else (gs, false)

  -- `EnsureGenesis`.
  unfoldable pub ensure_genesis : String → Cluster fl lru C → Cluster fl lru C × Option GoError
  ensure_genesis g gs =
      if str_eq gs.genesis ""
      then (record gs { genesis = g }, none)
      else (if str_eq gs.genesis g then (gs, none) else (gs, some (message "genesis mismatch")))

  -- `isBlockInTheFuture`.
  unfoldable pub is_block_in_the_future : ℕ → Cluster fl lru C → Bool
  is_block_in_the_future round gs = ltb gs.latest_round round

  -- `isBlockCached`.
  abbrev pub is_block_cached : ℕ → Cluster fl lru C → Bool
  is_block_cached round gs = Unified.is_block_cached lru gs.ucache round

  -- `StateUpdate`, where `cState` has room for the signal: the signals are counted.
  abbrev pub state_update : Cluster fl lru C → Cluster fl lru C
  state_update gs = record gs { state_signals = gs.state_signals + 1 }

  -- `GetCatchupSyncedNodesByRTT`.
  abbrev pub get_catchup_synced_nodes_by_rtt : Cluster fl lru C → List ℕ
  get_catchup_synced_nodes_by_rtt gs = gs.catchup_nodes

  -- `GetArchSyncedNodesByRTT`.
  abbrev pub get_arch_synced_nodes_by_rtt : Cluster fl lru C → List ℕ
  get_arch_synced_nodes_by_rtt gs = gs.arch_nodes

  -- `GetSyncedNodesByRTT`.
  unfoldable pub get_synced_nodes_by_rtt : Cluster fl lru C → List ℕ
  get_synced_nodes_by_rtt gs = get_catchup_synced_nodes_by_rtt gs ++ get_arch_synced_nodes_by_rtt gs

  -- The loop of `updateNodeLists`: the synced catchup nodes, and the synced archive nodes.
  unfoldable pub split_synced : Cluster fl lru C → List ℕ → List ℕ × List ℕ
  split_synced gs [] = ([], [])
  split_synced gs (i ∷ is) =
      let (cs, rest) = split_synced gs is in
      if is_synced (gs.nodes i).state
      then (if (gs.nodes i).catchup then (i ∷ cs, rest) else (cs, i ∷ rest))
      else (cs, rest)

  abbrev pub faster : Cluster fl lru C → ℕ → ℕ → Bool
  faster gs i j = fl.lt (gs.nodes i).rtt_ewma (gs.nodes j).rtt_ewma

  -- `updateNodeLists`.
  unfoldable pub update_node_lists : Cluster fl lru C → Cluster fl lru C
  update_node_lists gs =
      let (cs, rest) = split_synced gs (node_ids 0 gs.node_count) in
      record gs {
        catchup_nodes = sort_stable (faster gs) cs;
        arch_nodes = sort_stable (faster gs) rest;
      }

  -- `SinkError`, with the error that takes the place of nil; `none` where the cache panics.
  unfoldable pub sink_error : ℕ → Option GoError → Cluster fl lru C → Option (Cluster fl lru C)
  sink_error round err gs =
      Option.map (λ u. record gs { ucache = u })
        (Unified.add_block lru gs.ucache (error_wrap round (Option.get_or err ledger_error)))
