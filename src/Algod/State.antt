-- ===== src/Algod/State.antt =====
-- The state of internal/algod: a cluster, its nodes, and the cache that it feeds. A node is a
-- pointer in the program, and a number below `node_count` here.
use algo_vnode.Prelude.{ℕ, List, Bool, Option, String, GoError, update}
use algo_vnode.Algod.Float.{Float}
use algo_vnode.Algod.Prefetch.{BlockPrefetch}
use algo_vnode.BlockCache.Lru.{Lru}
use algo_vnode.BlockCache.Unified.{Unified}

-- `ANState`.
pub data NodeState : Type 0 where
  config booting syncing synced failing failed : NodeState

-- `models.NodeStatus` of the Algorand SDK, as far as the program reads it.
pub record Status : Type 0 where
  pub last_round : ℕ
  pub catchup_time : ℕ
  pub stopped_at_unsupported_round : Bool

-- `config.NodeCfg`.
pub record NodeCfg : Type 0 where
  pub address : String
  pub token : String
  pub id : String
  pub req_limit : ℕ

module _ (fl : Float) where
  -- `Node`, less its clients, its logger, its lock and its link to the cluster.
  pub record Node : Type 0 where
    pub cfg : NodeCfg
    pub genesis : String
    pub catchup : Bool
    pub rtt_ewma : fl.F
    pub latest_round : ℕ
    pub state : NodeState
    pub state_at : ℕ
    pub last_status : Option Status

  -- `NodeCluster`. `state_signals` counts the sends to `cState`, `submitted` holds the statuses
  -- given to the broadcaster and `prefetch_queue` the rounds in `bpSink`, the last one first in
  -- both, and `fatal_errs` the errors sent to `fatalErr`.
  pub record Cluster (lru : Lru) (C : Type 0) : Type 0 where
    pub latest_round : ℕ
    pub last_src : Option ℕ
    pub last_at : ℕ
    pub genesis : String
    pub node_count : ℕ
    pub nodes : ℕ → Node
    pub catchup_nodes : List ℕ
    pub arch_nodes : List ℕ
    pub state_signals : ℕ
    pub submitted : List (Option Status)
    pub prefetch_queue : List ℕ
    pub bps : List BlockPrefetch
    pub fatal_errs : List GoError
    pub ucache : Unified lru C

  abbrev pub set_node : {lru : Lru} {C : Type 0} → ℕ → Node → Cluster lru C → Cluster lru C
  set_node i n gs = record gs { nodes = update gs.nodes i n }
