-- ===== src/Algod/Start.antt =====
-- How a node is started, and how its state is written in texts: Start, String and MarshalJSON of
-- internal/algod/node.go, addNode and NewCluster of internal/algod/cluster.go.
use algo_vnode.Prelude.{
  ℕ, ◌≡◌, refl, List, [], ◌∷◌, ◌++◌, Option, none, some, String, GoError, arith, codes,
}
use algo_vnode.Algod.Blocks.{add_node, add_nodes}
use algo_vnode.Algod.Float.{Float}
use algo_vnode.Algod.State.{
  NodeState, config, booting, syncing, synced, failing, failed, NodeCfg, Cluster,
}
use algo_vnode.BlockCache.Lru.{Lru}

-- `ANState.String`.
unfoldable pub state_string : NodeState → String
state_string booting = "Booting"
state_string syncing = "Syncing"
state_string synced = "Synced"
state_string config = "Config"
state_string failing = "Failing"
state_string failed = "Failed"

-- `ANState.MarshalJSON`, in bytes.
unfoldable pub marshal_json : NodeState → List ℕ
unfolding state_string
marshal_json s = b'"' ∷ codes (state_string s) ++ b'"' ∷ []

-- Two states with the same text are the same: what is written of a state tells which it is.
pub marshal_json_injective : (s t : NodeState) → marshal_json s ≡ marshal_json t → s ≡ t
unfolding marshal_json state_string
marshal_json_injective config config e = refl
marshal_json_injective booting booting e = refl
marshal_json_injective syncing syncing e = refl
marshal_json_injective synced synced e = refl
marshal_json_injective failing failing e = refl
marshal_json_injective failed failed e = refl
marshal_json_injective s t e = ground arith

-- `MakeClientWithHeaders` of the SDK fails, or makes a client for an address and a token.
module _ (make_client : String → String → Option GoError) where
  -- `Start`: its error, if the client cannot be made; else the main loop of the node runs.
  unfoldable pub start_node : NodeCfg → Option GoError
  start_node cfg = make_client cfg.address cfg.token

  module _ (fl : Float) (lru : Lru) {C : Type 0} where
    -- `addNode`: the node is in the cluster before it is started.
    unfoldable pub add_and_start :
        ℕ → NodeCfg → Cluster fl lru C → Cluster fl lru C × Option GoError
    unfolding start_node
    add_and_start now cfg gs = (add_node fl lru now cfg gs, start_node cfg)

    -- The loop of `NewCluster`, with the numbers of the nodes whose main loop runs. The error of
    -- `addNode` is dropped.
    unfoldable pub start_nodes : ℕ → List NodeCfg → Cluster fl lru C → Cluster fl lru C × List ℕ
    unfolding add_and_start
    start_nodes now [] gs = (gs, [])
    start_nodes now (cfg ∷ cfgs) gs =
        let r = add_and_start now cfg gs in
        let rest = start_nodes now cfgs r.0 in
        (rest.0, elim r.1 [ none ↦ gs.node_count ∷ rest.1 | some e ↦ rest.1 ])

    -- The cluster is the same whatever clients can be made: a node whose client cannot be made is a
    -- member of it, with no main loop.
    pub start_nodes_all :
        (now : ℕ) (cfgs : List NodeCfg) (gs : Cluster fl lru C)
        → (start_nodes now cfgs gs).0 ≡ add_nodes fl lru now cfgs gs
    unfolding start_nodes add_nodes add_and_start
    start_nodes_all now [] gs = refl
    start_nodes_all now (cfg ∷ cfgs) gs = start_nodes_all now cfgs (add_node fl lru now cfg gs)
