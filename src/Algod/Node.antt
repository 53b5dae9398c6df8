-- ===== src/Algod/Node.antt =====
-- `Node` of internal/algod/node.go: its state, and what it does with the answers of its node. A
-- call of the node's client takes the next of a list of replies, and the context of the operation
-- is cancelled when there is none left. `none` is a panic of the cache or of a codec.
use algo_vnode.Prelude.{
  ℕ, ◌||◌, Bool, true, false, not, List, Option, some, ltb, if◌then◌else◌, Result, ok, err, GoError,
}
use mathlib.Core.Option
use algo_vnode.Algod.Cluster.{set_latest_round, sink_error, is_block_cached, state_update}
use algo_vnode.Algod.Float.{Float}
use algo_vnode.Algod.State.{
  NodeState, config, booting, syncing, synced, failing, failed, Status, Cluster, set_node,
}
use algo_vnode.BlockCache.Lru.{Lru}
use algo_vnode.BlockCache.Unified
use algo_vnode.BlockFetcher.Make.{Codec, make_block_wrap}
use algo_vnode.BlockFetcher.Wrap.{BlockWrap}

-- `==` on states.
abbrev pub same_state : NodeState → NodeState → Bool
same_state config config = true
same_state booting booting = true
same_state syncing syncing = true
same_state synced synced = true
same_state failing failing = true
same_state failed failed = true
same_state _ _ = false

module _ (fl : Float) (lru : Lru) {C : Type 0} (now i : ℕ) where
  -- `setState`, with the signal to the cluster, whose send is taken not to block; where it does,
  -- the node keeps its lock, as in `Signals`.
  unfoldable pub set_state : NodeState → Cluster fl lru C → Cluster fl lru C
  set_state st gs =
      let n = gs.nodes i in
      if same_state st n.state
      then gs
      else state_update fl lru (set_node fl i (record n { state = st; state_at = now }) gs)

  -- `updateRTT`.
  unfoldable pub update_rtt : ℕ → Cluster fl lru C → Cluster fl lru C
  update_rtt us gs =
      let n = gs.nodes i in
      set_node fl i
        (record n {
          rtt_ewma = if fl.is_large n.rtt_ewma then fl.of_micros us else fl.smooth n.rtt_ewma us;
        })
        gs

  -- `updateWithStatus`.
  unfoldable pub update_with_status : Status → Cluster fl lru C → Cluster fl lru C × Bool
  unfolding set_state
  update_with_status status gs =
      if status.stopped_at_unsupported_round
      then (set_state failed gs, false)
      else (let gs' = set_state (if ltb 0 status.catchup_time then syncing else synced) gs in
          let n = gs'.nodes i in
          (
            set_node fl i
                (record n {
                  latest_round =
                      if ltb n.latest_round status.last_round
                      then status.last_round
                      else n.latest_round;
                  last_status = some status;
                })
                gs',
            true,
          ))

  -- The block is wrapped and given to the cache, in either branch of `BlockSink`; it panics where
  -- the wrap does.
  unfoldable pub cache_block :
      Option (Result (BlockWrap C)) → Cluster fl lru C → Option (Cluster fl lru C × Bool)
  cache_block Option.none gs = Option.none
  cache_block (Option.some (err e)) gs = some (gs, false)
  cache_block (Option.some (ok bw)) gs =
      Option.map (λ u. (record gs { ucache = u }, true)) (Unified.add_block lru gs.ucache bw)

  -- `BlockSinkError`.
  abbrev pub block_sink_error : ℕ → GoError → Cluster fl lru C → Option (Cluster fl lru C)
  block_sink_error round e gs = sink_error fl lru round (some e) gs

  -- `BlockSink`: a block that is new to the cluster, or else new to the cache, is cached.
  unfoldable pub block_sink :
      Codec C → C → List ℕ → Cluster fl lru C → Option (Cluster fl lru C × Bool)
  unfolding cache_block
  block_sink cd block block_raw gs =
      let round = cd.round_of block in
      let r = set_latest_round fl lru now round i gs in
      if r.1 || not (is_block_cached fl lru round r.0)
      then cache_block (make_block_wrap cd now (r.0.nodes i).cfg.id block block_raw) r.0
      else some (r.0, false)
