-- ===== src/Tests/Nodes.antt =====
-- A cluster of two nodes at concrete inputs.
use algo_vnode.Prelude.{
  ℕ, ◌≤◌, ◌≡◌, ◌≢◌, refl, Bool, true, false, not, ◌&&◌, ltb, if◌then◌else◌, List, [], ◌∷◌, none,
  some, ◌==◌,
}
use algo_vnode.Algod.Client
use algo_vnode.Algod.Client.{Reply, reply, refused, call}
use algo_vnode.Algod.Cluster.{
  set_latest_round, sink_error, ensure_genesis, update_node_lists, faster, is_synced,
}
use algo_vnode.Algod.Cluster.Lists
use algo_vnode.Algod.Cluster.Lists.{count, IsSorted}
use algo_vnode.Algod.Evolve.Boot
use algo_vnode.Algod.Evolve.Boot.{Operates, History, starts, continues, lists, boots}
use algo_vnode.Algod.Evolve.{GenesisIsOne}
use algo_vnode.Algod.Loop.{
  boot, fetch_block_raw, after_block, after_block_zero, after_genesis, ask_block, ask_genesis,
  decode_block, start_boot, use_block, use_genesis,
}
use algo_vnode.Algod.Node.{update_with_status, set_state, block_sink, update_rtt, cache_block}
use algo_vnode.BlockFetcher.Make.{make_block_wrap}
use algo_vnode.Algod.State.{Node, Status, Cluster, NodeState, synced}
use algo_vnode.BlockCache.Cache
use algo_vnode.BlockCache.Unified.{
  new, is_block_cached, add_block, get_cache_with_peek, add_block_to,
}
use algo_vnode.Tests.Caches.{fresh}
use algo_vnode.Tests.Instances.{bounded, whole, by_round, find, newest, find_or_add, first_byte}
use algo_vnode.Utils.Backoff.{backoff, turn}

abbrev node : ℕ → NodeState → Bool → Node whole
node rtt state catchup = record {
  cfg = record { address = "http://node"; token = ""; id = "node"; req_limit = 10 };
  genesis = "mainnet";
  catchup = catchup;
  rtt_ewma = rtt;
  latest_round = 5;
  state = state;
  state_at = 0;
  last_status = none;
}

-- Node 0 is an archive, and node 1 a catchup node.
abbrev pub cluster : Cluster whole bounded ℕ
cluster = record {
  latest_round = 5;
  last_src = none;
  last_at = 0;
  genesis = "mainnet";
  node_count = 2;
  nodes = λ i. if i == 0 then node 7 synced false else node 3 synced true;
  catchup_nodes = [];
  arch_nodes = [];
  state_signals = 0;
  submitted = [];
  prefetch_queue = [];
  bps = [];
  fatal_errs = [];
  ucache = fresh;
}

update_node_lists_exact_example :
    let gs' = update_node_lists whole bounded cluster in
    ((i : ℕ)
      → let here = ltb i 2 && is_synced (cluster.nodes i).state in
        (count i gs'.catchup_nodes ≡ (if here && (cluster.nodes i).catchup then 1 else 0))
        × (count i gs'.arch_nodes ≡ (if here && not (cluster.nodes i).catchup then 1 else 0)))
    × IsSorted (faster whole bounded cluster) gs'.catchup_nodes
    × IsSorted (faster whole bounded cluster) gs'.arch_nodes
update_node_lists_exact_example = Lists.update_node_lists_exact whole bounded cluster

abbrev pub ahead_at : Status
ahead_at = record { last_round = 6; catchup_time = 0; stopped_at_unsupported_round = false }

-- Node 1 boots: it answers with its genesis, with block 0, and with its status.
pub booted :
    (gs : Cluster whole bounded ℕ) × (up : Bool) × (boot whole bounded 0 1 by_round
        (reply "mainnet" 100 ∷ [])
        (reply (0 ∷ []) 100 ∷ [])
        (reply ahead_at 100 ∷ [])
        cluster
      ≡ some (gs, up))
unfolding boot call backoff turn Client.call_ctx Client.attempt ensure_genesis set_state
    fetch_block_raw first_byte block_sink set_latest_round update_rtt is_block_cached find new
    make_block_wrap add_block find_or_add Client.after_status Client.ask_status
    Client.is_fatal_api_error Client.update_status Client.use_status sink_error after_block
    after_block_zero after_genesis ask_block ask_genesis decode_block start_boot use_block
    use_genesis cache_block update_with_status Cache.add_block Cache.deliver Cache.is_block_cached
    Cache.is_block_promised Cache.note_last Cache.notify add_block_to get_cache_with_peek newest
booted = (_, _, refl)

abbrev listed : Cluster whole bounded ℕ
listed = update_node_lists whole bounded booted.0

history : History whole bounded by_round cluster listed
history =
    continues
      (continues starts (
        boots 0 1 (reply "mainnet" 100 ∷ []) (reply (0 ∷ []) 100 ∷ []) (reply ahead_at 100 ∷ [])
          booted.1 booted.2))
      lists

History-safe_example :
    (5 ≤ listed.latest_round)
    × (cluster.genesis ≢ "" → listed.genesis ≡ cluster.genesis)
    × (GenesisIsOne whole bounded cluster → GenesisIsOne whole bounded listed)
History-safe_example = Boot.History-safe whole bounded by_round cluster listed history

abbrev replies : ℕ → List (Reply (List ℕ))
replies n = reply (4 ∷ []) 100 ∷ []
