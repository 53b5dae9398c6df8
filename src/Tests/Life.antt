-- ===== src/Tests/Life.antt =====
-- The program from its start on, at concrete inputs.
use algo_vnode.Prelude.{ℕ, ◌≡◌, ◌≢◌, refl, arith, List, none, some, String}
use algo_vnode.Algod.Blocks.{load_block_sync}
use algo_vnode.Algod.Client.{Reply}
use algo_vnode.Algod.Evolve.Boot.{lists}
use algo_vnode.Algod.Loop.{boot, monitor_turn}
use algo_vnode.Algod.State.{Node, Cluster, Status}
use algo_vnode.Algod.Submits.{NoNil}
use algo_vnode.Algod.Submits.Histories.{Honest, starts, continues, caches}
use algo_vnode.BlockCache.Safety.{promises}
use algo_vnode.BlockCache.Unified.{Get, Wake, add_block, get_step}
use algo_vnode.BlockFetcher.Wrap.{BlockWrap}
use algo_vnode.Config.{load_config, config_error}
use algo_vnode.Httpsrv.Servers.{new_algod_proxy, new_indexer_proxy}
use algo_vnode.Main.Life
use algo_vnode.Main.{Program, runs, start, start_with, start_indexer, present_nodes}
use algo_vnode.Tests.Instances.{bounded, whole, by_round, no_memory}
use algo_vnode.Tests.Nodes.{cluster}
use algo_vnode.Tests.Servers.{read_file}

abbrev free : Node whole
free = record (cluster.nodes 0) { genesis = "" }

begun :
    (p : Program whole bounded ℕ) × (start whole bounded 0 free no_memory read_file ≡ some (runs p))
unfolding start start_with start_indexer load_config config_error new_algod_proxy new_indexer_proxy
    present_nodes
begun = (_, refl)

-- Round 5 is promised, and then the lists are updated.
later : (g : Cluster whole bounded ℕ) × Honest whole bounded by_round begun.0.cluster g
later = (_, continues (caches starts (promises 5)) lists tt)

generates : (c : ℕ) → by_round.generate_block c ≢ none
generates c = λ n. ground arith

program_lives_example :
    let g = later.0 in
    ((at i : ℕ) (geneses : List (Reply String)) (blocks : List (Reply (List ℕ)))
        (statuses : List (Reply Status))
      → (boot whole bounded at i by_round geneses blocks statuses g ≢ none)
        × (monitor_turn whole bounded at i by_round statuses blocks g ≢ none))
    × ((at round : ℕ) (replies : ℕ → List (Reply (List ℕ)))
        → load_block_sync whole bounded at by_round replies round g ≢ none)
    × ((w : BlockWrap ℕ) → add_block bounded g.ucache w ≢ none)
    × ((wake : Wake) (round : ℕ) (r : Get ℕ) → get_step bounded wake g.ucache round r ≢ none)
    × NoNil whole bounded g
    × ((j : ℕ) → (g.nodes j).genesis ≢ "" → (g.nodes j).genesis ≡ g.genesis)
program_lives_example =
    Life.program_lives whole bounded 0 free no_memory read_file begun.0 by_round later.0 refl refl
      begun.1 generates later.1
