-- ===== src/Main/Life.antt =====
-- The life of the program of cmd/algovnode/main.go, from its start on.
use algo_vnode.Prelude.{
  ℕ, ◌≡◌, ◌≢◌, refl, sym, subst, All, List, [], ◌∷◌, Option, none, some, String, GoError, arith,
}
use algo_vnode.Algod.Blocks.{new_cluster, add_nodes, add_node, new_node, load_block_sync}
use algo_vnode.Algod.Client.{Reply}
use algo_vnode.Algod.Evolve.{GenesisIsOne}
use algo_vnode.Algod.Float.{Float}
use algo_vnode.Algod.Loop.{boot, monitor_turn}
use algo_vnode.Algod.State.{Node, NodeCfg, Cluster, Status}
use algo_vnode.Algod.Submits.{NoNil}
use algo_vnode.Algod.Submits.Histories
use algo_vnode.Algod.Submits.Histories.{Honest, broadcast-NoNil}
use algo_vnode.Algod.World.{
  World, begins, operates, caches, prefetches, World-goes_on, World-Evolves,
}
use algo_vnode.BlockCache.Heap.{Heap}
use algo_vnode.BlockCache.Lru.{Lru}
use algo_vnode.BlockCache.Unified.{new, Get, Wake, add_block, get_step}
use algo_vnode.BlockFetcher.Make.{Codec}
use algo_vnode.BlockFetcher.Wrap.{BlockWrap}
use algo_vnode.Config.{AlgoVNodeConfig}
use algo_vnode.Main.Ready.{start_made, start_ready}
use algo_vnode.Main.{Program, runs, start}

module _ (fl : Float) (lru : Lru) {C : Type 0} where
  -- No node has a genesis yet.
  abbrev Unset : Cluster fl lru C → Type 0
  Unset gs = (j : ℕ) → (gs.nodes j).genesis ≡ ""

  add_nodes-Unset :
      (now : ℕ) (cfgs : List NodeCfg) (gs : Cluster fl lru C)
      → Unset gs
      → Unset (add_nodes fl lru now cfgs gs)
  unfolding add_nodes add_node new_node
  add_nodes-Unset now [] gs u = u
  add_nodes-Unset now (c ∷ cs) gs u =
      add_nodes-Unset now cs (add_node fl lru now c gs) (λ j. ground (arith, u j))

  add_nodes-submitted :
      (now : ℕ) (cfgs : List NodeCfg) (gs : Cluster fl lru C)
      → (add_nodes fl lru now cfgs gs).submitted ≡ gs.submitted
  unfolding add_nodes add_node
  add_nodes-submitted now [] gs = refl
  add_nodes-submitted now (c ∷ cs) gs = add_nodes-submitted now cs (add_node fl lru now c gs)

  new_cluster-NoNil :
      (now : ℕ) (free : Node fl) (cfgs : List NodeCfg) (u : _)
      → NoNil fl lru (new_cluster fl lru {C = C} now free cfgs u)
  unfolding new_cluster
  new_cluster-NoNil now free cfgs u =
      subst (All (λ (o : Option Status). o ≢ none)) (sym (add_nodes-submitted now cfgs _)) tt

  Honest-World :
      (cd : Codec C) {gs g : Cluster fl lru C} → Honest fl lru cd gs g → World fl lru cd gs g
  Honest-World cd Histories.starts = begins
  Honest-World cd (Histories.continues h o q) = operates (Honest-World cd h) o
  Honest-World cd (Histories.caches h s) = caches (Honest-World cd h) s
  Honest-World cd (Histories.prefetches h now) = prefetches (Honest-World cd h) now

  new_cluster-GenesisIsOne :
      (now : ℕ) (free : Node fl) (cfgs : List NodeCfg) (u : _)
      → free.genesis ≡ ""
      → GenesisIsOne fl lru (new_cluster fl lru {C = C} now free cfgs u)
  unfolding new_cluster
  new_cluster-GenesisIsOne now free cfgs u e =
      λ j n. absurd (n (add_nodes-Unset now cfgs _ (λ k. e) j))

  -- Let operations of nodes run as wholes, signals of changed states and fatal errors be received,
  -- the nodes send in boots and loads the blocks that they are asked for, and `GenerateBlock` not
  -- panic. If `main` goes on, over a memory that holds no entry and with no genesis at the numbers of
  -- no node, then in every state of the cluster that comes about: boots and turns of `Monitor` of
  -- all nodes, loads, deliveries to the cache and the steps of requests return; no status that was
  -- broadcast is nil, which the listeners would dereference; and every node that has a genesis has
  -- that of the cluster.
  pub program_lives :
      (now : ℕ) (free : Node fl) (memory : Heap C)
      (load : AlgoVNodeConfig → AlgoVNodeConfig × Option GoError) (p : Program fl lru C)
      (cd : Codec C) (g : Cluster fl lru C)
      → memory.next_entry ≡ 0
      → free.genesis ≡ ""
      → start fl lru now free memory load ≡ some (runs p)
      → ((block : C) → cd.generate_block block ≢ none)
      → Honest fl lru cd p.cluster g
      → ((at i : ℕ) (geneses : List (Reply String)) (blocks : List (Reply (List ℕ)))
            (statuses : List (Reply Status))
          → (boot fl lru at i cd geneses blocks statuses g ≢ none)
            × (monitor_turn fl lru at i cd statuses blocks g ≢ none))
        × ((at round : ℕ) (replies : ℕ → List (Reply (List ℕ)))
            → load_block_sync fl lru at cd replies round g ≢ none)
        × ((w : BlockWrap C) → add_block lru g.ucache w ≢ none)
        × ((wake : Wake) (round : ℕ) (r : Get C) → get_step lru wake g.ucache round r ≢ none)
        × NoNil fl lru g
        × ((j : ℕ) → (g.nodes j).genesis ≢ "" → (g.nodes j).genesis ≡ g.genesis)
  program_lives now free memory load p cd g e f s sound h =
      let w = Honest-World cd h in
      let (a, cfgs, _, _, _, _, same) = start_made fl lru now free memory load p s in
      let (_, _, _, _, v, _, _, _, _) = start_ready fl lru now free memory load p e s in
      let (turns, load_ok, add_ok, get_ok) = World-goes_on fl lru cd sound v w in
      let quiet : NoNil fl lru p.cluster =
        subst (NoNil fl lru) (sym same) (new_cluster-NoNil now free cfgs (new lru memory)) in
      let one : GenesisIsOne fl lru p.cluster =
        subst (GenesisIsOne fl lru) (sym same)
          (new_cluster-GenesisIsOne now free cfgs (new lru memory) f) in
      (
        turns,
        load_ok,
        add_ok,
        get_ok,
        broadcast-NoNil fl lru cd p.cluster g h quiet,
        (World-Evolves fl lru cd w).one_genesis one,
      )
