-- ===== src/Algod/Submits/Histories.antt =====
-- No status that the cluster broadcasts is nil, while the nodes send the blocks that they are asked
-- for; and what happens when a node does not.
use algo_vnode.Prelude.{
  Option-cases, ℕ, Bool-cases, subst, Bool, true, false, List, [], ◌∷◌, Option, none, some, inl,
  inr, arith, All, ltb, add64, sub64,
}
use algo_vnode.Algod.Blocks.{
  try_nodes, then_nodes, load_block_sync, get_block_first, prefetch_notify,
}
use algo_vnode.Algod.Client.{Reply}
use algo_vnode.Algod.Cluster.{update_node_lists, is_block_in_the_future}
use algo_vnode.Algod.Evolve.Boot.{Operates, boots, monitors, lists, loads, requests}
use algo_vnode.Algod.Float.{Float}
use algo_vnode.Algod.State.{Cluster}
use algo_vnode.Algod.Submits.{NoNil, OutcomeKeeps, sunk-Keeps}
use algo_vnode.Algod.Submits.Calls.{Known, IsOfRound, fetch-Known}
use algo_vnode.Algod.Submits.Runs.{boot-NoNil, monitor_turn-NoNil}
use algo_vnode.Algod.World.Prefetches.{take_oldest, prefetch_turn}
use algo_vnode.BlockCache.Lru.{Lru}
use algo_vnode.BlockCache.Safety.{Step}
use algo_vnode.BlockCache.Unified.{catchup_size}
use algo_vnode.BlockFetcher.Make.{Codec}

module _ (fl : Float) (lru : Lru) {C : Type 0} (now : ℕ) (cd : Codec C)
    (replies : ℕ → List (Reply (List ℕ))) (round : ℕ)
    (answers : (n : ℕ) → All (IsOfRound cd round) (replies n)) where
  abbrev Holds : Cluster fl lru C → Type 0
  Holds gs = NoNil fl lru gs × Known fl lru now 0 round gs

  try_nodes-NoNil :
      (ns : List ℕ) (gs : Cluster fl lru C)
      → Holds gs
      → OutcomeKeeps fl lru Holds (try_nodes fl lru now cd replies round ns gs)
  unfolding try_nodes
  try_nodes-NoNil [] gs p = p
  try_nodes-NoNil (n ∷ ns) gs p =
      first (try_nodes-NoNil ns) _ (fetch-Known fl lru now n cd round (replies n) gs (answers n) p)
    where
      first :
          ((g : Cluster fl lru C)
            → Holds g
            → OutcomeKeeps fl lru Holds (try_nodes fl lru now cd replies round ns g))
          → (r : Option (Cluster fl lru C × Bool)) → OutcomeKeeps fl lru Holds r
          → OutcomeKeeps fl lru Holds (elim r [
            | none ↦ none
            | some (gs', true) ↦ some (gs', true)
            | some (gs', false) ↦ try_nodes fl lru now cd replies round ns gs'
          ])
      first rest none q = tt
      first rest (some (g, true)) q = q
      first rest (some (g, false)) q = rest g q

  then_nodes-NoNil :
      (ns : List ℕ) (r : Option (Cluster fl lru C × Bool))
      → OutcomeKeeps fl lru Holds r
      → OutcomeKeeps fl lru Holds (then_nodes fl lru now cd replies round ns r)
  then_nodes-NoNil ns none q = tt
  then_nodes-NoNil ns (some (g, true)) q = q
  then_nodes-NoNil ns (some (g, false)) q = try_nodes-NoNil ns g q

  only_nil :
      (r : Option (Cluster fl lru C × Bool))
      → OutcomeKeeps fl lru Holds r
      → OutcomeKeeps fl lru (NoNil fl lru) r
  only_nil none q = tt
  only_nil (some (g, b)) q = q.0

  pub load_block_sync-NoNil :
      (gs : Cluster fl lru C)
      → NoNil fl lru gs
      → OutcomeKeeps fl lru (NoNil fl lru) (load_block_sync fl lru now cd replies round gs)
  unfolding load_block_sync
  load_block_sync-NoNil gs p = elim (Bool-cases (ltb gs.latest_round round)) [
    | inl e ↦
        rw (e, load_block_sync) (sunk-Keeps fl lru (NoNil fl lru) (λ g u h. h) round none gs p)
    | inr e ↦
        let known : Holds gs = (p, ground arith) in
        elim (Bool-cases (ltb (add64 (sub64 gs.latest_round catchup_size) 4) round)) [
          | inl f ↦
              rw (e, f, load_block_sync)
                (only_nil _
                  (then_nodes-NoNil gs.arch_nodes _ (try_nodes-NoNil gs.catchup_nodes gs known)))
          | inr f ↦ rw (e, f, load_block_sync) (only_nil _ (try_nodes-NoNil gs.arch_nodes gs known))
        ]
  ]

module _ (fl : Float) (lru : Lru) {C : Type 0} (cd : Codec C) where
  -- The nodes send the blocks that they are asked for, in a boot and in a load; a turn of `Monitor`
  -- may get any block.
  abbrev pub IsHonest : {g h : Cluster fl lru C} → Operates fl lru cd g h → Type 0
  IsHonest (boots now i geneses blocks statuses up e) = All (IsOfRound cd 0) blocks
  IsHonest (monitors now i statuses blocks t e) = Unit {0}
  IsHonest lists = Unit {0}
  IsHonest (loads now round replies done e) = (n : ℕ) → All (IsOfRound cd round) (replies n)
  IsHonest (requests round msgp) = Unit {0}

  -- Such operations, one after another, with steps of the cache and turns of the prefetcher.
  pub data Honest (gs : Cluster fl lru C) : Cluster fl lru C → Type 0 where
    starts : Honest gs gs
    continues :
        {g h : Cluster fl lru C}
        → Honest gs g
        → (o : Operates fl lru cd g h) → IsHonest o
        → Honest gs h
    caches :
        {g : Cluster fl lru C} {u : _}
        → Honest gs g
        → Step lru g.ucache u
        → Honest gs (record g { ucache = u })
    prefetches :
        {g : Cluster fl lru C} → Honest gs g → (now : ℕ) → Honest gs (prefetch_turn fl lru now g)

  lists-NoNil :
      (gs : Cluster fl lru C) → NoNil fl lru gs → NoNil fl lru (update_node_lists fl lru gs)
  unfolding update_node_lists
  lists-NoNil gs p = p

  requests-NoNil :
      (round : ℕ) (msgp : Bool) (gs : Cluster fl lru C)
      → NoNil fl lru gs
      → NoNil fl lru (get_block_first fl lru round msgp gs).0
  unfolding get_block_first prefetch_notify is_block_in_the_future
  requests-NoNil round msgp gs p = ground (arith, p)

  Operates-NoNil :
      {g h : Cluster fl lru C} (o : Operates fl lru cd g h)
      → IsHonest o
      → NoNil fl lru g
      → NoNil fl lru h
  Operates-NoNil {g} (boots now i geneses blocks statuses up e) q p =
      subst (OutcomeKeeps fl lru (NoNil fl lru)) e
        (boot-NoNil fl lru now i cd geneses blocks statuses g q p)
  Operates-NoNil {g} (monitors now i statuses blocks t e) q p =
      subst (OutcomeKeeps fl lru (NoNil fl lru)) e
        (monitor_turn-NoNil fl lru now i cd statuses blocks g p)
  Operates-NoNil {g} lists q p = lists-NoNil g p
  Operates-NoNil {g} (loads now round replies done e) q p =
      subst (OutcomeKeeps fl lru (NoNil fl lru)) e
        (load_block_sync-NoNil fl lru now cd replies round q g p)
  Operates-NoNil {g} (requests round msgp) q p = requests-NoNil round msgp g p

  prefetch-NoNil :
      (now : ℕ) (gs : Cluster fl lru C)
      → NoNil fl lru gs
      → NoNil fl lru (prefetch_turn fl lru now gs)
  unfolding prefetch_turn
  prefetch-NoNil now gs p = elim (Option-cases (take_oldest gs.prefetch_queue)) [
    | inl e ↦ rw (e, prefetch_turn) p
    | inr (x, e) ↦ rw (e, prefetch_turn) p
  ]

  -- While the nodes answer a boot or a load with the blocks they are asked for, and whatever they
  -- send else, no status that is given to the broadcaster is nil, if none was at the start: in any
  -- order of boots, turns of `Monitor`, loads, requests, steps of the cache, turns of the prefetcher
  -- and updates of the lists.
  pub broadcast-NoNil :
      (gs gs' : Cluster fl lru C) → Honest gs gs' → NoNil fl lru gs → NoNil fl lru gs'
  broadcast-NoNil gs gs' starts p = p
  broadcast-NoNil gs gs' (continues {g} h o q) p = Operates-NoNil o q (broadcast-NoNil gs g h p)
  broadcast-NoNil gs gs' (caches {g} h s) p = broadcast-NoNil gs g h p
  broadcast-NoNil gs gs' (prefetches {g} h now) p = prefetch-NoNil now g (broadcast-NoNil gs g h p)
