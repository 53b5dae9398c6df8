-- ===== src/Algod/Evolve/Boot.antt =====
-- What booting and monitoring nodes, loading blocks and asking for them do not undo, in any order.
use algo_vnode.Prelude.{
  ℕ, ◌≤◌, ◌≡◌, ◌≢◌, refl, subst, Bool, Bool-cases, true, false, List, Option, none, some, String,
  GoError, arith, Option-cases, inl, inr, ltb, ◌==◌, add64,
}
use algo_vnode.Algod.Blocks.{load_block_sync, get_block_first}
use algo_vnode.Algod.Client.{Reply, Call}
use algo_vnode.Algod.Cluster.{ensure_genesis, is_synced, get_latest_round, update_node_lists}
use algo_vnode.Algod.Evolve.{
  Evolves, Evolves-refl, Evolves-trans, OutcomeEvolves, Outcome-trans, GenesisIsOne,
  set_state-Evolves, ensure_genesis-Evolves, call-Evolves, set_node-Evolves, map-Evolves,
}
use algo_vnode.Algod.Evolve.Calls.{
  CallEvolves, update_status-Evolves, update_status_after-Evolves, fetch_block_raw-Evolves,
}
use algo_vnode.Algod.Evolve.Fetches.{load_block_sync-Evolves, get_block_first-Evolves}
use algo_vnode.Algod.Float.{Float}
use algo_vnode.Algod.Cluster.Rounds.{ensure_genesis_accepted}
use algo_vnode.Algod.Loop.{
  Turn, after_block_zero, use_genesis, after_genesis, ask_genesis, start_boot, boot, follow,
  monitor_turn,
}
use algo_vnode.Algod.Node.{set_state}
use algo_vnode.Algod.State.{Status, Cluster, set_node, booting}
use algo_vnode.BlockCache.Lru.{Lru}
use algo_vnode.BlockFetcher.Make.{Codec}

module _ (fl : Float) (lru : Lru) {C : Type 0} (now i : ℕ) (cd : Codec C) where
  after_block_zero-Evolves :
      (statuses : List (Reply Status)) (gs : Cluster fl lru C)
      (r : Option (Cluster fl lru C × Bool))
      → OutcomeEvolves fl lru gs r
      → OutcomeEvolves fl lru gs (after_block_zero fl lru now i cd statuses r)
  unfolding after_block_zero
  after_block_zero-Evolves statuses gs none p = tt
  after_block_zero-Evolves statuses gs (some (g, true)) p =
      let h = set_node fl i (record (g.nodes i) { catchup = false }) g in
      Outcome-trans fl lru gs h _
        (Evolves-trans fl lru gs g h p (set_node-Evolves fl lru i _ g refl))
        (update_status-Evolves fl lru now i statuses h)
  after_block_zero-Evolves statuses gs (some (g, false)) p =
      Outcome-trans fl lru gs g _ p (update_status-Evolves fl lru now i statuses g)

  -- The node's genesis becomes the cluster's.
  set_genesis-Evolves :
      (g : String) (gs : Cluster fl lru C)
      → gs.genesis ≡ g
      → Evolves fl lru gs (set_node fl i (record (gs.nodes i) { genesis = g }) gs)
  set_genesis-Evolves g gs e = record {
    later = omega arith;
    genesis_kept = λ _. refl;
    one_genesis = λ one j h. ground (arith, one j);
  }

  use_genesis-Evolves :
      (blocks : List (Reply (List ℕ))) (statuses : List (Reply Status)) (g : Option String)
      (gs : Cluster fl lru C)
      → OutcomeEvolves fl lru gs (use_genesis fl lru now i cd blocks statuses g gs)
  unfolding use_genesis
  use_genesis-Evolves blocks statuses none gs = tt
  use_genesis-Evolves blocks statuses (some g) gs =
      let r = ensure_genesis fl lru g gs in
      let first = ensure_genesis-Evolves fl lru g gs in
      elim (Option-cases r.1) [
        | inr (e, q) ↦
            rw (q, use_genesis)
              (Evolves-trans fl lru gs r.0 _ first (record {
                later = omega arith;
                genesis_kept = λ _. refl;
                one_genesis = λ one. one;
              }))
        | inl q ↦
            let h = set_node fl i (record (r.0.nodes i) { genesis = g }) r.0 in
            rw (q, use_genesis)
              (Outcome-trans fl lru gs h _
                (Evolves-trans fl lru gs r.0 h first
                  (set_genesis-Evolves g r.0 (ensure_genesis_accepted fl lru g gs q)))
                (after_block_zero-Evolves statuses h _
                  (fetch_block_raw-Evolves fl lru now i cd 0 blocks h)))
      ]

  boot-Evolves :
      (geneses : List (Reply String)) (blocks : List (Reply (List ℕ)))
      (statuses : List (Reply Status)) (gs : Cluster fl lru C)
      → OutcomeEvolves fl lru gs (boot fl lru now i cd geneses blocks statuses gs)
  unfolding boot ask_genesis start_boot
  boot-Evolves geneses blocks statuses gs =
      let g = set_state fl lru now i booting gs in
      let h = set_node fl i (record (g.nodes i) { latest_round = 0 }) g in
      Outcome-trans fl lru gs h _
        (Evolves-trans fl lru gs g h (set_state-Evolves fl lru now i booting gs)
          (set_node-Evolves fl lru i _ g refl))
        (after h _ (
          call-Evolves fl lru _ _ (λ e s. Evolves-refl fl lru s) (λ x us s. Evolves-refl fl lru s) 0
            h geneses))
    where
      after :
          (gs : Cluster fl lru C) (r : Option (Option GoError × Call fl lru C String String))
          → CallEvolves fl lru now i gs r
          → OutcomeEvolves fl lru gs (after_genesis fl lru now i cd blocks statuses r)
      after gs none p = tt
      after gs (some (some e, s)) p = p
      after gs (some (none, s)) p =
          Outcome-trans fl lru gs s.gs _ p (use_genesis-Evolves blocks statuses s.got s.gs)

  follow-Evolves :
      (blocks : List (Reply (List ℕ))) (gs : Cluster fl lru C) (r : Option (Cluster fl lru C × ℕ))
      → OutcomeEvolves fl lru gs r
      → OutcomeEvolves fl lru gs (follow fl lru now i cd blocks r)
  unfolding follow
  follow-Evolves blocks gs none p = tt
  follow-Evolves blocks gs (some (g, lr)) p = elim (Bool-cases (lr == 0)) [
    | inl e ↦ rw (e, follow) p
    | inr e ↦ elim (Bool-cases (is_synced (g.nodes i).state)) [
      | inr f ↦ rw (e, f, follow) p
      | inl f ↦ elim (Bool-cases (ltb (get_latest_round fl lru g) (add64 lr 1))) [
        | inr h ↦ rw (e, f, h, follow) p
        | inl h ↦
            rw (e, f, h, follow)
              (Outcome-trans fl lru gs g _ p (
                map-Evolves fl lru _ g _
                  (fetch_block_raw-Evolves fl lru now i cd (add64 lr 1) blocks g)))
      ]
    ]
  ]

  monitor_turn-Evolves :
      (statuses : List (Reply Status)) (blocks : List (Reply (List ℕ))) (gs : Cluster fl lru C)
      → OutcomeEvolves fl lru gs (monitor_turn fl lru now i cd statuses blocks gs)
  unfolding monitor_turn
  monitor_turn-Evolves statuses blocks gs =
      follow-Evolves blocks gs _ (update_status_after-Evolves fl lru now i statuses gs)

module _ (fl : Float) (lru : Lru) {C : Type 0} (cd : Codec C) where
  -- One whole operation of some node `i`, an update of the node lists, a load of a block for the
  -- cache, or the start of a request for a block.
  pub data Operates (gs : Cluster fl lru C) : Cluster fl lru C → Type 0 where
    boots :
        {gs' : Cluster fl lru C} (now i : ℕ) (geneses : List (Reply String))
        (blocks : List (Reply (List ℕ))) (statuses : List (Reply Status)) (up : Bool)
        → boot fl lru now i cd geneses blocks statuses gs ≡ some (gs', up)
        → Operates gs gs'
    monitors :
        {gs' : Cluster fl lru C} (now i : ℕ) (statuses : List (Reply Status))
        (blocks : List (Reply (List ℕ))) (t : Turn)
        → monitor_turn fl lru now i cd statuses blocks gs ≡ some (gs', t)
        → Operates gs gs'
    lists : Operates gs (update_node_lists fl lru gs)
    loads :
        {gs' : Cluster fl lru C} (now round : ℕ) (replies : ℕ → List (Reply (List ℕ))) (done : Bool)
        → load_block_sync fl lru now cd replies round gs ≡ some (gs', done)
        → Operates gs gs'
    requests : (round : ℕ) (msgp : Bool) → Operates gs (get_block_first fl lru round msgp gs).0

  pub data History (gs : Cluster fl lru C) : Cluster fl lru C → Type 0 where
    starts : History gs gs
    continues : {g h : Cluster fl lru C} → History gs g → Operates g h → History gs h

  lists_kept : (gs : Cluster fl lru C) → Evolves fl lru gs (update_node_lists fl lru gs)
  unfolding update_node_lists
  lists_kept gs = record { later = omega arith; genesis_kept = λ _. refl; one_genesis = λ one. one }

  pub Operates-Evolves : {gs gs' : Cluster fl lru C} → Operates gs gs' → Evolves fl lru gs gs'
  Operates-Evolves {gs} (boots now i geneses blocks statuses up e) =
      subst (OutcomeEvolves fl lru gs) e (boot-Evolves fl lru now i cd geneses blocks statuses gs)
  Operates-Evolves {gs} (monitors now i statuses blocks t e) =
      subst (OutcomeEvolves fl lru gs) e (monitor_turn-Evolves fl lru now i cd statuses blocks gs)
  Operates-Evolves {gs} lists = lists_kept gs
  Operates-Evolves {gs} (loads now round replies done e) =
      subst (OutcomeEvolves fl lru gs) e (load_block_sync-Evolves fl lru now cd replies round gs)
  Operates-Evolves {gs} (requests round msgp) = get_block_first-Evolves fl lru round msgp gs

  History-Evolves : {gs gs' : Cluster fl lru C} → History gs gs' → Evolves fl lru gs gs'
  History-Evolves {gs} starts = Evolves-refl fl lru gs
  History-Evolves {gs} {gs'} (continues {g} h o) =
      Evolves-trans fl lru gs g gs' (History-Evolves h) (Operates-Evolves o)

  -- Whatever the nodes answer, and in whatever order they boot and monitor, the lists are
  -- updated, and blocks are loaded and asked for: the latest round of the
  -- cluster never falls, a genesis once set stays, and if at the start no node had a genesis that
  -- is not empty and not the cluster's, then none has at the end.
  pub History-safe :
      (gs gs' : Cluster fl lru C)
      → History gs gs'
      → (gs.latest_round ≤ gs'.latest_round)
        × (gs.genesis ≢ "" → gs'.genesis ≡ gs.genesis)
        × (GenesisIsOne fl lru gs → GenesisIsOne fl lru gs')
  History-safe gs gs' h = let e = History-Evolves h in (e.later, e.genesis_kept, e.one_genesis)
