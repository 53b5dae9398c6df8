-- ===== src/Algod/Submits/Runs.antt =====
-- No status that the cluster broadcasts is nil, while the nodes send the blocks that they are asked
-- for: boot and Monitor of internal/algod/node.go, LoadBlockSync of internal/algod/cluster.go.
use algo_vnode.Prelude.{
  ℕ, Bool-cases, Bool, true, false, List, Option, none, some, inl, inr, String, GoError, arith,
  Option-cases, All, ltb, ◌==◌, add64,
}
use algo_vnode.Algod.Client.{Reply, Call}
use algo_vnode.Algod.Cluster.{ensure_genesis, is_synced, get_latest_round}
use algo_vnode.Algod.Float.{Float}
use algo_vnode.Algod.Loop.{
  after_block_zero, use_genesis, after_genesis, ask_genesis, start_boot, boot, follow, monitor_turn,
}
use algo_vnode.Algod.State.{Status, Cluster, set_node, booting}
use algo_vnode.Algod.Submits.{NoNil, OutcomeKeeps, During, call-During, map-Keeps}
use algo_vnode.Algod.Submits.Calls.{
  Any, All-Any, HasStatus, Known, IsOfRound, fetch-HasStatus, fetch-Known,
}
use algo_vnode.Algod.Submits.Statuses.{
  set_state-NoNil, update_status-NoNil, Answered, update_status_after-Answered,
}
use algo_vnode.BlockCache.Lru.{Lru}
use algo_vnode.BlockFetcher.Make.{Codec}
use algo_vnode.Utils.Backoff.Keeps.{ResultKeeps}

module _ (fl : Float) (lru : Lru) {C : Type 0} (now i : ℕ) (cd : Codec C) where
  follow-NoNil :
      (blocks : List (Reply (List ℕ))) (r : Option (Cluster fl lru C × ℕ))
      → Answered fl lru now i r
      → OutcomeKeeps fl lru (NoNil fl lru) (follow fl lru now i cd blocks r)
  unfolding follow
  follow-NoNil blocks none p = tt
  follow-NoNil blocks (some (g, lr)) p = elim (Bool-cases (lr == 0)) [
    | inl e ↦ rw (e, follow) p.0
    | inr e ↦ elim (Bool-cases (is_synced (g.nodes i).state)) [
      | inr f ↦ rw (e, f, follow) p.0
      | inl f ↦ elim (Bool-cases (ltb (get_latest_round fl lru g) (add64 lr 1))) [
        | inr h ↦ rw (e, f, h, follow) p.0
        | inl h ↦
            let has : HasStatus fl lru now i g = p.1 (λ z. ground arith) in
            rw (e, f, h, follow)
              (map-Keeps fl lru (NoNil fl lru) _ _
                (weaker _ (fetch-HasStatus fl lru now i cd (add64 lr 1) blocks g (p.0, has))))
      ]
    ]
  ]
    where
      weaker :
          (r : Option (Cluster fl lru C × Bool))
          → OutcomeKeeps fl lru (λ gs. NoNil fl lru gs × HasStatus fl lru now i gs) r
          → OutcomeKeeps fl lru (NoNil fl lru) r
      weaker none q = tt
      weaker (some (g, b)) q = q.0

  pub monitor_turn-NoNil :
      (statuses : List (Reply Status)) (blocks : List (Reply (List ℕ))) (gs : Cluster fl lru C)
      → NoNil fl lru gs
      → OutcomeKeeps fl lru (NoNil fl lru) (monitor_turn fl lru now i cd statuses blocks gs)
  unfolding monitor_turn
  monitor_turn-NoNil statuses blocks gs p =
      follow-NoNil blocks _ (update_status_after-Answered fl lru now i statuses gs p)

  after_block_zero-NoNil :
      (statuses : List (Reply Status)) (r : Option (Cluster fl lru C × Bool))
      → OutcomeKeeps fl lru (λ gs. NoNil fl lru gs × Known fl lru now i 0 gs) r
      → OutcomeKeeps fl lru (NoNil fl lru) (after_block_zero fl lru now i cd statuses r)
  unfolding after_block_zero
  after_block_zero-NoNil statuses none p = tt
  after_block_zero-NoNil statuses (some (g, true)) p =
      update_status-NoNil fl lru now i statuses
        (set_node fl i (record (g.nodes i) { catchup = false }) g) p.0
  after_block_zero-NoNil statuses (some (g, false)) p =
      update_status-NoNil fl lru now i statuses g p.0

  ensure_genesis-NoNil :
      (g : String) (gs : Cluster fl lru C)
      → NoNil fl lru gs
      → NoNil fl lru (ensure_genesis fl lru g gs).0
  unfolding ensure_genesis
  ensure_genesis-NoNil g gs p = ground (arith, p)

  use_genesis-NoNil :
      (blocks : List (Reply (List ℕ))) (statuses : List (Reply Status)) (g : Option String)
      (gs : Cluster fl lru C)
      → All (IsOfRound cd 0) blocks
      → NoNil fl lru gs
      → OutcomeKeeps fl lru (NoNil fl lru) (use_genesis fl lru now i cd blocks statuses g gs)
  unfolding use_genesis
  use_genesis-NoNil blocks statuses none gs q p = tt
  use_genesis-NoNil blocks statuses (some g) gs q p =
      let r = ensure_genesis fl lru g gs in
      let first = ensure_genesis-NoNil g gs p in
      elim (Option-cases r.1) [
        | inr (e, f) ↦ rw (f, use_genesis) first
        | inl f ↦
            let h = set_node fl i (record (r.0.nodes i) { genesis = g }) r.0 in
            rw (f, use_genesis)
              (after_block_zero-NoNil statuses _
                (fetch-Known fl lru now i cd 0 blocks h q (first, omega arith)))
      ]

  pub boot-NoNil :
      (geneses : List (Reply String)) (blocks : List (Reply (List ℕ)))
      (statuses : List (Reply Status)) (gs : Cluster fl lru C)
      → All (IsOfRound cd 0) blocks
      → NoNil fl lru gs
      → OutcomeKeeps fl lru (NoNil fl lru) (boot fl lru now i cd geneses blocks statuses gs)
  unfolding boot ask_genesis start_boot after_genesis
  boot-NoNil geneses blocks statuses gs q p = after _ (
      call-During fl lru _ _ (NoNil fl lru) Any Any (λ e s h. h) (λ x us s q h. (h, tt)) 0 _ geneses
        (set_state-NoNil fl lru now i booting gs p) (All-Any geneses))
    where
      after :
          (r : Option (Option GoError × Call fl lru C String String))
          → ResultKeeps (During fl lru (NoNil fl lru) Any Any) r
          → OutcomeKeeps fl lru (NoNil fl lru) (after_genesis fl lru now i cd blocks statuses r)
      after none d = tt
      after (some (some e, s)) d = d.holds
      after (some (none, s)) d = use_genesis-NoNil blocks statuses s.got s.gs q d.holds
