-- ===== src/Algod/MainLoop.antt =====
-- `mainLoop` of internal/algod/node.go, less its sleeps: a node boots until that succeeds, and then
-- monitors until it has to boot again.
use algo_vnode.Prelude.{
  ℕ, ◌≡◌, ◌≢◌, refl, Bool, true, false, List, [], ◌∷◌, Option, none, some, String,
}
use algo_vnode.Algod.Client.{Reply}
use algo_vnode.Algod.Evolve.Boot.{History, starts, continues, boots, monitors}
use algo_vnode.Algod.Float.{Float}
use algo_vnode.Algod.Loop.{Turn, reboots, goes_on, boot, monitor_turn}
use algo_vnode.Algod.State.{Status, Cluster}
use algo_vnode.Algod.Total.Turns.{turns_return}
use algo_vnode.BlockCache.Lru.{Lru}
use algo_vnode.BlockCache.Safety.{UnifiedIsValid}
use algo_vnode.BlockFetcher.Make.{Codec}

-- Where the node is: before `boot`, or in the loop of `Monitor`.
pub data Phase : Type 0 where
  to_boot to_monitor : Phase

-- The time of a turn, and the answers of the node during it.
pub record Replies : Type 0 where
  pub now : ℕ
  pub geneses : List (Reply String)
  pub blocks : List (Reply (List ℕ))
  pub statuses : List (Reply Status)

unfoldable pub after_boot : Bool → Phase
after_boot true = to_monitor
after_boot false = to_boot

unfoldable pub after_turn : Turn → Phase
after_turn reboots = to_boot
after_turn goes_on = to_monitor

module _ (fl : Float) (lru : Lru) {C : Type 0} (i : ℕ) (cd : Codec C) where
  -- A boot, or one turn of `Monitor`.
  unfoldable pub main_turn : Phase → Replies → Cluster fl lru C → Option (Cluster fl lru C × Phase)
  unfolding after_boot after_turn
  main_turn to_boot r gs = elim (boot fl lru r.now i cd r.geneses r.blocks r.statuses gs) [
    | none ↦ none
    | some (gs', up) ↦ some (gs', after_boot up)
  ]
  main_turn to_monitor r gs = elim (monitor_turn fl lru r.now i cd r.statuses r.blocks gs) [
    | none ↦ none
    | some (gs', t) ↦ some (gs', after_turn t)
  ]

  unfoldable pub main_from :
      Phase → List Replies → Cluster fl lru C → Option (Cluster fl lru C × Phase)
  unfolding main_turn
  main_from p [] gs = some (gs, p)
  main_from p (r ∷ rest) gs = elim (main_turn p r gs) [
    | none ↦ none
    | some (gs', p') ↦ main_from p' rest gs'
  ]

  -- `mainLoop`, up to the end of its context after the last of the turns.
  unfoldable pub main_loop : List Replies → Cluster fl lru C → Option (Cluster fl lru C × Phase)
  unfolding main_from
  main_loop = main_from to_boot

module _ (fl : Float) (lru : Lru) {C : Type 0} (i : ℕ) (cd : Codec C)
    (sound : (block : C) → cd.generate_block block ≢ none) where
  -- A run has returned, as one of the histories of the cluster, and the cache is in order.
  pub record Ran (gs : Cluster fl lru C) (r : Option (Cluster fl lru C × Phase)) : Type 0 where
    pub last : Cluster fl lru C
    pub phase : Phase
    pub runs : r ≡ some (last, phase)
    pub history : History fl lru cd gs last
    pub valid : UnifiedIsValid lru last.ucache

  main_turn-Ran :
      (p : Phase) (r : Replies) (first gs : Cluster fl lru C)
      → History fl lru cd first gs
      → UnifiedIsValid lru gs.ucache
      → Ran first (main_turn fl lru i cd p r gs)
  unfolding main_turn
  main_turn-Ran to_boot r first gs h v =
      let (g, up, e, w) =
        (turns_return fl lru r.now i cd sound r.geneses r.blocks r.statuses gs v).0 in
      record {
        last = g;
        phase = after_boot up;
        runs = rw (e, main_turn) refl;
        history = continues h (boots r.now i r.geneses r.blocks r.statuses up e);
        valid = w;
      }
  main_turn-Ran to_monitor r first gs h v =
      let (g, t, e, w) =
        (turns_return fl lru r.now i cd sound r.geneses r.blocks r.statuses gs v).1 in
      record {
        last = g;
        phase = after_turn t;
        runs = rw (e, main_turn) refl;
        history = continues h (monitors r.now i r.statuses r.blocks t e);
        valid = w;
      }

  main_from-Ran :
      (p : Phase) (rs : List Replies) (first gs : Cluster fl lru C)
      → History fl lru cd first gs
      → UnifiedIsValid lru gs.ucache
      → Ran first (main_from fl lru i cd p rs gs)
  unfolding main_from
  main_from-Ran p [] first gs h v = record {
    last = gs;
    phase = p;
    runs = refl;
    history = h;
    valid = v;
  }
  main_from-Ran p (r ∷ rest) first gs h v =
      let one = main_turn-Ran p r first gs h v in
      let more = main_from-Ran one.phase rest first one.last one.history one.valid in
      rw (one.runs, main_from) more

  -- Over any finite list of answers of the node, where sends to `fatalErr` and `cState` are received
  -- and `GenerateBlock` does not panic, the turns of the main loop return if the cache is in order at
  -- the start; what they have done is one of the histories of the cluster, and the cache is in order
  -- at the end.
  main_loop-Ran :
      (rs : List Replies) (gs : Cluster fl lru C)
      → UnifiedIsValid lru gs.ucache
      → Ran gs (main_loop fl lru i cd rs gs)
  unfolding main_loop
  main_loop-Ran rs gs v = main_from-Ran to_boot rs gs gs starts v
