-- ===== src/Algod/Loop.antt =====
-- The life of a `Node` of internal/algod/node.go: it fetches blocks, boots, and monitors its node.
-- The replies of the node are arguments, as in `Client`; `none` is a panic of the cache or of a
-- codec, or the end of the fuel of a call.
use mathlib.Core.Option
use algo_vnode.Prelude.{
  ℕ, Bool, true, false, not, List, ◌∷◌, Option, none, some, String, GoError, ltb, ◌==◌,
  if◌then◌else◌, add64, ok, err,
}
use algo_vnode.Algod.Client.{
  Reply, Call, call, update_status, is_fatal_api_error, is_canceled, success, failure,
}
use algo_vnode.Algod.Cluster.{ensure_genesis, get_latest_round, is_synced}
use algo_vnode.Algod.Float.{Float}
use algo_vnode.Algod.Node.{set_state, update_rtt, update_with_status, block_sink, block_sink_error}
use algo_vnode.Algod.State.{booting, failing, Status, Cluster, set_node}
use algo_vnode.BlockCache.Lru.{Lru}
use algo_vnode.BlockFetcher.Make.{Codec}
use algo_vnode.Utils.Backoff.{Attempt}

-- One turn of `Monitor`: the node is to be booted again, or goes on.
pub data Turn : Type 0 where
  reboots goes_on : Turn

module _ (fl : Float) (lru : Lru) {C : Type 0} (now i : ℕ) where
  -- The end of `updateStatusAfter`, when the status has come.
  unfoldable pub use_status_after :
      ℕ → Option Status → Cluster fl lru C → Option (Cluster fl lru C × ℕ)
  use_status_after lr none gs = none
  use_status_after lr (some st) gs =
      let r = update_with_status fl lru now i st gs in some (r.0, if r.1 then lr else 0)

  unfoldable pub after_status_after :
      ℕ → Option (Option GoError × Call fl lru C Status Status) → Option (Cluster fl lru C × ℕ)
  unfolding use_status_after
  after_status_after lr none = none
  after_status_after lr (some (some e, s)) = some (s.gs, 0)
  after_status_after lr (some (none, s)) = use_status_after lr s.got s.gs

  -- The attempt of `updateStatusAfter`.
  unfoldable pub ask_status_after :
      Cluster fl lru C → List (Reply Status) → Option (Option GoError × Call fl lru C Status Status)
  ask_status_after =
      call fl lru
        (λ e s. (failure false e, if is_canceled e then s else set_state fl lru now i failing s))
        (λ st us s. ((success, s), some st)) 10

  -- `updateStatusAfter`: the round that was asked for, or 0.
  unfoldable pub update_status_after :
      List (Reply Status) → Cluster fl lru C → Option (Cluster fl lru C × ℕ)
  unfolding after_status_after ask_status_after
  update_status_after replies gs =
      after_status_after (get_latest_round fl lru gs) (ask_status_after gs replies)

  module _ (cd : Codec C) where
    -- The attempt of `fetchBlockRaw` when the node sends a raw block.
    unfoldable pub decode_block :
        List ℕ → ℕ → Cluster fl lru C → (Attempt × Cluster fl lru C) × Option (C × List ℕ)
    decode_block rb us s =
        let s' = update_rtt fl lru now i us s in
        elim (cd.decode rb) [
          | err e ↦ ((failure false e, s'), none)
          | ok block ↦ ((success, s'), some (block, rb))
        ]

    unfoldable pub ask_block :
        Cluster fl lru C
        → List (Reply (List ℕ))
        → Option (Option GoError × Call fl lru C (List ℕ) (C × List ℕ))
    unfolding decode_block
    ask_block = call fl lru (λ e s. (failure (is_fatal_api_error e) e, s)) decode_block 10

    -- The end of `fetchBlockRaw`, when the block has come.
    unfoldable pub use_block :
        Option (C × List ℕ) → Cluster fl lru C → Option (Cluster fl lru C × Bool)
    use_block none gs = none
    use_block (some (block, rb)) gs =
        Option.map (λ r. (r.0, true)) (block_sink fl lru now i cd block rb gs)

    unfoldable pub after_block :
        ℕ
        → Option (Option GoError × Call fl lru C (List ℕ) (C × List ℕ))
        → Option (Cluster fl lru C × Bool)
    unfolding use_block
    after_block round none = none
    after_block round (some (some e, s)) =
        Option.map (λ gs. (gs, false)) (block_sink_error fl lru now i round e s.gs)
    after_block round (some (none, s)) = use_block s.got s.gs

    -- `fetchBlockRaw`, with the raw blocks that the node sends.
    unfoldable pub fetch_block_raw :
        ℕ → List (Reply (List ℕ)) → Cluster fl lru C → Option (Cluster fl lru C × Bool)
    unfolding after_block ask_block
    fetch_block_raw round replies gs = after_block round (ask_block gs replies)

    -- The end of `boot`, after block 0.
    unfoldable pub after_block_zero :
        List (Reply Status) → Option (Cluster fl lru C × Bool) → Option (Cluster fl lru C × Bool)
    after_block_zero statuses none = none
    after_block_zero statuses (some (gs, archival)) =
        update_status fl lru now i statuses
          (if archival then set_node fl i (record (gs.nodes i) { catchup = false }) gs else gs)

    -- The end of `boot`, when the genesis has come: an answer of `EnsureGenesis` that is an error is
    -- fatal.
    unfoldable pub use_genesis :
        List (Reply (List ℕ))
        → List (Reply Status)
        → Option String
        → Cluster fl lru C
        → Option (Cluster fl lru C × Bool)
    unfolding after_block_zero
    use_genesis blocks statuses none gs = none
    use_genesis blocks statuses (some genesis) gs =
        let r = ensure_genesis fl lru genesis gs in
        elim r.1 [
          | some e ↦ some (record r.0 { fatal_errs = e ∷ r.0.fatal_errs }, false)
          | none ↦ after_block_zero statuses (
              fetch_block_raw 0 blocks
                (set_node fl i (record (r.0.nodes i) { genesis = genesis }) r.0))
        ]

    unfoldable pub after_genesis :
        List (Reply (List ℕ))
        → List (Reply Status)
        → Option (Option GoError × Call fl lru C String String)
        → Option (Cluster fl lru C × Bool)
    unfolding use_genesis
    after_genesis blocks statuses none = none
    after_genesis blocks statuses (some (some e, s)) = some (s.gs, false)
    after_genesis blocks statuses (some (none, s)) = use_genesis blocks statuses s.got s.gs

    unfoldable pub ask_genesis :
        Cluster fl lru C
        → List (Reply String)
        → Option (Option GoError × Call fl lru C String String)
    ask_genesis = call fl lru (λ e s. (failure false e, s)) (λ g us s. ((success, s), some g)) 0

    -- The first lines of `boot`.
    unfoldable pub start_boot : Cluster fl lru C → Cluster fl lru C
    start_boot gs =
        let gs' = set_state fl lru now i booting gs in
        set_node fl i (record (gs'.nodes i) { latest_round = 0 }) gs'

    -- `boot`.
    unfoldable pub boot :
        List (Reply String)
        → List (Reply (List ℕ))
        → List (Reply Status)
        → Cluster fl lru C
        → Option (Cluster fl lru C × Bool)
    unfolding after_genesis ask_genesis start_boot
    boot geneses blocks statuses gs =
        after_genesis blocks statuses (ask_genesis (start_boot gs) geneses)

    -- One turn of the loop of `Monitor` after the status has come, less its sleep.
    unfoldable pub follow :
        List (Reply (List ℕ)) → Option (Cluster fl lru C × ℕ) → Option (Cluster fl lru C × Turn)
    follow blocks none = none
    follow blocks (some (gs, lr)) =
        if lr == 0
        then some (gs, reboots)
        else (if not (is_synced (gs.nodes i).state)
            then some (gs, goes_on)
            else (if ltb (get_latest_round fl lru gs) (add64 lr 1)
                then Option.map (λ r. (r.0, if r.1 then goes_on else reboots))
                    (fetch_block_raw (add64 lr 1) blocks gs)
                else some (gs, goes_on)))

    -- One turn of the loop of `Monitor`.
    unfoldable pub monitor_turn :
        List (Reply Status)
        → List (Reply (List ℕ))
        → Cluster fl lru C
        → Option (Cluster fl lru C × Turn)
    unfolding update_status_after follow
    monitor_turn statuses blocks gs = follow blocks (update_status_after statuses gs)
