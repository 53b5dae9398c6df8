-- ===== src/Algod/Evolve/Calls.antt =====
-- What the calls of a node's client do not undo: the status and the blocks.
use mathlib.Core.Option
use algo_vnode.Prelude.{
  ℕ, Bool, Bool-cases, true, false, List, Option, none, some, GoError, inl, inr, Result, ok, err,
  if◌then◌else◌,
}
use algo_vnode.Algod.Client.{
  Reply, Call, ask_status, use_status, after_status, update_status, is_canceled, success, failure,
}
use algo_vnode.Algod.Cluster.{sink_error, get_latest_round}
use algo_vnode.Algod.Evolve.{
  Evolves, Evolves-refl, Evolves-trans, OutcomeEvolves, Outcome-trans, set_state-Evolves,
  update_rtt-Evolves, update_with_status-Evolves, set_latest_round-Evolves, call-Evolves,
  block_sink-Evolves, cache_map-Evolves, map-Evolves,
}
use algo_vnode.Algod.Float.{Float}
use algo_vnode.Algod.Loop.{
  update_status_after, ask_status_after, after_status_after, use_status_after, decode_block,
  ask_block, use_block, after_block, fetch_block_raw,
}
use algo_vnode.Algod.Node.{set_state, update_with_status, update_rtt}
use algo_vnode.Algod.State.{Status, Cluster, failing}
use algo_vnode.BlockCache.Lru.{Lru}
use algo_vnode.BlockFetcher.Make.{Codec}
use algo_vnode.Utils.Backoff.{Attempt}
use algo_vnode.Utils.Backoff.Keeps.{ResultKeeps}

module _ (fl : Float) (lru : Lru) {C : Type 0} (now i : ℕ) where
  -- What `Backoff` leaves of a call.
  abbrev pub CallEvolves :
      {A B : Type 0} → Cluster fl lru C → Option (Option GoError × Call fl lru C A B) → Type 0
  CallEvolves gs = ResultKeeps (λ s. Evolves fl lru gs s.gs)

  use_status-Evolves :
      (st : Option Status) (gs : Cluster fl lru C)
      → OutcomeEvolves fl lru gs (use_status fl lru now i st gs)
  unfolding use_status
  use_status-Evolves none gs = tt
  use_status-Evolves (some st) gs =
      let r = update_with_status fl lru now i st gs in
      let first = update_with_status-Evolves fl lru now i st gs in
      elim (Bool-cases r.1) [
        | inl e ↦
            rw (e, use_status)
              (Evolves-trans fl lru gs r.0 _ first
                (set_latest_round-Evolves fl lru now i (r.0.nodes i).latest_round r.0))
        | inr e ↦ rw (e, use_status) first
      ]

  after_status-Evolves :
      (gs : Cluster fl lru C) (r : Option (Option GoError × Call fl lru C Status Status))
      → CallEvolves gs r
      → OutcomeEvolves fl lru gs (after_status fl lru now i r)
  unfolding after_status
  after_status-Evolves gs none p = tt
  after_status-Evolves gs (some (some e, s)) p = p
  after_status-Evolves gs (some (none, s)) p =
      Outcome-trans fl lru gs s.gs _ p (use_status-Evolves s.got s.gs)

  pub update_status-Evolves :
      (replies : List (Reply Status)) (gs : Cluster fl lru C)
      → OutcomeEvolves fl lru gs (update_status fl lru now i replies gs)
  unfolding update_status ask_status
  update_status-Evolves replies gs = after_status-Evolves gs _ (
      call-Evolves fl lru _ _ (λ e s. set_state-Evolves fl lru now i failing s)
        (λ st us s. update_rtt-Evolves fl lru now i us s) 0 gs replies)

  pub update_status_after-Evolves :
      (replies : List (Reply Status)) (gs : Cluster fl lru C)
      → OutcomeEvolves fl lru gs (update_status_after fl lru now i replies gs)
  unfolding update_status_after ask_status_after
  update_status_after-Evolves replies gs = after (get_latest_round fl lru gs) gs _ (
      call-Evolves fl lru _ _ (λ e s. unless (is_canceled e) s) (λ st us s. Evolves-refl fl lru s)
        10 gs replies)
    where
      unless :
          (b : Bool) (s : Cluster fl lru C)
          → Evolves fl lru s (if b then s else set_state fl lru now i failing s)
      unless true s = Evolves-refl fl lru s
      unless false s = set_state-Evolves fl lru now i failing s

      used :
          (lr : ℕ) (st : Option Status) (gs : Cluster fl lru C)
          → OutcomeEvolves fl lru gs (use_status_after fl lru now i lr st gs)
      used lr none gs = tt
      used lr (some st) gs = update_with_status-Evolves fl lru now i st gs

      after :
          (lr : ℕ) (gs : Cluster fl lru C)
          (r : Option (Option GoError × Call fl lru C Status Status))
          → CallEvolves gs r
          → OutcomeEvolves fl lru gs (after_status_after fl lru now i lr r)
      after lr gs none p = tt
      after lr gs (some (some e, s)) p = p
      after lr gs (some (none, s)) p = Outcome-trans fl lru gs s.gs _ p (used lr s.got s.gs)

  module _ (cd : Codec C) where
    decode_block-Evolves :
        (rb : List ℕ) (us : ℕ) (gs : Cluster fl lru C)
        → Evolves fl lru gs (decode_block fl lru now i cd rb us gs).0.1
    unfolding decode_block
    decode_block-Evolves rb us gs = decoded (cd.decode rb)
      where
        decoded :
            (r : Result C)
            → Evolves fl lru gs (
                let p : (Attempt × Cluster fl lru C) × Option (C × List ℕ) = elim r [
                  | err e ↦ ((failure false e, update_rtt fl lru now i us gs), none)
                  | ok block ↦ ((success, update_rtt fl lru now i us gs), some (block, rb))
                ] in
                p.0.1)
        decoded (ok block) = update_rtt-Evolves fl lru now i us gs
        decoded (err e) = update_rtt-Evolves fl lru now i us gs

    sunk :
        (round : ℕ) (e : GoError) (gs : Cluster fl lru C)
        → OutcomeEvolves fl lru gs
            (Option.map (λ gs'. (gs', false)) (sink_error fl lru round (some e) gs))
    unfolding sink_error
    sunk round e gs = cache_map-Evolves fl lru false gs _

    pub fetch_block_raw-Evolves :
        (round : ℕ) (replies : List (Reply (List ℕ))) (gs : Cluster fl lru C)
        → OutcomeEvolves fl lru gs (fetch_block_raw fl lru now i cd round replies gs)
    unfolding fetch_block_raw ask_block
    fetch_block_raw-Evolves round replies gs =
        after gs _ (
          call-Evolves fl lru _ _ (λ e s. Evolves-refl fl lru s) decode_block-Evolves 10 gs replies)
      where
        used :
            (got : Option (C × List ℕ)) (gs : Cluster fl lru C)
            → OutcomeEvolves fl lru gs (use_block fl lru now i cd got gs)
        used none gs = tt
        used (some (block, rb)) gs =
            map-Evolves fl lru (λ _. true) gs _ (block_sink-Evolves fl lru now i cd block rb gs)

        after :
            (gs : Cluster fl lru C)
            (r : Option (Option GoError × Call fl lru C (List ℕ) (C × List ℕ)))
            → CallEvolves gs r
            → OutcomeEvolves fl lru gs (after_block fl lru now i cd round r)
        after gs none p = tt
        after gs (some (some e, s)) p = Outcome-trans fl lru gs s.gs _ p (sunk round e s.gs)
        after gs (some (none, s)) p = Outcome-trans fl lru gs s.gs _ p (used s.got s.gs)
