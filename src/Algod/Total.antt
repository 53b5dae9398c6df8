-- ===== src/Algod/Total.antt =====
-- The operations of a node always return, and keep the cache in order.
pub mod Calls
pub mod Turns
use mathlib.Core.Option
use algo_vnode.Prelude.{
  if◌then◌else◌, ℕ, ◌≡◌, ◌≢◌, refl, sym, ◌∙◌, ap, subst, inl, inr, Bool, true, false, not, ◌||◌,
  List, Option, none, some, String, GoError, arith, Bool-cases, Option-cases, Result, Result-cases,
  ok, err,
}
use algo_vnode.Algod.Client.{
  Reply, Call, call, ask_status, use_status, after_status, update_status, is_canceled,
  is_fatal_api_error, success, failure,
}
use algo_vnode.Algod.Cluster.{
  set_latest_round, sink_error, ensure_genesis, get_latest_round, is_synced,
}
use algo_vnode.Algod.Float.{Float}
use algo_vnode.Algod.Loop.{
  Turn, update_status_after, ask_status_after, after_status_after, use_status_after, decode_block,
  ask_block, use_block, after_block, fetch_block_raw, after_block_zero, use_genesis, after_genesis,
  ask_genesis, start_boot, boot, follow, monitor_turn,
}
use algo_vnode.Algod.Node.{set_state, update_rtt, update_with_status, cache_block, block_sink}
use algo_vnode.Algod.State.{Status, Cluster, failing}
use algo_vnode.Algod.Total.Calls.{IsCall, call_ends}
use algo_vnode.BlockCache.Lru.{Lru}
use algo_vnode.BlockCache.Reach.{add_block-Keeps}
use algo_vnode.BlockCache.Safety.{UnifiedIsValid}
use algo_vnode.BlockCache.Unified
use algo_vnode.BlockCache.Unified.{Unified}
use algo_vnode.BlockFetcher.Make.{Codec, make_block_wrap}
use algo_vnode.BlockFetcher.Wrap.{BlockWrap, error_wrap}

module _ (fl : Float) (lru : Lru) {C : Type 0} where
  -- An operation returns, and the cache is in order.
  abbrev pub Returns : {X : Type 0} → Option (Cluster fl lru C × X) → Type 0
  Returns {X} r =
      (gs : Cluster fl lru C) × (x : X) × (r ≡ some (gs, x)) × UnifiedIsValid lru gs.ucache

  module _ (now i : ℕ) where
    pub set_state_ucache :
        (st : _) (gs : Cluster fl lru C) → (set_state fl lru now i st gs).ucache ≡ gs.ucache
    unfolding set_state
    set_state_ucache st gs = ground arith

    update_with_status_ucache :
        (st : Status) (gs : Cluster fl lru C)
        → (update_with_status fl lru now i st gs).0.ucache ≡ gs.ucache
    unfolding update_with_status set_state
    update_with_status_ucache st gs = ground arith

    pub set_latest_round_ucache :
        (lr : ℕ) (gs : Cluster fl lru C)
        → (set_latest_round fl lru now lr i gs).0.ucache ≡ gs.ucache
    unfolding set_latest_round
    set_latest_round_ucache lr gs = ground arith

    pub update_rtt_ucache :
        (us : ℕ) (gs : Cluster fl lru C) → (update_rtt fl lru now i us gs).ucache ≡ gs.ucache
    unfolding update_rtt
    update_rtt_ucache us gs = ground arith

    unless_ucache :
        (b : Bool) (gs : Cluster fl lru C)
        → (if b then gs else set_state fl lru now i failing gs).ucache ≡ gs.ucache
    unless_ucache true gs = refl
    unless_ucache false gs = set_state_ucache failing gs

    status-IsCall :
        IsCall fl lru {C = C}
          (λ e gs. (failure false e, set_state fl lru now i failing gs))
          (λ (st : Status) us gs. ((success, update_rtt fl lru now i us gs), some st))
    status-IsCall = record {
      error_fails = λ e gs n. ground arith;
      error_keeps = λ e gs. set_state_ucache failing gs;
      reply_got = λ x us gs n m. ground arith;
      reply_keeps = λ x us gs. update_rtt_ucache us gs;
    }

    status_after-IsCall :
        IsCall fl lru {C = C}
          (λ e gs.
            (failure false e, if is_canceled e then gs else set_state fl lru now i failing gs))
          (λ (st : Status) us gs. ((success, gs), some st))
    status_after-IsCall = record {
      error_fails = λ e gs n. ground arith;
      error_keeps = λ e gs. unless_ucache (is_canceled e) gs;
      reply_got = λ x us gs n m. ground arith;
      reply_keeps = λ x us gs. refl;
    }

    use_status-Returns :
        (st : Status) (gs : Cluster fl lru C)
        → UnifiedIsValid lru gs.ucache
        → Returns (use_status fl lru now i (some st) gs)
    unfolding use_status
    use_status-Returns st gs v =
        let r = update_with_status fl lru now i st gs in
        let h = (set_latest_round fl lru now (r.0.nodes i).latest_round i r.0).0 in
        let kept = subst (UnifiedIsValid lru) (sym (update_with_status_ucache st gs)) v in
        elim (Bool-cases r.1) [
          | inl e ↦ (
            h,
            true,
            rw (e, use_status) refl,
            subst (UnifiedIsValid lru)
                (sym (set_latest_round_ucache (r.0.nodes i).latest_round r.0)) kept,
          )
          | inr e ↦ (r.0, false, rw (e, use_status) refl, kept)
        ]

    pub update_status-Returns :
        (replies : List (Reply Status)) (gs : Cluster fl lru C)
        → UnifiedIsValid lru gs.ucache
        → Returns (update_status fl lru now i replies gs)
    unfolding update_status after_status ask_status
    update_status-Returns replies gs v =
        let (e, s, runs, same, got) = call_ends fl lru _ _ status-IsCall 0 gs replies in
        let (gs', b, ends, w) = after e s (subst (UnifiedIsValid lru) (sym same) v) got in
        (gs', b, rw runs ends, w)
      where
        after :
            (e : Option GoError) (s : Call fl lru C Status Status)
            → UnifiedIsValid lru s.gs.ucache
            → (e ≡ none → s.got ≢ none)
            → Returns (after_status fl lru now i (some (e, s)))
        after (some x) s v got = (s.gs, false, refl, v)
        after none s v got = elim (Option-cases s.got) [
          | inl n ↦ absurd (got refl n)
          | inr (st, g) ↦
              let (gs', b, ends, w) = use_status-Returns st s.gs v in (gs', b, rw g ends, w)
        ]

    pub update_status_after-Returns :
        (replies : List (Reply Status)) (gs : Cluster fl lru C)
        → UnifiedIsValid lru gs.ucache
        → Returns (update_status_after fl lru now i replies gs)
    unfolding update_status_after ask_status_after
    update_status_after-Returns replies gs v =
        let (e, s, runs, same, got) = call_ends fl lru _ _ status_after-IsCall 10 gs replies in
        let (gs', b, ends, w) =
          after (get_latest_round fl lru gs) e s (subst (UnifiedIsValid lru) (sym same) v) got in
        (gs', b, rw runs ends, w)
      where
        after :
            (lr : ℕ) (e : Option GoError) (s : Call fl lru C Status Status)
            → UnifiedIsValid lru s.gs.ucache
            → (e ≡ none → s.got ≢ none)
            → Returns (after_status_after fl lru now i lr (some (e, s)))
        after lr (some x) s v got = (s.gs, 0, refl, v)
        after lr none s v got = elim (Option-cases s.got) [
          | inl n ↦ absurd (got refl n)
          | inr (st, g) ↦
              let r = update_with_status fl lru now i st s.gs in
              (
                r.0,
                (if r.1 then lr else 0),
                rw g refl,
                subst (UnifiedIsValid lru) (sym (update_with_status_ucache st s.gs)) v,
              )
        ]
