-- ===== src/Algod/Total/Turns.antt =====
-- Boots and the turns of `Monitor` always return, and keep the cache in order.
use algo_vnode.Prelude.{
  ◌∷◌, ◌==◌, ltb, add64, if◌then◌else◌, ℕ, ◌≡◌, ◌≢◌, refl, sym, subst, inl, inr, Bool, true, false,
  not, ◌||◌, List, Option, none, some, String, GoError, arith, Bool-cases, Option-cases, Result,
  Result-cases, ok, err,
}
use algo_vnode.Algod.Client.{Reply, Call, is_fatal_api_error, success, failure}
use algo_vnode.Algod.Cluster.{
  set_latest_round, sink_error, ensure_genesis, get_latest_round, is_synced,
}
use algo_vnode.Algod.Float.{Float}
use algo_vnode.Algod.Loop.{
  reboots, goes_on, decode_block, ask_block, use_block, after_block, fetch_block_raw,
  after_block_zero, use_genesis, after_genesis, ask_genesis, start_boot, boot, follow, monitor_turn,
}
use algo_vnode.Algod.Node.{cache_block, block_sink}
use algo_vnode.Algod.State.{Status, Cluster, booting, set_node}
use algo_vnode.Algod.Total.Calls.{IsCall, call_ends}
use algo_vnode.BlockCache.Lru.{Lru}
use algo_vnode.BlockCache.Reach.{add_block-Keeps}
use algo_vnode.BlockCache.Safety.{UnifiedIsValid}
use algo_vnode.BlockCache.Unified
use algo_vnode.BlockCache.Unified.{Unified}
use algo_vnode.BlockFetcher.Make.{Codec, make_block_wrap}
use algo_vnode.BlockFetcher.Wrap.{BlockWrap, error_wrap}
use algo_vnode.Algod.Total.{
  Returns, set_state_ucache, set_latest_round_ucache, update_rtt_ucache, update_status-Returns,
  update_status_after-Returns,
}

module _ (fl : Float) (lru : Lru) {C : Type 0} (now i : ℕ) (cd : Codec C) where
  cache_block-Returns :
      (r : Option (Result (BlockWrap C))) (gs : Cluster fl lru C)
      → r ≢ none
      → UnifiedIsValid lru gs.ucache
      → Returns fl lru (cache_block fl lru now i r gs)
  unfolding cache_block
  cache_block-Returns none gs n v = absurd (n refl)
  cache_block-Returns (some (err e)) gs n v = (gs, false, refl, v)
  cache_block-Returns (some (ok w)) gs n v =
      let (u, runs, kept) = add_block-Keeps lru gs.ucache w v in
      (record gs { ucache = u }, true, rw runs refl, kept.valid)

  pub block_sink-Returns :
      (block : C) (raw : List ℕ) (gs : Cluster fl lru C)
      → ((id : String) → make_block_wrap cd now id block raw ≢ none)
      → UnifiedIsValid lru gs.ucache
      → Returns fl lru (block_sink fl lru now i cd block raw gs)
  unfolding block_sink
  block_sink-Returns block raw gs wraps v =
      let r = set_latest_round fl lru now (cd.round_of block) i gs in
      let kept =
        subst (UnifiedIsValid lru)
          (sym (set_latest_round_ucache fl lru now i (cd.round_of block) gs)) v in
      let is_new = r.1 || not (Unified.is_block_cached lru r.0.ucache (cd.round_of block)) in
      elim (Bool-cases is_new) [
        | inl e ↦
            let (gs', b, runs, w) =
              cache_block-Returns (make_block_wrap cd now (r.0.nodes i).cfg.id block raw) r.0
                (wraps (r.0.nodes i).cfg.id) kept in
            (gs', b, rw (e, block_sink) runs, w)
        | inr e ↦ (r.0, false, rw (e, block_sink) refl, kept)
      ]

  make_block_wrap-Returns :
      (id : String) (block : C) (raw : List ℕ)
      → cd.generate_block block ≢ none
      → make_block_wrap cd now id block raw ≢ none
  unfolding make_block_wrap
  make_block_wrap-Returns id block raw h = elim (Option-cases (cd.generate_block block)) [
    | inl e ↦ absurd (h e)
    | inr (r, e) ↦ elim (Result-cases (cd.encode_json block)) [
      | inl (x, f) ↦ λ n. ground arith
      | inr (x, f) ↦ elim (Result-cases r) [
        | inl (y, g) ↦ λ n. ground arith
        | inr (y, g) ↦ elim (Result-cases (cd.encode_idx y)) [
          | inl (z, k) ↦ λ n. ground arith
          | inr (z, k) ↦ λ n. ground arith
        ]
      ]
    ]
  ]

  decode_block_ucache :
      (raw : List ℕ) (us : ℕ) (gs : Cluster fl lru C)
      → (decode_block fl lru now i cd raw us gs).0.1.ucache ≡ gs.ucache
  unfolding decode_block
  decode_block_ucache raw us gs = elim (Result-cases (cd.decode raw)) [
    | inl (e, f) ↦ rw (f, decode_block) (update_rtt_ucache fl lru now i us gs)
    | inr (b, f) ↦ rw (f, decode_block) (update_rtt_ucache fl lru now i us gs)
  ]

  decode_block_got :
      (raw : List ℕ) (us : ℕ) (gs : Cluster fl lru C)
      → (decode_block fl lru now i cd raw us gs).0.0.err ≡ none
      → (decode_block fl lru now i cd raw us gs).1 ≢ none
  unfolding decode_block
  decode_block_got raw us gs = elim (Result-cases (cd.decode raw)) [
    | inl (e, f) ↦ rw (f, decode_block) (λ n. absurd (ground arith))
    | inr (b, f) ↦ rw (f, decode_block) (λ n m. ground arith)
  ]

  block-IsCall :
      IsCall fl lru {C = C}
        (λ e gs. (failure (is_fatal_api_error e) e, gs))
        (decode_block fl lru now i cd)
  block-IsCall = record {
    error_fails = λ e gs n. ground arith;
    error_keeps = λ e gs. refl;
    reply_got = decode_block_got;
    reply_keeps = decode_block_ucache;
  }

  genesis-IsCall :
      IsCall fl lru {C = C}
        (λ e gs. (failure false e, gs))
        (λ (g : String) us gs. ((success, gs), some g))
  genesis-IsCall = record {
    error_fails = λ e gs n. ground arith;
    error_keeps = λ e gs. refl;
    reply_got = λ x us gs n m. ground arith;
    reply_keeps = λ x us gs. refl;
  }

  sink_error_returns :
      (round : ℕ) (e : GoError) (gs : Cluster fl lru C)
      → UnifiedIsValid lru gs.ucache
      → (gs' : Cluster fl lru C) × (sink_error fl lru round (some e) gs ≡ some gs')
        × UnifiedIsValid lru gs'.ucache
  unfolding sink_error
  sink_error_returns round e gs v =
      let (u, runs, kept) = add_block-Keeps lru gs.ucache (error_wrap round e) v in
      (record gs { ucache = u }, rw runs refl, kept.valid)

module _ (fl : Float) (lru : Lru) {C : Type 0} (now i : ℕ) (cd : Codec C)
    (sound : (block : C) → cd.generate_block block ≢ none) where
  pub fetch_block_raw-Returns :
      (round : ℕ) (replies : List (Reply (List ℕ))) (gs : Cluster fl lru C)
      → UnifiedIsValid lru gs.ucache
      → Returns fl lru (fetch_block_raw fl lru now i cd round replies gs)
  unfolding fetch_block_raw after_block use_block ask_block
  fetch_block_raw-Returns round replies gs v =
      let (e, s, runs, same, got) =
        call_ends fl lru _ _ (block-IsCall fl lru now i cd) 10 gs replies in
      let (gs', b, ends, w) = after e s (subst (UnifiedIsValid lru) (sym same) v) got in
      (gs', b, rw runs ends, w)
    where
      after :
          (e : Option GoError) (s : Call fl lru C (List ℕ) (C × List ℕ))
          → UnifiedIsValid lru s.gs.ucache
          → (e ≡ none → s.got ≢ none)
          → Returns fl lru (after_block fl lru now i cd round (some (e, s)))
      after (some x) s v got =
          let (gs', runs, w) = sink_error_returns fl lru now i cd round x s.gs v in
          (gs', false, rw runs refl, w)
      after none s v got = elim (Option-cases s.got) [
        | inl n ↦ absurd (got refl n)
        | inr ((block, raw), g) ↦
            let (gs', b, runs, w) =
              block_sink-Returns fl lru now i cd block raw s.gs
                (λ id. make_block_wrap-Returns fl lru now i cd id block raw (sound block)) v in
            (gs', true, rw g (rw runs refl), w)
      ]

  ensure_genesis_ucache :
      (g : String) (gs : Cluster fl lru C) → (ensure_genesis fl lru g gs).0.ucache ≡ gs.ucache
  unfolding ensure_genesis
  ensure_genesis_ucache g gs = ground arith

  after_block_zero-Returns :
      (statuses : List (Reply Status)) (gs : Cluster fl lru C) (archival : Bool)
      → UnifiedIsValid lru gs.ucache
      → Returns fl lru (after_block_zero fl lru now i cd statuses (some (gs, archival)))
  unfolding after_block_zero
  after_block_zero-Returns statuses gs true v = update_status-Returns fl lru now i statuses _ v
  after_block_zero-Returns statuses gs false v = update_status-Returns fl lru now i statuses gs v

  use_genesis-Returns :
      (blocks : List (Reply (List ℕ))) (statuses : List (Reply Status)) (g : String)
      (gs : Cluster fl lru C)
      → UnifiedIsValid lru gs.ucache
      → Returns fl lru (use_genesis fl lru now i cd blocks statuses (some g) gs)
  unfolding use_genesis
  use_genesis-Returns blocks statuses g gs v =
      let r = ensure_genesis fl lru g gs in
      let kept = subst (UnifiedIsValid lru) (sym (ensure_genesis_ucache g gs)) v in
      elim (Option-cases r.1) [
        | inr (e, q) ↦
            (record r.0 { fatal_errs = e ∷ r.0.fatal_errs }, false, rw (q, use_genesis) refl, kept)
        | inl q ↦
            let h = set_node fl i (record (r.0.nodes i) { genesis = g }) r.0 in
            let (h', archival, runs, w) = fetch_block_raw-Returns 0 blocks h kept in
            let (gs', up, ends, x) = after_block_zero-Returns statuses h' archival w in
            (gs', up, rw (q, use_genesis) (rw runs ends), x)
      ]

  pub boot-Returns :
      (geneses : List (Reply String)) (blocks : List (Reply (List ℕ)))
      (statuses : List (Reply Status)) (gs : Cluster fl lru C)
      → UnifiedIsValid lru gs.ucache
      → Returns fl lru (boot fl lru now i cd geneses blocks statuses gs)
  unfolding boot ask_genesis start_boot
  boot-Returns geneses blocks statuses gs v =
      let h = start_boot fl lru now i cd gs in
      let kept = subst (UnifiedIsValid lru) (sym (set_state_ucache fl lru now i booting gs)) v in
      let (e, s, runs, same, got) =
        call_ends fl lru _ _ (genesis-IsCall fl lru now i cd) 0 h geneses in
      let (gs', b, ends, w) = after e s (subst (UnifiedIsValid lru) (sym same) kept) got in
      (gs', b, rw runs ends, w)
    where
      after :
          (e : Option GoError) (s : Call fl lru C String String)
          → UnifiedIsValid lru s.gs.ucache
          → (e ≡ none → s.got ≢ none)
          → Returns fl lru (after_genesis fl lru now i cd blocks statuses (some (e, s)))
      after (some x) s v got = (s.gs, false, refl, v)
      after none s v got = elim (Option-cases s.got) [
        | inl n ↦ absurd (got refl n)
        | inr (g, q) ↦
            let (gs', b, ends, w) = use_genesis-Returns blocks statuses g s.gs v in
            (gs', b, rw q ends, w)
      ]

  follow-Returns :
      (blocks : List (Reply (List ℕ))) (gs : Cluster fl lru C) (lr : ℕ)
      → UnifiedIsValid lru gs.ucache
      → Returns fl lru (follow fl lru now i cd blocks (some (gs, lr)))
  unfolding follow
  follow-Returns blocks gs lr v = elim (Bool-cases (lr == 0)) [
    | inl e ↦ (gs, reboots, rw (e, follow) refl, v)
    | inr e ↦ elim (Bool-cases (is_synced (gs.nodes i).state)) [
      | inr f ↦ (gs, goes_on, rw (e, f, follow) refl, v)
      | inl f ↦ elim (Bool-cases (ltb (get_latest_round fl lru gs) (add64 lr 1))) [
        | inr h ↦ (gs, goes_on, rw (e, f, h, follow) refl, v)
        | inl h ↦
            let (gs', b, runs, w) = fetch_block_raw-Returns (add64 lr 1) blocks gs v in
            (gs', (if b then goes_on else reboots), rw (e, f, h, follow) (rw runs refl), w)
      ]
    ]
  ]

  -- Whatever its node answers, with a cache in order: a boot of a node and a turn of its `Monitor`
  -- return and leave the cache in order, if `GenerateBlock` does not panic. So neither is without
  -- end, and neither makes the cache panic.
  pub turns_return :
      (geneses : List (Reply String)) (blocks : List (Reply (List ℕ)))
      (statuses : List (Reply Status)) (gs : Cluster fl lru C)
      → UnifiedIsValid lru gs.ucache
      → Returns fl lru (boot fl lru now i cd geneses blocks statuses gs)
        × Returns fl lru (monitor_turn fl lru now i cd statuses blocks gs)
  unfolding monitor_turn
  turns_return geneses blocks statuses gs v =
      let (gs₁, lr, runs, w) = update_status_after-Returns fl lru now i statuses gs v in
      let (gs₂, t, ends, x) = follow-Returns blocks gs₁ lr w in
      (boot-Returns geneses blocks statuses gs v, (gs₂, t, rw runs ends, x))
