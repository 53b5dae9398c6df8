-- ===== src/Algod/Loads/Fetch.antt =====
-- One node asked for a block by `fetchBlockRaw`: what comes of it in the cache.
use algo_vnode.Prelude.{
  ℕ, ◌≡◌, ◌≢◌, refl, sym, ◌∙◌, subst, true, false, Bool, not, ◌||◌, List, Option, none, some,
  GoError, arith, Bool-cases, Option-cases, inl, inr, All,
}
use algo_vnode.Algod.Client.{Reply, Call}
use algo_vnode.Algod.Cluster.{ledger_error, set_latest_round, sink_error}
use algo_vnode.Algod.Float.{Float}
use algo_vnode.Algod.Loop.{use_block, after_block, fetch_block_raw}
use algo_vnode.Algod.Node.{cache_block, block_sink}
use algo_vnode.Algod.State.{Cluster}
use algo_vnode.BlockCache.Lru.{Lru}
use algo_vnode.BlockCache.Refines.Adds.{Adds, add_block-Adds}
use algo_vnode.BlockCache.Safety.{UnifiedIsValid, Keeps, Keeps-refl}
use algo_vnode.BlockCache.Unified
use algo_vnode.BlockCache.Unified.{Unified, cache_of, get_cache_with_peek}
use algo_vnode.BlockFetcher.Make.{Codec}
use algo_vnode.BlockFetcher.Wrap.{BlockWrap, error_wrap}
use algo_vnode.Algod.Loads.Asks.{
  IsServed, Answers, GotServed, make_block_wrap-ok, Asking, ask_block-Asking,
}

not_new : (won cached : Bool) → (won || not cached) ≡ false → cached ≡ true
not_new won cached e = ground arith

true-false : ¬ (true ≡ false)
true-false e = ground arith

module _ (lru : Lru) {C : Type 0} (round : ℕ) where
  -- What asking one node for the round does to the cache.
  pub record Fetched (u u' : Unified lru C) (got : Bool) : Type 0 where
    pub kept : Keeps lru u u'
    pub cached : got ≡ true → Unified.is_block_cached lru u' round ≡ true
    pub woken :
        Unified.is_block_cached lru u round ≡ false
        → (a ch : ℕ) → lru.peek (cache_of lru u (get_cache_with_peek lru u round)).c round ≡ some a
        → (u.heap.entries a).wait_for ≡ some ch
        → u'.heap.closed ch ≡ true

  Adds-Fetched :
      (u u' : Unified lru C) (w : BlockWrap C) (got : Bool)
      → w.round ≡ round
      → (got ≡ true → w.error ≡ none)
      → Adds lru u u' w
      → Fetched u u' got
  Adds-Fetched u u' w got r e a = record {
    kept = a.kept;
    cached = λ g. subst (λ x. Unified.is_block_cached lru u' x ≡ true) r (a.cached (e g));
    woken = λ missing b ch p q.
        a.woken b ch
          (subst (λ x. lru.peek (cache_of lru u (get_cache_with_peek lru u x)).c x ≡ some b) (sym r)
            p)
          q;
  }

module _ (fl : Float) (lru : Lru) {C : Type 0} (now i : ℕ) (cd : Codec C) (round : ℕ) where
  -- An error that is put into the cache reaches those who wait.
  pub sink_error-Fetched :
      (e : Option GoError) (gs : Cluster fl lru C)
      → UnifiedIsValid lru gs.ucache
      → (gs' : Cluster fl lru C) × (sink_error fl lru round e gs ≡ some gs')
        × Fetched lru round gs.ucache gs'.ucache false
  unfolding sink_error
  sink_error-Fetched none gs v =
      let (u, runs, a) = add_block-Adds lru gs.ucache (error_wrap round ledger_error) v in
      (
        record gs { ucache = u },
        rw runs refl,
        Adds-Fetched lru round gs.ucache u _ false refl (λ p. absurd (ground arith)) a,
      )
  sink_error-Fetched (some e) gs v =
      let (u, runs, a) = add_block-Adds lru gs.ucache (error_wrap round e) v in
      (
        record gs { ucache = u },
        rw runs refl,
        Adds-Fetched lru round gs.ucache u _ false refl (λ p. absurd (ground arith)) a,
      )

  -- A new latest round leaves the cache alone.
  pub same_ucache :
      (lr : ℕ) (gs : Cluster fl lru C) → (set_latest_round fl lru now lr i gs).0.ucache ≡ gs.ucache
  unfolding set_latest_round
  same_ucache lr gs = ground arith

  block_sink-Fetched :
      (block : C) (raw : List ℕ) (gs : Cluster fl lru C)
      → IsServed cd now round block raw
      → UnifiedIsValid lru gs.ucache
      → (gs' : Cluster fl lru C) × (sunk : Bool) × (block_sink fl lru now i cd block raw gs
          ≡ some (gs', sunk))
        × Fetched lru round gs.ucache gs'.ucache true
  unfolding block_sink cache_block
  block_sink-Fetched block raw gs (same, wraps) v =
      let r = set_latest_round fl lru now (cd.round_of block) i gs in
      let q = same_ucache (cd.round_of block) gs in
      let v₁ = subst (UnifiedIsValid lru) (sym q) v in
      let (w, made) = wraps (r.0.nodes i).cfg.id in
      let is_new = r.1 || not (Unified.is_block_cached lru r.0.ucache (cd.round_of block)) in
      elim (Bool-cases is_new) [
        | inl e ↦
            let (u, runs, a) = add_block-Adds lru r.0.ucache w v₁ in
            let (of_round, clean) = make_block_wrap-ok cd now round _ block raw w made in
            (
              record r.0 { ucache = u },
              true,
              rw (e, block_sink) (rw (made, cache_block) (rw runs refl)),
              subst (λ x. Fetched lru round x u true) q
                  (Adds-Fetched lru round r.0.ucache u w true (of_round ∙ same) (λ _. clean) a),
            )
        | inr e ↦
            let cached : Unified.is_block_cached lru r.0.ucache (cd.round_of block) ≡ true =
              not_new r.1 _ e in
            let of_round =
              subst (λ x. Unified.is_block_cached lru r.0.ucache x ≡ true) same cached in
            (
              r.0,
              false,
              rw (e, block_sink) refl,
              subst (λ x. Fetched lru round x r.0.ucache true) q
                  (record {
                    kept = Keeps-refl lru r.0.ucache v₁;
                    cached = λ _. of_round;
                    woken = λ missing. absurd (true-false (sym of_round ∙ missing));
                  }),
            )
      ]

  -- One node is asked, and all that it sends decodes to a block of the round that can be encoded:
  -- the call returns, and if it says that it got the block, the block is cached.
  pub fetch_block_raw-Fetched :
      (replies : List (Reply (List ℕ))) (gs : Cluster fl lru C)
      → All (Answers cd now round) replies
      → UnifiedIsValid lru gs.ucache
      → (gs' : Cluster fl lru C) × (got : Bool) × (fetch_block_raw fl lru now i cd round replies gs
          ≡ some (gs', got))
        × Fetched lru round gs.ucache gs'.ucache got
  unfolding fetch_block_raw after_block use_block
  fetch_block_raw-Fetched replies gs answers v =
      let (e, s, runs, asking, got) = ask_block-Asking fl lru now i cd round gs replies answers in
      let (gs', b, ends, f) = after e s asking got in (gs', b, rw runs ends, f)
    where
      after :
          (e : Option GoError) (s : Call fl lru C (List ℕ) (C × List ℕ))
          → Asking fl lru now i cd round gs.ucache s
          → (e ≡ none → s.got ≢ none)
          → (gs' : Cluster fl lru C) × (b : Bool) × (after_block fl lru now i cd round (some (e, s))
              ≡ some (gs', b))
            × Fetched lru round gs.ucache gs'.ucache b
      after (some x) s p got =
          let (gs', runs, f) =
            sink_error-Fetched (some x) s.gs (subst (UnifiedIsValid lru) (sym p.untouched) v) in
          (
            gs',
            false,
            rw runs refl,
            subst (λ u. Fetched lru round u gs'.ucache false) p.untouched f,
          )
      after none s p got = elim (Option-cases s.got) [
        | inl n ↦ absurd (got refl n)
        | inr ((block, raw), g) ↦
            let served = subst (GotServed cd now round) g p.served in
            let (gs', sunk, runs, f) =
              block_sink-Fetched block raw s.gs served
                (subst (UnifiedIsValid lru) (sym p.untouched) v) in
            (
              gs',
              true,
              rw g (rw runs refl),
              subst (λ u. Fetched lru round u gs'.ucache true) p.untouched f,
            )
      ]
