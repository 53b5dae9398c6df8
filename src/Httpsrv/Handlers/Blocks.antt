-- ===== src/Httpsrv/Handlers/Blocks.antt =====
-- A request for a block, from the handler of internal/httpsrv/handlers.go through GetBlock of
-- internal/algod/cluster.go to GetBlock of internal/blockcache/unified.go.
use algo_vnode.Prelude.{
  ℕ, ◌≤◌, ◌≡◌, ◌≢◌, inl, inr, refl, subst, Bool, true, false, List, Option, Option-cases, none,
  some, GoError, arith, sym,
}
use algo_vnode.Algod.Blocks.{get_block_first, prefetch_notify}
use algo_vnode.Algod.Cluster.{is_block_in_the_future}
use algo_vnode.Algod.Float.{Float}
use algo_vnode.Algod.State.{Cluster}
use algo_vnode.BlockCache.GetBlock.{Runs, GetBlock_result}
use algo_vnode.BlockCache.Lru.{Lru}
use algo_vnode.BlockCache.Safety.{UnifiedIsValid}
use algo_vnode.BlockCache.Unified.{Unified, done}
use algo_vnode.BlockFetcher.Wrap.{BlockWrap}
use algo_vnode.Httpsrv.Handlers.{
  BlockFormat, parse_int, block_body, block_response, is_msgp, blocks_handler,
}

module _ (fl : Float) (lru : Lru) {C : Type 0} where
  -- What `GetBlock` of the cluster can return, and whether the deadline has passed by then: the
  -- error of a round in the future, or what a call of the cache's `GetBlock` ends with.
  pub data Returns (gs : Cluster fl lru C) (round : ℕ) (msgp : Bool)
      : Bool × Option (BlockWrap C) × Option GoError → Type 0 where
    refuses :
        (late : Bool) (e : GoError)
        → (get_block_first fl lru round msgp gs).1 ≡ some e
        → Returns gs round msgp (late, none, some e)
    reads :
        (late : Bool) (u : Unified lru C) (block : Option (BlockWrap C)) (err : Option GoError)
        → (get_block_first fl lru round msgp gs).1 ≡ none
        → Runs lru round (get_block_first fl lru round msgp gs).0.ucache u (done block err)
        → Returns gs round msgp (late, block, err)

  first_keeps :
      (gs : Cluster fl lru C) (round : ℕ) (msgp : Bool)
      → (get_block_first fl lru round msgp gs).0.ucache ≡ gs.ucache
  unfolding get_block_first prefetch_notify is_block_in_the_future
  first_keeps gs round msgp = ground arith

  first_known :
      (gs : Cluster fl lru C) (round : ℕ) (msgp : Bool)
      → (get_block_first fl lru round msgp gs).1 ≡ none
      → round ≤ gs.latest_round
  unfolding get_block_first is_block_in_the_future
  first_known gs round msgp e = ground arith

  -- What is returned is a block of the round without an error, or an error.
  abbrev Right : Cluster fl lru C → ℕ → Bool × Option (BlockWrap C) × Option GoError → Type 0
  Right gs round r =
      ((w : BlockWrap C)
        → r.1 ≡ some w
        → (w.round ≡ round) × (w.error ≡ none) × (round ≤ gs.latest_round))
      × (r.1 ≡ none → r.2 ≢ none)

  Returns-Right :
      (gs : Cluster fl lru C) (round : ℕ) (msgp : Bool)
      (r : Bool × Option (BlockWrap C) × Option GoError)
      → UnifiedIsValid lru gs.ucache
      → Returns gs round msgp r
      → Right gs round r
  Returns-Right gs round msgp r v (refuses late e f) = (λ w p. ground arith, λ p q. ground arith)
  Returns-Right gs round msgp r v (reads late u block err f runs) =
      let start = get_block_first fl lru round msgp gs in
      let valid : UnifiedIsValid lru start.0.ucache =
        subst (UnifiedIsValid lru) (sym (first_keeps gs round msgp)) v in
      let (right, failed) = GetBlock_result lru round start.0.ucache u block err valid runs in
      (λ w p. ((right w p).0, (right w p).1, first_known gs round msgp f), failed)

  response-Right :
      (gs : Cluster fl lru C) (round : ℕ) (format : BlockFormat) (late : Bool)
      (block : Option (BlockWrap C)) (err : Option GoError)
      → Right gs round (late, block, err)
      → let a = block_response format late block err in
        (a.status ≢ 204)
        × (a.status ≡ 200
            → (w : BlockWrap C) × (block ≡ some w)
              × (w.round ≡ round)
              × (w.error ≡ none)
              × (round ≤ gs.latest_round)
              × (a.body ≡ block_body format w))
  unfolding block_response
  response-Right gs round format true block err h = (λ p. ground arith, λ p. absurd (ground arith))
  response-Right gs round format false block (some e) h =
      (λ p. ground arith, λ p. absurd (ground arith))
  response-Right gs round format false (some w) none h =
      let (r, e, k) = h.0 w refl in (λ p. ground arith, λ p. (w, refl, r, e, k, refl))
  response-Right gs round format false none none h = absurd (h.1 refl refl)

  -- A request for a block, on a cluster whose cache is in order and among any other calls: an answer
  -- with status 200 carries, in the format that was asked for, the block that `GetBlock` has returned
  -- for the round that the text of the request denotes; that block is one of this round, fetched
  -- without an error, and the round is at most the latest round; and no answer has status 204, the one for neither a block nor an error.
  pub blocks_handler_serves :
      (gs : Cluster fl lru C) (format : BlockFormat)
      (get_block : ℕ → Bool → Bool × Option (BlockWrap C) × Option GoError)
      → UnifiedIsValid lru gs.ucache
      → ((n : ℕ) → Returns gs n (is_msgp format) (get_block n (is_msgp format)))
      → (text : List ℕ)
      → let a = blocks_handler get_block text format in
        (a.status ≢ 204)
        × (a.status ≡ 200
            → (n : ℕ) × (w : BlockWrap C) × (parse_int text ≡ some n)
              × ((get_block n (is_msgp format)).1 ≡ some w)
              × (w.round ≡ n)
              × (w.error ≡ none)
              × (n ≤ gs.latest_round)
              × (a.body ≡ block_body format w))
  unfolding blocks_handler
  blocks_handler_serves gs format get_block v returns text = elim (Option-cases (parse_int text)) [
    | inl e ↦ rw (e, blocks_handler) (λ p. ground arith, λ p. absurd (ground arith))
    | inr (n, e) ↦
        let r = get_block n (is_msgp format) in
        let right = Returns-Right gs n (is_msgp format) r v (returns n) in
        let (no_204, found) = response-Right gs n format r.0 r.1 r.2 right in
        rw (e, blocks_handler)
          (no_204, λ p. let (w, here, a, b, k, body) = found p in (n, w, refl, here, a, b, k, body))
  ]
