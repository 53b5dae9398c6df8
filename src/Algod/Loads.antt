-- ===== src/Algod/Loads.antt =====
-- What a load of a block by internal/algod/cluster.go leaves in the cache.
pub mod Asks
pub mod Fetch
use algo_vnode.Prelude.{
  GoError, String, not, ◌||◌, err, ok, ℕ, ◌<◌, ◌≤◌, subst, ◌≡◌, ◌≢◌, refl, sym, ◌∙◌, ap, Bool, true,
  false, List, [], ◌∷◌, ◌++◌, Option, none, some, arith, List-cases, Bool-cases, inl, inr, All, ltb,
  add64, sub64,
}
use algo_vnode.Algod.Blocks.{try_nodes, then_nodes, load_block_sync}
use algo_vnode.Algod.Client.{Reply, reply, attempt, call, call_ctx}
use algo_vnode.Algod.Cluster.{set_latest_round}
use algo_vnode.Algod.Float.{Float}
use algo_vnode.Algod.Loads.Asks.{ask_block_first, Answers}
use algo_vnode.Algod.Loads.Fetch.{same_ucache, Fetched, fetch_block_raw-Fetched, sink_error-Fetched}
use algo_vnode.Algod.Loop.{fetch_block_raw, ask_block, decode_block, after_block, use_block}
use algo_vnode.Algod.Node.{update_rtt, block_sink, cache_block}
use algo_vnode.Utils.Backoff.{backoff, turn}
use algo_vnode.Algod.State.{Cluster}
use algo_vnode.BlockCache.Lru.{Lru}
use algo_vnode.BlockCache.Safety.{index_of, UnifiedIsValid, Keeps-trans}
use algo_vnode.BlockCache.Unified.{
  Unified, is_block_cached, cache_of, get_cache_with_peek, catchup_size,
}
use algo_vnode.BlockFetcher.Make.{Codec, make_block_wrap}
use native.Mathlib.Nat.{le_trans}

module _ (fl : Float) (lru : Lru) {C : Type 0} (now : ℕ) (cd : Codec C)
    (replies : ℕ → List (Reply (List ℕ))) (round : ℕ) where
  abbrev Fetches : Unified lru C → Unified lru C → Bool → Type 0
  Fetches = Fetched lru round

  -- A node that fails is followed by others: those it has woken stay awake.
  Fetched-then :
      (u u₁ u₂ : Unified lru C) (got : Bool)
      → UnifiedIsValid lru u
      → Fetches u u₁ false
      → Fetches u₁ u₂ got
      → Fetches u u₂ got
  Fetched-then u u₁ u₂ got v f g = record {
    kept = Keeps-trans lru u u₁ u₂ f.kept g.kept;
    cached = g.cached;
    woken = λ missing a ch p q.
        let l = (index_of lru u (get_cache_with_peek lru u round) v).known round a p in
        let made : ch < u₁.heap.next_chan =
          le_trans (v.memory.made a ch l q) f.kept.extends.more_chans in
        g.kept.extends.stays_closed ch made (f.woken missing a ch p q);
  }

  -- The nodes of a second list are asked after those of the first, as if they were one list.
  then_nodes-append :
      (cs ds : List ℕ) (r : Option (Cluster fl lru C × Bool))
      → then_nodes fl lru now cd replies round ds (then_nodes fl lru now cd replies round cs r)
        ≡ then_nodes fl lru now cd replies round (cs ++ ds) r
  unfolding try_nodes
  then_nodes-append cs ds none = refl
  then_nodes-append cs ds (some (gs, true)) = refl
  then_nodes-append [] ds (some (gs, false)) = refl
  then_nodes-append (n ∷ ns) ds (some (gs, false)) =
      then_nodes-append ns ds (fetch_block_raw fl lru now n cd round (replies n) gs)

  try_nodes-Fetched :
      (n : ℕ) (ns : List ℕ) (gs : Cluster fl lru C)
      → ((m : ℕ) → All (Answers cd now round) (replies m))
      → UnifiedIsValid lru gs.ucache
      → (gs' : Cluster fl lru C) × (got : Bool) × (try_nodes fl lru now cd replies round (n ∷ ns) gs
          ≡ some (gs', got))
        × Fetches gs.ucache gs'.ucache got
  unfolding try_nodes
  try_nodes-Fetched n [] gs answers v =
      let (gs₁, got, runs, f) =
        fetch_block_raw-Fetched fl lru now n cd round (replies n) gs (answers n) v in
      elim (Bool-cases got) [
        | inl e ↦
            (gs₁, true, rw (runs, try_nodes) (rw e refl), subst (Fetches gs.ucache gs₁.ucache) e f)
        | inr e ↦
            (gs₁, false, rw (runs, try_nodes) (rw e refl), subst (Fetches gs.ucache gs₁.ucache) e f)
      ]
  try_nodes-Fetched n (m ∷ ns) gs answers v =
      let (gs₁, got, runs, f) =
        fetch_block_raw-Fetched fl lru now n cd round (replies n) gs (answers n) v in
      elim (Bool-cases got) [
        | inl e ↦
            (gs₁, true, rw (runs, try_nodes) (rw e refl), subst (Fetches gs.ucache gs₁.ucache) e f)
        | inr e ↦
            let (gs₂, b, rest, g) = try_nodes-Fetched m ns gs₁ answers f.kept.valid in
            (
              gs₂,
              b,
              rw (runs, try_nodes) (rw e rest),
              Fetched-then gs.ucache gs₁.ucache gs₂.ucache b v
                  (subst (Fetches gs.ucache gs₁.ucache) e f) g,
            )
      ]

  asked-Fetched :
      (ns : List ℕ) (gs : Cluster fl lru C)
      → ((m : ℕ) → All (Answers cd now round) (replies m))
      → UnifiedIsValid lru gs.ucache
      → ns ≢ []
      → (gs' : Cluster fl lru C) × (got : Bool) × (try_nodes fl lru now cd replies round ns gs
          ≡ some (gs', got))
        × Fetches gs.ucache gs'.ucache got
  asked-Fetched [] gs answers v n = absurd (n refl)
  asked-Fetched (n ∷ ns) gs answers v m = try_nodes-Fetched n ns gs answers v

  append_nonempty : (cs ds : List ℕ) → ds ≢ [] → cs ++ ds ≢ []
  append_nonempty [] ds n = n
  append_nonempty (c ∷ cs) ds n = λ e. ground arith

  load_block_sync-Fetched :
      (gs : Cluster fl lru C)
      → UnifiedIsValid lru gs.ucache
      → ((n : ℕ) → All (Answers cd now round) (replies n))
      → gs.arch_nodes ≢ []
      → (gs' : Cluster fl lru C) × (got : Bool) × (load_block_sync fl lru now cd replies round gs
          ≡ some (gs', got))
        × Fetches gs.ucache gs'.ucache got
  unfolding load_block_sync
  load_block_sync-Fetched gs v answers some_node = elim (Bool-cases (ltb gs.latest_round round)) [
    | inl e ↦
        let (gs', runs, f) = sink_error-Fetched fl lru now 0 cd round none gs v in
        (gs', false, rw (e, load_block_sync) (rw runs refl), f)
    | inr e ↦ elim (Bool-cases (ltb (add64 (sub64 gs.latest_round catchup_size) 4) round)) [
      | inl f ↦
          let all = gs.catchup_nodes ++ gs.arch_nodes in
          let (gs', got, runs, fetched) =
            asked-Fetched all gs answers v (append_nonempty gs.catchup_nodes _ some_node) in
          let same = then_nodes-append gs.catchup_nodes gs.arch_nodes (some (gs, false)) in
          (gs', got, rw (e, f, load_block_sync) (same ∙ runs), fetched)
      | inr f ↦
          let (gs', got, runs, fetched) = asked-Fetched gs.arch_nodes gs answers v some_node in
          (gs', got, rw (e, f, load_block_sync) runs, fetched)
    ]
  ]

  -- A load of a round by a cluster whose cache is in order and that has an archive node, where all
  -- that the nodes send decodes to blocks of that round that can be encoded: it returns and leaves
  -- the cache in order; if it returns true, the block is cached; and if the block was not cached
  -- before, those who wait for the round at the cache that it is to go to are woken, whether the
  -- load succeeds or not.
  pub load_block_sync_settles :
      (gs : Cluster fl lru C)
      → UnifiedIsValid lru gs.ucache
      → ((n : ℕ) → All (Answers cd now round) (replies n))
      → gs.arch_nodes ≢ []
      → (gs' : Cluster fl lru C) × (got : Bool) × (load_block_sync fl lru now cd replies round gs
          ≡ some (gs', got))
        × UnifiedIsValid lru gs'.ucache
        × (got ≡ true → is_block_cached lru gs'.ucache round ≡ true)
        × (is_block_cached lru gs.ucache round ≡ false
            → (a ch : ℕ)
            → let k = get_cache_with_peek lru gs.ucache round in
              lru.peek (cache_of lru gs.ucache k).c round ≡ some a
              → (gs.ucache.heap.entries a).wait_for ≡ some ch
              → gs'.ucache.heap.closed ch ≡ true)
  load_block_sync_settles gs v answers some_node =
      let (gs', got, runs, f) = load_block_sync-Fetched gs v answers some_node in
      (gs', got, runs, f.kept.valid, f.cached, f.woken)

module _ (fl : Float) (lru : Lru) {C : Type 0} (now i : ℕ) (cd : Codec C) where
  sunk_nothing :
      (block : C) (raw : List ℕ) (e : GoError) (gs : Cluster fl lru C)
      → ((id : String) → make_block_wrap cd now id block raw ≡ some (err e))
      → (gs' : Cluster fl lru C) × (block_sink fl lru now i cd block raw gs ≡ some (gs', false))
        × (gs'.ucache ≡ gs.ucache)
  unfolding block_sink cache_block
  sunk_nothing block raw e gs fails =
      let r = set_latest_round fl lru now (cd.round_of block) i gs in
      let won = r.1 || not (is_block_cached lru r.0.ucache (cd.round_of block)) in
      elim (Bool-cases won) [
        | inl f ↦ (
          r.0,
          rw (f, block_sink) (rw (fails (r.0.nodes i).cfg.id, cache_block) refl),
          same_ucache fl lru now i cd 0 (cd.round_of block) gs,
        )
        | inr f ↦
            (r.0, rw (f, block_sink) refl, same_ucache fl lru now i cd 0 (cd.round_of block) gs)
      ]

  -- Where a node sends a block that decodes and that the program cannot encode, `fetchBlockRaw`
  -- says that it got the block, and has put neither the block nor an error into the cache.
  pub fetch_block_raw_unwrapped :
      (round us : ℕ) (raw : List ℕ) (rest : List (Reply (List ℕ))) (block : C) (e : GoError)
      (gs : Cluster fl lru C)
      → cd.decode raw ≡ ok block
      → ((id : String) → make_block_wrap cd now id block raw ≡ some (err e))
      → (gs' : Cluster fl lru C) × (fetch_block_raw fl lru now i cd round (reply raw us ∷ rest) gs
          ≡ some (gs', true))
        × (gs'.ucache ≡ gs.ucache)
  unfolding fetch_block_raw after_block use_block update_rtt
  fetch_block_raw_unwrapped round us raw rest block e gs decodes fails =
      let gs₁ = update_rtt fl lru now i us gs in
      let (gs', runs, same) = sunk_nothing block raw e gs₁ fails in
      (
        gs',
        rw (ask_block_first fl lru now i cd round raw us rest block gs decodes) (rw runs refl),
        same,
      )
