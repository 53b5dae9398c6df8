-- ===== src/Algod/Submits/Nil.antt =====
-- A node without a status that sends a block of a round that is news makes the cluster broadcast a
-- nil status: fetchBlockRaw of internal/algod/node.go, which boot calls before it has a status.
use algo_vnode.Prelude.{
  ℕ, ◌<◌, ◌≡◌, ◌≢◌, refl, sym, subst, true, String, List, ◌∷◌, Option, none, some, arith, ok,
}
use algo_vnode.Algod.Client.{Reply, reply}
use algo_vnode.Algod.Cluster.{set_latest_round}
use algo_vnode.Algod.Float.{Float}
use algo_vnode.Algod.Loads.Asks.{ask_block_first}
use algo_vnode.Algod.Loop.{use_block, after_block, fetch_block_raw}
use algo_vnode.Algod.Node.{update_rtt}
use algo_vnode.Algod.State.{Status, Cluster}
use algo_vnode.Algod.Submits.{OutcomeKeeps, block_sink-Keeps, map-Keeps}
use algo_vnode.Algod.Total.{update_rtt_ucache}
use algo_vnode.Algod.Total.Turns.{block_sink-Returns}
use algo_vnode.BlockCache.Lru.{Lru}
use algo_vnode.BlockCache.Safety.{UnifiedIsValid}
use algo_vnode.BlockFetcher.Make.{Codec, make_block_wrap}

module _ (fl : Float) (lru : Lru) {C : Type 0} (now i : ℕ) (cd : Codec C) where
  -- A nil status is the newest one that was submitted.
  abbrev NilFirst : List (Option Status) → Cluster fl lru C → Type 0
  NilFirst before gs = gs.submitted ≡ none ∷ before

  news_submits :
      (lr us : ℕ) (gs : Cluster fl lru C)
      → gs.latest_round < lr
      → (gs.nodes i).last_status ≡ none
      → NilFirst gs.submitted (set_latest_round fl lru now lr i (update_rtt fl lru now i us gs)).0
  unfolding set_latest_round update_rtt
  news_submits lr us gs lt e = ground (arith, e)

  first_Keeps :
      (round us : ℕ) (raw : List ℕ) (rest : List (Reply (List ℕ))) (block : C)
      (gs : Cluster fl lru C)
      → cd.decode raw ≡ ok block
      → gs.latest_round < cd.round_of block
      → (gs.nodes i).last_status ≡ none
      → OutcomeKeeps fl lru
          (NilFirst gs.submitted)
          (fetch_block_raw fl lru now i cd round (reply raw us ∷ rest) gs)
  unfolding fetch_block_raw after_block use_block
  first_Keeps round us raw rest block gs decodes news e =
      rw (ask_block_first fl lru now i cd round raw us rest block gs decodes) (
        map-Keeps fl lru (NilFirst gs.submitted) _ _ (
          block_sink-Keeps fl lru (NilFirst gs.submitted) (λ g u h. h) now i cd block raw
            (update_rtt fl lru now i us gs) (news_submits (cd.round_of block) us gs news e)))

  first_Returns :
      (round us : ℕ) (raw : List ℕ) (rest : List (Reply (List ℕ))) (block : C)
      (gs : Cluster fl lru C)
      → cd.decode raw ≡ ok block
      → UnifiedIsValid lru gs.ucache
      → ((id : String) → make_block_wrap cd now id block raw ≢ none)
      → (gs' : Cluster fl lru C) × (got : _) × (fetch_block_raw fl lru now i cd round
            (reply raw us ∷ rest)
            gs
          ≡ some (gs', got))
  unfolding fetch_block_raw after_block use_block
  first_Returns round us raw rest block gs decodes v wraps =
      let gs₁ = update_rtt fl lru now i us gs in
      let v₁ = subst (UnifiedIsValid lru) (sym (update_rtt_ucache fl lru now i us gs)) v in
      let (gs', _, runs, _) = block_sink-Returns fl lru now i cd block raw gs₁ wraps v₁ in
      (
        gs',
        true,
        rw (ask_block_first fl lru now i cd round raw us rest block gs decodes) (rw runs refl),
      )

  found_Keeps :
      {A : Type 0} (P : Cluster fl lru C → Type 0) (r : Option (Cluster fl lru C × A))
      (g : Cluster fl lru C) (a : A)
      → r ≡ some (g, a)
      → OutcomeKeeps fl lru P r
      → P g
  found_Keeps P r g a e p = subst (OutcomeKeeps fl lru P) e p

  -- If a node that has no status yet sends as its first answer a block of a round that is larger
  -- than the latest one of the cluster, whatever the round it was asked for, and `MakeBlockWrap` does
  -- not panic on it, then the fetch returns, and a nil status has been given to the broadcaster.
  pub fetch_submits_nil :
      (round us : ℕ) (raw : List ℕ) (rest : List (Reply (List ℕ))) (block : C)
      (gs : Cluster fl lru C)
      → cd.decode raw ≡ ok block
      → gs.latest_round < cd.round_of block
      → (gs.nodes i).last_status ≡ none
      → UnifiedIsValid lru gs.ucache
      → ((id : String) → make_block_wrap cd now id block raw ≢ none)
      → (gs' : Cluster fl lru C) × (got : _) × (fetch_block_raw fl lru now i cd round
            (reply raw us ∷ rest)
            gs
          ≡ some (gs', got))
        × (gs'.submitted ≡ none ∷ gs.submitted)
  fetch_submits_nil round us raw rest block gs decodes news e v wraps =
      let (gs', got, runs) = first_Returns round us raw rest block gs decodes v wraps in
      (
        gs',
        got,
        runs,
        found_Keeps (NilFirst gs.submitted) _ gs' got runs
            (first_Keeps round us raw rest block gs decodes news e),
      )
