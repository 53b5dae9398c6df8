-- ===== src/Algod/World.antt =====
-- The cluster with its cache, among all that goes on: the nodes boot and monitor, the lists are
-- updated, blocks are loaded and prefetched, and requests go through the cluster and the cache.
pub mod Loads
pub mod Prefetches
use algo_vnode.Prelude.{
  ℕ, ◌≤◌, ◌≡◌, ◌≢◌, refl, sym, ◌∙◌, ap, subst, Bool, true, false, List, Option, none, some, String,
  [], some_unique, arith, ltb, length,
}
use algo_vnode.Algod.Blocks.{load_block_sync, get_block_first, prefetch_notify}
use algo_vnode.Algod.Client.{Reply}
use algo_vnode.Algod.Cluster.{update_node_lists, is_block_in_the_future}
use algo_vnode.Algod.Evolve.Boot.{
  Operates, boots, monitors, lists, loads, requests, Operates-Evolves,
}
use algo_vnode.Algod.Evolve.{Evolves, Evolves-refl, Evolves-trans}
use algo_vnode.Algod.Float.{Float}
use algo_vnode.Algod.Loop.{boot, monitor_turn}
use algo_vnode.Algod.State.{Status, Cluster}
use algo_vnode.Algod.Total.Turns.{turns_return}
use algo_vnode.Algod.Total.{Returns}
use algo_vnode.Algod.World.Loads.{load_block_sync-Returns}
use algo_vnode.Algod.World.Prefetches.{prefetch_turn, prefetch_turn-IsValid, prefetch_turn-Evolves}
use algo_vnode.BlockCache.Lru.{Lru}
use algo_vnode.BlockCache.Reach.{Step-Keeps, add_block-Keeps}
use algo_vnode.BlockCache.Safety.{UnifiedIsValid, Step, get_step-Keeps}
use algo_vnode.BlockCache.Unified.{Get, Wake, add_block, get_step}
use algo_vnode.BlockFetcher.Make.{Codec}
use algo_vnode.BlockFetcher.Wrap.{BlockWrap}

module _ (fl : Float) (lru : Lru) {C : Type 0} (cd : Codec C) where
  pub data World (gs : Cluster fl lru C) : Cluster fl lru C → Type 0 where
    begins : World gs gs
    operates : {g h : Cluster fl lru C} → World gs g → Operates fl lru cd g h → World gs h
    -- A step of the cache that a request makes.
    caches :
        {g : Cluster fl lru C} {u : _}
        → World gs g
        → Step lru g.ucache u
        → World gs (record g { ucache = u })
    prefetches :
        {g : Cluster fl lru C} → World gs g → (now : ℕ) → World gs (prefetch_turn fl lru now g)

  cached-Evolves : (g : Cluster fl lru C) (u : _) → Evolves fl lru g (record g { ucache = u })
  cached-Evolves g u = record {
    later = omega arith;
    genesis_kept = λ _. refl;
    one_genesis = λ ok. ok;
  }

  pub World-Evolves : {gs g : Cluster fl lru C} → World gs g → Evolves fl lru gs g
  World-Evolves {gs} begins = Evolves-refl fl lru gs
  World-Evolves {gs} (operates {g = g} {h = h} w o) =
      Evolves-trans fl lru gs g h (World-Evolves w) (Operates-Evolves fl lru cd o)
  World-Evolves {gs} (caches {g = g} {u = u} w s) =
      Evolves-trans fl lru gs g _ (World-Evolves w) (cached-Evolves g u)
  World-Evolves {gs} (prefetches {g = g} w now) =
      Evolves-trans fl lru gs g _ (World-Evolves w) (prefetch_turn-Evolves fl lru now g)

module _ (fl : Float) (lru : Lru) {C : Type 0} (cd : Codec C)
    (sound : (block : C) → cd.generate_block block ≢ none) where
  found-IsValid :
      {A : Type 0} (r : Option (Cluster fl lru C × A)) (g : Cluster fl lru C) (a : A)
      → Returns fl lru r
      → r ≡ some (g, a)
      → UnifiedIsValid lru g.ucache
  found-IsValid r g a (h, b, e, v) f =
      subst (λ x. UnifiedIsValid lru x.0.ucache) (some_unique e f) v

  requests_ucache :
      (round : ℕ) (msgp : Bool) (gs : Cluster fl lru C)
      → gs.ucache ≡ (get_block_first fl lru round msgp gs).0.ucache
  unfolding get_block_first prefetch_notify is_block_in_the_future
  requests_ucache round msgp gs = ground arith

  lists_ucache : (gs : Cluster fl lru C) → gs.ucache ≡ (update_node_lists fl lru gs).ucache
  unfolding update_node_lists
  lists_ucache gs = refl

  Operates-IsValid :
      {g h : Cluster fl lru C}
      → Operates fl lru cd g h
      → UnifiedIsValid lru g.ucache
      → UnifiedIsValid lru h.ucache
  Operates-IsValid {g} {h} (boots now i geneses blocks statuses up e) v =
      found-IsValid _ h up (turns_return fl lru now i cd sound geneses blocks statuses g v).0 e
  Operates-IsValid {g} {h} (monitors now i statuses blocks t e) v =
      found-IsValid _ h t (turns_return fl lru now i cd sound [] blocks statuses g v).1 e
  Operates-IsValid {g} lists v = subst (UnifiedIsValid lru) (lists_ucache g) v
  Operates-IsValid {g} {h} (loads now round replies done e) v =
      found-IsValid _ h done (load_block_sync-Returns fl lru now cd replies sound round g v) e
  Operates-IsValid {g} (requests round msgp) v =
      subst (UnifiedIsValid lru) (requests_ucache round msgp g) v

  World-IsValid :
      {gs g : Cluster fl lru C}
      → UnifiedIsValid lru gs.ucache
      → World fl lru cd gs g
      → UnifiedIsValid lru g.ucache
  World-IsValid v begins = v
  World-IsValid v (operates w o) = Operates-IsValid o (World-IsValid v w)
  World-IsValid v (caches w s) = (Step-Keeps lru (World-IsValid v w) s).valid
  World-IsValid v (prefetches {g = g} w now) =
      prefetch_turn-IsValid fl lru now g (World-IsValid v w)

  returned : {A : Type 0} (r : Option (Cluster fl lru C × A)) → Returns fl lru r → r ≢ none
  returned r (g, a, e, v) n = ground arith

  -- Whatever goes on in the cluster and in its cache, with operations that run as wholes, if the
  -- cache is in order at the start and `GenerateBlock` does not panic, then in every state that
  -- comes about, all that can be done next returns: a boot of any node and a turn of its `Monitor`, whatever it answers, a load of
  -- a block, whatever the nodes answer, a delivery to the cache, and a step of any request of it.
  pub World-goes_on :
      {gs g : Cluster fl lru C}
      → UnifiedIsValid lru gs.ucache
      → World fl lru cd gs g
      → ((now i : ℕ) (geneses : List (Reply String)) (blocks : List (Reply (List ℕ)))
            (statuses : List (Reply Status))
          → (boot fl lru now i cd geneses blocks statuses g ≢ none)
            × (monitor_turn fl lru now i cd statuses blocks g ≢ none))
        × ((now round : ℕ) (replies : ℕ → List (Reply (List ℕ)))
            → load_block_sync fl lru now cd replies round g ≢ none)
        × ((w : BlockWrap C) → add_block lru g.ucache w ≢ none)
        × ((wake : Wake) (round : ℕ) (r : Get C) → get_step lru wake g.ucache round r ≢ none)
  World-goes_on {gs} {g} v w = (
    λ now i geneses blocks statuses.
        let (b, m) = turns_return fl lru now i cd sound geneses blocks statuses g valid in
        (returned _ b, returned _ m),
    λ now round replies.
        returned _ (load_block_sync-Returns fl lru now cd replies sound round g valid),
    λ x n. let (u, e, _) = add_block-Keeps lru g.ucache x valid in ground arith,
    λ wake round r n.
        let (u, s, e, _) = get_step-Keeps lru wake g.ucache round r valid in ground arith,
  )
    where
      valid : UnifiedIsValid lru g.ucache
      valid = World-IsValid v w
