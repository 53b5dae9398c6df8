-- ===== src/Main/Ready.antt =====
-- What there is when cmd/algovnode/main.go has started.
use algo_vnode.Prelude.{
  ℕ, ◌+◌, ◌<◌, ◌≡◌, inl, inr, refl, sym, ◌∙◌, ap, List, [], ◌∷◌, ◌++◌, map, Option, none, some,
  GoError, arith, length, Option-cases, some_unique, subst,
}
use algo_vnode.Algod.Blocks.{new_cluster, add_nodes, add_node, new_node}
use algo_vnode.Algod.Float.{Float}
use algo_vnode.Algod.State.{Node, NodeCfg, Cluster, config}
use algo_vnode.BlockCache.Heap.{Heap}
use algo_vnode.BlockCache.Lru.{Lru}
use algo_vnode.BlockCache.Reach.{new-valid}
use algo_vnode.BlockCache.Safety.{UnifiedIsValid}
use algo_vnode.BlockCache.Unified.{new}
use algo_vnode.Config.{
  AlgodCfg, AlgoVNodeConfig, default_config, load_config, config_error, config_error-eq-none_iff,
}
use algo_vnode.Httpsrv.Servers.{new_algod_proxy}
use algo_vnode.Main.{start_indexer, present_nodes, Program, gives_up, runs, start_with, start}

-- A null entry of a list is not among those that are present.
present_nodes-some :
    (os : List (Option NodeCfg)) (cfgs : List NodeCfg)
    → present_nodes os ≡ some cfgs
    → os ≡ map some cfgs
unfolding present_nodes
present_nodes-some [] [] e = refl
present_nodes-some [] (c ∷ cs) e = absurd (ground arith)
present_nodes-some (none ∷ os) cfgs e = absurd (ground arith)
present_nodes-some (some o ∷ os) cfgs e = elim (Option-cases (present_nodes os)) [
  | inl f ↦ absurd (ground arith)
  | inr (cs, f) ↦
      let same : o ∷ cs ≡ cfgs = some_unique (rw (f, present_nodes) refl) e in
      subst (λ x. some o ∷ os ≡ map some x) same (ap (◌∷◌ (some o)) (present_nodes-some os cs f))
]

module _ (fl : Float) (lru : Lru) {C : Type 0} where
  add_nodes-kept :
      (now : ℕ) (cfgs : List NodeCfg) (gs : Cluster fl lru C)
      → let gs' = add_nodes fl lru now cfgs gs in
        (gs'.ucache ≡ gs.ucache)
        × (gs'.latest_round ≡ gs.latest_round)
        × (gs'.genesis ≡ gs.genesis)
        × (gs'.node_count ≡ gs.node_count + length cfgs)
        × ((j : ℕ) → j < gs.node_count → gs'.nodes j ≡ gs.nodes j)
  unfolding add_nodes add_node
  add_nodes-kept now [] gs = (refl, refl, refl, ground arith, λ j l. refl)
  add_nodes-kept now (c ∷ cs) gs =
      let (u, l, g, n, old) = add_nodes-kept now cs (add_node fl lru now c gs) in
      (u, l, g, ground (arith, n), λ j b. old j (omega arith) ∙ ground arith)

  -- Each node stands at its place.
  add_nodes-at :
      (now : ℕ) (before : List NodeCfg) (cfg : NodeCfg) (after : List NodeCfg)
      (gs : Cluster fl lru C)
      → (add_nodes fl lru now (before ++ cfg ∷ after) gs).nodes (gs.node_count + length before)
        ≡ new_node fl now cfg
  unfolding add_nodes add_node
  add_nodes-at now [] cfg after gs =
      let gs' = add_node fl lru now cfg gs in
      let (_, _, _, _, old) = add_nodes-kept now after gs' in
      let here : gs'.nodes gs.node_count ≡ new_node fl now cfg = ground arith in
      let at : gs.node_count + 0 ≡ gs.node_count = omega arith in
      rw at (old gs.node_count (omega arith) ∙ here)
  add_nodes-at now (c ∷ before) cfg after gs =
      let gs' = add_node fl lru now c gs in
      let at : gs.node_count + length (c ∷ before) ≡ gs'.node_count + length before = omega arith in
      rw at (add_nodes-at now before cfg after gs')

  made_ready :
      (now : ℕ) (free : Node fl) (memory : Heap C) (cfgs : List NodeCfg)
      → memory.next_entry ≡ 0
      → let gs = new_cluster fl lru now free cfgs (new lru memory) in
        UnifiedIsValid lru gs.ucache
        × (gs.latest_round ≡ 0)
        × (gs.genesis ≡ "")
        × (gs.node_count ≡ length cfgs)
        × ((before : List NodeCfg) (cfg : NodeCfg) (after : List NodeCfg)
            → cfgs ≡ before ++ cfg ∷ after
            → gs.nodes (length before) ≡ new_node fl now cfg)
  unfolding new_cluster
  made_ready now free memory cfgs e =
      let (u, l, g, n, _) = add_nodes-kept now cfgs _ in
      (
        subst (UnifiedIsValid lru) (sym u) (new-valid lru memory e),
        l,
        g,
        ground (arith, n),
        λ before cfg after f.
            let z : length before ≡ 0 + length before = omega arith in
            rw (f, z) (add_nodes-at now before cfg after _),
      )

  runs_unique : (p q : Program fl lru C) → runs p ≡ runs q → p ≡ q
  runs_unique p q e = ap (λ s. elim s [ gives_up x ↦ p | runs r ↦ r ]) e

  not_both : (x : GoError) (p : Program fl lru C) → ¬ (gives_up x ≡ runs p)
  not_both x p e = ground arith

  started :
      (now : ℕ) (free : Node fl) (memory : Heap C) (cfg : AlgoVNodeConfig) (a : AlgodCfg)
      (p : Program fl lru C)
      → start_with fl lru now free memory cfg (some a) ≡ some (runs p)
      → (cfgs : List NodeCfg) × (present_nodes a.nodes ≡ some cfgs)
        × (new_algod_proxy a ≡ some p.algod_srv)
        × (start_indexer cfg.indexer ≡ some p.idx_srv)
        × (p.cluster ≡ new_cluster fl lru now free cfgs (new lru memory))
  unfolding start_with
  started now free memory cfg a p h = elim (Option-cases (present_nodes a.nodes)) [
    | inl d ↦ absurd (ground arith)
    | inr (cfgs, d) ↦ elim (Option-cases (new_algod_proxy a)) [
      | inl e ↦ absurd (ground arith)
      | inr (s, e) ↦ elim (Option-cases (start_indexer cfg.indexer)) [
        | inl f ↦ absurd (ground arith)
        | inr (x, f) ↦
            let made : start_with fl lru now free memory cfg (some a)
                ≡ some (
                    runs (record {
                      cluster = new_cluster fl lru now free cfgs (new lru memory);
                      algod_srv = s;
                      idx_srv = x;
                    })) =
              rw (d, e, f, start_with) refl in
            let same = runs_unique _ p (some_unique made h) in
            (
              cfgs,
              d,
              e ∙ ap (λ y. some y.algod_srv) same,
              f ∙ ap (λ y. some y.idx_srv) same,
              sym (ap (λ y. y.cluster) same),
            )
      ]
    ]
  ]

  -- What `main` has made of the configuration.
  pub start_made :
      (now : ℕ) (free : Node fl) (memory : Heap C)
      (load : AlgoVNodeConfig → AlgoVNodeConfig × Option GoError) (p : Program fl lru C)
      → start fl lru now free memory load ≡ some (runs p)
      → let cfg = (load default_config).0 in
        (a : AlgodCfg) × (cfgs : List NodeCfg) × (cfg.algod ≡ some a)
        × (present_nodes a.nodes ≡ some cfgs)
        × (new_algod_proxy a ≡ some p.algod_srv)
        × (start_indexer cfg.indexer ≡ some p.idx_srv)
        × (p.cluster ≡ new_cluster fl lru now free cfgs (new lru memory))
  unfolding start load_config
  start_made now free memory load p h =
      elim (Option-cases (config_error (load default_config).0.algod (load default_config).1)) [
        | inr (x, f) ↦
            let given_up : start fl lru now free memory load ≡ some (gives_up x) =
              rw (f, start) refl in
            absurd (not_both x p (some_unique given_up h))
        | inl f ↦
            let (_, (a, q, _)) = (config_error-eq-none_iff _ _).0 f in
            let goes : start fl lru now free memory load
                ≡ start_with fl lru now free memory cfg (some a) =
              rw (f, start) (ap (start_with fl lru now free memory cfg) q) in
            let (cfgs, there, node, idx, same) = started now free memory cfg a p (sym goes ∙ h) in
            (a, cfgs, q, there, node, idx, same)
      ]
    where
      cfg : AlgoVNodeConfig
      cfg = (load default_config).0

  -- Where `main` goes on, over a memory that holds no entry: the configuration has a part for the
  -- node's API in which no node is null, and the cluster has the nodes that it names, as many and in
  -- their order, each with its configuration, with no genesis and no status and before its boot; the
  -- cluster has the round 0 and no genesis, and its cache is in order.
  pub start_ready :
      (now : ℕ) (free : Node fl) (memory : Heap C)
      (load : AlgoVNodeConfig → AlgoVNodeConfig × Option GoError) (p : Program fl lru C)
      → memory.next_entry ≡ 0
      → start fl lru now free memory load ≡ some (runs p)
      → (a : AlgodCfg) × (cfgs : List NodeCfg) × ((load default_config).0.algod ≡ some a)
        × (a.nodes ≡ map some cfgs)
        × UnifiedIsValid lru p.cluster.ucache
        × (p.cluster.latest_round ≡ 0)
        × (p.cluster.genesis ≡ "")
        × (p.cluster.node_count ≡ length cfgs)
        × ((before : List NodeCfg) (cfg : NodeCfg) (after : List NodeCfg)
            → cfgs ≡ before ++ cfg ∷ after
            → let n = p.cluster.nodes (length before) in
              (n.cfg ≡ cfg) × (n.genesis ≡ "") × (n.last_status ≡ none) × (n.state ≡ config))
  unfolding new_node
  start_ready now free memory load p e h =
      let (a, cfgs, q, there, _, _, same) = start_made now free memory load p h in
      let (v, l, g, n, at) = made_ready now free memory cfgs e in
      (
        a,
        cfgs,
        q,
        present_nodes-some a.nodes cfgs there,
        subst (λ c. UnifiedIsValid lru c.ucache) (sym same) v,
        ap (λ c. c.latest_round) same ∙ l,
        ap (λ c. c.genesis) same ∙ g,
        ap (λ c. c.node_count) same ∙ n,
        λ before cfg after f.
            let made = ap (λ c. c.nodes (length before)) same ∙ at before cfg after f in
            (
              ap (λ m. m.cfg) made,
              ap (λ m. m.genesis) made,
              ap (λ m. m.last_status) made,
              ap (λ m. m.state) made,
            ),
      )
