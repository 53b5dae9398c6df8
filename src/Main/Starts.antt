-- ===== src/Main/Starts.antt =====
-- Where the start of cmd/algovnode/main.go panics.
use mathlib.Core.List.{Memᴰ}
use mathlib.Core.List.Memᴰ.{head, tail}
use algo_vnode.Prelude.{
  ℕ, ◌≡◌, ◌≢◌, ◌⊎◌, ◌↔◌, inl, inr, refl, sym, ◌∙◌, ap, subst, true, List, [], ◌∷◌, Option, none,
  some, GoError, arith, Option-cases, Bool-cases, some_unique,
}
use algo_vnode.Algod.Float.{Float}
use algo_vnode.Algod.State.{Node, NodeCfg}
use algo_vnode.BlockCache.Heap.{Heap}
use algo_vnode.BlockCache.Lru.{Lru}
use algo_vnode.Config.{
  AlgodCfg, IdxCfg, AlgoVNodeConfig, default_config, load_config, config_error,
  config_error-eq-none_iff,
}
use algo_vnode.Httpsrv.Servers.{new_algod_proxy, new_indexer_proxy}
use algo_vnode.Main.{start_indexer, present_nodes, gives_up, start_with, start}

some-none : {A : Type 0} {x : A} → ¬ (some x ≡ none)
some-none e = ground arith

new_algod_proxy-none_iff : (a : AlgodCfg) → (new_algod_proxy a ≡ none) ↔ (a.http ≡ none)
unfolding new_algod_proxy
new_algod_proxy-none_iff a = elim (Option-cases a.http) [
  | inl e ↦ (λ _. e, λ _. rw (e, new_algod_proxy) refl)
  | inr (http, e) ↦ (λ n. absurd (ground arith), λ n. absurd (ground arith))
]

new_indexer_proxy-none_iff : (i : IdxCfg) → (new_indexer_proxy i ≡ none) ↔ (i.http ≡ none)
unfolding new_indexer_proxy
new_indexer_proxy-none_iff i = elim (Option-cases i.http) [
  | inl e ↦ (λ _. e, λ _. rw (e, new_indexer_proxy) refl)
  | inr (http, e) ↦ (λ n. absurd (ground arith), λ n. absurd (ground arith))
]

start_indexer-none_iff :
    (o : Option IdxCfg)
    → (start_indexer o ≡ none)
      ↔ ((i : IdxCfg) × (o ≡ some i) × (i.enabled ≡ true) × (i.http ≡ none))
unfolding start_indexer
start_indexer-none_iff none = (λ n. absurd (ground arith), λ (i, e, _, _). absurd (ground arith))
start_indexer-none_iff (some i) = elim (Bool-cases i.enabled) [
  | inr e ↦ (
    λ n. absurd (ground arith),
    λ (j, f, g, _).
        let same : i.enabled ≡ j.enabled = ap (λ k. k.enabled) (some_unique refl f) in
        absurd (ground arith),
  )
  | inl e ↦ elim (Option-cases (new_indexer_proxy i)) [
    | inl f ↦
        (λ _. (i, refl, e, (new_indexer_proxy-none_iff i).0 f), λ _. rw (e, f, start_indexer) refl)
    | inr (s, f) ↦ (
      λ n. absurd (ground arith),
      λ (j, g, _, h).
          let same : i.http ≡ j.http = ap (λ k. k.http) (some_unique refl g) in
          let gone = (new_indexer_proxy-none_iff i).1 (same ∙ h) in absurd (ground arith),
    )
  ]
]

-- A list holds a null node exactly where the configurations cannot be read.
present_nodes-none_iff : (os : List (Option NodeCfg)) → (present_nodes os ≡ none) ↔ Memᴰ none os
unfolding present_nodes
present_nodes-none_iff [] = (λ n. absurd (ground arith), λ m. elim m [ ])
present_nodes-none_iff (none ∷ os) = (λ n. head refl, λ m. refl)
present_nodes-none_iff (some c ∷ os) = elim (Option-cases (present_nodes os)) [
  | inl e ↦ (λ n. tail ((present_nodes-none_iff os).0 e), λ m. rw (e, present_nodes) refl)
  | inr (cs, e) ↦ (
    λ n. absurd (ground arith),
    λ m. elim m [
      | head q ↦ absurd (ground arith)
      | tail t ↦ absurd (some-none (sym e ∙ (present_nodes-none_iff os).1 t))
    ],
  )
]

-- What makes a start panic, in a configuration with a part for the node's API.
abbrev Panics : AlgodCfg → Option IdxCfg → Type 0
Panics a indexer =
    Memᴰ none a.nodes
    ⊎ ((a.http ≡ none) ⊎ ((i : IdxCfg) × (indexer ≡ some i) × (i.enabled ≡ true) × (i.http ≡ none)))

module _ (fl : Float) (lru : Lru) {C : Type 0} where
  starts_with_none_iff :
      (now : ℕ) (free : Node fl) (memory : Heap C) (cfg : AlgoVNodeConfig) (a : AlgodCfg)
      → (start_with fl lru now free memory cfg (some a) ≡ none)
        ↔ (Memᴰ none a.nodes ⊎ ((a.http ≡ none) ⊎ (start_indexer cfg.indexer ≡ none)))
  unfolding start_with
  starts_with_none_iff now free memory cfg a = elim (Option-cases (present_nodes a.nodes)) [
    | inl d ↦ (λ _. inl ((present_nodes-none_iff a.nodes).0 d), λ _. rw (d, start_with) refl)
    | inr (cfgs, d) ↦ elim (Option-cases (new_algod_proxy a)) [
      | inl e ↦ (λ _. inr (inl ((new_algod_proxy-none_iff a).0 e)), λ _. rw (d, e, start_with) refl)
      | inr (s, e) ↦ elim (Option-cases (start_indexer cfg.indexer)) [
        | inl f ↦ (λ _. inr (inr f), λ _. rw (d, e, f, start_with) refl)
        | inr (x, f) ↦ (
          λ n. absurd (ground arith),
          λ o. elim o [
            | inl h ↦ absurd (some-none (sym d ∙ (present_nodes-none_iff a.nodes).1 h))
            | inr (inl h) ↦ absurd (some-none (sym e ∙ (new_algod_proxy-none_iff a).1 h))
            | inr (inr h) ↦ absurd (some-none (sym f ∙ h))
          ],
        )
      ]
    ]
  ]

  -- `main` panics at its start exactly where the configuration could be read, has a list of nodes
  -- that is not empty, and has a null in that list, no HTTP part for the node's API, or an enabled
  -- indexer without an HTTP part: `LoadConfig` accepts all three.
  pub start_panics :
      (now : ℕ) (free : Node fl) (memory : Heap C)
      (load : AlgoVNodeConfig → AlgoVNodeConfig × Option GoError)
      → let (cfg, unread) = load default_config in
        (start fl lru now free memory load ≡ none) ↔ (
          (unread ≡ none)
          × ((a : AlgodCfg) × (cfg.algod ≡ some a)
              × (a.nodes ≢ [])
              × (Memᴰ none a.nodes
                  ⊎ ((a.http ≡ none)
                      ⊎ ((i : IdxCfg) × (cfg.indexer ≡ some i)
                          × (i.enabled ≡ true)
                          × (i.http ≡ none))))))
  unfolding start load_config
  start_panics now free memory load =
      elim (Option-cases (config_error (load default_config).0.algod (load default_config).1)) [
        | inr (e, f) ↦ (
          λ n. absurd (
              let given_up : start fl lru now free memory load ≡ some (gives_up e) =
                rw (f, start) refl in
              some-none (sym given_up ∙ n)),
          λ (u, (a, q, some_node, _)).
              absurd (some-none (sym f ∙ (config_error-eq-none_iff _ _).1 (u, (a, q, some_node)))),
        )
        | inl f ↦
            let (unread, (a, q, some_node)) = (config_error-eq-none_iff _ _).0 f in
            let iff = starts_with_none_iff now free memory (load default_config).0 a in
            (
              λ n. (unread, (a, q, some_node, indexer_way a (iff.0 (sym (goes a f q) ∙ n)))),
              λ (_, (b, r, _, way)). goes a f q ∙ iff.1 (same_way a b (some_unique q r) way),
            )
      ]
    where
      cfg : AlgoVNodeConfig
      cfg = (load default_config).0

      goes :
          (a : AlgodCfg)
          → config_error cfg.algod (load default_config).1 ≡ none
          → cfg.algod ≡ some a
          → start fl lru now free memory load ≡ start_with fl lru now free memory cfg (some a)
      goes a f q = rw (f, start) (ap (start_with fl lru now free memory cfg) q)

      indexer_way :
          (a : AlgodCfg)
          → Memᴰ none a.nodes ⊎ ((a.http ≡ none) ⊎ (start_indexer cfg.indexer ≡ none))
          → Panics a cfg.indexer
      indexer_way a (inl m) = inl m
      indexer_way a (inr (inl h)) = inr (inl h)
      indexer_way a (inr (inr h)) = inr (inr ((start_indexer-none_iff cfg.indexer).0 h))

      same_way :
          (a b : AlgodCfg)
          → a ≡ b
          → Panics b cfg.indexer
          → Memᴰ none a.nodes ⊎ ((a.http ≡ none) ⊎ (start_indexer cfg.indexer ≡ none))
      same_way a b e (inl m) = inl (subst (λ c. Memᴰ none c.nodes) (sym e) m)
      same_way a b e (inr (inl h)) = inr (inl (ap (λ c. c.http) e ∙ h))
      same_way a b e (inr (inr i)) = inr (inr ((start_indexer-none_iff cfg.indexer).1 i))
