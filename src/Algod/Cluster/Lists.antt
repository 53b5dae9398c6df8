-- ===== src/Algod/Cluster/Lists.antt =====
-- The node lists of the cluster: who is in them, and in which order.
use algo_vnode.Prelude.{
  insert_stable, sort_stable, ℕ, zero, suc, ◌+◌, ◌≡◌, refl, Bool, true, false, not, ◌&&◌, ==_iff,
  List, [], ◌∷◌, arith, ltb, leb, ◌==◌, if◌then◌else◌, All, Bool-cases, inl, inr,
}
use algo_vnode.Algod.Cluster.{node_ids, split_synced, faster, update_node_lists, is_synced}
use algo_vnode.Algod.Float.{Float}
use algo_vnode.Algod.State.{Cluster}
use algo_vnode.BlockCache.Lru.{Lru}

-- How often a number occurs.
pub count : ℕ → List ℕ → ℕ
count i [] = 0
count i (x ∷ xs) = if x == i then suc (count i xs) else count i xs

count-cons :
    (i x : ℕ) (xs : List ℕ) → count i (x ∷ xs) ≡ (if x == i then suc (count i xs) else count i xs)
unfolding count
count-cons i x xs = refl

module _ (less : ℕ → ℕ → Bool) where
  count-insert_stable :
      (i x : ℕ) (ys : List ℕ) → count i (insert_stable less x ys) ≡ count i (x ∷ ys)
  unfolding count insert_stable
  count-insert_stable i x [] = refl
  count-insert_stable i x (y ∷ ys) = ground (arith, count-insert_stable i x ys)

  count-sort_stable : (i : ℕ) (xs : List ℕ) → count i (sort_stable less xs) ≡ count i xs
  unfolding sort_stable
  count-sort_stable i [] = refl
  count-sort_stable i (x ∷ xs) = ground (
    arith,
    count-insert_stable i x (sort_stable less xs),
    count-sort_stable i xs,
    count-cons i x (sort_stable less xs),
    count-cons i x xs,
  )

-- No element is less than one that stands before it.
abbrev pub IsSorted : (ℕ → ℕ → Bool) → List ℕ → Type 0
IsSorted less [] = Unit
IsSorted less (x ∷ xs) = All (λ y. less y x ≡ false) xs × IsSorted less xs

module _ (less : ℕ → ℕ → Bool) (asym : (x y : ℕ) → less x y ≡ true → less y x ≡ false)
    (cotrans : (x y z : ℕ) → less y x ≡ false → less z y ≡ false → less z x ≡ false) where
  All-insert_stable :
      (P : ℕ → Type 0) (x : ℕ) (ys : List ℕ) → P x → All P ys → All P (insert_stable less x ys)
  unfolding insert_stable
  All-insert_stable P x [] p a = (p, tt)
  All-insert_stable P x (y ∷ ys) p a = ground (arith, All-insert_stable P x ys p a.1)

  All-above :
      (x y : ℕ) (ys : List ℕ)
      → less y x ≡ false
      → All (λ z. less z y ≡ false) ys
      → All (λ z. less z x ≡ false) ys
  All-above x y [] h a = tt
  All-above x y (z ∷ ys) h a = (cotrans x y z h a.0, All-above x y ys h a.1)

  insert_stable-IsSorted :
      (x : ℕ) (ys : List ℕ) → IsSorted less ys → IsSorted less (insert_stable less x ys)
  unfolding insert_stable
  insert_stable-IsSorted x [] s = (tt, tt)
  insert_stable-IsSorted x (y ∷ ys) s = elim (Bool-cases (less y x)) [
    | inl h ↦
        rw (h, insert_stable)
          (
            All-insert_stable (λ z. less z y ≡ false) x ys (asym y x h) s.0,
            insert_stable-IsSorted x ys s.1,
          )
    | inr h ↦ rw (h, insert_stable) ((h, All-above x y ys h s.0), s)
  ]

  pub sort_stable-IsSorted : (xs : List ℕ) → IsSorted less (sort_stable less xs)
  unfolding sort_stable
  sort_stable-IsSorted [] = tt
  sort_stable-IsSorted (x ∷ xs) =
      insert_stable-IsSorted x (sort_stable less xs) (sort_stable-IsSorted xs)

count-node_ids :
    (i first n : ℕ)
    → count i (node_ids first n) ≡ (if leb first i && ltb i (first + n) then 1 else 0)
unfolding count node_ids
count-node_ids i first zero = ground arith
count-node_ids i first (suc n) = ground (arith, count-node_ids i (suc first) n)

module _ (fl : Float) (lru : Lru) {C : Type 0} (gs : Cluster fl lru C) where
  count-split_synced :
      (i : ℕ) (is : List ℕ)
      → (count i (split_synced fl lru gs is).0
          ≡ (if is_synced (gs.nodes i).state && (gs.nodes i).catchup then count i is else 0))
        × (count i (split_synced fl lru gs is).1
            ≡ (if is_synced (gs.nodes i).state && not (gs.nodes i).catchup then count i is else 0))
  unfolding count split_synced
  count-split_synced i [] = ground arith
  count-split_synced i (j ∷ is) = elim (Bool-cases (j == i)) [
    | inl e ↦ rw ((==_iff j i).0 e) (ground (arith, count-split_synced i is))
    | inr e ↦ ground (arith, count-split_synced i is)
  ]

  -- After an update of the node lists, a node stands in the catchup list exactly once if it is one
  -- of the cluster's, is synced and is a catchup node, and not at all otherwise; and so in the
  -- archive list if it is none. Both lists are ordered by response time.
  pub update_node_lists_exact :
      let gs' = update_node_lists fl lru gs in
      ((i : ℕ)
        → let here = ltb i gs.node_count && is_synced (gs.nodes i).state in
          (count i gs'.catchup_nodes ≡ (if here && (gs.nodes i).catchup then 1 else 0))
          × (count i gs'.arch_nodes ≡ (if here && not (gs.nodes i).catchup then 1 else 0)))
      × IsSorted (faster fl lru gs) gs'.catchup_nodes
      × IsSorted (faster fl lru gs) gs'.arch_nodes
  unfolding update_node_lists
  update_node_lists_exact = (
    λ i. ground (
      arith,
      count-sort_stable (faster fl lru gs) i (split_synced fl lru gs (node_ids 0 gs.node_count)).0,
      count-sort_stable (faster fl lru gs) i (split_synced fl lru gs (node_ids 0 gs.node_count)).1,
      count-split_synced i (node_ids 0 gs.node_count),
      count-node_ids i 0 gs.node_count,
    ),
    sort_stable-IsSorted (faster fl lru gs) (λ x y. fl.lt_asym _ _) (λ x y z. fl.lt_cotrans _ _ _)
        _,
    sort_stable-IsSorted (faster fl lru gs) (λ x y. fl.lt_asym _ _) (λ x y z. fl.lt_cotrans _ _ _)
        _,
  )
