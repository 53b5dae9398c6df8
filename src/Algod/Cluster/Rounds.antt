-- ===== src/Algod/Cluster/Rounds.antt =====
-- The latest round and the genesis of the cluster.
use algo_vnode.Prelude.{
  ℕ, max, ◌<◌, ◌≡◌, ◌≢◌, refl, sym, ◌∙◌, true, false, List, [], ◌∷◌, Option, none, some, String,
  GoError, arith, ltb, ◌↔◌, Bool-cases, inl, inr, str_eq_iff,
}
use algo_vnode.Algod.Cluster.{set_latest_round, ensure_genesis}
use algo_vnode.Algod.Float.{Float}
use algo_vnode.Algod.State.{Cluster}
use algo_vnode.BlockCache.Lru.{Lru}

-- Every genesis of the list that is not empty and was accepted is the one at the end.
abbrev pub Agree : String → List String → List (Option GoError) → Type 0
Agree final (g ∷ l) (e ∷ es) = (g ≢ "" → e ≡ none → g ≡ final) × Agree final l es
Agree final _ _ = Unit {0}

module _ (fl : Float) (lru : Lru) {C : Type 0} where
  -- The latest round is the largest one that was ever reported: a report of a larger round wins,
  -- names its node and submits that node's status to the broadcaster, and any other changes
  -- nothing.
  pub set_latest_round-max :
      (now lr src : ℕ) (gs : Cluster fl lru C)
      → let (gs', won) = set_latest_round fl lru now lr src gs in
        (gs'.latest_round ≡ max gs.latest_round lr)
        × ((won ≡ true) ↔ (gs.latest_round < lr))
        × (won ≡ true
            → (gs'.last_src ≡ some src)
              × (gs'.submitted ≡ (gs.nodes src).last_status ∷ gs.submitted))
        × (won ≡ false → gs' ≡ gs)
  unfolding set_latest_round
  set_latest_round-max now lr src gs = elim (Bool-cases (ltb gs.latest_round lr)) [
    | inl h ↦
        rw (h, set_latest_round)
          (ground arith, (λ _. ground arith, λ _. refl), λ _. (refl, refl), λ e. ground arith)
    | inr h ↦
        rw (h, set_latest_round)
          (ground arith, (λ e. ground arith, λ l. ground arith), λ e. ground arith, λ _. refl)
  ]

  -- The genesis after each of a list of nodes has reported its own, with the answers.
  pub ensure_all : List String → Cluster fl lru C → Cluster fl lru C × List (Option GoError)
  ensure_all [] gs = (gs, [])
  ensure_all (g ∷ rest) gs =
      let (gs₁, e) = ensure_genesis fl lru g gs in
      let (gs₂, es) = ensure_all rest gs₁ in (gs₂, e ∷ es)

  ensure_genesis_kept :
      (g : String) (gs : Cluster fl lru C)
      → gs.genesis ≢ ""
      → (ensure_genesis fl lru g gs).0.genesis ≡ gs.genesis
  unfolding ensure_genesis
  ensure_genesis_kept g gs h = ground (arith, str_eq_iff gs.genesis "", str_eq_iff gs.genesis g)

  pub ensure_genesis_accepted :
      (g : String) (gs : Cluster fl lru C)
      → (ensure_genesis fl lru g gs).1 ≡ none
      → (ensure_genesis fl lru g gs).0.genesis ≡ g
  unfolding ensure_genesis
  ensure_genesis_accepted g gs h = ground (arith, str_eq_iff gs.genesis "", str_eq_iff gs.genesis g)

  ensure_all_kept :
      (l : List String) (gs : Cluster fl lru C)
      → gs.genesis ≢ ""
      → (ensure_all l gs).0.genesis ≡ gs.genesis
  unfolding ensure_all
  ensure_all_kept [] gs h = refl
  ensure_all_kept (g ∷ rest) gs h =
      let e = ensure_genesis_kept g gs h in
      ensure_all_kept rest (ensure_genesis fl lru g gs).0 (λ p. h (sym e ∙ p)) ∙ e

  -- Whatever genesis the nodes of a cluster report, and in whatever order, all those that are
  -- accepted and not empty are the same, namely the one of the cluster at the end.
  pub ensure_all-Agree :
      (l : List String) (gs : Cluster fl lru C)
      → let (gs', es) = ensure_all l gs in Agree gs'.genesis l es
  unfolding ensure_all
  ensure_all-Agree [] gs = tt
  ensure_all-Agree (g ∷ rest) gs =
      let gs₁ = (ensure_genesis fl lru g gs).0 in
      (
        λ h e.
            let p = ensure_genesis_accepted g gs e in
            sym (ensure_all_kept rest gs₁ (λ q. h (sym p ∙ q)) ∙ p),
        ensure_all-Agree rest gs₁,
      )
