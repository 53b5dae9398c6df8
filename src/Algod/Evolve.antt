-- ===== src/Algod/Evolve.antt =====
-- What no operation of a node undoes: the latest round of the cluster never falls, its genesis
-- stays once it is set, and no node gets another genesis than the cluster's.
pub mod Calls
pub mod Fetches
pub mod Boot
use mathlib.Core.Option
use algo_vnode.Prelude.{
  ℕ, ◌≤◌, ◌||◌, not, Bool-cases, ◌≡◌, ◌≢◌, refl, sym, ◌∙◌, subst, Bool, true, false, List, [], ◌∷◌,
  Option, none, some, String, GoError, arith, update, Option-cases, List-cases, inl, inr,
  str_eq_iff, Result, ok, err,
}
use algo_vnode.Algod.Client.{
  Reply, reply, refused, Call, attempt, call, call_ctx, ask_status, update_status,
}
use algo_vnode.Algod.Cluster.{set_latest_round, ensure_genesis, sink_error}
use algo_vnode.Algod.Float.{Float}
use algo_vnode.Algod.Node.{set_state, update_rtt, update_with_status, cache_block, block_sink}
use algo_vnode.Algod.State.{Status, Node, Cluster, set_node}
use algo_vnode.BlockCache.Lru.{Lru}
use algo_vnode.BlockCache.Unified
use algo_vnode.BlockFetcher.Make.{Codec, make_block_wrap}
use algo_vnode.BlockFetcher.Wrap.{BlockWrap, error_wrap}
use algo_vnode.Utils.Backoff.{Attempt}
use algo_vnode.Utils.Backoff.Keeps.{backoff-Keeps, ResultKeeps}

module _ (fl : Float) (lru : Lru) {C : Type 0} where
  -- Every node that has a genesis has the cluster's.
  abbrev pub GenesisIsOne : Cluster fl lru C → Type 0
  GenesisIsOne gs = (j : ℕ) → (gs.nodes j).genesis ≢ "" → (gs.nodes j).genesis ≡ gs.genesis

  pub record Evolves (gs gs' : Cluster fl lru C) : Type 0 where
    pub later : gs.latest_round ≤ gs'.latest_round
    pub genesis_kept : gs.genesis ≢ "" → gs'.genesis ≡ gs.genesis
    pub one_genesis : GenesisIsOne gs → GenesisIsOne gs'

  pub Evolves-refl : (gs : Cluster fl lru C) → Evolves gs gs
  Evolves-refl gs = record { later = omega arith; genesis_kept = λ _. refl; one_genesis = λ ok. ok }

  pub Evolves-trans : (f g h : Cluster fl lru C) → Evolves f g → Evolves g h → Evolves f h
  Evolves-trans f g h p q = record {
    later = omega (arith, p.later, q.later);
    genesis_kept = λ n. q.genesis_kept (λ e. n (sym (p.genesis_kept n) ∙ e)) ∙ p.genesis_kept n;
    one_genesis = λ ok. q.one_genesis (p.one_genesis ok);
  }

  module _ (now i : ℕ) where
    pub set_state-Evolves :
        (st : _) (gs : Cluster fl lru C) → Evolves gs (set_state fl lru now i st gs)
    unfolding set_state
    set_state-Evolves st gs = record {
      later = ground arith;
      genesis_kept = λ n. ground arith;
      one_genesis = λ ok j n. ground (arith, ok j);
    }

    pub update_rtt-Evolves :
        (us : ℕ) (gs : Cluster fl lru C) → Evolves gs (update_rtt fl lru now i us gs)
    unfolding update_rtt
    update_rtt-Evolves us gs = record {
      later = ground arith;
      genesis_kept = λ n. ground arith;
      one_genesis = λ ok j n. ground (arith, ok j);
    }

    pub update_with_status-Evolves :
        (st : Status) (gs : Cluster fl lru C) → Evolves gs (update_with_status fl lru now i st gs).0
    unfolding update_with_status
    update_with_status-Evolves st gs = record {
      later = ground arith;
      genesis_kept = λ n. ground arith;
      one_genesis = λ ok j n. ground (arith, ok j);
    }

    pub set_latest_round-Evolves :
        (lr : ℕ) (gs : Cluster fl lru C) → Evolves gs (set_latest_round fl lru now lr i gs).0
    unfolding set_latest_round
    set_latest_round-Evolves lr gs = record {
      later = ground arith;
      genesis_kept = λ n. ground arith;
      one_genesis = λ ok j n. ground (arith, ok j);
    }

  pub ensure_genesis-Evolves :
      (g : String) (gs : Cluster fl lru C) → Evolves gs (ensure_genesis fl lru g gs).0
  unfolding ensure_genesis
  ensure_genesis-Evolves g gs = record {
    later = ground arith;
    genesis_kept = λ n. ground (arith, str_eq_iff gs.genesis "");
    one_genesis = λ ok j n. ground (arith, ok j, str_eq_iff gs.genesis "");
  }

  -- The same of the outcome of an operation, if it has one.
  abbrev pub OutcomeEvolves :
      {A : Type 0} → Cluster fl lru C → Option (Cluster fl lru C × A) → Type 0
  OutcomeEvolves gs none = Unit {0}
  OutcomeEvolves gs (some (gs', a)) = Evolves gs gs'

  module _ {A B : Type 0} (on_error : GoError → Cluster fl lru C → Attempt × Cluster fl lru C)
      (on_reply : A → ℕ → Cluster fl lru C → (Attempt × Cluster fl lru C) × Option B)
      (errors_ok : (e : GoError) (gs : Cluster fl lru C) → Evolves gs (on_error e gs).1)
      (replies_ok : (x : A) (us : ℕ) (gs : Cluster fl lru C)
        → Evolves gs (on_reply x us gs).0.1) where
    attempt-Evolves :
        (timeout : ℕ) (s : Call fl lru C A B)
        → Evolves s.gs (attempt fl lru on_error on_reply timeout s).1.gs
    unfolding attempt
    attempt-Evolves timeout s = elim (List-cases s.replies) [
      | inl e ↦ rw (e, attempt) (Evolves-refl s.gs)
      | inr (refused x, rest, e) ↦ rw (e, attempt) (errors_ok x s.gs)
      | inr (reply x us, rest, e) ↦ rw (e, attempt) (replies_ok x us s.gs)
    ]

    pub call-Evolves :
        (tries : ℕ) (gs : Cluster fl lru C) (replies : List (Reply A))
        → ResultKeeps (λ s. Evolves gs s.gs) (call fl lru on_error on_reply tries gs replies)
    unfolding call
    call-Evolves tries gs replies =
        backoff-Keeps _ _ _ (λ s. Evolves gs s.gs)
          (λ timeout s p. Evolves-trans gs s.gs _ p (attempt-Evolves timeout s)) (λ wait s p. p) _ _
          _ _ _ _ (Evolves-refl gs)

  pub set_node-Evolves :
      (i : ℕ) (n : Node fl) (gs : Cluster fl lru C)
      → n.genesis ≡ (gs.nodes i).genesis
      → Evolves gs (set_node fl i n gs)
  set_node-Evolves i n gs e = record {
    later = omega arith;
    genesis_kept = λ _. refl;
    one_genesis = λ ok j h. ground (arith, ok j);
  }

  -- A change of the cache alone.
  cache-Evolves :
      {A : Type 0} (a : A) (gs : Cluster fl lru C) (r : Option (Unified.Unified lru C))
      → OutcomeEvolves gs (Option.map (λ u. (record gs { ucache = u }, a)) r)
  cache-Evolves a gs none = tt
  cache-Evolves a gs (some u) = record {
    later = omega arith;
    genesis_kept = λ _. refl;
    one_genesis = λ ok. ok;
  }

  pub Outcome-trans :
      {A : Type 0} (f g : Cluster fl lru C) (r : Option (Cluster fl lru C × A))
      → Evolves f g
      → OutcomeEvolves g r
      → OutcomeEvolves f r
  Outcome-trans f g none p q = tt
  Outcome-trans f g (some (h, a)) p q = Evolves-trans f g h p q

  cache_block-Evolves :
      (now i : ℕ) (r : Option (Result (BlockWrap C))) (gs : Cluster fl lru C)
      → OutcomeEvolves gs (cache_block fl lru now i r gs)
  unfolding cache_block
  cache_block-Evolves now i none gs = tt
  cache_block-Evolves now i (some (err e)) gs = Evolves-refl gs
  cache_block-Evolves now i (some (ok bw)) gs =
      cache-Evolves true gs (Unified.add_block lru gs.ucache bw)

  pub block_sink-Evolves :
      (now i : ℕ) (cd : Codec C) (block : C) (raw : List ℕ) (gs : Cluster fl lru C)
      → OutcomeEvolves gs (block_sink fl lru now i cd block raw gs)
  unfolding block_sink
  block_sink-Evolves now i cd block raw gs =
      let r = set_latest_round fl lru now (cd.round_of block) i gs in
      let first = set_latest_round-Evolves now i (cd.round_of block) gs in
      let bw = make_block_wrap cd now (r.0.nodes i).cfg.id block raw in
      elim (Bool-cases (r.1 || not (Unified.is_block_cached lru r.0.ucache (cd.round_of block)))) [
        | inl e ↦
            rw (e, block_sink)
              (Outcome-trans gs r.0 (cache_block fl lru now i bw r.0) first
                (cache_block-Evolves now i bw r.0))
        | inr e ↦ rw (e, block_sink) first
      ]

  pub cache_map-Evolves :
      {A : Type 0} (a : A) (gs : Cluster fl lru C) (r : Option (Unified.Unified lru C))
      → OutcomeEvolves gs
          (Option.map (λ gs'. (gs', a)) (Option.map (λ u. record gs { ucache = u }) r))
  cache_map-Evolves a gs none = tt
  cache_map-Evolves a gs (some u) = record {
    later = omega arith;
    genesis_kept = λ _. refl;
    one_genesis = λ ok. ok;
  }

  pub map-Evolves :
      {A B : Type 0} (f : A → B) (gs : Cluster fl lru C) (r : Option (Cluster fl lru C × A))
      → OutcomeEvolves gs r
      → OutcomeEvolves gs (Option.map (λ p. (p.0, f p.1)) r)
  map-Evolves f gs none p = tt
  map-Evolves f gs (some (g, a)) p = p
