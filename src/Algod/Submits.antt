-- ===== src/Algod/Submits.antt =====
-- What a call of a node's client and the caching of a block leave of the statuses that the cluster
-- gives to its broadcaster: `TrySubmit` in `SetLatestRound` of internal/algod/cluster.go.
pub mod Calls
pub mod Statuses
pub mod Runs
pub mod Histories
pub mod Nil
use mathlib.Core.Option
use algo_vnode.Prelude.{
  ℕ, ◌≤◌, ◌<◌, ◌||◌, not, Bool-cases, ◌≡◌, ◌≢◌, refl, subst, Bool, true, false, List, Option, none,
  some, ◌⊎◌, inl, inr, GoError, arith, List-cases, Result, ok, err, All, ltb, ◌==◌, update,
}
use algo_vnode.Algod.Client.{Reply, reply, refused, Call, attempt, call, call_ctx}
use algo_vnode.Algod.Cluster.{set_latest_round, sink_error}
use algo_vnode.Algod.Float.{Float}
use algo_vnode.Algod.Node.{cache_block, block_sink}
use algo_vnode.Algod.State.{Status, Cluster}
use algo_vnode.BlockCache.Lru.{Lru}
use algo_vnode.BlockCache.Unified
use algo_vnode.BlockFetcher.Make.{Codec, make_block_wrap}
use algo_vnode.BlockFetcher.Wrap.{BlockWrap}
use algo_vnode.Utils.Backoff.{Attempt}
use algo_vnode.Utils.Backoff.Keeps.{backoff-Keeps, ResultKeeps}

-- A predicate of what a call has got, if it has.
abbrev pub GotKeeps : {B : Type 0} → (B → Type 0) → Option B → Type 0
GotKeeps G none = Unit {0}
GotKeeps G (some b) = G b

module _ (fl : Float) (lru : Lru) {C : Type 0} where
  -- Every status that was submitted is there: none is nil.
  abbrev pub NoNil : Cluster fl lru C → Type 0
  NoNil gs = All (λ (o : Option Status). o ≢ none) gs.submitted

  -- A predicate of the cluster at the end of an operation, if it has one.
  abbrev pub OutcomeKeeps :
      {A : Type 0} → (Cluster fl lru C → Type 0) → Option (Cluster fl lru C × A) → Type 0
  OutcomeKeeps P none = Unit {0}
  OutcomeKeeps P (some (gs, a)) = P gs

  -- During a call: the cluster, the replies to come and what was got.
  pub record During {A B : Type 0} (P : Cluster fl lru C → Type 0) (Q : Reply A → Type 0)
      (G : B → Type 0) (s : Call fl lru C A B) : Type 0 where
    pub holds : P s.gs
    pub coming : All Q s.replies
    pub good : GotKeeps G s.got

  module _ {A B : Type 0} (on_error : GoError → Cluster fl lru C → Attempt × Cluster fl lru C)
      (on_reply : A → ℕ → Cluster fl lru C → (Attempt × Cluster fl lru C) × Option B)
      (P : Cluster fl lru C → Type 0) (Q : Reply A → Type 0) (G : B → Type 0)
      (errors_ok : (e : GoError) (gs : Cluster fl lru C) → P gs → P (on_error e gs).1)
      (replies_ok : (x : A) (us : ℕ) (gs : Cluster fl lru C)
        → Q (reply x us)
        → P gs
        → P (on_reply x us gs).0.1 × GotKeeps G (on_reply x us gs).1) where
    attempt-During :
        (timeout : ℕ) (s : Call fl lru C A B)
        → During P Q G s
        → During P Q G (attempt fl lru on_error on_reply timeout s).1
    unfolding attempt
    attempt-During timeout s d = elim (List-cases s.replies) [
      | inl e ↦ rw (e, attempt) d
      | inr (refused x, rest, e) ↦
          rw (e, attempt)
            (record {
              holds = errors_ok x s.gs d.holds;
              coming = (subst (All Q) e d.coming).1;
              good = d.good;
            })
      | inr (reply x us, rest, e) ↦
          let now_ok = replies_ok x us s.gs (subst (All Q) e d.coming).0 d.holds in
          rw (e, attempt)
            (record { holds = now_ok.0; coming = (subst (All Q) e d.coming).1; good = now_ok.1 })
    ]

    pub call-During :
        (tries : ℕ) (gs : Cluster fl lru C) (replies : List (Reply A))
        → P gs
        → All Q replies
        → ResultKeeps (During P Q G) (call fl lru on_error on_reply tries gs replies)
    unfolding call
    call-During tries gs replies p q =
        backoff-Keeps _ _ _ (During P Q G) attempt-During (λ wait s d. d) _ _ _ _ _ _
          (record { holds = p; coming = q; good = tt })

  -- A predicate that does not look at the cache.
  abbrev pub IgnoresCache : (Cluster fl lru C → Type 0) → Type 0
  IgnoresCache P =
      (gs : Cluster fl lru C) (u : Unified.Unified lru C) → P gs → P (record gs { ucache = u })

  module _ (P : Cluster fl lru C → Type 0) (free : IgnoresCache P) where
    cached-Keeps :
        {A : Type 0} (a : A) (gs : Cluster fl lru C) (r : Option (Unified.Unified lru C))
        → P gs
        → OutcomeKeeps P (Option.map (λ u. (record gs { ucache = u }, a)) r)
    cached-Keeps a gs none p = tt
    cached-Keeps a gs (some u) p = free gs u p

    cache_block-Keeps :
        (now i : ℕ) (r : Option (Result (BlockWrap C))) (gs : Cluster fl lru C)
        → P gs
        → OutcomeKeeps P (cache_block fl lru now i r gs)
    unfolding cache_block
    cache_block-Keeps now i none gs p = tt
    cache_block-Keeps now i (some (err e)) gs p = p
    cache_block-Keeps now i (some (ok bw)) gs p =
        cached-Keeps true gs (Unified.add_block lru gs.ucache bw) p

    -- `BlockSink` keeps what the report of the block's round keeps.
    pub block_sink-Keeps :
        (now i : ℕ) (cd : Codec C) (block : C) (raw : List ℕ) (gs : Cluster fl lru C)
        → P (set_latest_round fl lru now (cd.round_of block) i gs).0
        → OutcomeKeeps P (block_sink fl lru now i cd block raw gs)
    unfolding block_sink
    block_sink-Keeps now i cd block raw gs p =
        let r = set_latest_round fl lru now (cd.round_of block) i gs in
        let bw = make_block_wrap cd now (r.0.nodes i).cfg.id block raw in
        elim (Bool-cases
          (r.1 || not (Unified.is_block_cached lru r.0.ucache (cd.round_of block)))) [
            | inl e ↦ rw (e, block_sink) (cache_block-Keeps now i bw r.0 p)
            | inr e ↦ rw (e, block_sink) p
          ]

    pub sunk-Keeps :
        (round : ℕ) (e : Option GoError) (gs : Cluster fl lru C)
        → P gs
        → OutcomeKeeps P (Option.map (λ gs'. (gs', false)) (sink_error fl lru round e gs))
    unfolding sink_error
    sunk-Keeps round e gs p = mapped gs _ p
      where
        mapped :
            (gs : Cluster fl lru C) (r : Option (Unified.Unified lru C))
            → P gs
            → OutcomeKeeps P
                (Option.map (λ gs'. (gs', false)) (Option.map (λ u. record gs { ucache = u }) r))
        mapped gs none p = tt
        mapped gs (some u) p = free gs u p

  pub map-Keeps :
      {A B : Type 0} (P : Cluster fl lru C → Type 0) (f : A → B) (r : Option (Cluster fl lru C × A))
      → OutcomeKeeps P r
      → OutcomeKeeps P (Option.map (λ p. (p.0, f p.1)) r)
  map-Keeps P f none p = tt
  map-Keeps P f (some (g, a)) p = p

  -- A report by a node with a status, or of a round that is no news, submits no nil.
  pub set_latest_round-NoNil :
      (now lr i : ℕ) (gs : Cluster fl lru C)
      → ((gs.nodes i).last_status ≢ none) ⊎ (lr ≤ gs.latest_round)
      → NoNil gs
      → NoNil (set_latest_round fl lru now lr i gs).0
  unfolding set_latest_round
  set_latest_round-NoNil now lr i gs h p = elim (Bool-cases (ltb gs.latest_round lr)) [
    | inr e ↦ rw (e, set_latest_round) p
    | inl e ↦ elim h [ inl s ↦ rw (e, set_latest_round) (s, p) | inr le ↦ absurd (ground arith) ]
  ]
