-- ===== src/Algod/Submits/Calls.antt =====
-- The statuses that are submitted while a block is fetched or a status is asked for:
-- internal/algod/node.go.
use algo_vnode.Prelude.{
  ℕ, ◌≤◌, [], ◌∷◌, ◌≡◌, ◌≢◌, true, List, Option, none, some, inl, inr, GoError, arith, Result-cases,
  ok, All,
}
use algo_vnode.Algod.Client.{Reply, reply, refused, Call}
use algo_vnode.Algod.Cluster.{set_latest_round}
use algo_vnode.Algod.Float.{Float}
use algo_vnode.Algod.Loop.{decode_block, ask_block, use_block, after_block, fetch_block_raw}
use algo_vnode.Algod.Node.{update_rtt}
use algo_vnode.Algod.State.{Cluster}
use algo_vnode.Algod.Submits.{
  NoNil, OutcomeKeeps, GotKeeps, During, call-During, IgnoresCache, block_sink-Keeps, sunk-Keeps,
  map-Keeps, set_latest_round-NoNil,
}
use algo_vnode.BlockCache.Lru.{Lru}
use algo_vnode.BlockFetcher.Make.{Codec}
use algo_vnode.Utils.Backoff.Keeps.{ResultKeeps}

-- A reply that decodes to a block of the round it was asked for.
abbrev pub IsOfRound : {C : Type 0} → Codec C → ℕ → Reply (List ℕ) → Type 0
IsOfRound cd round (refused e) = Unit {0}
IsOfRound {C} cd round (reply raw us) =
    (block : C) → cd.decode raw ≡ ok block → cd.round_of block ≡ round

abbrev pub Any : {A : Type 0} → A → Type 0
Any a = Unit {0}

pub All-Any : {A : Type 0} (xs : List A) → All Any xs
All-Any [] = tt
All-Any (x ∷ xs) = (tt, All-Any xs)

module _ (fl : Float) (lru : Lru) {C : Type 0} (now i : ℕ) (cd : Codec C)
    (P : Cluster fl lru C → Type 0) (Q : Reply (List ℕ) → Type 0) (G : C × List ℕ → Type 0)
    (free : IgnoresCache fl lru P)
    (timed : (us : ℕ) (gs : Cluster fl lru C) → P gs → P (update_rtt fl lru now i us gs))
    (decoded : (raw : List ℕ) (us : ℕ) (block : C)
      → cd.decode raw ≡ ok block
      → Q (reply raw us)
      → G (block, raw))
    (reported : (block : C) (raw : List ℕ) (gs : Cluster fl lru C)
      → G (block, raw)
      → P gs
      → P (set_latest_round fl lru now (cd.round_of block) i gs).0) where
  decode_block-Keeps :
      (rb : List ℕ) (us : ℕ) (gs : Cluster fl lru C)
      → Q (reply rb us)
      → P gs
      → P (decode_block fl lru now i cd rb us gs).0.1
        × GotKeeps G (decode_block fl lru now i cd rb us gs).1
  unfolding decode_block
  decode_block-Keeps rb us gs q p = elim (Result-cases (cd.decode rb)) [
    | inl (y, f) ↦ rw (f, decode_block) (timed us gs p, tt)
    | inr (block, f) ↦ rw (f, decode_block) (timed us gs p, decoded rb us block f q)
  ]

  used :
      (got : Option (C × List ℕ)) (gs : Cluster fl lru C)
      → GotKeeps G got
      → P gs
      → OutcomeKeeps fl lru P (use_block fl lru now i cd got gs)
  unfolding use_block
  used none gs g p = tt
  used (some (block, rb)) gs g p =
      map-Keeps fl lru P (λ _. true) _
        (block_sink-Keeps fl lru P free now i cd block rb gs (reported block rb gs g p))

  -- What a fetch of a block keeps.
  pub fetch_block_raw-Keeps :
      (round : ℕ) (replies : List (Reply (List ℕ))) (gs : Cluster fl lru C)
      → All Q replies
      → P gs
      → OutcomeKeeps fl lru P (fetch_block_raw fl lru now i cd round replies gs)
  unfolding fetch_block_raw ask_block after_block
  fetch_block_raw-Keeps round replies gs q p = after _ (
      call-During fl lru _ _ P Q G (λ e s h. h) (λ x us s q h. decode_block-Keeps x us s q h) 10 gs
        replies p q)
    where
      after :
          (r : Option (Option GoError × Call fl lru C (List ℕ) (C × List ℕ)))
          → ResultKeeps (During fl lru P Q G) r
          → OutcomeKeeps fl lru P (after_block fl lru now i cd round r)
      after none d = tt
      after (some (some e, s)) d = sunk-Keeps fl lru P free round (some e) s.gs d.holds
      after (some (none, s)) d = used s.got s.gs d.good d.holds

module _ (fl : Float) (lru : Lru) {C : Type 0} (now i : ℕ) where
  -- The node `i` has a status.
  abbrev pub HasStatus : Cluster fl lru C → Type 0
  HasStatus gs = (gs.nodes i).last_status ≢ none

  -- A round that the cluster knows.
  abbrev pub Known : ℕ → Cluster fl lru C → Type 0
  Known round gs = round ≤ gs.latest_round

  set_latest_round-HasStatus :
      (lr : ℕ) (gs : Cluster fl lru C)
      → HasStatus gs
      → HasStatus (set_latest_round fl lru now lr i gs).0
  unfolding set_latest_round
  set_latest_round-HasStatus lr gs h = ground arith

  set_latest_round-Known :
      (lr round : ℕ) (gs : Cluster fl lru C)
      → Known round gs
      → Known round (set_latest_round fl lru now lr i gs).0
  unfolding set_latest_round
  set_latest_round-Known lr round gs h = ground arith

  timed-HasStatus :
      (us : ℕ) (gs : Cluster fl lru C)
      → NoNil fl lru gs × HasStatus gs
      → NoNil fl lru (update_rtt fl lru now i us gs) × HasStatus (update_rtt fl lru now i us gs)
  unfolding update_rtt
  timed-HasStatus us gs p = (p.0, ground (arith, p.1))

  timed-Known :
      (round us : ℕ) (gs : Cluster fl lru C)
      → NoNil fl lru gs × Known round gs
      → NoNil fl lru (update_rtt fl lru now i us gs) × Known round (update_rtt fl lru now i us gs)
  unfolding update_rtt
  timed-Known round us gs p = p

  module _ (cd : Codec C) where
    -- A node that has a status may send any block.
    pub fetch-HasStatus :
        (round : ℕ) (replies : List (Reply (List ℕ))) (gs : Cluster fl lru C)
        → NoNil fl lru gs × HasStatus gs
        → OutcomeKeeps fl lru
            (λ gs. NoNil fl lru gs × HasStatus gs)
            (fetch_block_raw fl lru now i cd round replies gs)
    fetch-HasStatus round replies gs p =
        fetch_block_raw-Keeps fl lru now i cd (λ gs. NoNil fl lru gs × HasStatus gs) Any Any
          (λ gs u p. p) timed-HasStatus (λ raw us block e q. tt)
          (λ block raw gs g p.
            let lr = cd.round_of block in
            (
              set_latest_round-NoNil fl lru now lr i gs (inl p.1) p.0,
              set_latest_round-HasStatus lr gs p.1,
            ))
          round replies gs (All-Any replies) p

    -- A node without one must send the block that it is asked for, of a round that is known.
    pub fetch-Known :
        (round : ℕ) (replies : List (Reply (List ℕ))) (gs : Cluster fl lru C)
        → All (IsOfRound cd round) replies
        → NoNil fl lru gs × Known round gs
        → OutcomeKeeps fl lru
            (λ gs. NoNil fl lru gs × Known round gs)
            (fetch_block_raw fl lru now i cd round replies gs)
    fetch-Known round replies gs q p =
        fetch_block_raw-Keeps fl lru now i cd (λ gs. NoNil fl lru gs × Known round gs)
          (IsOfRound cd round) (λ (b : C × List ℕ). cd.round_of b.0 ≡ round) (λ gs u p. p)
          (timed-Known round) (λ raw us block e q. q block e)
          (λ block raw gs g p.
            let lr = cd.round_of block in
            let no_news : lr ≤ gs.latest_round = omega (arith, g, p.1) in
            (
              set_latest_round-NoNil fl lru now lr i gs (inr no_news) p.0,
              set_latest_round-Known lr round gs p.1,
            ))
          round replies gs q p
