-- ===== src/Algod/Submits/Statuses.antt =====
-- The statuses that are submitted when a node reports its own: `updateStatus` and
-- `updateStatusAfter` of internal/algod/node.go.
use algo_vnode.Prelude.{
  ℕ, Bool-cases, ◌≡◌, ◌≢◌, refl, ap, Bool, true, false, List, Option, none, some, inl, inr, GoError,
  arith, if◌then◌else◌,
}
use algo_vnode.Algod.Client.{
  Reply, Call, ask_status, use_status, after_status, update_status, is_canceled,
}
use algo_vnode.Algod.Cluster.{get_latest_round}
use algo_vnode.Algod.Float.{Float}
use algo_vnode.Algod.Loop.{
  update_status_after, ask_status_after, after_status_after, use_status_after,
}
use algo_vnode.Algod.Node.{set_state, update_rtt, update_with_status}
use algo_vnode.Algod.State.{NodeState, Status, Cluster, failing}
use algo_vnode.Algod.Submits.{NoNil, OutcomeKeeps, During, call-During, set_latest_round-NoNil}
use algo_vnode.Algod.Submits.Calls.{Any, All-Any, HasStatus}
use algo_vnode.BlockCache.Lru.{Lru}
use algo_vnode.Utils.Backoff.Keeps.{ResultKeeps}

module _ (fl : Float) (lru : Lru) {C : Type 0} (now i : ℕ) where
  pub set_state-NoNil :
      (st : NodeState) (gs : Cluster fl lru C)
      → NoNil fl lru gs
      → NoNil fl lru (set_state fl lru now i st gs)
  unfolding set_state
  set_state-NoNil st gs p = ground (arith, p)

  update_with_status-NoNil :
      (st : Status) (gs : Cluster fl lru C)
      → NoNil fl lru gs
      → NoNil fl lru (update_with_status fl lru now i st gs).0
  unfolding update_with_status set_state
  update_with_status-NoNil st gs p = ground (arith, p)

  update_with_status-HasStatus :
      (st : Status) (gs : Cluster fl lru C)
      → (update_with_status fl lru now i st gs).1 ≡ true
      → HasStatus fl lru now i (update_with_status fl lru now i st gs).0
  unfolding update_with_status
  update_with_status-HasStatus st gs e = ground arith

  use_status-NoNil :
      (st : Option Status) (gs : Cluster fl lru C)
      → NoNil fl lru gs
      → OutcomeKeeps fl lru (NoNil fl lru) (use_status fl lru now i st gs)
  unfolding use_status
  use_status-NoNil none gs p = tt
  use_status-NoNil (some st) gs p =
      let r = update_with_status fl lru now i st gs in
      let first = update_with_status-NoNil st gs p in
      elim (Bool-cases r.1) [
        | inr e ↦ rw (e, use_status) first
        | inl e ↦
            rw (e, use_status)
              (set_latest_round-NoNil fl lru now (r.0.nodes i).latest_round i r.0
                (inl (update_with_status-HasStatus st gs e)) first)
      ]

  after_status-NoNil :
      (r : Option (Option GoError × Call fl lru C Status Status))
      → ResultKeeps (During fl lru (NoNil fl lru) Any Any) r
      → OutcomeKeeps fl lru (NoNil fl lru) (after_status fl lru now i r)
  unfolding after_status
  after_status-NoNil none d = tt
  after_status-NoNil (some (some e, s)) d = d.holds
  after_status-NoNil (some (none, s)) d = use_status-NoNil s.got s.gs d.holds

  pub update_status-NoNil :
      (replies : List (Reply Status)) (gs : Cluster fl lru C)
      → NoNil fl lru gs
      → OutcomeKeeps fl lru (NoNil fl lru) (update_status fl lru now i replies gs)
  unfolding update_status ask_status update_rtt
  update_status-NoNil replies gs p = after_status-NoNil _ (
      call-During fl lru _ _ (NoNil fl lru) Any Any (λ e s h. set_state-NoNil failing s h)
        (λ st us s q h. (h, tt)) 0 gs replies p (All-Any replies))

  -- A round that is not 0 comes with a status.
  abbrev pub Answered : Option (Cluster fl lru C × ℕ) → Type 0
  Answered none = Unit {0}
  Answered (some (gs, lr)) = NoNil fl lru gs × (lr ≢ 0 → HasStatus fl lru now i gs)

  unless :
      (b : Bool) (s : Cluster fl lru C)
      → NoNil fl lru s
      → NoNil fl lru (if b then s else set_state fl lru now i failing s)
  unless true s p = p
  unless false s p = set_state-NoNil failing s p

  use_status_after-Answered :
      (lr : ℕ) (st : Option Status) (gs : Cluster fl lru C)
      → NoNil fl lru gs
      → Answered (use_status_after fl lru now i lr st gs)
  unfolding use_status_after
  use_status_after-Answered lr none gs p = tt
  use_status_after-Answered lr (some st) gs p =
      elim (Bool-cases (update_with_status fl lru now i st gs).1) [
        | inl e ↦ (update_with_status-NoNil st gs p, λ n. update_with_status-HasStatus st gs e)
        | inr e ↦ (
          update_with_status-NoNil st gs p,
          λ n. absurd (n (ap (λ (b : Bool). if b then lr else 0) e)),
        )
      ]

  after_status_after-Answered :
      (lr : ℕ) (r : Option (Option GoError × Call fl lru C Status Status))
      → ResultKeeps (During fl lru (NoNil fl lru) Any Any) r
      → Answered (after_status_after fl lru now i lr r)
  unfolding after_status_after
  after_status_after-Answered lr none d = tt
  after_status_after-Answered lr (some (some e, s)) d = (d.holds, λ n. absurd (n refl))
  after_status_after-Answered lr (some (none, s)) d =
      use_status_after-Answered lr s.got s.gs d.holds

  pub update_status_after-Answered :
      (replies : List (Reply Status)) (gs : Cluster fl lru C)
      → NoNil fl lru gs
      → Answered (update_status_after fl lru now i replies gs)
  unfolding update_status_after ask_status_after
  update_status_after-Answered replies gs p =
      after_status_after-Answered (get_latest_round fl lru gs) _ (
        call-During fl lru _ _ (NoNil fl lru) Any Any (λ e s h. unless (is_canceled e) s h)
          (λ st us s q h. (h, tt)) 10 gs replies p (All-Any replies))
