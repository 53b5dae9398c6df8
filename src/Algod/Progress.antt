-- ===== src/Algod/Progress.antt =====
-- What the operations of a node and of the cluster achieve.
use algo_vnode.Prelude.{
  ℕ, ◌≤◌, ◌<◌, ◌≡◌, ◌≢◌, refl, max, inl, inr, Bool-cases, true, false, List, [], ◌∷◌, ◌++◌, map,
  Option, List-cases, none, some, GoError, arith, ltb, if◌then◌else◌, All, length,
}
use algo_vnode.Algod.Blocks.{try_nodes, load_block_sync, await_status}
use algo_vnode.Algod.Client.{Reply, reply, refused, Call, attempt, call, call_ctx}
use algo_vnode.Algod.Float.{Float}
use algo_vnode.Algod.Node.{set_state, same_state, update_with_status}
use algo_vnode.Algod.State.{
  Status, Cluster, NodeState, config, booting, syncing, synced, failing, failed,
}
use algo_vnode.BlockCache.Lru.{Lru}
use algo_vnode.BlockFetcher.Make.{Codec}
use algo_vnode.Utils.Backoff.{Attempt}
use algo_vnode.Utils.Backoff.Keeps.{backoff_ends_by}

-- Statuses that are there, with rounds up to `n`.
abbrev pub UpTo : ℕ → List Status → Type 0
UpTo n = All (λ e. e.last_round ≤ n)

-- What a wait for a round larger than `n` comes to, from what is broadcast: a status, the end of
-- the context, or a panic.
pub data Awaits (n : ℕ) : List (Option Status) → Option (Option Status) → Type 0 where
  -- The first later status is returned, before which no nil comes.
  comes :
      (before : List Status) (st : Status) (after : List (Option Status))
      → UpTo n before
      → n < st.last_round
      → Awaits n (map some before ++ some st ∷ after) (some (some st))
  -- No later status comes.
  ends : (all : List Status) → UpTo n all → Awaits n (map some all) (some none)
  -- A nil comes before any later status.
  panics :
      (before : List Status) (after : List (Option Status))
      → UpTo n before
      → Awaits n (map some before ++ none ∷ after) none

Awaits-later :
    (n : ℕ) (st : Status) (events : List (Option Status)) (r : Option (Option Status))
    → st.last_round ≤ n
    → Awaits n events r
    → Awaits n (some st ∷ events) r
Awaits-later n st _ _ l (comes before x after up lt) = comes (st ∷ before) x after (l, up) lt
Awaits-later n st _ _ l (ends all up) = ends (st ∷ all) (l, up)
Awaits-later n st _ _ l (panics before after up) = panics (st ∷ before) after (l, up)

pub await_status-Awaits :
    (round : ℕ) (events : List (Option Status)) → Awaits round events (await_status round events)
unfolding await_status
await_status-Awaits round [] = ends [] tt
await_status-Awaits round (none ∷ rest) = panics [] rest tt
await_status-Awaits round (some st ∷ rest) = elim (Bool-cases (ltb round st.last_round)) [
  | inl h ↦ rw (h, await_status) (comes [] st rest tt (ground arith))
  | inr h ↦
      rw (h, await_status)
        (Awaits-later round st rest _ (ground arith) (await_status-Awaits round rest))
]

same_state-eq : (a b : NodeState) → same_state a b ≡ true → b ≡ a
same_state-eq config b h = ground arith
same_state-eq booting b h = ground arith
same_state-eq syncing b h = ground arith
same_state-eq synced b h = ground arith
same_state-eq failing b h = ground arith
same_state-eq failed b h = ground arith

module _ (fl : Float) (lru : Lru) {C : Type 0} where
  shorter :
      {A B : Type 0} (on_error : GoError → Cluster fl lru C → Attempt × Cluster fl lru C)
      (on_reply : A → ℕ → Cluster fl lru C → (Attempt × Cluster fl lru C) × Option B) (timeout : ℕ)
      (s : Call fl lru C A B)
      → call_ctx fl lru s ≡ none
      → length (attempt fl lru on_error on_reply timeout s).1.replies < length s.replies
  unfolding call_ctx attempt
  shorter on_error on_reply timeout s h = elim (List-cases s.replies) [
    | inl e ↦ absurd (ground arith)
    | inr (refused x, rest, e) ↦ rw (e, attempt) (omega arith)
    | inr (reply x us, rest, e) ↦ rw (e, attempt) (omega arith)
  ]

  -- A call of `Backoff` to a node ends within the fuel that it is given, with a limit or without
  -- one.
  pub call_returns :
      {A B : Type 0} (on_error : GoError → Cluster fl lru C → Attempt × Cluster fl lru C)
      (on_reply : A → ℕ → Cluster fl lru C → (Attempt × Cluster fl lru C) × Option B) (tries : ℕ)
      (gs : Cluster fl lru C) (replies : List (Reply A))
      → call fl lru on_error on_reply tries gs replies ≢ none
  unfolding call
  call_returns on_error on_reply tries gs replies =
      backoff_ends_by (attempt fl lru on_error on_reply) (call_ctx fl lru) (λ wait s. s)
        (λ s. length s.replies) (λ timeout s h. shorter on_error on_reply timeout s h)
        (λ wait s. omega arith) _ _ _ _ _ _ (omega arith)

  -- `setState` leaves the node in the state that is asked for.
  state-set_state :
      (now i : ℕ) (st : NodeState) (gs : Cluster fl lru C)
      → ((set_state fl lru now i st gs).nodes i).state ≡ st
  unfolding set_state
  state-set_state now i st gs = ground (arith, same_state-eq st (gs.nodes i).state)

  -- And changes nothing else of the nodes.
  set_state_rest :
      (now i : ℕ) (st : NodeState) (gs : Cluster fl lru C)
      → let gs' = set_state fl lru now i st gs in
        ((gs'.nodes i).latest_round ≡ (gs.nodes i).latest_round)
        × ((gs'.nodes i).last_status ≡ (gs.nodes i).last_status)
        × ((j : ℕ) → j ≢ i → gs'.nodes j ≡ gs.nodes j)
        × (gs'.latest_round ≡ gs.latest_round)
  unfolding set_state
  set_state_rest now i st gs = (ground arith, ground arith, λ j n. ground arith, ground arith)

  -- What a status makes of a node, on every branch: a node that needs an upgrade fails and nothing
  -- else of it changes; any other is synced exactly if its catchup time is 0, keeps the status,
  -- and its latest round does not fall.
  pub update_with_status_branches :
      (now i : ℕ) (st : Status) (gs : Cluster fl lru C)
      → let r = update_with_status fl lru now i st gs in
        let n = gs.nodes i in
        let n' = r.0.nodes i in
        (st.stopped_at_unsupported_round ≡ true
          → (r.1 ≡ false)
            × (n'.state ≡ failed)
            × (n'.latest_round ≡ n.latest_round)
            × (n'.last_status ≡ n.last_status))
        × (st.stopped_at_unsupported_round ≡ false
            → (r.1 ≡ true)
              × (n'.state ≡ (if ltb 0 st.catchup_time then syncing else synced))
              × (n'.latest_round ≡ max n.latest_round st.last_round)
              × (n'.last_status ≡ some st))
        × ((j : ℕ) → j ≢ i → r.0.nodes j ≡ gs.nodes j)
        × (r.0.latest_round ≡ gs.latest_round)
  unfolding update_with_status
  update_with_status_branches now i st gs = elim (Bool-cases st.stopped_at_unsupported_round) [
    | inl h ↦
        let rest = set_state_rest now i failed gs in
        rw (h, update_with_status)
          (
            λ _. (refl, state-set_state now i failed gs, rest.0, rest.1),
            λ e. absurd (ground arith),
            rest.2,
            rest.3,
          )
    | inr h ↦
        let to : NodeState = if ltb 0 st.catchup_time then syncing else synced in
        let rest = set_state_rest now i to gs in
        rw (h, update_with_status)
          (
            λ e. absurd (ground arith),
            λ _. (
              refl,
              ground (arith, state-set_state now i to gs),
              ground (arith, rest.0),
              ground arith,
            ),
            λ j n. ground (arith, rest.2 j),
            rest.3,
          )
  ]

  -- A load of a round that is not in the future, with no node to ask, fails and leaves the cluster
  -- and its cache as they are: the promise of the round is neither kept nor broken.
  pub load_block_sync_no_nodes :
      (now : ℕ) (cd : Codec C) (replies : ℕ → List (Reply (List ℕ))) (round : ℕ)
      (gs : Cluster fl lru C)
      → round ≤ gs.latest_round
      → gs.catchup_nodes ≡ []
      → gs.arch_nodes ≡ []
      → load_block_sync fl lru now cd replies round gs ≡ some (gs, false)
  unfolding load_block_sync try_nodes
  load_block_sync_no_nodes now cd replies round gs l c a = ground arith

  -- While the latest round of the cluster is below 996, a round that is not in the future is loaded
  -- from archive nodes alone, whatever catchup nodes there are.
  pub load_block_sync_young :
      (now : ℕ) (cd : Codec C) (replies : ℕ → List (Reply (List ℕ))) (round : ℕ)
      (gs : Cluster fl lru C)
      → round ≤ gs.latest_round
      → gs.latest_round < 996
      → load_block_sync fl lru now cd replies round gs
        ≡ try_nodes fl lru now cd replies round gs.arch_nodes gs
  unfolding load_block_sync
  load_block_sync_young now cd replies round gs l y = ground arith
