-- ===== src/Httpsrv/Handlers/Waits.antt =====
-- A request for the status after a round, from the handler of internal/httpsrv/handlers.go through
-- WaitForStatusAfter of internal/algod/cluster.go.
use algo_vnode.Prelude.{
  ℕ, ◌<◌, ◌≡◌, ◌≢◌, ◌>>=◌, inl, inr, Bool-cases, false, ◌&&◌, List, ◌∷◌, ◌++◌, map, Option,
  Option-cases, none, some, arith, ltb, is_some,
}
use algo_vnode.Algod.Blocks.{source_status, wait_for_status_after}
use algo_vnode.Algod.Float.{Float}
use algo_vnode.Algod.Progress.{UpTo, Awaits, comes, ends, panics, await_status-Awaits}
use algo_vnode.Algod.State.{Status, Cluster}
use algo_vnode.BlockCache.Lru.{Lru}
use algo_vnode.Httpsrv.Handlers.{
  Response, json_status, json_error, parse_int, wait_response, wait_handler,
}

module _ (fl : Float) (lru : Lru) {C : Type 0} (gs : Cluster fl lru C) where
  -- The cluster is already after the round, and the node that said so has a status.
  abbrev pub IsPast : ℕ → Type 0
  IsPast n = (n < gs.latest_round) × (source_status fl lru gs ≢ none)

  -- What a request for a status after the round `n` comes to, before its deadline, from the state of
  -- the cluster and the statuses that are broadcast until the request ends; `none` is a panic.
  pub data Waited (n : ℕ) : List (Option Status) → Option Response → Type 0 where
    already :
        (events : List (Option Status)) (st : Status)
        → n < gs.latest_round
        → source_status fl lru gs ≡ some st
        → Waited n events (some (record { status = 200; body = json_status st }))
    told :
        (before : List Status) (st : Status) (after : List (Option Status))
        → ¬ IsPast n
        → UpTo n before
        → n < st.last_round
        → Waited n
            (map some before ++ some st ∷ after)
            (some (record { status = 200; body = json_status st }))
    gave_up :
        (all : List Status)
        → ¬ IsPast n
        → UpTo n all
        → Waited n
            (map some all)
            (some (record { status = 500; body = json_error "Error waiting for round" }))
    panicked :
        (before : List Status) (after : List (Option Status))
        → ¬ IsPast n
        → UpTo n before
        → Waited n (map some before ++ none ∷ after) none

  Awaits-Waited :
      (n : ℕ) (events : List (Option Status)) (r : Option (Option Status))
      → ¬ IsPast n
      → Awaits n events r
      → Waited n events (r >>= λ st. some (wait_response false st))
  unfolding wait_response
  Awaits-Waited n _ _ p (comes before st after up lt) = told before st after p up lt
  Awaits-Waited n _ _ p (ends all up) = gave_up all p up
  Awaits-Waited n _ _ p (panics before after up) = panicked before after p up

  -- A request for the status after a round, before its deadline: if the cluster is past the round,
  -- by the report of a node with a status, the answer is 200 with that status at once. Else it is
  -- 200 with the first status that is broadcast with a larger round; the error 500 if the request
  -- ends before one comes; and a panic if a nil is broadcast before one.
  pub wait_handler_answers :
      (events : List (Option Status)) (text : List ℕ) (n : ℕ)
      → parse_int text ≡ some n
      → Waited n events (wait_handler (λ m. (false, wait_for_status_after fl lru m events gs)) text)
  unfolding wait_handler wait_response wait_for_status_after
  wait_handler_answers events text n e =
      elim (Bool-cases (is_some (source_status fl lru gs) && ltb n gs.latest_round)) [
        | inl f ↦ elim (Option-cases (source_status fl lru gs)) [
          | inl g ↦ absurd (ground arith)
          | inr (st, g) ↦ rw (e, wait_handler, f, g) (already events st (ground arith) g)
        ]
        | inr f ↦
            rw (e, wait_handler, f)
              (Awaits-Waited n events _ (λ p. ground (arith, p)) (await_status-Awaits n events))
      ]
