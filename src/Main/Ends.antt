-- ===== src/Main/Ends.antt =====
-- The end of cmd/algovnode/main.go: the wait for a fatal error, and the shutdown of the servers.
use algo_vnode.Prelude.{◌>>=◌, ℕ, List, [], ◌∷◌, Option, none, some, GoError}
use algo_vnode.Algod.Float.{Float}
use algo_vnode.Algod.State.{Node}
use algo_vnode.BlockCache.Heap.{Heap}
use algo_vnode.BlockCache.Lru.{Lru}
use algo_vnode.Config.{AlgoVNodeConfig}
use algo_vnode.Httpsrv.Servers.{Server}
use algo_vnode.Main.{Program, gives_up, runs, start}

-- What the select of `WaitForFatal` takes: the end of the context, which a signal brings about, or an
-- error that a node has sent.
pub data Wake : Type 0 where
  ctx_done : Wake
  fatal : GoError → Wake

-- `WaitForFatal`: the error that is logged.
unfoldable pub wait_for_fatal : Wake → Option GoError
wait_for_fatal ctx_done = none
wait_for_fatal (fatal e) = some e

-- How `main` ends: with the error of its configuration, or with the servers that it has stopped
-- and the error that was logged.
pub data Ending : Type 0 where
  gave_up : GoError → Ending
  stopped : List Server → Option GoError → Ending

module _ (fl : Float) (lru : Lru) {C : Type 0} where
  -- The servers that are shut down, each by a goroutine that `main` waits for.
  unfoldable pub shut_down : Program fl lru C → List Server
  shut_down p = elim p.idx_srv [ none ↦ p.algod_srv ∷ [] | some s ↦ p.algod_srv ∷ s ∷ [] ]

  unfoldable pub run_main :
      ℕ
      → Node fl
      → Heap C
      → (AlgoVNodeConfig → AlgoVNodeConfig × Option GoError)
      → Wake
      → Option Ending
  unfolding start wait_for_fatal shut_down
  run_main now free memory load wake = start fl lru now free memory load >>= λ s. elim s [
    | gives_up e ↦ some (gave_up e)
    | runs p ↦ some (stopped (shut_down p) (wait_for_fatal wake))
  ]
