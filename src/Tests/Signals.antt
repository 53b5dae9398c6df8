-- ===== src/Tests/Signals.antt =====
-- The nodes and the monitor of their states at concrete inputs.
use algo_vnode.Prelude.{ℕ, ◌≤◌, ◌<◌, ◌≡◌, ◌⊎◌, refl, arith}
use algo_vnode.Algod.Cluster.{is_synced}
use algo_vnode.Algod.Signals.{
  capacity, System, changes, signals, releases, receives, enters, reads, leaves, Runs, here, later,
  Reach,
}
use algo_vnode.Algod.Signals.Deadlock
use algo_vnode.Algod.Signals.Deadlock.{Stuck}
use algo_vnode.Algod.Signals.Settle
use algo_vnode.Algod.Signals.Settle.{Quiet, begun, goes, AtRest, Settled}
use algo_vnode.Algod.Signals.Work.{work, is_change}
use algo_vnode.Algod.State.{synced}

deadlock_example :
    (s : System) × Reach 2 capacity s × ((t : System) → Runs 2 capacity s t → Stuck 2 capacity 0 t)
deadlock_example = Deadlock.deadlock 2 capacity (omega arith) (omega arith)

-- The only node has become synced.
changed_once : (s : System) × Reach 1 capacity s
changed_once = (_, later here (changes 0 synced (omega arith) refl refl))

-- It signals that, and the lists are made anew.
settling : (t : System) × Quiet 1 capacity changed_once.0 6 t
unfolding changed_once is_change
settling = (
  _,
  goes
      (goes
        (goes
          (goes (goes (goes begun (signals 0 refl (omega arith)) refl) (releases 0 refl) refl)
            (receives refl (omega arith)) refl)
          (enters refl) refl)
        (reads 0 refl (omega arith) refl) refl)
      (leaves 1 refl (omega arith)) refl,
)

quiet_run_settles_example :
    (6 ≤ work 1 changed_once.0)
    × (Settled 1 capacity settling.0 ⊎ ((u : System) × Quiet 1 capacity changed_once.0 7 u))
    × (AtRest settling.0
        → (i : ℕ) → i < 1
        → settling.0.listed i ≡ is_synced (changed_once.0.states i))
quiet_run_settles_example = Settle.quiet_run_settles (omega arith) changed_once.1 settling.1
