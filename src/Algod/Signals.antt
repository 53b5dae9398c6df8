-- ===== src/Algod/Signals.antt =====
-- The locks and the channel between the nodes and the cluster, step by step: `setState` and `Synced`
-- of internal/algod/node.go, `StateUpdate`, `stateChangeMonitor` and `updateNodeLists` of
-- internal/algod/cluster.go. Here a list is only the set of its nodes. The other parts that take
-- one of these locks release it at once, and take no other.
pub mod Deadlock
pub mod Listed
pub mod Work
pub mod Settle
use algo_vnode.Prelude.{ℕ, ◌+◌, ◌-◌, ◌≤◌, ◌<◌, ◌≡◌, Bool, false, update}
use algo_vnode.Algod.Cluster.{is_synced}
use algo_vnode.Algod.Node.{same_state}
use algo_vnode.Algod.State.{NodeState, config}

-- The capacity of `cState`.
abbrev pub capacity : ℕ
capacity = 100

-- Where a node is in `setState`: outside of it, or with its lock held and its new state stored,
-- before the signal is sent and after it.
pub data Sender : Type 0 where
  outside changed sent : Sender

-- Where `stateChangeMonitor` is: at its select; with a signal received; in `updateNodeLists` with the
-- cluster's lock held, before it asks the node of a number; or at its end.
pub data Monitor : Type 0 where
  waiting received stopped : Monitor
  scanning : ℕ → Monitor

-- The states of the nodes, where each is in `setState`, the signals in the channel, the monitor,
-- the nodes that `updateNodeLists` has found synced so far, and those in the lists.
pub record System : Type 0 where
  pub states : ℕ → NodeState
  pub senders : ℕ → Sender
  pub queue : ℕ
  pub monitor : Monitor
  pub found : ℕ → Bool
  pub listed : ℕ → Bool

-- The start of `NewCluster`.
abbrev pub initial : System
initial = record {
  states = λ _. config;
  senders = λ _. outside;
  queue = 0;
  monitor = waiting;
  found = λ _. false;
  listed = λ _. false;
}

-- One step of one thread, with `n` nodes and a channel that holds `room` signals.
pub data Step (n room : ℕ) (s : System) : System → Type 0 where
  -- `setState` takes the lock of its node and stores a state that is new.
  changes :
      (i : ℕ) (st : NodeState)
      → i < n
      → s.senders i ≡ outside
      → same_state st (s.states i) ≡ false
      → Step n room s
          (record s { states = update s.states i st; senders = update s.senders i changed })
  -- `StateUpdate`, which blocks while the channel is full.
  signals :
      (i : ℕ)
      → s.senders i ≡ changed
      → s.queue < room
      → Step n room s (record s { senders = update s.senders i sent; queue = s.queue + 1 })
  -- `setState` returns, and releases the lock.
  releases :
      (i : ℕ)
      → s.senders i ≡ sent
      → Step n room s (record s { senders = update s.senders i outside })
  -- The monitor takes a signal.
  receives :
      s.monitor ≡ waiting
      → 0 < s.queue
      → Step n room s (record s { queue = s.queue - 1; monitor = received })
  -- `updateNodeLists` takes the lock of the cluster, and starts with empty lists.
  enters :
      s.monitor ≡ received → Step n room s (record s { monitor = scanning 0; found = λ _. false })
  -- `Synced` of the next node, which waits until the node's lock is free.
  reads :
      (i : ℕ)
      → s.monitor ≡ scanning i
      → i < n
      → s.senders i ≡ outside
      → Step n room s (record s {
        monitor = scanning (i + 1);
        found = update s.found i (is_synced (s.states i));
      })
  -- `updateNodeLists` stores the lists, and releases the lock.
  leaves :
      (i : ℕ)
      → s.monitor ≡ scanning i
      → n ≤ i
      → Step n room s (record s { monitor = waiting; listed = s.found })
  -- The context has ended.
  stops : s.monitor ≡ waiting → Step n room s (record s { monitor = stopped })

-- What can follow a state.
pub data Runs (n room : ℕ) (s : System) : System → Type 0 where
  here : Runs n room s s
  later : {t u : System} → Runs n room s t → Step n room t u → Runs n room s u

abbrev pub Reach : ℕ → ℕ → System → Type 0
Reach n room = Runs n room initial
