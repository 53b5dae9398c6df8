-- ===== src/Algod/Signals/Deadlock.antt =====
-- A deadlock of the nodes and the monitor of their states.
use algo_vnode.Prelude.{ℕ, zero, suc, ◌+◌, ◌-◌, ◌≤◌, ◌<◌, ◌≡◌, refl, false, arith, update}
use algo_vnode.Algod.Node.{same_state}
use algo_vnode.Algod.State.{NodeState, config, booting, syncing, synced, failing, failed}
use algo_vnode.Algod.Signals.{
  outside, changed, sent, Monitor, waiting, received, scanning, System, initial, Step, changes,
  signals, releases, receives, enters, reads, leaves, stops, Runs, here, later, Reach,
}

-- The node `i` holds its lock and waits for room in the channel, and the monitor holds the lock of
-- the cluster and waits for the node's.
pub record Stuck (n room i : ℕ) (s : System) : Type 0 where
  pub in_range : i < n
  pub sender_waits : s.senders i ≡ changed
  pub channel_full : s.queue ≡ room
  pub monitor_waits : s.monitor ≡ scanning i

Stuck-Step : (n room i : ℕ) (s t : System) → Stuck n room i s → Step n room s t → Stuck n room i t
Stuck-Step n room i s t k (changes j st lt e d) = record {
  in_range = k.in_range;
  sender_waits = ground (arith, k.sender_waits);
  channel_full = k.channel_full;
  monitor_waits = k.monitor_waits;
}
Stuck-Step n room i s t k (signals j e lt) = absurd (omega (arith, k.channel_full))
Stuck-Step n room i s t k (releases j e) = record {
  in_range = k.in_range;
  sender_waits = ground (arith, k.sender_waits);
  channel_full = k.channel_full;
  monitor_waits = k.monitor_waits;
}
Stuck-Step n room i s t k (receives e lt) = absurd (ground (arith, k.monitor_waits))
Stuck-Step n room i s t k (enters e) = absurd (ground (arith, k.monitor_waits))
Stuck-Step n room i s t k (reads j e lt f) =
    absurd (ground (arith, k.monitor_waits, k.sender_waits))
Stuck-Step n room i s t k (leaves j e le) = absurd (ground (arith, k.monitor_waits, k.in_range))
Stuck-Step n room i s t k (stops e) = absurd (ground (arith, k.monitor_waits))

pub Stuck-stays :
    (n room i : ℕ) (s t : System) → Stuck n room i s → Runs n room s t → Stuck n room i t
Stuck-stays n room i s t k here = k
Stuck-stays n room i s t k (later {t = u} r m) =
    Stuck-Step n room i u t (Stuck-stays n room i s u k r) m

-- Another state, as the state of a node that fails and recovers.
another : NodeState → NodeState
another synced = failing
another _ = synced

another-differs : (st : NodeState) → same_state (another st) st ≡ false
unfolding another
another-differs config = refl
another-differs booting = refl
another-differs syncing = refl
another-differs synced = refl
another-differs failing = refl
another-differs failed = refl

pub Runs-trans : (n room : ℕ) (s t u : System) → Runs n room s t → Runs n room t u → Runs n room s u
Runs-trans n room s t u p here = p
Runs-trans n room s t u p (later {t = v} r m) = later (Runs-trans n room s t v p r) m

-- Node 0 is outside of `setState`, and `k` signals wait for the monitor in the state `m`.
record Filled (n room k : ℕ) (m : Monitor) (s : System) : Type 0 where
  run : Reach n room s
  is_out : s.senders 0 ≡ outside
  holds : s.queue ≡ k
  monitor_is : s.monitor ≡ m

-- Node 0 stores another state.
changing : System → System
changing s = record s {
  states = update s.states 0 (another (s.states 0));
  senders = update s.senders 0 changed;
}

signalling : System → System
signalling s = record s { senders = update s.senders 0 sent; queue = s.queue + 1 }

releasing : System → System
releasing s = record s { senders = update s.senders 0 outside }

-- Node 0 changes its state and signals it.
Filled-suc :
    (n room k : ℕ) (m : Monitor) (s : System)
    → 0 < n
    → k < room
    → Filled n room k m s
    → Filled n room (suc k) m (releasing (signalling (changing s)))
unfolding changing signalling releasing
Filled-suc n room k m s lt space f = record {
  run =
      later
        (later (later f.run (changes 0 _ lt f.is_out (another-differs (s.states 0))))
          (signals 0 refl (ground (arith, f.holds))))
        (releases 0 refl);
  is_out = refl;
  holds = ground (arith, f.holds);
  monitor_is = f.monitor_is;
}

fill :
    (n room : ℕ) (m : Monitor) (s : System)
    → 0 < n
    → Filled n room 0 m s
    → (k : ℕ) → k ≤ room
    → (t : System) × Filled n room k m t
fill n room m s lt f zero le = (s, f)
fill n room m s lt f (suc k) le =
    let (t, g) = fill n room m s lt f k (omega arith) in
    (_, Filled-suc n room k m t lt (omega arith) g)

-- The monitor has taken the first signal, and not yet the lock of the cluster.
taking : System → System
taking s = record s { queue = s.queue - 1; monitor = received }

Filled-taking :
    (n room : ℕ) (s : System) → Filled n room 1 waiting s → Filled n room 0 received (taking s)
unfolding taking
Filled-taking n room s f = record {
  run = later f.run (receives f.monitor_is (ground (arith, f.holds)));
  is_out = f.is_out;
  holds = ground (arith, f.holds);
  monitor_is = refl;
}

-- Node 0 changes its state once more, and the monitor takes the lock of the cluster.
locking : System → System
locking s = record s { monitor = scanning 0; found = λ _. false }

Filled-locking :
    (n room : ℕ) (s : System)
    → 0 < n
    → Filled n room room received s
    → Reach n room (locking (changing s)) × Stuck n room 0 (locking (changing s))
unfolding changing locking
Filled-locking n room s lt f = (
  later (later f.run (changes 0 _ lt f.is_out (another-differs (s.states 0))))
      (enters f.monitor_is),
  record { in_range = lt; sender_waits = refl; channel_full = f.holds; monitor_waits = refl },
)

-- The nodes and the monitor can deadlock, whatever the number of nodes and the capacity of the
-- channel are: a state can be reached after which, whatever is done, node 0 holds its lock and
-- waits for room in the channel, and the monitor holds the lock of the cluster and waits for the
-- lock of node 0.
pub deadlock :
    (n room : ℕ)
    → 0 < n
    → 0 < room
    → (s : System) × Reach n room s × ((t : System) → Runs n room s t → Stuck n room 0 t)
deadlock n room some_node some_room =
    let start : Filled n room 0 waiting initial = record {
      run = here;
      is_out = refl;
      holds = refl;
      monitor_is = refl;
    } in
    let (s, f) = fill n room waiting initial some_node start 1 (omega arith) in
    let (t, g) =
      fill n room received (taking s) some_node (Filled-taking n room s f) room (omega arith) in
    let (r, k) = Filled-locking n room t some_node g in
    (_, r, λ u run. Stuck-stays n room 0 _ u k run)
