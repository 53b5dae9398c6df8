-- ===== src/Algod/Signals/Settle.antt =====
-- The nodes and the monitor of their states come to rest, or to a deadlock.
use algo_vnode.Prelude.{
  ℕ, zero, suc, ◌+◌, ◌≤◌, ◌<◌, ◌≡◌, ◌≢◌, ◌⊎◌, inl, inr, refl, ap, false, arith, dec_lt, ◌∙◌,
}
use algo_vnode.Algod.Cluster.{is_synced}
use algo_vnode.Algod.State.{NodeState}
use algo_vnode.Algod.Signals.{
  Sender, outside, changed, sent, Monitor, waiting, received, scanning, stopped, System, initial,
  Step, changes, signals, releases, receives, enters, reads, leaves, stops, Runs, here, later,
  Reach,
}
use algo_vnode.Algod.Signals.Deadlock.{Stuck, Runs-trans}
use algo_vnode.Algod.Signals.Listed.{Calm, listed_synced}
use algo_vnode.Algod.Signals.Work.{Sound, Step-Sound, is_change, work, Step-lowers}

-- A run of `k` steps in which no node changes its state.
pub data Quiet (n room : ℕ) (s : System) : ℕ → System → Type 0 where
  begun : Quiet n room s zero s
  goes :
      {k : ℕ} {t u : System}
      → Quiet n room s k t
      → (m : Step n room t u) → is_change m ≡ false
      → Quiet n room s (suc k) u

-- All is done: no signal is under way, and the monitor waits for the next one.
pub record AtRest (s : System) : Type 0 where
  pub calm : Calm s
  pub is_waiting : s.monitor ≡ waiting

initial-Sound : (n room : ℕ) → Sound n room initial
initial-Sound n room = record { fits = omega arith; only_nodes = λ j le. refl }

Reach-Sound : (n room : ℕ) (s : System) → Reach n room s → Sound n room s
Reach-Sound n room s here = initial-Sound n room
Reach-Sound n room s (later {t = u} r m) = Step-Sound n room u s (Reach-Sound n room u r) m

Quiet-Runs : {n room : ℕ} {s : System} {k : ℕ} {t : System} → Quiet n room s k t → Runs n room s t
Quiet-Runs begun = here
Quiet-Runs (goes q m h) = later (Quiet-Runs q) m

-- A node that has its lock, or none.
abbrev Busy : ℕ → (ℕ → Sender) → Type 0
Busy n f = (i : ℕ) × (i < n) × (f i ≢ outside)

abbrev Idle : ℕ → (ℕ → Sender) → Type 0
Idle n f = (i : ℕ) → i < n → f i ≡ outside

sender-cases : (p : Sender) → (p ≡ outside) ⊎ (p ≢ outside)
sender-cases outside = inl refl
sender-cases changed = inr (λ e. ground arith)
sender-cases sent = inr (λ e. ground arith)

with_last : (n : ℕ) (f : ℕ → Sender) → f n ≡ outside → Idle n f → Idle (suc n) f
with_last n f e all i lt = elim (dec_lt i n) [
  | yes below ↦ all i below
  | no last ↦ let same : i ≡ n = omega arith in rw same e
]

busy : (n : ℕ) (f : ℕ → Sender) → Busy n f ⊎ Idle n f
busy zero f = inr (λ i lt. absurd (omega arith))
busy (suc n) f = elim (busy n f) [
  | inl (i, lt, e) ↦ inl (i, omega arith, e)
  | inr all ↦ elim (sender-cases (f n)) [
    | inl e ↦ inr (with_last n f e all)
    | inr e ↦ inl (n, omega arith, e)
  ]
]

-- How a state is that no step leaves but a change: at rest, deadlocked, or after the monitor's end.
abbrev pub Settled : ℕ → ℕ → System → Type 0
Settled n room s = AtRest s ⊎ ((i : ℕ) × Stuck n room i s) ⊎ (s.monitor ≡ stopped)

-- A step other than a change.
abbrev Goes : ℕ → ℕ → System → Type 0
Goes n room s = (t : System) × (m : Step n room s t) × (is_change m ≡ false)

-- The step of a node that holds its lock, while there is room.
sender-Goes :
    (n room i : ℕ) (s : System)
    → s.queue < room
    → (p : Sender) → s.senders i ≡ p
    → p ≢ outside
    → Goes n room s
unfolding is_change
sender-Goes n room i s space outside e h = absurd (h refl)
sender-Goes n room i s space changed e h = (_, signals i e space, refl)
sender-Goes n room i s space sent e h = (_, releases i e, refl)

-- The step of `updateNodeLists` before node `i`, or of that node.
scan-Goes :
    (n room i : ℕ) (s : System)
    → Sound n room s
    → s.monitor ≡ scanning i
    → i < n
    → (p : Sender) → s.senders i ≡ p
    → Goes n room s ⊎ Stuck n room i s
unfolding is_change
scan-Goes n room i s v e lt outside h = inl (_, reads i e lt h, refl)
scan-Goes n room i s v e lt sent h = inl (_, releases i h, refl)
scan-Goes n room i s v e lt changed h = elim (dec_lt s.queue room) [
  | yes space ↦ inl (_, signals i h space, refl)
  | no full ↦ inr (record {
    in_range = lt;
    sender_waits = h;
    channel_full = omega (arith, v.fits);
    monitor_waits = e;
  })
]

Idle-AtRest :
    (n room : ℕ) (s : System)
    → Sound n room s
    → s.monitor ≡ waiting
    → s.queue ≡ 0
    → Idle n s.senders
    → AtRest s
Idle-AtRest n room s v e z all = record {
  calm = record {
    empty = z;
    none_due = λ j d. elim (dec_lt j n) [
      | yes lt ↦ ground (arith, all j lt)
      | no ge ↦ ground (arith, v.only_nodes j (omega arith))
    ];
  };
  is_waiting = e;
}

Goes-or_Settled :
    (n room : ℕ) (s : System)
    → 0 < room
    → Sound n room s
    → (m : Monitor) → s.monitor ≡ m
    → Goes n room s ⊎ Settled n room s
unfolding is_change
Goes-or_Settled n room s some_room v stopped e = inr (inr (inr e))
Goes-or_Settled n room s some_room v received e = inl (_, enters e, refl)
Goes-or_Settled n room s some_room v (scanning i) e = elim (dec_lt i n) [
  | no ge ↦ inl (_, leaves i e (omega arith), refl)
  | yes lt ↦ elim (scan-Goes n room i s v e lt _ refl) [
    | inl g ↦ inl g
    | inr k ↦ inr (inr (inl (i, k)))
  ]
]
Goes-or_Settled n room s some_room v waiting e = elim (dec_lt 0 s.queue) [
  | yes some_signal ↦ inl (_, receives e some_signal, refl)
  | no none_there ↦ elim (busy n s.senders) [
    | inl (i, lt, h) ↦ inl (sender-Goes n room i s (omega arith) _ refl h)
    | inr all ↦ inr (inl (Idle-AtRest n room s v e (omega arith) all))
  ]
]

Quiet-Sound :
    {n room : ℕ} {s : System} {k : ℕ} {t : System}
    → Sound n room s
    → Quiet n room s k t
    → Sound n room t
Quiet-Sound v begun = v
Quiet-Sound {n} {room} {s} v (goes {t = t} {u = u} q m h) =
    Step-Sound n room t u (Quiet-Sound v q) m

Quiet-work :
    {n room : ℕ} {s : System} {k : ℕ} {t : System}
    → Sound n room s
    → Quiet n room s k t
    → k + work n t ≤ work n s
Quiet-work v begun = omega arith
Quiet-work {n} {room} v (goes {t = t} {u = u} q m h) =
    omega (arith, Quiet-work v q, Step-lowers n room t u (Quiet-Sound v q) m h)

Step-keeps :
    {n room : ℕ} {s t : System} (m : Step n room s t) → is_change m ≡ false → t.states ≡ s.states
unfolding is_change
Step-keeps (changes i st lt e d) h = absurd (ground arith)
Step-keeps (signals i e lt) h = refl
Step-keeps (releases i e) h = refl
Step-keeps (receives e lt) h = refl
Step-keeps (enters e) h = refl
Step-keeps (reads i e lt f) h = refl
Step-keeps (leaves i e le) h = refl
Step-keeps (stops e) h = refl

Quiet-states :
    {n room : ℕ} {s : System} {k : ℕ} {t : System} → Quiet n room s k t → t.states ≡ s.states
Quiet-states begun = refl
Quiet-states (goes q m h) = Step-keeps m h ∙ Quiet-states q

-- From a state that can be reached, while no node changes its state, the threads make at most as
-- many steps as the work of the state says, in whatever order they run. A run that has not come to
-- rest, to a deadlock or to the end of the monitor can go on by such a step, and once it is at rest,
-- a node is in the lists exactly if it was synced at the start of the run.
pub quiet_run_settles :
    {n room : ℕ} {s : System} {k : ℕ} {t : System}
    → 0 < room
    → Reach n room s
    → Quiet n room s k t
    → (k ≤ work n s)
      × (Settled n room t ⊎ ((u : System) × Quiet n room s (suc k) u))
      × (AtRest t → (i : ℕ) → i < n → t.listed i ≡ is_synced (s.states i))
quiet_run_settles {n} {room} {s} {k} {t} some_room r q = (
  omega (arith, Quiet-work v q),
  elim (Goes-or_Settled n room t some_room (Quiet-Sound v q) _ refl) [
    | inl (u, m, h) ↦ inr (u, goes q m h)
    | inr done ↦ inl done
  ],
  λ rest i lt.
      listed_synced (Runs-trans n room initial s t r (Quiet-Runs q)) rest.calm rest.is_waiting i lt
      ∙ ap (λ (f : ℕ → NodeState). is_synced (f i)) (Quiet-states q),
)
  where
    v : Sound n room s
    v = Reach-Sound n room s r
