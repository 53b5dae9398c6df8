-- ===== src/Algod/Signals/Work.antt =====
-- How much the nodes and the monitor of their states have still to do while no node changes its
-- state.
use algo_vnode.Prelude.{
  ℕ, zero, suc, ◌+◌, ◌-◌, ◌*◌, ◌≤◌, ◌<◌, ◌≡◌, ◌≢◌, refl, Bool, true, false, arith, update, dec_lt,
}
use algo_vnode.Algod.Signals.{
  Sender, outside, changed, sent, Monitor, waiting, received, scanning, stopped, System, Step,
  changes, signals, releases, receives, enters, reads, leaves, stops,
}

-- The steps that are left to one node, and to the monitor.
unfoldable sender_work : ℕ → Sender → ℕ
sender_work n outside = 0
sender_work n sent = 1
sender_work n changed = n + 5

unfoldable monitor_work : ℕ → Monitor → ℕ
monitor_work n stopped = 0
monitor_work n waiting = 1
monitor_work n (scanning i) = 2 + (n - i)
monitor_work n received = n + 3

-- The work of the first `k` nodes.
unfoldable senders_work : ℕ → ℕ → (ℕ → Sender) → ℕ
senders_work n zero f = 0
senders_work n (suc k) f = senders_work n k f + sender_work n (f k)

-- A bound on the steps to come, while no node changes its state.
unfoldable pub work : ℕ → System → ℕ
unfolding senders_work sender_work monitor_work
work n s = senders_work n n s.senders + (s.queue * (n + 3) + monitor_work n s.monitor)

senders_work_above :
    (n k i : ℕ) (f : ℕ → Sender) (p : Sender)
    → k ≤ i
    → senders_work n k (update f i p) ≡ senders_work n k f
unfolding senders_work
senders_work_above n zero i f p le = refl
senders_work_above n (suc k) i f p le = ground (arith, senders_work_above n k i f p (omega arith))

-- What changes with the work of one node.
senders_work-update :
    (n k i : ℕ) (f : ℕ → Sender) (p : Sender)
    → i < k
    → senders_work n k (update f i p) + sender_work n (f i) ≡ senders_work n k f + sender_work n p
unfolding senders_work
senders_work-update n zero i f p lt = absurd (omega arith)
senders_work-update n (suc k) i f p lt = elim (dec_lt i k) [
  | yes below ↦ ground (arith, senders_work-update n k i f p below)
  | no last ↦ ground (arith, senders_work_above n k i f p (omega arith))
]

-- What holds in every state that can be reached.
pub record Sound (n room : ℕ) (s : System) : Type 0 where
  pub fits : s.queue ≤ room
  pub only_nodes : (j : ℕ) → n ≤ j → s.senders j ≡ outside

below_count : (n room i : ℕ) (s : System) → Sound n room s → s.senders i ≢ outside → i < n
below_count n room i s v e = elim (dec_lt i n) [
  | yes lt ↦ lt
  | no ge ↦ absurd (e (v.only_nodes i (omega arith)))
]

pub Step-Sound : (n room : ℕ) (s t : System) → Sound n room s → Step n room s t → Sound n room t
Step-Sound n room s t v (changes i st lt e d) = record {
  fits = v.fits;
  only_nodes = λ j le. ground (arith, v.only_nodes j le);
}
Step-Sound n room s t v (signals i e lt) = record {
  fits = omega arith;
  only_nodes = λ j le. ground (arith, v.only_nodes j le);
}
Step-Sound n room s t v (releases i e) = record {
  fits = v.fits;
  only_nodes = λ j le. ground (arith, v.only_nodes j le);
}
Step-Sound n room s t v (receives e lt) = record {
  fits = omega (arith, v.fits);
  only_nodes = v.only_nodes;
}
Step-Sound n room s t v (enters e) = record { fits = v.fits; only_nodes = v.only_nodes }
Step-Sound n room s t v (reads i e lt f) = record { fits = v.fits; only_nodes = v.only_nodes }
Step-Sound n room s t v (leaves i e le) = record { fits = v.fits; only_nodes = v.only_nodes }
Step-Sound n room s t v (stops e) = record { fits = v.fits; only_nodes = v.only_nodes }

-- Any step but a change of the state of a node.
unfoldable pub is_change : {n room : ℕ} {s t : System} → Step n room s t → Bool
is_change (changes i st lt e d) = true
is_change (signals i e lt) = false
is_change (releases i e) = false
is_change (receives e lt) = false
is_change (enters e) = false
is_change (reads i e lt f) = false
is_change (leaves i e le) = false
is_change (stops e) = false

pred-times : (q k : ℕ) → 0 < q → (q - 1) * k + k ≡ q * k
pred-times zero k lt = absurd (omega arith)
pred-times (suc q) k lt = grind arith

pub Step-lowers :
    (n room : ℕ) (s t : System)
    → Sound n room s
    → (m : Step n room s t) → is_change m ≡ false
    → work n t < work n s
unfolding work sender_work monitor_work is_change
Step-lowers n room s t v (changes i st lt e d) h = absurd (ground arith)
Step-lowers n room s t v (signals i e lt) h =
    let low : i < n = below_count n room i s v (λ o. ground arith) in
    ground (arith, senders_work-update n n i s.senders sent low)
Step-lowers n room s t v (releases i e) h =
    let low : i < n = below_count n room i s v (λ o. ground arith) in
    ground (arith, senders_work-update n n i s.senders outside low)
Step-lowers n room s t v (receives e lt) h = ground (arith, pred-times s.queue (n + 3) lt)
Step-lowers n room s t v (enters e) h = ground arith
Step-lowers n room s t v (reads i e lt f) h = ground arith
Step-lowers n room s t v (leaves i e le) h = ground arith
Step-lowers n room s t v (stops e) h = ground arith
