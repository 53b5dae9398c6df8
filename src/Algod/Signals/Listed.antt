-- ===== src/Algod/Signals/Listed.antt =====
-- The node lists are up to date when there is no signal under way.
use algo_vnode.Prelude.{ℕ, ◌<◌, ◌≡◌, ◌≢◌, refl, subst, arith, update}
use algo_vnode.Algod.Cluster.{is_synced}
use algo_vnode.Algod.Signals.{
  outside, changed, sent, Monitor, waiting, received, scanning, stopped, System, Step, changes,
  signals, releases, receives, enters, reads, leaves, stops, here, later, Reach,
}

-- No signal waits in the channel, and no node has still to send one.
pub record Calm (s : System) : Type 0 where
  pub empty : s.queue ≡ 0
  pub none_due : (j : ℕ) → s.senders j ≢ changed

-- What the monitor knows of the node `i`.
abbrev Knows : ℕ → System → Monitor → Type 0
Knows i s waiting = s.listed i ≡ is_synced (s.states i)
Knows i s received = Unit {0}
Knows i s stopped = Unit {0}
Knows i s (scanning j) = i < j → s.found i ≡ is_synced (s.states i)

abbrev UpToDate : ℕ → System → Type 0
UpToDate i s = Calm s → Knows i s s.monitor

Calm-before :
    (i : ℕ) (s : System)
    → s.senders i ≡ sent
    → Calm (record s { senders = update s.senders i outside })
    → Calm s
Calm-before i s e c = record { empty = c.empty; none_due = λ j d. ground (arith, c.none_due j) }

Step-UpToDate :
    (n room i : ℕ) (s t : System) → i < n → UpToDate i s → Step n room s t → UpToDate i t
Step-UpToDate n room i s t lt ih (changes j st l e d) = λ c. absurd (ground (arith, c.none_due j))
Step-UpToDate n room i s t lt ih (signals j e l) = λ c. absurd (ground (arith, c.empty))
Step-UpToDate n room i s t lt ih (releases j e) = λ c. ih (Calm-before j s e c)
Step-UpToDate n room i s t lt ih (receives e l) = λ c. tt
Step-UpToDate n room i s t lt ih (enters e) = λ c below. absurd (omega (arith, below))
Step-UpToDate n room i s t lt ih (reads j e l f) = λ c below.
    let before : Calm s = record { empty = c.empty; none_due = c.none_due } in
    let known = subst (Knows i s) e (ih before) in ground (arith, known, below)
Step-UpToDate n room i s t lt ih (leaves j e l) = λ c.
    let before : Calm s = record { empty = c.empty; none_due = c.none_due } in
    subst (Knows i s) e (ih before) (omega (arith, l, lt))
Step-UpToDate n room i s t lt ih (stops e) = λ c. tt

Reach-UpToDate : (n room i : ℕ) (s : System) → i < n → Reach n room s → UpToDate i s
Reach-UpToDate n room i s lt here = λ c. refl
Reach-UpToDate n room i s lt (later {t = u} r m) =
    Step-UpToDate n room i u s lt (Reach-UpToDate n room i u lt r) m

-- No change of a state is lost: in a state that can be reached in which no signal waits in the
-- channel, no node has still to send one, and the monitor waits for the next one, the nodes in the
-- lists are those whose state is synced.
pub listed_synced :
    {n room : ℕ} {s : System}
    → Reach n room s
    → Calm s
    → s.monitor ≡ waiting
    → (i : ℕ) → i < n
    → s.listed i ≡ is_synced (s.states i)
listed_synced {n} {room} {s} r c e i lt = subst (Knows i s) e (Reach-UpToDate n room i s lt r c)
