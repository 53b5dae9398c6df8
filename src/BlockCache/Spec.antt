-- ===== src/BlockCache/Spec.antt =====
-- The contract of one `BlockCache` of internal/blockcache/cache.go, with no memory, addresses or
-- channels: for each round there is a slot, and a call changes the slot of its round. What the
-- cache forgets, and when, is left open.
pub mod Origins
use algo_vnode.Prelude.{
  ℕ, ◌≡◌, ◌≢◌, ◌⊎◌, Bool, true, false, List, [], ◌∷◌, Option, none, some, GoError, is_none,
  if◌then◌else◌,
}
use algo_vnode.BlockFetcher.Wrap.{BlockWrap}

-- What there is for a round: a block, an error, and callers that may wait.
pub data Slot (C : Type 0) : Type 0 where
  absent : Slot C
  held : Option (BlockWrap C) → Option GoError → Bool → Slot C

pub data Op (C : Type 0) : Type 0 where
  promise : ℕ → Op C
  add : BlockWrap C → Op C
  ask : ℕ → Op C

-- What a call answers. One that waits is woken by the next delivery to its round.
pub data Answer (C : Type 0) : Type 0 where
  done : Answer C
  found : BlockWrap C → Answer C
  failed : GoError → Answer C
  missing : Answer C
  waits : Answer C

module _ {C : Type 0} where
  unfoldable pub op_round : Op C → ℕ
  op_round (promise r) = r
  op_round (add w) = w.round
  op_round (ask r) = r

  -- A promise: a failed slot is given another try.
  unfoldable pub promise_slot : Slot C → Slot C
  promise_slot absent = held none none true
  promise_slot (held b (some e) waiting) = held b none true
  promise_slot (held b none waiting) = held b none waiting

  -- A delivery: the first block stays, the first error stays, and nobody waits any more.
  unfoldable pub add_slot : BlockWrap C → Slot C → Slot C
  add_slot w absent = held (if is_none w.error then some w else none) w.error false
  add_slot w (held (some old) e waiting) = held (some old) e false
  add_slot w (held none (some e) waiting) =
      held (if is_none w.error then some w else none) (some e) false
  add_slot w (held none none waiting) =
      held (if is_none w.error then some w else none) w.error false

  unfoldable pub apply : Op C → Slot C → Slot C
  unfolding promise_slot add_slot
  apply (promise r) s = promise_slot s
  apply (add w) s = add_slot w s
  apply (ask r) s = s

  -- An error is reported before a block, and what is held with neither is waited for.
  unfoldable pub ask_slot : Slot C → Answer C
  ask_slot absent = missing
  ask_slot (held b (some e) waiting) = failed e
  ask_slot (held (some w) none waiting) = found w
  ask_slot (held none none waiting) = waits

  unfoldable pub answer : Op C → Slot C → Answer C
  unfolding ask_slot
  answer (promise r) s = done
  answer (add w) s = done
  answer (ask r) s = ask_slot s

  -- One call: its own slot changes as it should, and another one is only ever lost to a round that
  -- was not there before and is now.
  pub record Allowed (s : ℕ → Slot C) (op : Op C) (s' : ℕ → Slot C) : Type 0 where
    pub own : s' (op_round op) ≡ apply op (s (op_round op))
    pub others :
        (j : ℕ)
        → j ≢ op_round op
        → (s' j ≡ s j)
          ⊎ ((s' j ≡ absent) × (s (op_round op) ≡ absent) × (s' (op_round op) ≢ absent))

  -- A sequence of calls and the answers that the contract allows.
  pub data Traces : (ℕ → Slot C) → List (Op C) → List (Answer C) → Type 0 where
    stop : {s : ℕ → Slot C} → Traces s [] []
    step :
        {s s' : ℕ → Slot C} {op : Op C} {ops : List (Op C)} {answers : List (Answer C)}
        → Allowed s op s'
        → Traces s' ops answers
        → Traces s (op ∷ ops) (answer op (s (op_round op)) ∷ answers)
