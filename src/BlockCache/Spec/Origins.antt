-- ===== src/BlockCache/Spec/Origins.antt =====
-- Where the answers of the contract come from: what was delivered before.
use algo_vnode.Prelude.{
  ℕ, ◌≡◌, refl, sym, subst, inl, inr, List, [], ◌∷◌, Option, none, some, GoError, ℕ_discrete,
  is_none, if◌then◌else◌,
}
use algo_vnode.BlockCache.Spec.{
  Slot, absent, held, Op, promise, add, ask, Answer, found, failed, op_round, promise_slot,
  add_slot, apply, ask_slot, answer, Allowed, Traces, stop, step,
}
use algo_vnode.BlockFetcher.Wrap.{BlockWrap}
use mathlib.Core.List.{Memᴰ}
use mathlib.Core.List.Memᴰ.{head, tail}

module _ {C : Type 0} where
  -- A block of the round `k` that was delivered without an error.
  abbrev pub Delivered : List (BlockWrap C) → ℕ → BlockWrap C → Type 0
  Delivered past k w = Memᴰ w past × (w.round ≡ k) × (w.error ≡ none)

  -- An error that was delivered for the round `k`.
  abbrev pub Reported : List (BlockWrap C) → ℕ → GoError → Type 0
  Reported past k e = (w : BlockWrap C) × Memᴰ w past × (w.round ≡ k) × (w.error ≡ some e)

  abbrev BlockKnown : List (BlockWrap C) → ℕ → Option (BlockWrap C) → Type 0
  BlockKnown past k none = Unit {0}
  BlockKnown past k (some w) = Delivered past k w

  abbrev ErrorKnown : List (BlockWrap C) → ℕ → Option GoError → Type 0
  ErrorKnown past k none = Unit {0}
  ErrorKnown past k (some e) = Reported past k e

  -- All that a slot holds was delivered.
  abbrev pub Known : List (BlockWrap C) → ℕ → Slot C → Type 0
  Known past k absent = Unit {0}
  Known past k (held b e waiting) = BlockKnown past k b × ErrorKnown past k e

  -- All that is answered was delivered before, where `past` is what was delivered at the start,
  -- the last one first.
  abbrev pub FromDeliveries : List (BlockWrap C) → List (Op C) → List (Answer C) → Type 0
  FromDeliveries past (ask r ∷ ops) (found w ∷ xs) = Delivered past r w × FromDeliveries past ops xs
  FromDeliveries past (ask r ∷ ops) (failed e ∷ xs) = Reported past r e × FromDeliveries past ops xs
  FromDeliveries past (ask r ∷ ops) (x ∷ xs) = FromDeliveries past ops xs
  FromDeliveries past (promise r ∷ ops) (x ∷ xs) = FromDeliveries past ops xs
  FromDeliveries past (add w ∷ ops) (x ∷ xs) = FromDeliveries (w ∷ past) ops xs
  FromDeliveries past [] [] = Unit {0}
  FromDeliveries past [] (x ∷ xs) = ⊥
  FromDeliveries past (op ∷ ops) [] = ⊥

  block_later :
      (w : BlockWrap C) (past : List (BlockWrap C)) (k : ℕ) (b : Option (BlockWrap C))
      → BlockKnown past k b
      → BlockKnown (w ∷ past) k b
  block_later w past k none g = tt
  block_later w past k (some x) (m, r, e) = (tail m, r, e)

  error_later :
      (w : BlockWrap C) (past : List (BlockWrap C)) (k : ℕ) (e : Option GoError)
      → ErrorKnown past k e
      → ErrorKnown (w ∷ past) k e
  error_later w past k none g = tt
  error_later w past k (some x) (y, m, r, e) = (y, tail m, r, e)

  slot_later :
      (w : BlockWrap C) (past : List (BlockWrap C)) (k : ℕ) (s : Slot C)
      → Known past k s
      → Known (w ∷ past) k s
  slot_later w past k absent g = tt
  slot_later w past k (held b e waiting) g =
      (block_later w past k b g.0, error_later w past k e g.1)

  promise_slot-Known :
      (past : List (BlockWrap C)) (k : ℕ) (s : Slot C)
      → Known past k s
      → Known past k (promise_slot s)
  unfolding promise_slot
  promise_slot-Known past k absent g = (tt, tt)
  promise_slot-Known past k (held b (some e) waiting) g = (g.0, tt)
  promise_slot-Known past k (held b none waiting) g = g

  -- What a delivery puts into an empty slot.
  fresh_block :
      (w : BlockWrap C) (past : List (BlockWrap C)) (e : Option GoError)
      → w.error ≡ e
      → BlockKnown (w ∷ past) w.round (if is_none e then some w else none)
  fresh_block w past none q = (head refl, refl, q)
  fresh_block w past (some x) q = tt

  fresh_error :
      (w : BlockWrap C) (past : List (BlockWrap C)) (e : Option GoError)
      → w.error ≡ e
      → ErrorKnown (w ∷ past) w.round e
  fresh_error w past none q = tt
  fresh_error w past (some x) q = (w, head refl, refl, q)

  add_slot-Known :
      (w : BlockWrap C) (past : List (BlockWrap C)) (s : Slot C)
      → Known past w.round s
      → Known (w ∷ past) w.round (add_slot w s)
  unfolding add_slot
  add_slot-Known w past absent g =
      (fresh_block w past w.error refl, fresh_error w past w.error refl)
  add_slot-Known w past (held (some old) e waiting) g =
      (block_later w past w.round (some old) g.0, error_later w past w.round e g.1)
  add_slot-Known w past (held none (some e) waiting) g =
      (fresh_block w past w.error refl, error_later w past w.round (some e) g.1)
  add_slot-Known w past (held none none waiting) g =
      (fresh_block w past w.error refl, fresh_error w past w.error refl)

  abbrev delivered : Op C → List (BlockWrap C) → List (BlockWrap C)
  delivered (add w) past = w ∷ past
  delivered (promise r) past = past
  delivered (ask r) past = past

  apply-Known :
      (op : Op C) (past : List (BlockWrap C)) (s : Slot C)
      → Known past (op_round op) s
      → Known (delivered op past) (op_round op) (apply op s)
  unfolding op_round apply
  apply-Known (promise r) past s g = promise_slot-Known past r s g
  apply-Known (add w) past s g = add_slot-Known w past s g
  apply-Known (ask r) past s g = g

  other-Known :
      (op : Op C) (past : List (BlockWrap C)) (k : ℕ) (s : Slot C)
      → Known past k s
      → Known (delivered op past) k s
  other-Known (promise r) past k s g = g
  other-Known (add w) past k s g = slot_later w past k s g
  other-Known (ask r) past k s g = g

  Allowed-Known :
      (s s' : ℕ → Slot C) (op : Op C) (past : List (BlockWrap C))
      → ((k : ℕ) → Known past k (s k))
      → Allowed s op s'
      → (k : ℕ) → Known (delivered op past) k (s' k)
  Allowed-Known s s' op past g a k = elim (ℕ_discrete k (op_round op)) [
    | yes e ↦
        subst (λ j. Known (delivered op past) j (s' j)) (sym e)
          (subst (Known (delivered op past) (op_round op)) (sym a.own)
            (apply-Known op past (s (op_round op)) (g (op_round op))))
    | no n ↦ elim (a.others k n) [
      | inl e ↦ subst (Known (delivered op past) k) (sym e) (other-Known op past k (s k) (g k))
      | inr (e, _, _) ↦ subst (Known (delivered op past) k) (sym e) tt
    ]
  ]

  -- An answer to a question, and the answers that follow.
  ask-FromDeliveries :
      (past : List (BlockWrap C)) (r : ℕ) (s : Slot C) (ops : List (Op C)) (xs : List (Answer C))
      → Known past r s
      → FromDeliveries past ops xs
      → FromDeliveries past (ask r ∷ ops) (ask_slot s ∷ xs)
  unfolding ask_slot
  ask-FromDeliveries past r absent ops xs g f = f
  ask-FromDeliveries past r (held b (some e) waiting) ops xs g f = (g.1, f)
  ask-FromDeliveries past r (held (some w) none waiting) ops xs g f = (g.0, f)
  ask-FromDeliveries past r (held none none waiting) ops xs g f = f

  -- Whatever the contract allows: a block or an error that is answered for a round was delivered
  -- for that round before, if all that the slots held at the start was.
  pub Traces-FromDeliveries :
      (s : ℕ → Slot C) (ops : List (Op C)) (xs : List (Answer C)) (past : List (BlockWrap C))
      → ((k : ℕ) → Known past k (s k))
      → Traces s ops xs
      → FromDeliveries past ops xs
  unfolding answer op_round
  Traces-FromDeliveries s ops xs past g stop = tt
  Traces-FromDeliveries s (promise r ∷ ops) xs past g (step {s' = s'} a t) =
      Traces-FromDeliveries s' ops _ past (Allowed-Known s s' (promise r) past g a) t
  Traces-FromDeliveries s (add w ∷ ops) xs past g (step {s' = s'} a t) =
      Traces-FromDeliveries s' ops _ (w ∷ past) (Allowed-Known s s' (add w) past g a) t
  Traces-FromDeliveries s (ask r ∷ ops) xs past g (step {s' = s'} a t) =
      ask-FromDeliveries past r (s r) ops _ (g r)
        (Traces-FromDeliveries s' ops _ past (Allowed-Known s s' (ask r) past g a) t)
