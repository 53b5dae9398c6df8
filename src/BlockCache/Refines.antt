-- ===== src/BlockCache/Refines.antt =====
-- The cache of cache.go implements the contract of BlockCache/Spec.
use algo_vnode.Prelude.{
  ◌>>=◌, ℕ, ◌<◌, ◌≡◌, ◌≢◌, ◌⊎◌, refl, sym, ap, ◌∙◌, inl, inr, true, false, List, [], ◌∷◌, Option,
  none, some, arith, is_some, fun_ext, Option-cases, subst,
}
use algo_vnode.BlockCache.Cache.{
  BlockCache, Read, returned, blocked, promise_block, add_block, get_block, deliver, notify, rearm,
  note_last, new_entry, promised_entry, read_entry,
}
use algo_vnode.BlockCache.Heap.{BlockEntry, Heap, alloc, write, make_chan}
use algo_vnode.BlockCache.Entries.{
  deliver-wait_for, notify_waiting, notify_unawaited, new_entry-EntryIsValid,
}
use algo_vnode.BlockCache.Lru.{Lru}
use algo_vnode.BlockCache.Spec.{
  Slot, absent, held, Op, promise, add, ask, Answer, done, found, failed, missing, waits, op_round,
  apply, promise_slot, add_slot, ask_slot, answer, Allowed, Traces, stop, step,
}
use algo_vnode.BlockCache.Steps.{
  Indexes, Steps, add_block-Steps, promise_block-Steps, get_block-Indexes,
}
use algo_vnode.BlockCache.Valid.{EntryIsValid, HeapIsValid, alloc-HeapIsValid}
use algo_vnode.BlockFetcher.Wrap.{BlockWrap}
pub mod Calls
pub mod Adds
pub mod Fresh

module _ {C : Type 0} where
  -- What an entry is to the contract.
  unfoldable pub slot_of : BlockEntry C → Slot C
  slot_of e = held e.b e.error (is_some e.wait_for)

  slot_of-present : (e : BlockEntry C) → slot_of e ≢ absent
  unfolding slot_of
  slot_of-present e = λ p. ground arith

  -- What a caller sees of the first part of `getBlock`.
  unfoldable pub seen : Read C → Answer C
  seen (returned none none) = missing
  seen (returned b (some e)) = failed e
  seen (returned (some w) none) = found w
  seen (blocked a ch) = waits

  pub slot_of-read_entry :
      (lru : Lru) (a : ℕ) (e : BlockEntry C)
      → EntryIsValid e
      → seen (read_entry lru a e) ≡ ask_slot (slot_of e)
  unfolding slot_of seen read_entry ask_slot
  slot_of-read_entry lru a e v = ground (arith, v.awaited)

  pub slot_of-new_entry : (w : BlockWrap C) → slot_of (new_entry w) ≡ add_slot w absent
  unfolding slot_of add_slot
  slot_of-new_entry w = ground arith

  -- What a delivery leaves of an entry: the waiters are gone.
  slot_of-deliver :
      (w : BlockWrap C) (e : BlockEntry C)
      → slot_of (record (deliver w e) { wait_for = none }) ≡ add_slot w (slot_of e)
  unfolding slot_of add_slot deliver
  slot_of-deliver w e = ground arith

  -- One entry of the memory goes through a step of its slot, and the others stay.
  pub record Moves (f : Slot C → Slot C) (h h' : Heap C) (a : ℕ) : Type 0 where
    pub own_slot : slot_of (h'.entries a) ≡ f (slot_of (h.entries a))
    pub same_entry : (b : ℕ) → b ≢ a → h'.entries b ≡ h.entries b

  pub notify-Moves :
      (a : ℕ) (w : BlockWrap C) (h : Heap C)
      → HeapIsValid h
      → a < h.next_entry
      → w.round ≡ (h.entries a).round
      → (h' : Heap C) × (notify a (deliver w (h.entries a)) h ≡ some h') × Moves (add_slot w) h h' a
  unfolding slot_of
  notify-Moves a w h v l r = elim (Option-cases (h.entries a).wait_for) [
    | inl free ↦ (
      _,
      notify_unawaited a w h free,
      record {
        own_slot =
            ground (arith, slot_of-deliver w (h.entries a), deliver-wait_for w (h.entries a));
        same_entry = λ b n. ground arith;
      },
    )
    | inr (ch, p) ↦ (
      _,
      notify_waiting a ch w h l r p v,
      record {
        own_slot = ground (arith, slot_of-deliver w (h.entries a));
        same_entry = λ b n. ground arith;
      },
    )
  ]

  pub rearm-Moves : (a : ℕ) (h : Heap C) → Moves promise_slot h (rearm a (h.entries a) h) a
  unfolding rearm slot_of promise_slot
  rearm-Moves a h = record { own_slot = ground arith; same_entry = λ b n. ground arith }

module _ (lru : Lru) {C : Type 0} where
  -- What a cache and its memory are to the contract.
  unfoldable pub view : BlockCache lru → Heap C → ℕ → Slot C
  unfolding slot_of
  view bc h k = elim (lru.peek bc.c k) [ none ↦ absent | some a ↦ slot_of (h.entries a) ]

  pub view_at :
      (bc : BlockCache lru) (h : Heap C) (k a : ℕ)
      → lru.peek bc.c k ≡ some a
      → view bc h k ≡ slot_of (h.entries a)
  unfolding view
  view_at bc h k a p = rw (p, view) refl

  pub view_absent :
      (bc : BlockCache lru) (h : Heap C) (k : ℕ) → lru.peek bc.c k ≡ none → view bc h k ≡ absent
  unfolding view
  view_absent bc h k p = rw (p, view) refl

  -- A slot stays if its round is found as before and its entry, if it has one, is the same.
  pub view_same :
      (bc bc' : BlockCache lru) (h h' : Heap C) (k : ℕ)
      → lru.peek bc'.c k ≡ lru.peek bc.c k
      → ((a : ℕ) → lru.peek bc.c k ≡ some a → h'.entries a ≡ h.entries a)
      → view bc' h' k ≡ view bc h k
  view_same bc bc' h h' k same kept = elim (Option-cases (lru.peek bc.c k)) [
    | inl q ↦ view_absent bc' h' k (same ∙ q) ∙ sym (view_absent bc h k q)
    | inr (a, q) ↦ view_at bc' h' k a (same ∙ q) ∙ ap slot_of (kept a q) ∙ sym (view_at bc h k a q)
  ]

  -- One call on the cache, with what the caller sees of it.
  unfoldable pub perform :
      BlockCache lru → Heap C → Op C → Option (BlockCache lru × Heap C × Answer C)
  unfolding promise_block add_block get_block seen
  perform bc h (promise round) = let r = promise_block lru bc h round in some (r.0, r.1, done)
  perform bc h (add w) = add_block lru bc h w >>= λ (bc', h'). some (bc', h', done)
  perform bc h (ask round) = let r = get_block lru bc h round in some (r.0, h, seen r.1)

  unfoldable pub perform_all : BlockCache lru → Heap C → List (Op C) → Option (List (Answer C))
  unfolding perform
  perform_all bc h [] = some []
  perform_all bc h (op ∷ ops) =
      perform bc h op >>= λ (bc', h', x). perform_all bc' h' ops >>= λ xs. some (x ∷ xs)

  -- The slots of a cache in which the round was found, after a step at its entry.
  pub found-Allowed :
      (bc bc' : BlockCache lru) (h h₁ h' : Heap C) (op : Op C) (a : ℕ)
      → Indexes lru bc.c h
      → lru.peek bc.c (op_round op) ≡ some a
      → bc'.c ≡ bc.c
      → ((b : ℕ) → b < h.next_entry → h₁.entries b ≡ h.entries b)
      → Moves (apply op) h₁ h' a
      → Allowed (view bc h) op (view bc' h')
  found-Allowed bc bc' h h₁ h' op a i p same kept m = record {
    own =
        view_at bc' h' (op_round op) a (ap (λ c. lru.peek c (op_round op)) same ∙ p)
        ∙ m.own_slot
        ∙ ap (λ e. apply op (slot_of e)) (kept a (i.known _ a p))
        ∙ ap (apply op) (sym (view_at bc h (op_round op) a p));
    others = λ j n. inl (
        view_same bc bc' h h' j (ap (λ c. lru.peek c j) same)
          (λ b q. m.same_entry b (λ e. n (apart j b q e)) ∙ kept b (i.known j b q)));
  }
    where
      apart : (j b : ℕ) → lru.peek bc.c j ≡ some b → b ≡ a → j ≡ op_round op
      apart j b q e = sym (i.keyed j b q) ∙ ap (λ x. (h.entries x).round) e ∙ i.keyed _ a p

  -- The slots of a cache in which the round was not found: its entry is new.
  pub added-Allowed :
      (bc bc' : BlockCache lru) (h h' : Heap C) (op : Op C)
      → Indexes lru bc.c h
      → lru.peek bc.c (op_round op) ≡ none
      → bc'.c ≡ (lru.peek_or_add bc.c (op_round op) h.next_entry).0
      → ((b : ℕ) → b < h.next_entry → h'.entries b ≡ h.entries b)
      → slot_of (h'.entries h.next_entry) ≡ apply op absent
      → Allowed (view bc h) op (view bc' h')
  added-Allowed bc bc' h h' op i p same kept new = record {
    own = there ∙ new ∙ ap (apply op) (sym (view_absent bc h (op_round op) p));
    others = λ j n. elim (lru.peek-add_other bc.c (op_round op) h.next_entry j n) [
      | inl q ↦ inl (
          view_same bc bc' h h' j (ap (λ c. lru.peek c j) same ∙ q) (λ b e. kept b (i.known j b e)))
      | inr q ↦ inr (
        view_absent bc' h' j (ap (λ c. lru.peek c j) same ∙ q),
        view_absent bc h _ p,
        λ e. slot_of-present (h'.entries h.next_entry) (sym there ∙ e),
      )
    ];
  }
    where
      there : view bc' h' (op_round op) ≡ slot_of (h'.entries h.next_entry)
      there =
          view_at bc' h' (op_round op) h.next_entry
            (ap (λ c. lru.peek c (op_round op)) same ∙ lru.peek-add_new bc.c _ h.next_entry p)
