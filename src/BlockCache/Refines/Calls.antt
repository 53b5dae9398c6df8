-- ===== src/BlockCache/Refines/Calls.antt =====
-- Sequences of calls on the cache of cache.go keep to the contract of BlockCache/Spec.
use algo_vnode.Prelude.{
  ℕ, ◌<◌, ◌≡◌, refl, sym, ap, ◌∙◌, inl, inr, List, [], ◌∷◌, some, arith, Option-cases,
}
use algo_vnode.BlockCache.Cache.{
  BlockCache, promise_block, add_block, get_block, note_last, new_entry, promised_entry,
}
use algo_vnode.BlockCache.Heap.{Heap, alloc, make_chan}
use algo_vnode.BlockCache.Entries.{new_entry-EntryIsValid}
use algo_vnode.BlockCache.Lru.{Lru}
use algo_vnode.BlockCache.Spec.{
  Op, promise, add, ask, Answer, op_round, apply, promise_slot, ask_slot, answer, Allowed, Traces,
  stop, step,
}
use algo_vnode.BlockCache.Steps.{
  note_last-c, Indexes, Steps, add_block-Steps, promise_block-Steps, get_block-Indexes,
}
use algo_vnode.BlockCache.Valid.{HeapIsValid, alloc-HeapIsValid}
use algo_vnode.BlockFetcher.Wrap.{BlockWrap}
use algo_vnode.BlockCache.Refines.{
  slot_of, seen, slot_of-read_entry, slot_of-new_entry, notify-Moves, rearm-Moves, view, view_at,
  view_absent, view_same, perform, perform_all, found-Allowed, added-Allowed,
}

module _ (lru : Lru) {C : Type 0} where
  -- A call that does not panic, and what the contract says of it.
  record Called (bc : BlockCache lru) (h : Heap C) (op : Op C) : Type 0 where
    cache : BlockCache lru
    heap : Heap C
    runs : perform lru bc h op ≡ some (cache, heap, answer op (view lru bc h (op_round op)))
    valid : HeapIsValid heap
    indexed : Indexes lru cache.c heap
    allowed : Allowed (view lru bc h) op (view lru cache heap)

  promise-Allowed :
      (bc : BlockCache lru) (h : Heap C) (round : ℕ)
      → Indexes lru bc.c h
      → let r = promise_block lru bc h round in
        Allowed (view lru bc h) (promise round) (view lru r.0 r.1)
  unfolding promise_block apply op_round slot_of promise_slot
  promise-Allowed bc h round i = elim (Option-cases (lru.peek bc.c round)) [
    | inl free ↦
        rw (lru.add_result bc.c round h.next_entry, free, promise_block)
          (added-Allowed lru bc _ h _ (promise round) i free refl (λ b l. ground arith)
            (ground arith))
    | inr (a, p) ↦
        rw (lru.add_result bc.c round h.next_entry, p, promise_block)
          (found-Allowed lru bc _ h (alloc (promised_entry round h.next_chan) (make_chan h)) _
            (promise round) a i p (lru.add_found bc.c round h.next_entry a p) (λ b l. ground arith)
            (rearm-Moves a _))
  ]

  -- `addBlock` never closes a closed channel, and changes the slots as the contract says.
  pub add-Allowed :
      (bc : BlockCache lru) (h : Heap C) (w : BlockWrap C)
      → HeapIsValid h
      → Indexes lru bc.c h
      → (bc' : BlockCache lru) × (h' : Heap C) × (add_block lru bc h w ≡ some (bc', h'))
        × Allowed (view lru bc h) (add w) (view lru bc' h')
  unfolding add_block apply op_round
  add-Allowed bc h w v i = elim (Option-cases (lru.peek bc.c w.round)) [
    | inl free ↦
        let bc' =
          note_last lru w (record bc { c = (lru.peek_or_add bc.c w.round h.next_entry).0 }) in
        (
          bc',
          alloc (new_entry w) h,
          rw (lru.add_result bc.c w.round h.next_entry, free, add_block) refl,
          added-Allowed lru bc bc' h _ (add w) i free (note_last-c lru w _) (λ b l. ground arith)
              (ap slot_of (ground arith) ∙ slot_of-new_entry w),
        )
    | inr (a, p) ↦
        let h₁ = alloc (new_entry w) h in
        let l : a < h.next_entry = i.known w.round a p in
        let bc' =
          note_last lru w (record bc { c = (lru.peek_or_add bc.c w.round h.next_entry).0 }) in
        let (h', runs, moves) =
          notify-Moves a w h₁ (alloc-HeapIsValid _ h (new_entry-EntryIsValid w) refl v)
            (omega arith) (ground (arith, i.keyed w.round a p)) in
        (
          bc',
          h',
          rw (lru.add_result bc.c w.round h.next_entry, p, add_block) (rw runs),
          found-Allowed lru bc bc' h h₁ h' (add w) a i p
              (note_last-c lru w _ ∙ lru.add_found bc.c w.round h.next_entry a p)
              (λ b l. ground arith) moves,
        )
  ]

  get_block-c :
      (bc : BlockCache lru) (h : Heap C) (round : ℕ)
      → (get_block lru bc h round).0.c ≡ (lru.get bc.c round).0
  unfolding get_block
  get_block-c bc h round = ground arith

  ask-Allowed :
      (bc : BlockCache lru) (h : Heap C) (round : ℕ)
      → Allowed (view lru bc h) (ask round) (view lru (get_block lru bc h round).0 h)
  unfolding get_block apply op_round
  ask-Allowed bc h round = record { own = same round; others = λ j n. inl (same j) }
    where
      same : (k : ℕ) → view lru (get_block lru bc h round).0 h k ≡ view lru bc h k
      same k =
          view_same lru bc (get_block lru bc h round).0 h h k
            (ap (λ c. lru.peek c k) (get_block-c bc h round) ∙ lru.peek-get bc.c round k)
            (λ a q. refl)

  ask-answer :
      (bc : BlockCache lru) (h : Heap C) (round : ℕ)
      → HeapIsValid h
      → Indexes lru bc.c h
      → seen (get_block lru bc h round).1 ≡ ask_slot (view lru bc h round)
  unfolding get_block seen ask_slot
  ask-answer bc h round v i = elim (Option-cases (lru.peek bc.c round)) [
    | inl q ↦
        rw (lru.get_result bc.c round, q, get_block)
          (ap ask_slot (sym (view_absent lru bc h round q)))
    | inr (a, q) ↦
        rw (lru.get_result bc.c round, q, get_block)
          (slot_of-read_entry lru a (h.entries a) (v.valid a (i.known _ a q))
            ∙ ap ask_slot (sym (view_at lru bc h round a q)))
  ]

  same_Steps :
      (bc : BlockCache lru) (h : Heap C) (w : BlockWrap C) (bc₁ bc₂ : BlockCache lru)
      (h₁ h₂ : Heap C)
      → add_block lru bc h w ≡ some (bc₁, h₁)
      → add_block lru bc h w ≡ some (bc₂, h₂)
      → Steps lru h bc₂ h₂
      → Steps lru h bc₁ h₁
  same_Steps bc h w bc₁ bc₂ h₁ h₂ e f s = ground arith

  perform-Called :
      (bc : BlockCache lru) (h : Heap C) (op : Op C)
      → HeapIsValid h
      → Indexes lru bc.c h
      → Called bc h op
  unfolding perform answer op_round
  perform-Called bc h (promise round) v i =
      let s = promise_block-Steps lru bc h round v i in
      record {
        cache = (promise_block lru bc h round).0;
        heap = (promise_block lru bc h round).1;
        runs = refl;
        valid = s.memory;
        indexed = s.indexes;
        allowed = promise-Allowed bc h round i;
      }
  perform-Called bc h (add w) v i =
      let (bc', h', runs, allowed) = add-Allowed bc h w v i in
      let (x, y, f, s) = add_block-Steps lru bc h w v i in
      let t = same_Steps bc h w bc' x h' y runs f s in
      record {
        cache = bc';
        heap = h';
        runs = rw runs;
        valid = t.memory;
        indexed = t.indexes;
        allowed = allowed;
      }
  perform-Called bc h (ask round) v i = record {
    cache = (get_block lru bc h round).0;
    heap = h;
    runs = ap (λ x. some ((get_block lru bc h round).0, h, x)) (ask-answer bc h round v i);
    valid = v;
    indexed = get_block-Indexes lru bc h round i;
    allowed = ask-Allowed bc h round;
  }

  -- However the calls on a cache in order follow each other: none panics, and their answers are
  -- ones that the contract allows from the slots that the cache shows at the start.
  pub perform_all-Traces :
      (bc : BlockCache lru) (h : Heap C) (ops : List (Op C))
      → HeapIsValid h
      → Indexes lru bc.c h
      → (answers : List (Answer C)) × (perform_all lru bc h ops ≡ some answers)
        × Traces (view lru bc h) ops answers
  unfolding perform_all
  perform_all-Traces bc h [] v i = ([], refl, stop)
  perform_all-Traces bc h (op ∷ ops) v i =
      let c = perform-Called bc h op v i in
      let (answers, runs, traces) = perform_all-Traces c.cache c.heap ops c.valid c.indexed in
      (
        answer op (view lru bc h (op_round op)) ∷ answers,
        rw c.runs (rw runs refl),
        step c.allowed traces,
      )
