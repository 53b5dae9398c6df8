-- ===== src/BlockCache/Delivery.antt =====
-- A promised block, from the promise to its delivery.
use algo_vnode.Prelude.{ℕ, ◌<◌, ◌≡◌, refl, true, Option-cases, none, some, arith, inl, inr}
use algo_vnode.BlockCache.Cache
use algo_vnode.BlockCache.Cache.{
  BlockCache, deliver, notify, rearm, note_last, returned, new_entry, read_entry,
}
use algo_vnode.BlockCache.Heap.{Heap, alloc}
use algo_vnode.BlockCache.Entries.{
  deliver-wait_for, notify_waiting, notify_unawaited, new_entry-EntryIsValid,
}
use algo_vnode.BlockCache.Lru.{Lru}
use algo_vnode.BlockCache.Steps.{Indexes}
use algo_vnode.BlockCache.Valid.{HeapIsValid, alloc-HeapIsValid}
use algo_vnode.BlockFetcher.Wrap.{BlockWrap}

module _ (lru : Lru) {C : Type 0} where
  -- What `addBlock` makes of an entry that it finds, `e` before and `e'` after.
  pub record Delivered (w : BlockWrap C) (h h' : Heap C) (a : ℕ) : Type 0 where
    pub content : (h'.entries a).b ≡ (deliver w (h.entries a)).b
    pub failure : (h'.entries a).error ≡ (deliver w (h.entries a)).error
    pub woken : (ch : ℕ) → (h.entries a).wait_for ≡ some ch → h'.closed ch ≡ true
    pub unawaited : (h'.entries a).wait_for ≡ none

  notify-Delivered :
      (w : BlockWrap C) (h : Heap C) (a : ℕ)
      → HeapIsValid h
      → a < h.next_entry
      → w.round ≡ (h.entries a).round
      → (h' : Heap C) × (notify a (deliver w (h.entries a)) h ≡ some h') × Delivered w h h' a
  notify-Delivered w h a v l r = elim (Option-cases (h.entries a).wait_for) [
    | inl e ↦ (
      _,
      notify_unawaited a w h e,
      record {
        content = ground arith;
        failure = ground arith;
        woken = λ ch p. ground arith;
        unawaited = ground (arith, deliver-wait_for w (h.entries a));
      },
    )
    | inr (ch, e) ↦ (
      _,
      notify_waiting a ch w h l r e v,
      record {
        content = ground arith;
        failure = ground arith;
        woken = λ c p. ground arith;
        unawaited = ground arith;
      },
    )
  ]

  -- A block whose round the cache holds is delivered to the entry that is there.
  pub add_block_found :
      (bc : BlockCache lru) (h : Heap C) (w : BlockWrap C) (a : ℕ)
      → HeapIsValid h
      → Indexes lru bc.c h
      → lru.peek bc.c w.round ≡ some a
      → (h' : Heap C) × (Cache.add_block lru bc h w ≡ some (note_last lru w bc, h'))
        × Delivered w h h' a
  unfolding Cache.add_block
  add_block_found bc h w a v i found =
      let h₁ = alloc (new_entry w) h in
      let l : a < h.next_entry = i.known w.round a found in
      let (h', runs, d) =
        notify-Delivered w h₁ a (alloc-HeapIsValid _ h (new_entry-EntryIsValid w) refl v)
          (omega arith) (ground (arith, i.keyed w.round a found)) in
      (
        h',
        rw (lru.add_result bc.c w.round h.next_entry, found, Cache.add_block)
            (rw (lru.add_found bc.c w.round h.next_entry a found) (rw runs)),
        record {
          content = ground (arith, d.content);
          failure = ground (arith, d.failure);
          woken = λ ch p. ground (arith, d.woken ch);
          unawaited = d.unawaited;
        },
      )

  -- What `promiseBlock` leaves: the round is in the cache, at the entry that it returns, and that
  -- entry has no error.
  pub record Promised (round : ℕ) (bc bc' : BlockCache lru) (h' : Heap C) (a : ℕ) : Type 0 where
    pub held : lru.peek bc'.c round ≡ some a
    pub armed : (h'.entries a).error ≡ none
    pub last_kept : bc'.last ≡ bc.last

  pub promise_block-Promised :
      (bc : BlockCache lru) (h : Heap C) (round : ℕ)
      → HeapIsValid h
      → Indexes lru bc.c h
      → let r = Cache.promise_block lru bc h round in Promised round bc r.0 r.1 r.2
  unfolding Cache.promise_block rearm
  promise_block-Promised bc h round v i = elim (Option-cases (lru.peek bc.c round)) [
    | inl free ↦
        rw (lru.add_result bc.c round h.next_entry, free, Cache.promise_block)
          (record {
            held = lru.peek-add_new bc.c round h.next_entry free;
            armed = ground arith;
            last_kept = refl;
          })
    | inr (a, found) ↦
        rw (lru.add_result bc.c round h.next_entry, found, Cache.promise_block)
          (record {
            held = rw (lru.add_found bc.c round h.next_entry a found) found;
            armed = ground (arith, i.known round a found);
            last_kept = refl;
          })
  ]
