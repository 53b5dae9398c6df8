-- ===== src/BlockCache/Steps.antt =====
-- The operations of one `BlockCache`: none panics, and each keeps the memory and the cache in
-- order.
use algo_vnode.Prelude.{
  ℕ, ◌<◌, ◌≡◌, refl, sym, ◌∙◌, none, some, arith, Option-cases, inl, inr, ℕ_discrete,
}
use algo_vnode.BlockCache.Heap.{Heap, alloc, make_chan}
use algo_vnode.BlockCache.Cache.{
  BlockCache, new_entry, promised_entry, rearm, promise_block, add_block, note_last, get_block,
}
use algo_vnode.BlockCache.Entries.{
  Extends, Extends-trans, alloc-Extends, promise-Extends, new_entry-EntryIsValid,
  promised_entry-EntryIsValid, rearm-valid, rearm-Extends, notify-valid,
}
use algo_vnode.BlockCache.Lru.{Lru}
use algo_vnode.BlockCache.Valid.{HeapIsValid, alloc-HeapIsValid, promise-HeapIsValid}
use algo_vnode.BlockFetcher.Wrap.{BlockWrap}

module _ (lru : Lru) {C : Type 0} where
  -- What a cache holds under a round is an entry of that round.
  pub record Indexes (c : lru.Cache) (h : Heap C) : Type 0 where
    pub known : (k a : ℕ) → lru.peek c k ≡ some a → a < h.next_entry
    pub keyed : (k a : ℕ) → lru.peek c k ≡ some a → (h.entries a).round ≡ k

  pub Extends-Indexes : (c : lru.Cache) (h h' : Heap C) → Extends h h' → Indexes c h → Indexes c h'
  Extends-Indexes c h h' e i = record {
    known = λ k a p. omega (arith, i.known k a p, e.grows);
    keyed = λ k a p. ground (arith, e.same_round a, i.known k a p, i.keyed k a p);
  }

  -- The state of a cache and its memory after an operation.
  pub record Steps (h : Heap C) (bc' : BlockCache lru) (h' : Heap C) : Type 0 where
    pub memory : HeapIsValid h'
    pub indexes : Indexes bc'.c h'
    pub extends : Extends h h'

  -- Adding the entry that has just been made, where the round is new.
  added-Indexes :
      (c : lru.Cache) (k : ℕ) (h h' : Heap C)
      → lru.peek c k ≡ none
      → h.next_entry < h'.next_entry
      → (h'.entries h.next_entry).round ≡ k
      → Extends h h'
      → Indexes c h
      → Indexes (lru.peek_or_add c k h.next_entry).0 h'
  added-Indexes c k h h' free l r e i = record {
    known = λ j a p. ground (arith, known j a p);
    keyed = λ j a p. ground (arith, known j a p);
  }
    where
      known :
          (j a : ℕ)
          → lru.peek (lru.peek_or_add c k h.next_entry).0 j ≡ some a
          → (a < h'.next_entry) × ((h'.entries a).round ≡ j)
      known j a p = elim (ℕ_discrete j k) [
        | yes q ↦ ground (arith, lru.peek-add_new c k h.next_entry free)
        | no q ↦ elim (lru.peek-add_other c k h.next_entry j q) [
          | inl same ↦ ground (
            arith,
            Extends-Indexes c h h' e i,
            (Extends-Indexes c h h' e i).known j a,
            (Extends-Indexes c h h' e i).keyed j a,
          )
          | inr gone ↦ ground arith
        ]
      ]

  -- An index survives an addition that finds the round.
  found-Indexes :
      (c : lru.Cache) (k b a : ℕ) (h h' : Heap C)
      → lru.peek c k ≡ some a
      → Extends h h'
      → Indexes c h
      → Indexes (lru.peek_or_add c k b).0 h'
  found-Indexes c k b a h h' p e i = rw (lru.add_found c k b a p) (Extends-Indexes c h h' e i)

  -- What is noted of a block leaves the rounds of the cache alone.
  pub note_last-c : (w : BlockWrap C) (bc : BlockCache lru) → (note_last lru w bc).c ≡ bc.c
  unfolding note_last
  note_last-c w bc = ground arith

  -- `addBlock` never closes a closed channel, and keeps the cache and the memory in order.
  pub add_block-Steps :
      (bc : BlockCache lru) (h : Heap C) (w : BlockWrap C)
      → HeapIsValid h
      → Indexes bc.c h
      → (bc' : BlockCache lru) × (h' : Heap C) × (add_block lru bc h w ≡ some (bc', h'))
        × Steps h bc' h'
  unfolding add_block
  add_block-Steps bc h w v i = elim (Option-cases (lru.peek bc.c w.round)) [
    | inl free ↦ (
      note_last lru w (record bc { c = (lru.peek_or_add bc.c w.round h.next_entry).0 }),
      alloc (new_entry w) h,
      rw (lru.add_result bc.c w.round h.next_entry, free, add_block),
      record {
        memory = alloc-HeapIsValid _ h (new_entry-EntryIsValid w) refl v;
        indexes = rw (note_last-c w _) (
            added-Indexes bc.c w.round h _ free (omega arith) (ground arith)
              (alloc-Extends (new_entry w) h) i);
        extends = alloc-Extends (new_entry w) h;
      },
    )
    | inr (a, found) ↦
        let h₁ = alloc (new_entry w) h in
        let e = alloc-Extends (new_entry w) h in
        let i₁ = Extends-Indexes bc.c h h₁ e i in
        let (h', runs, memory, extends) =
          notify-valid a w h₁ (i₁.known _ a found) (sym (i₁.keyed _ a found))
            (alloc-HeapIsValid _ h (new_entry-EntryIsValid w) refl v) in
        (
          note_last lru w (record bc { c = (lru.peek_or_add bc.c w.round h.next_entry).0 }),
          h',
          rw (lru.add_result bc.c w.round h.next_entry, found, add_block) (rw runs),
          record {
            memory = memory;
            indexes = rw (note_last-c w _) (
                found-Indexes bc.c w.round h.next_entry a h h' found
                  (Extends-trans h h₁ h' e extends) i);
            extends = Extends-trans h h₁ h' e extends;
          },
        )
  ]

  -- `promiseBlock` keeps the cache and the memory in order, and returns an entry of the round.
  pub promise_block-Steps :
      (bc : BlockCache lru) (h : Heap C) (round : ℕ)
      → HeapIsValid h
      → Indexes bc.c h
      → let r = promise_block lru bc h round in Steps h r.0 r.1
  unfolding promise_block
  promise_block-Steps bc h round v i = elim (Option-cases (lru.peek bc.c round)) [
    | inl free ↦
        rw (lru.add_result bc.c round h.next_entry, free, promise_block)
          (record {
            memory = memory;
            indexes = added-Indexes bc.c round h _ free (omega arith) (ground arith) extends i;
            extends = extends;
          })
    | inr (a, found) ↦
        let i₁ = Extends-Indexes bc.c h h₁ extends i in
        let e =
          Extends-trans h h₁ (rearm a (h₁.entries a) h₁) extends
            (rearm-Extends a h₁ (i₁.known _ a found) memory) in
        rw (lru.add_result bc.c round h.next_entry, found, promise_block)
          (record {
            memory = rearm-valid a h₁ (i₁.known _ a found) memory;
            indexes = found-Indexes bc.c round h.next_entry a h _ found e i;
            extends = e;
          })
  ]
    where
      h₁ : Heap C
      h₁ = alloc (promised_entry round h.next_chan) (make_chan h)

      extends : Extends h h₁
      extends = promise-Extends (promised_entry round h.next_chan) h

      memory : HeapIsValid h₁
      memory =
          promise-HeapIsValid (promised_entry round h.next_chan) h
            (promised_entry-EntryIsValid round h.next_chan) refl v

  -- Looking a round up changes only the order of use.
  pub get_block-Indexes :
      (bc : BlockCache lru) (h : Heap C) (round : ℕ)
      → Indexes bc.c h
      → Indexes (get_block lru bc h round).0.c h
  unfolding get_block
  get_block-Indexes bc h round i = elim (Option-cases (lru.peek bc.c round)) [
    | inl missing ↦ rw (lru.get_result bc.c round, missing, get_block) same
    | inr (a, found) ↦ rw (lru.get_result bc.c round, found, get_block) same
  ]
    where
      same : Indexes (lru.get bc.c round).0 h
      same = record {
        known = λ k a p. i.known k a (sym (lru.peek-get bc.c round k) ∙ p);
        keyed = λ k a p. i.keyed k a (sym (lru.peek-get bc.c round k) ∙ p);
      }
