-- ===== src/BlockCache/Valid.antt =====
-- Which memories of block entries can arise: the lock and channel discipline of cache.go.
use algo_vnode.Prelude.{ℕ, ◌<◌, ◌≡◌, ◌≢◌, false, true, none, some, arith, update}
use algo_vnode.BlockCache.Heap.{BlockEntry, Heap, alloc, write, make_chan}

module _ {C : Type 0} where
  -- An entry has waiters exactly while it has neither a block nor an error, or after it was armed
  -- again; the block that it holds is one of its round, fetched without an error.
  pub record EntryIsValid (e : BlockEntry C) : Type 0 where
    pub settled : e.error ≢ none → e.wait_for ≡ none
    pub awaited : e.b ≡ none → e.error ≡ none → e.wait_for ≢ none
    pub round_of : (w : _) → e.b ≡ some w → w.round ≡ e.round
    pub loaded : (w : _) → e.b ≡ some w → w.error ≡ none

  -- Every channel that an entry holds is open, and no other entry holds it.
  pub record HeapIsValid (h : Heap C) : Type 0 where
    pub valid : (a : ℕ) → a < h.next_entry → EntryIsValid (h.entries a)
    pub made : (a ch : ℕ) → a < h.next_entry → (h.entries a).wait_for ≡ some ch → ch < h.next_chan
    pub opened :
        (a ch : ℕ) → a < h.next_entry → (h.entries a).wait_for ≡ some ch → h.closed ch ≡ false
    pub owned :
        (a b ch : ℕ)
        → a < h.next_entry
        → b < h.next_entry
        → (h.entries a).wait_for ≡ some ch
        → (h.entries b).wait_for ≡ some ch
        → a ≡ b

  -- A new entry with no channel.
  pub alloc-HeapIsValid :
      (e : BlockEntry C) (h : Heap C)
      → EntryIsValid e
      → e.wait_for ≡ none
      → HeapIsValid h
      → HeapIsValid (alloc e h)
  alloc-HeapIsValid e h ve free v = record {
    valid = λ a l. ground (arith, v.valid a);
    made = λ a ch l w. ground (arith, v.made a ch);
    opened = λ a ch l w. ground (arith, v.opened a ch);
    owned = λ a b ch l m w x. ground (arith, v.owned a b ch);
  }

  -- A new entry with a new channel.
  pub promise-HeapIsValid :
      (e : BlockEntry C) (h : Heap C)
      → EntryIsValid e
      → e.wait_for ≡ some h.next_chan
      → HeapIsValid h
      → HeapIsValid (alloc e (make_chan h))
  promise-HeapIsValid e h ve new v = record {
    valid = λ a l. ground (arith, v.valid a);
    made = λ a ch l w. ground (arith, v.made a ch);
    opened = λ a ch l w. ground (arith, v.opened a ch, v.made a ch);
    owned = λ a b ch l m w x. ground (arith, v.owned a b ch, v.made a ch, v.made b ch);
  }

  -- An entry is written, with a new channel.
  pub rearm-HeapIsValid :
      (a : ℕ) (e : BlockEntry C) (h : Heap C)
      → EntryIsValid e
      → e.wait_for ≡ some h.next_chan
      → HeapIsValid h
      → HeapIsValid (write a e (make_chan h))
  rearm-HeapIsValid a e h ve new v = record {
    valid = λ b l. ground (arith, v.valid b);
    made = λ b ch l w. ground (arith, v.made b ch);
    opened = λ b ch l w. ground (arith, v.opened b ch, v.made b ch);
    owned = λ b c ch l m w x. ground (arith, v.owned b c ch, v.made b ch, v.made c ch);
  }

  -- An entry is written, and keeps its channel.
  pub write-HeapIsValid :
      (a : ℕ) (e : BlockEntry C) (h : Heap C)
      → EntryIsValid e
      → e.wait_for ≡ (h.entries a).wait_for
      → HeapIsValid h
      → HeapIsValid (write a e h)
  write-HeapIsValid a e h ve same v = record {
    valid = λ b l. ground (arith, v.valid b);
    made = λ b ch l w. ground (arith, v.made b ch);
    opened = λ b ch l w. ground (arith, v.opened b ch);
    owned = λ b c ch l m w x. ground (arith, v.owned b c ch);
  }

  -- An entry is written without its channel, which is closed.
  pub close-HeapIsValid :
      (a ch : ℕ) (e : BlockEntry C) (h : Heap C)
      → EntryIsValid e
      → a < h.next_entry
      → (h.entries a).wait_for ≡ some ch
      → e.wait_for ≡ none
      → HeapIsValid h
      → HeapIsValid (write a e (record h { closed = update h.closed ch true }))
  close-HeapIsValid a ch e h ve la held gone v = record {
    valid = λ b l. ground (arith, v.valid b);
    made = λ b c l w. ground (arith, v.made b c);
    opened = λ b c l w. ground (arith, v.opened b c, v.owned a b ch);
    owned = λ b c d l m w x. ground (arith, v.owned b c d);
  }
