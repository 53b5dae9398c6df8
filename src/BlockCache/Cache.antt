-- ===== src/BlockCache/Cache.antt =====
-- `BlockCache` of internal/blockcache/cache.go. An operation returns `none` where the program
-- would panic, which it does when a closed channel is closed again.
use algo_vnode.Prelude.{
  ◌>>=◌, ℕ, ◌&&◌, ◌||◌, Bool, false, Option, none, some, GoError, GoError.message, String, is_some,
  is_none, ltb, if◌then◌else◌,
}
use algo_vnode.BlockCache.Heap.{BlockEntry, Heap, alloc, write, make_chan, close_chan}
use algo_vnode.BlockCache.Lru.{Lru}
use algo_vnode.BlockFetcher.Wrap.{BlockWrap, error_wrap}

-- What `getBlock` has to say: it returns a block and an error, or waits at an entry for a channel.
pub data Read (C : Type 0) : Type 0 where
  returned : Option (BlockWrap C) → Option GoError → Read C
  blocked : ℕ → ℕ → Read C

module _ {C : Type 0} where
  -- What `promiseBlock` does with an entry that is there: a failed one is armed again.
  unfoldable pub rearm : ℕ → BlockEntry C → Heap C → Heap C
  rearm a e h = elim e.error [
    | some err ↦ write a (record e { wait_for = some h.next_chan; error = none }) (make_chan h)
    | none ↦ h
  ]

  -- What `addBlock` stores in an entry that is there: a block where there is none, or the first
  -- error.
  unfoldable pub deliver : BlockWrap C → BlockEntry C → BlockEntry C
  deliver w e = elim e.b [
    | some old ↦ e
    | none ↦ elim w.error [
      | none ↦ record e { b = some w }
      | some err ↦ elim e.error [ none ↦ record e { error = some err } | some old ↦ e ]
    ]
  ]

  -- The end of `addBlock`: the waiters are woken by closing their channel.
  unfoldable pub notify : ℕ → BlockEntry C → Heap C → Option (Heap C)
  notify a e h = elim e.wait_for [
    | none ↦ some (write a e h)
    | some ch ↦
        if is_some e.b || is_some e.error
        then (close_chan ch h >>= λ h'. some (write a (record e { wait_for = none }) h'))
        else some (write a e h)
  ]

  -- The entry that `addBlock` makes.
  abbrev pub new_entry : BlockWrap C → BlockEntry C
  new_entry w = record {
    b = if is_none w.error then some w else none;
    wait_for = none;
    round = w.round;
    error = w.error;
  }

  -- The entry that `promiseBlock` makes.
  abbrev pub promised_entry : ℕ → ℕ → BlockEntry C
  promised_entry round ch = record { b = none; wait_for = some ch; round = round; error = none }

module _ (lru : Lru) where
  pub record BlockCache : Type 0 where
    pub c : lru.Cache
    pub last : ℕ
    pub name : String

  -- `IsBlockPromised`.
  unfoldable pub is_block_promised : BlockCache → ℕ → Bool
  is_block_promised bc round = is_some (lru.peek bc.c round)

  module _ {C : Type 0} where
    -- `promiseBlock`, with the address of the entry that it returns.
    unfoldable pub promise_block : BlockCache → Heap C → ℕ → BlockCache × Heap C × ℕ
    unfolding rearm
    promise_block bc h round =
        let be = h.next_entry in
        let h' = alloc (promised_entry round h.next_chan) (make_chan h) in
        let (c', found) = lru.peek_or_add bc.c round be in
        elim found [
          | some a ↦ (record bc { c = c' }, rearm a (h'.entries a) h', a)
          | none ↦ (record bc { c = c' }, h', be)
        ]

    -- The last lines of `addBlock`.
    unfoldable pub note_last : BlockWrap C → BlockCache → BlockCache
    note_last w bc =
        if ltb bc.last w.round && is_none w.error then record bc { last = w.round } else bc

    -- `addBlock`.
    unfoldable pub add_block : BlockCache → Heap C → BlockWrap C → Option (BlockCache × Heap C)
    unfolding deliver notify note_last
    add_block bc h w =
        let h' = alloc (new_entry w) h in
        let (c', found) = lru.peek_or_add bc.c w.round h.next_entry in
        let bc' = note_last w (record bc { c = c' }) in
        elim found [
          | some a ↦ notify a (deliver w (h'.entries a)) h' >>= λ h''. some (bc', h'')
          | none ↦ some (bc', h')
        ]

    -- `IsBlockCached`.
    unfoldable pub is_block_cached : BlockCache → Heap C → ℕ → Bool
    is_block_cached bc h round = elim (lru.peek bc.c round) [
      | some a ↦ is_some (h.entries a).b
      | none ↦ false
    ]

    -- What `getBlock` makes of an entry that it finds, before any wait.
    unfoldable pub read_entry : ℕ → BlockEntry C → Read C
    read_entry a e = elim e.error [
      | some err ↦ returned none (some err)
      | none ↦ elim e.b [
        | some w ↦ returned (some w) none
        | none ↦ elim e.wait_for [
          | none ↦ returned none (some (message "block not scheduled for load"))
          | some ch ↦ blocked a ch
        ]
      ]
    ]

    -- `getBlock` up to its wait.
    unfoldable pub get_block : BlockCache → Heap C → ℕ → BlockCache × Read C
    unfolding read_entry
    get_block bc h round =
        let (c', item) = lru.get bc.c round in
        elim item [
          | some a ↦ (record bc { c = c' }, read_entry a (h.entries a))
          | none ↦ (record bc { c = c' }, returned none none)
        ]

    -- `getBlock` after its wait, when the channel is closed.
    unfoldable pub woken_block : Heap C → ℕ → Read C
    woken_block h a = elim (h.entries a).error [
      | some err ↦ returned none (some err)
      | none ↦ returned (h.entries a).b none
    ]

    -- `getBlock` after its wait, when the context ends with the error `err`.
    unfoldable pub cancelled_block :
        BlockCache → Heap C → ℕ → GoError → Option (BlockCache × Heap C × Read C)
    unfolding add_block
    cancelled_block bc h round err =
        add_block bc h (error_wrap round (message "block timeout")) >>= λ (bc', h').
        some (bc', h', returned none (some err))
