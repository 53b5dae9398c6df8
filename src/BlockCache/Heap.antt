-- ===== src/BlockCache/Heap.antt =====
-- The memory behind internal/blockcache: block entries are shared by pointer, between the caches
-- and the goroutines that wait for a block, and each may hold a channel on which they wait. A
-- number below `next_entry` stands for a pointer, and one below `next_chan` for a channel.
use algo_vnode.Prelude.{
  ℕ, suc, Bool, true, false, Option, none, some, GoError, update, if◌then◌else◌,
}
use algo_vnode.BlockFetcher.Wrap.{BlockWrap}

-- `BlockEntry`. The lock is not part of the model: each operation below holds it throughout.
pub record BlockEntry (C : Type 0) : Type 0 where
  pub b : Option (BlockWrap C)
  pub wait_for : Option ℕ
  pub round : ℕ
  pub error : Option GoError

pub record Heap (C : Type 0) : Type 0 where
  pub entries : ℕ → BlockEntry C
  pub next_entry : ℕ
  pub closed : ℕ → Bool
  pub next_chan : ℕ

module _ {C : Type 0} where
  -- `&BlockEntry{...}`.
  abbrev pub alloc : BlockEntry C → Heap C → Heap C
  alloc e h = record h { entries = update h.entries h.next_entry e; next_entry = suc h.next_entry }

  abbrev pub write : ℕ → BlockEntry C → Heap C → Heap C
  write a e h = record h { entries = update h.entries a e }

  -- `make(chan struct{})`: the new channel is `h.next_chan`, and it is open.
  abbrev pub make_chan : Heap C → Heap C
  make_chan h = record h { closed = update h.closed h.next_chan false; next_chan = suc h.next_chan }

  -- `close(ch)`, which panics on a closed channel.
  abbrev pub close_chan : ℕ → Heap C → Option (Heap C)
  close_chan ch h =
      if h.closed ch then none else some (record h { closed = update h.closed ch true })
