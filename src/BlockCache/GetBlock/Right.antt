-- ===== src/BlockCache/GetBlock/Right.antt =====
-- What is right of a call of `GetBlock` of internal/blockcache/unified.go between its steps.
use algo_vnode.Prelude.{
  ℕ, ◌<◌, ◌≡◌, ◌≢◌, ◌⊎◌, inl, inr, ◌∙◌, true, Option, Option-cases, none, some, arith, Bool-cases,
  message,
}
use algo_vnode.BlockCache.Heap.{Heap}
use algo_vnode.BlockCache.Cache
use algo_vnode.BlockCache.Cache.{BlockCache, Read, returned, blocked, read_entry, woken_block}
use algo_vnode.BlockCache.Lru.{Lru}
use algo_vnode.BlockCache.Safety.{UnifiedIsValid, Keeps, index_of}
use algo_vnode.BlockCache.Steps.{Indexes, add_block-Steps}
use algo_vnode.BlockFetcher.Wrap.{error_wrap}
use algo_vnode.BlockCache.Unified.{
  Unified, Which, catchup, arch, Stage, Get, Wake, go_on, ctx_done, trying, waiting, done,
  first_catchup, first_arch, second_catchup, second_arch, cache_of, with_cache, stage_cache,
  get_step, start_read, after_read,
}
use algo_vnode.BlockCache.Valid.{HeapIsValid}

module _ (lru : Lru) {C : Type 0} where
  -- What holds of a call of `GetBlock` for `round`. A call that waits does so at an entry of the
  -- round, whose channel is closed or still there; a call that is done has a block of the round,
  -- fetched without an error, or an error.
  abbrev pub IsRight : Unified lru C → ℕ → Get C → Type 0
  IsRight u round (trying s) = Unit {0}
  IsRight u round (waiting s a ch) =
      (a < u.heap.next_entry)
      × (ch < u.heap.next_chan)
      × ((u.heap.entries a).round ≡ round)
      × ((u.heap.closed ch ≡ true) ⊎ ((u.heap.entries a).wait_for ≡ some ch))
  IsRight u round (done (some w) err) = (w.round ≡ round) × (w.error ≡ none)
  IsRight u round (done none err) = err ≢ none

  -- The same of one call of `getBlock`.
  abbrev pub ReadIsRight : Heap C → ℕ → Read C → Type 0
  ReadIsRight h round (blocked a ch) =
      (a < h.next_entry)
      × (ch < h.next_chan)
      × ((h.entries a).round ≡ round)
      × ((h.closed ch ≡ true) ⊎ ((h.entries a).wait_for ≡ some ch))
  ReadIsRight h round (returned (some w) err) = (w.round ≡ round) × (w.error ≡ none)
  ReadIsRight h round (returned none err) = Unit {0}

  pub Keeps-IsRight :
      (u u' : Unified lru C) (round : ℕ) (g : Get C)
      → Keeps lru u u'
      → IsRight u round g
      → IsRight u' round g
  Keeps-IsRight u u' round (trying s) k r = tt
  Keeps-IsRight u u' round (waiting s a ch) k r = (
    omega (arith, k.extends.grows),
    omega (arith, k.extends.more_chans),
    k.extends.same_round a r.0 ∙ r.2,
    ground (arith, k.extends.stays_closed ch, k.extends.waited a ch),
  )
  Keeps-IsRight u u' round (done (some w) err) k r = r
  Keeps-IsRight u u' round (done none err) k r = r

  read_entry-right :
      (h : Heap C) (a round : ℕ)
      → HeapIsValid h
      → a < h.next_entry
      → (h.entries a).round ≡ round
      → ReadIsRight h round (read_entry lru a (h.entries a))
  unfolding read_entry
  read_entry-right h a round v l e = elim (Option-cases (h.entries a).error) [
    | inr (err, p) ↦ rw (p, read_entry) tt
    | inl p ↦ elim (Option-cases (h.entries a).b) [
      | inr (w, q) ↦
          rw (p, q, read_entry) ((v.valid a l).round_of w q ∙ e, (v.valid a l).loaded w q)
      | inl q ↦ elim (Option-cases (h.entries a).wait_for) [
        | inl r ↦ rw (p, q, r, read_entry) tt
        | inr (ch, r) ↦ rw (p, q, r, read_entry) (l, v.made a ch l r, e, inr r)
      ]
    ]
  ]

  -- A block that is there when the waiter is woken, or else nothing to say.
  woken_block-right :
      (h : Heap C) (a round : ℕ)
      → HeapIsValid h
      → a < h.next_entry
      → (h.entries a).round ≡ round
      → ReadIsRight h round (woken_block lru h a)
  unfolding woken_block
  woken_block-right h a round v l e = elim (Option-cases (h.entries a).error) [
    | inr (err, p) ↦ rw (p, woken_block) tt
    | inl p ↦ elim (Option-cases (h.entries a).b) [
      | inr (w, q) ↦
          rw (p, q, woken_block) ((v.valid a l).round_of w q ∙ e, (v.valid a l).loaded w q)
      | inl q ↦ rw (p, q, woken_block) tt
    ]
  ]

  get_block-right :
      (bc : BlockCache lru) (h : Heap C) (round : ℕ)
      → HeapIsValid h
      → Indexes lru bc.c h
      → ReadIsRight h round (Cache.get_block lru bc h round).1
  unfolding Cache.get_block
  get_block-right bc h round v i = elim (Option-cases (lru.peek bc.c round)) [
    | inl p ↦ rw (lru.get_result bc.c round, p, Cache.get_block) tt
    | inr (a, p) ↦
        rw (lru.get_result bc.c round, p, Cache.get_block)
          (read_entry-right h a round v (i.known round a p) (i.keyed round a p))
  ]

  after_read-IsRight :
      (u : Unified lru C) (round : ℕ) (s : Stage) (r : Read C)
      → ReadIsRight u.heap round r
      → let next = after_read lru u round s r in IsRight next.0 round next.1
  unfolding after_read
  after_read-IsRight u round s (blocked a ch) h = h
  after_read-IsRight u round first_catchup (returned (some w) err) h = h
  after_read-IsRight u round first_catchup (returned none err) h = tt
  after_read-IsRight u round first_arch (returned (some w) err) h = h
  after_read-IsRight u round first_arch (returned none err) h = tt
  after_read-IsRight u round second_catchup (returned (some w) err) h = h
  after_read-IsRight u round second_catchup (returned none (some err)) h = λ e. cc
  after_read-IsRight u round second_catchup (returned none none) h = tt
  after_read-IsRight u round second_arch (returned (some w) err) h = h
  after_read-IsRight u round second_arch (returned none (some err)) h = λ e. cc
  after_read-IsRight u round second_arch (returned none none) h = λ e. cc

  heap_of :
      (u : Unified lru C) (k : Which) (bc : BlockCache lru) (round : ℕ) (r : Read C)
      → ReadIsRight u.heap round r
      → ReadIsRight (with_cache lru u k bc u.heap).heap round r
  heap_of u catchup bc round r h = h
  heap_of u arch bc round r h = h

  start_read-IsRight :
      (u : Unified lru C) (round : ℕ) (s : Stage)
      → UnifiedIsValid lru u
      → let next = start_read lru u round s in IsRight next.0 round next.1
  unfolding start_read
  start_read-IsRight u round s v =
      let k = stage_cache s in
      let r = Cache.get_block lru (cache_of lru u k) u.heap round in
      after_read-IsRight (with_cache lru u k r.0 u.heap) round s r.1 (
        heap_of u k r.0 round r.1
          (get_block-right (cache_of lru u k) u.heap round v.memory (index_of lru u k v)))

  -- The same of the outcome of a step, if it has one.
  abbrev OutcomeIsRight : ℕ → Option (Unified lru C × Get C) → Type 0
  OutcomeIsRight round none = Unit {0}
  OutcomeIsRight round (some (u, g)) = IsRight u round g

  get_step-outcome :
      (wake : Wake) (u : Unified lru C) (round : ℕ) (g : Get C)
      → UnifiedIsValid lru u
      → IsRight u round g
      → OutcomeIsRight round (get_step lru wake u round g)
  unfolding get_step Cache.cancelled_block
  get_step-outcome wake u round (done w err) v r = r
  get_step-outcome wake u round (trying s) v r = start_read-IsRight u round s v
  get_step-outcome go_on u round (waiting s a ch) v r = elim (Bool-cases (u.heap.closed ch)) [
    | inl e ↦
        rw (e, get_step)
          (after_read-IsRight u round s _ (woken_block-right u.heap a round v.memory r.0 r.2))
    | inr e ↦ rw (e, get_step) r
  ]
  get_step-outcome (ctx_done err) u round (waiting s a ch) v r =
      let k = stage_cache s in
      let (bc, h, runs, _) =
        add_block-Steps lru (cache_of lru u k) u.heap (error_wrap round (message "block timeout"))
          v.memory (index_of lru u k v) in
      rw runs (after_read-IsRight (with_cache lru u k bc h) round s (returned none (some err)) tt)

  pub get_step-IsRight :
      (wake : Wake) (u u' : Unified lru C) (round : ℕ) (g g' : Get C)
      → UnifiedIsValid lru u
      → IsRight u round g
      → get_step lru wake u round g ≡ some (u', g')
      → IsRight u' round g'
  get_step-IsRight wake u u' round g g' v r e = rw e at (get_step-outcome wake u round g v r)
