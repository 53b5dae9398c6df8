-- ===== src/BlockCache/Entries.antt =====
-- What cache.go does with one block entry keeps the memory in order, and does not panic.
use algo_vnode.Prelude.{
  ℕ, ◌<◌, ◌≤◌, ◌≡◌, refl, true, none, some, arith, update, Option-cases, ◌⊎◌, inl, inr,
}
use algo_vnode.BlockCache.Heap.{BlockEntry, Heap, alloc, write, make_chan}
use algo_vnode.BlockCache.Cache.{rearm, deliver, notify, new_entry, promised_entry}
use algo_vnode.BlockCache.Valid.{
  EntryIsValid, HeapIsValid, rearm-HeapIsValid, write-HeapIsValid, close-HeapIsValid,
}
use algo_vnode.BlockFetcher.Wrap.{BlockWrap}

module _ {C : Type 0} where
  -- Entries stay where they are and keep their round, closed channels stay closed, and an entry
  -- gives up a channel only by closing it.
  pub record Extends (h h' : Heap C) : Type 0 where
    pub grows : h.next_entry ≤ h'.next_entry
    pub more_chans : h.next_chan ≤ h'.next_chan
    pub same_round : (a : ℕ) → a < h.next_entry → (h'.entries a).round ≡ (h.entries a).round
    pub stays_closed : (ch : ℕ) → ch < h.next_chan → h.closed ch ≡ true → h'.closed ch ≡ true
    pub waited :
        (a ch : ℕ)
        → a < h.next_entry
        → ch < h.next_chan
        → (h.entries a).wait_for ≡ some ch
        → (h'.closed ch ≡ true) ⊎ ((h'.entries a).wait_for ≡ some ch)

  pub Extends-trans : (g h k : Heap C) → Extends g h → Extends h k → Extends g k
  Extends-trans g h k p q = record {
    grows = omega arith;
    more_chans = omega arith;
    same_round = λ a l. ground (arith, p.same_round a, q.same_round a);
    stays_closed = λ ch l e. ground (arith, p.stays_closed ch, q.stays_closed ch);
    waited = λ a ch l m e. ground (arith, p.waited a ch, q.waited a ch, q.stays_closed ch);
  }

  pub alloc-Extends : (e : BlockEntry C) (h : Heap C) → Extends h (alloc e h)
  alloc-Extends e h = record {
    grows = omega arith;
    more_chans = omega arith;
    same_round = λ a l. ground arith;
    stays_closed = λ ch l e. ground arith;
    waited = λ a ch l m e. ground arith;
  }

  pub promise-Extends : (e : BlockEntry C) (h : Heap C) → Extends h (alloc e (make_chan h))
  promise-Extends e h = record {
    grows = omega arith;
    more_chans = omega arith;
    same_round = λ a l. ground arith;
    stays_closed = λ ch l e. ground arith;
    waited = λ a ch l m e. ground arith;
  }

  pub new_entry-EntryIsValid : (w : BlockWrap C) → EntryIsValid (new_entry w)
  new_entry-EntryIsValid w = record {
    settled = λ _. refl;
    awaited = λ p q. ground arith;
    round_of = λ x p. ground arith;
    loaded = λ x p. ground arith;
  }

  pub promised_entry-EntryIsValid : (r ch : ℕ) → EntryIsValid {C = C} (promised_entry r ch)
  promised_entry-EntryIsValid r ch = record {
    settled = λ p. absurd (p refl);
    awaited = λ p q. λ e. ground arith;
    round_of = λ x p. ground arith;
    loaded = λ x p. ground arith;
  }

  pub rearm-valid :
      (a : ℕ) (h : Heap C)
      → a < h.next_entry
      → HeapIsValid h
      → HeapIsValid (rearm a (h.entries a) h)
  unfolding rearm
  rearm-valid a h l v = elim (Option-cases (h.entries a).error) [
    | inl e ↦ rw (e, rearm) v
    | inr (err, e) ↦
        rw (e, rearm)
          (rearm-HeapIsValid a _ h
            (record {
              settled = λ p. absurd (p refl);
              awaited = λ p q. λ f. ground arith;
              round_of = (v.valid a l).round_of;
              loaded = (v.valid a l).loaded;
            })
            refl v)
  ]

  pub rearm-Extends :
      (a : ℕ) (h : Heap C) → a < h.next_entry → HeapIsValid h → Extends h (rearm a (h.entries a) h)
  unfolding rearm
  rearm-Extends a h l v = record {
    grows = ground arith;
    more_chans = ground arith;
    same_round = λ b m. ground arith;
    stays_closed = λ ch m e. ground arith;
    waited = λ b ch m n e. ground (arith, (v.valid a l).settled);
  }

  pub deliver-wait_for : (w : BlockWrap C) (e : BlockEntry C) → (deliver w e).wait_for ≡ e.wait_for
  unfolding deliver
  deliver-wait_for w e = ground arith

  deliver-round : (w : BlockWrap C) (e : BlockEntry C) → (deliver w e).round ≡ e.round
  unfolding deliver
  deliver-round w e = ground arith

  deliver_unawaited :
      (w : BlockWrap C) (e : BlockEntry C)
      → EntryIsValid e
      → w.round ≡ e.round
      → e.wait_for ≡ none
      → EntryIsValid (deliver w e)
  unfolding deliver
  deliver_unawaited w e v r free = record {
    settled = λ p. ground arith;
    awaited = λ p q. ground (arith, v.awaited);
    round_of = λ x p. ground (arith, v.round_of x);
    loaded = λ x p. ground (arith, v.loaded x);
  }

  deliver_awaited :
      (w : BlockWrap C) (e : BlockEntry C)
      → EntryIsValid e
      → w.round ≡ e.round
      → EntryIsValid (record (deliver w e) { wait_for = none })
  unfolding deliver
  deliver_awaited w e v r = record {
    settled = λ p. refl;
    awaited = λ p q. ground arith;
    round_of = λ x p. ground (arith, v.round_of x);
    loaded = λ x p. ground (arith, v.loaded x);
  }

  pub notify_unawaited :
      (a : ℕ) (w : BlockWrap C) (h : Heap C)
      → (h.entries a).wait_for ≡ none
      → notify a (deliver w (h.entries a)) h ≡ some (write a (deliver w (h.entries a)) h)
  unfolding notify
  notify_unawaited a w h e = ground (arith, deliver-wait_for w (h.entries a))

  -- An entry with waiters, which by the invariant holds no error, wakes them.
  pub notify_waiting :
      (a ch : ℕ) (w : BlockWrap C) (h : Heap C)
      → a < h.next_entry
      → w.round ≡ (h.entries a).round
      → (h.entries a).wait_for ≡ some ch
      → HeapIsValid h
      → notify a (deliver w (h.entries a)) h
        ≡ some (
            write a
              (record (deliver w (h.entries a)) { wait_for = none })
              (record h { closed = update h.closed ch true }))
  unfolding deliver notify
  notify_waiting a ch w h l r held v = ground (arith, v.opened a ch, (v.valid a l).settled)

  -- Delivering to an entry and waking its waiters does not panic, and keeps the memory in order.
  pub notify-valid :
      (a : ℕ) (w : BlockWrap C) (h : Heap C)
      → a < h.next_entry
      → w.round ≡ (h.entries a).round
      → HeapIsValid h
      → (h' : Heap C) × (notify a (deliver w (h.entries a)) h ≡ some h')
        × HeapIsValid h'
        × Extends h h'
  notify-valid a w h l r v = elim (Option-cases (h.entries a).wait_for) [
    | inl e ↦ (
      write a (deliver w (h.entries a)) h,
      notify_unawaited a w h e,
      write-HeapIsValid a _ h (deliver_unawaited w _ (v.valid a l) r e)
          (deliver-wait_for w (h.entries a)) v,
      record {
        grows = omega arith;
        more_chans = omega arith;
        same_round = λ b m. ground (arith, deliver-round w (h.entries a));
        stays_closed = λ c m f. f;
        waited = λ b c m n f. ground arith;
      },
    )
    | inr (ch, e) ↦ (
      _,
      notify_waiting a ch w h l r e v,
      close-HeapIsValid a ch _ h (deliver_awaited w _ (v.valid a l) r) l e refl v,
      record {
        grows = omega arith;
        more_chans = omega arith;
        same_round = λ b m. ground (arith, deliver-round w (h.entries a));
        stays_closed = λ c m f. ground arith;
        waited = λ b c m n f. ground arith;
      },
    )
  ]
