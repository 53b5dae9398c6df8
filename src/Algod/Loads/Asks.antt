-- ===== src/Algod/Loads/Asks.antt =====
-- The call of a node's client by `fetchBlockRaw` of internal/algod/node.go, as a call of `Backoff`.
use algo_vnode.Prelude.{
  ◌∷◌, ℕ, ◌≡◌, ◌≢◌, refl, ◌∙◌, ap, subst, List, Option, none, some, String, GoError, arith,
  Option-cases, List-cases, inl, inr, Result-cases, ok, All,
}
use algo_vnode.Algod.Client.{
  success, tenth_second, Reply, reply, refused, Call, attempt, ten_seconds, call, call_ctx, failure,
  is_fatal_api_error,
}
use algo_vnode.Algod.Float.{Float}
use algo_vnode.Algod.Loop.{decode_block, ask_block}
use algo_vnode.Algod.Node.{update_rtt}
use algo_vnode.Algod.Progress.{call_returns}
use algo_vnode.Algod.State.{Cluster}
use algo_vnode.BlockCache.Lru.{Lru}
use algo_vnode.BlockCache.Unified.{Unified}
use algo_vnode.BlockFetcher.Make.{Codec, make_block_wrap}
use algo_vnode.BlockFetcher.Wrap.{BlockWrap}
use algo_vnode.Utils.Backoff.{
  turn, stop, backoff, Attempt, Ends, succeeded, BackoffEnds, backoff_outcome,
}
use algo_vnode.Utils.Backoff.Keeps.{backoff-Keeps, ResultKeeps}

module _ {C : Type 0} (cd : Codec C) (now round : ℕ) where
  -- A block of the round that the program can encode, for every node.
  abbrev pub IsServed : C → List ℕ → Type 0
  IsServed block raw =
      (cd.round_of block ≡ round)
      × ((id : String) → (w : BlockWrap C) × (make_block_wrap cd now id block raw ≡ some (ok w)))

  -- A node that sends something that decodes sends such a block.
  abbrev pub Answers : Reply (List ℕ) → Type 0
  Answers (refused e) = Unit {0}
  Answers (reply raw us) = (block : C) → cd.decode raw ≡ ok block → IsServed block raw

  abbrev pub GotServed : Option (C × List ℕ) → Type 0
  GotServed none = Unit {0}
  GotServed (some (block, raw)) = IsServed block raw

  -- What the program makes of a block has its round and no error.
  pub make_block_wrap-ok :
      (id : String) (block : C) (raw : List ℕ) (w : BlockWrap C)
      → make_block_wrap cd now id block raw ≡ some (ok w)
      → (w.round ≡ cd.round_of block) × (w.error ≡ none)
  unfolding make_block_wrap
  make_block_wrap-ok id block raw w e = ground arith

module _ (fl : Float) (lru : Lru) {C : Type 0} (now i : ℕ) (cd : Codec C) (round : ℕ) where
  -- What goes on during the call of a client: the cache stays as it is, and what was got is a
  -- block of the round.
  pub record Asking (u : Unified lru C) (s : Call fl lru C (List ℕ) (C × List ℕ)) : Type 0 where
    pub untouched : s.gs.ucache ≡ u
    pub coming : All (Answers cd now round) s.replies
    pub served : GotServed cd now round s.got

  abbrev asks :
      ℕ → Call fl lru C (List ℕ) (C × List ℕ) → Attempt × Call fl lru C (List ℕ) (C × List ℕ)
  asks =
      attempt fl lru (λ e s. (failure (is_fatal_api_error e) e, s)) (decode_block fl lru now i cd)

  asks-Asking :
      (u : Unified lru C) (timeout : ℕ) (s : Call fl lru C (List ℕ) (C × List ℕ))
      → Asking u s
      → Asking u (asks timeout s).1
  unfolding attempt decode_block update_rtt
  asks-Asking u timeout s p = elim (List-cases s.replies) [
    | inl e ↦ rw (e, attempt) p
    | inr (refused x, rest, e) ↦
        let rest_served = (subst (All (Answers cd now round)) e p.coming).1 in
        rw (e, attempt)
          (record { untouched = p.untouched; coming = rest_served; served = p.served })
    | inr (reply x us, rest, e) ↦ elim (Result-cases (cd.decode x)) [
      | inl (y, f) ↦
          let all_served = subst (All (Answers cd now round)) e p.coming in
          rw (e, attempt)
            (rw (f, decode_block)
              (record { untouched = p.untouched; coming = all_served.1; served = tt }))
      | inr (block, f) ↦
          let all_served = subst (All (Answers cd now round)) e p.coming in
          rw (e, attempt)
            (rw (f, decode_block)
              (record {
                untouched = p.untouched;
                coming = all_served.1;
                served = all_served.0 block f;
              }))
    ]
  ]

  -- An attempt without an error has got a block.
  asks_got :
      (timeout : ℕ) (s : Call fl lru C (List ℕ) (C × List ℕ))
      → (asks timeout s).0.err ≡ none
      → (asks timeout s).1.got ≢ none
  unfolding attempt decode_block
  asks_got timeout s n = elim (List-cases s.replies) [
    | inl e ↦ absurd (ground arith)
    | inr (refused x, rest, e) ↦ absurd (ground arith)
    | inr (reply x us, rest, e) ↦ elim (Result-cases (cd.decode x)) [
      | inl (y, f) ↦ absurd (ground arith)
      | inr (block, f) ↦ ground arith
    ]
  ]

  -- A call ends with an error, or it has got a block.
  pub ask_block-Asking :
      (gs : Cluster fl lru C) (replies : List (Reply (List ℕ)))
      → All (Answers cd now round) replies
      → (e : Option GoError) × (s : Call fl lru C (List ℕ) (C × List ℕ)) × (ask_block fl lru now i
            cd gs replies
          ≡ some (e, s))
        × Asking gs.ucache s
        × (e ≡ none → s.got ≢ none)
  unfolding ask_block call
  ask_block-Asking gs replies answers = elim (Option-cases (ask_block fl lru now i cd gs replies)) [
    | inl n ↦ absurd (call_returns fl lru _ _ 10 gs replies n)
    | inr ((e, s), q) ↦ (
      e,
      s,
      q,
      subst (ResultKeeps (Asking gs.ucache)) q kept,
      ended e s (subst (BackoffEnds asks (call_ctx fl lru) (λ wait s. s) ten_seconds) q outcome),
    )
  ]
    where
      start : Call fl lru C (List ℕ) (C × List ℕ)
      start = record { gs = gs; replies = replies; got = none }

      kept : ResultKeeps (Asking gs.ucache) (ask_block fl lru now i cd gs replies)
      kept =
          backoff-Keeps asks (call_ctx fl lru) (λ wait s. s) (Asking gs.ucache)
            (asks-Asking gs.ucache) (λ wait s p. p) _ _ _ _ _ start
            (record { untouched = refl; coming = answers; served = tt })

      outcome :
          BackoffEnds asks
            (call_ctx fl lru)
            (λ wait s. s)
            ten_seconds
            (ask_block fl lru now i cd gs replies)
      outcome = backoff_outcome asks (call_ctx fl lru) (λ wait s. s) _ _ _ _ _ start

      ended :
          (e : Option GoError) (s : Call fl lru C (List ℕ) (C × List ℕ))
          → Ends asks (call_ctx fl lru) (λ wait s. s) ten_seconds e s
          → e ≡ none
          → s.got ≢ none
      ended (some x) s p n = absurd (ground arith)
      ended none s (succeeded t a c f n) m =
          λ g. asks_got ten_seconds t (ap (λ x. x.0.err) f ∙ n) (ap (λ x. x.1.got) f ∙ g)

  decode_block-ok :
      (raw : List ℕ) (us : ℕ) (block : C) (gs : Cluster fl lru C)
      → cd.decode raw ≡ ok block
      → decode_block fl lru now i cd raw us gs
        ≡ ((success, update_rtt fl lru now i us gs), some (block, raw))
  unfolding decode_block
  decode_block-ok raw us block gs e = rw (e, decode_block) refl

  asks_first :
      (raw : List ℕ) (us : ℕ) (rest : List (Reply (List ℕ))) (block : C) (gs : Cluster fl lru C)
      → cd.decode raw ≡ ok block
      → asks ten_seconds (record { gs = gs; replies = reply raw us ∷ rest; got = none }) ≡ (
        success,
        record { gs = update_rtt fl lru now i us gs; replies = rest; got = some (block, raw) },
      )
  unfolding attempt
  asks_first raw us rest block gs e = rw (decode_block-ok raw us block gs e, attempt) refl

  turn_first :
      (raw : List ℕ) (us : ℕ) (rest : List (Reply (List ℕ))) (block : C) (gs : Cluster fl lru C)
      → cd.decode raw ≡ ok block
      → turn asks
          (call_ctx fl lru)
          (λ wait s. s)
          ten_seconds
          tenth_second
          10
          (record { gs = gs; replies = reply raw us ∷ rest; got = none })
        ≡ stop none
            (record { gs = update_rtt fl lru now i us gs; replies = rest; got = some (block, raw) })
  unfolding turn call_ctx
  turn_first raw us rest block gs e =
      rw (asks_first raw us rest block gs e, turn)
        (ap (λ x. stop none x.1) (asks_first raw us rest block gs e))

  -- A first answer that decodes ends the call.
  pub ask_block_first :
      (raw : List ℕ) (us : ℕ) (rest : List (Reply (List ℕ))) (block : C) (gs : Cluster fl lru C)
      → cd.decode raw ≡ ok block
      → ask_block fl lru now i cd gs (reply raw us ∷ rest)
        ≡ some (
          none,
          record { gs = update_rtt fl lru now i us gs; replies = rest; got = some (block, raw) },
        )
  unfolding ask_block call backoff call_ctx
  ask_block_first raw us rest block gs e = rw (turned, backoff) refl
    where
      s : Call fl lru C (List ℕ) (C × List ℕ)
      s = record { gs = gs; replies = reply raw us ∷ rest; got = none }

      s' : Call fl lru C (List ℕ) (C × List ℕ)
      s' = record { gs = update_rtt fl lru now i us gs; replies = rest; got = some (block, raw) }

      turned :
          turn asks (call_ctx fl lru) (λ wait s. s) ten_seconds tenth_second 10 s ≡ stop none s'
      turned = turn_first raw us rest block gs e
