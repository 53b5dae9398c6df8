-- ===== src/Algod/Total/Calls.antt =====
-- The calls of a node's client end, and leave the cache alone.
use algo_vnode.Prelude.{
  ℕ, ◌≡◌, ◌≢◌, refl, ◌∙◌, ap, subst, inl, inr, List, Option, none, some, GoError, arith,
  Option-cases, List-cases,
}
use algo_vnode.Algod.Client.{Reply, reply, refused, Call, attempt, call, call_ctx, ten_seconds}
use algo_vnode.Algod.Float.{Float}
use algo_vnode.Algod.Progress.{call_returns}
use algo_vnode.Algod.State.{Cluster}
use algo_vnode.BlockCache.Lru.{Lru}
use algo_vnode.Utils.Backoff.{Attempt, Ends, succeeded, BackoffEnds, backoff_outcome}
use algo_vnode.Utils.Backoff.Keeps.{backoff-Keeps, ResultKeeps}

module _ (fl : Float) (lru : Lru) {C A B : Type 0}
    (on_error : GoError → Cluster fl lru C → Attempt × Cluster fl lru C)
    (on_reply : A → ℕ → Cluster fl lru C → (Attempt × Cluster fl lru C) × Option B) where
  -- An attempt that succeeds has an answer, and none touches the cache.
  pub record IsCall : Type 0 where
    pub error_fails : (e : GoError) (gs : Cluster fl lru C) → (on_error e gs).0.err ≢ none
    pub error_keeps : (e : GoError) (gs : Cluster fl lru C) → (on_error e gs).1.ucache ≡ gs.ucache
    pub reply_got :
        (x : A) (us : ℕ) (gs : Cluster fl lru C)
        → (on_reply x us gs).0.0.err ≡ none
        → (on_reply x us gs).1 ≢ none
    pub reply_keeps :
        (x : A) (us : ℕ) (gs : Cluster fl lru C) → (on_reply x us gs).0.1.ucache ≡ gs.ucache

  attempt_keeps :
      IsCall
      → (u : _) (timeout : ℕ) (s : Call fl lru C A B) → s.gs.ucache ≡ u
      → (attempt fl lru on_error on_reply timeout s).1.gs.ucache ≡ u
  unfolding attempt
  attempt_keeps c u timeout s p = elim (List-cases s.replies) [
    | inl e ↦ rw (e, attempt) p
    | inr (refused x, rest, e) ↦ rw (e, attempt) (c.error_keeps x s.gs ∙ p)
    | inr (reply x us, rest, e) ↦ rw (e, attempt) (c.reply_keeps x us s.gs ∙ p)
  ]

  attempt_got :
      IsCall
      → (timeout : ℕ) (s : Call fl lru C A B)
      → (attempt fl lru on_error on_reply timeout s).0.err ≡ none
      → (attempt fl lru on_error on_reply timeout s).1.got ≢ none
  unfolding attempt
  attempt_got c timeout s = elim (List-cases s.replies) [
    | inl e ↦ rw (e, attempt) (λ n. absurd (ground arith))
    | inr (refused x, rest, e) ↦ rw (e, attempt) (λ n. absurd (c.error_fails x s.gs n))
    | inr (reply x us, rest, e) ↦ rw (e, attempt) (c.reply_got x us s.gs)
  ]

  -- A call ends with an error, or with an answer.
  pub call_ends :
      IsCall
      → (tries : ℕ) (gs : Cluster fl lru C) (replies : List (Reply A))
      → (e : Option GoError) × (s : Call fl lru C A B) × (call fl lru on_error on_reply tries gs
            replies
          ≡ some (e, s))
        × (s.gs.ucache ≡ gs.ucache)
        × (e ≡ none → s.got ≢ none)
  unfolding call
  call_ends c tries gs replies =
      elim (Option-cases (call fl lru on_error on_reply tries gs replies)) [
        | inl n ↦ absurd (call_returns fl lru on_error on_reply tries gs replies n)
        | inr ((e, s), q) ↦ (
          e,
          s,
          q,
          subst (ResultKeeps (λ s. s.gs.ucache ≡ gs.ucache)) q kept,
          ended e s (subst (BackoffEnds fn (call_ctx fl lru) (λ wait s. s) ten_seconds) q outcome),
        )
      ]
    where
      fn : ℕ → Call fl lru C A B → Attempt × Call fl lru C A B
      fn = attempt fl lru on_error on_reply

      start : Call fl lru C A B
      start = record { gs = gs; replies = replies; got = none }

      kept :
          ResultKeeps
            (λ s. s.gs.ucache ≡ gs.ucache)
            (call fl lru on_error on_reply tries gs replies)
      kept =
          backoff-Keeps fn (call_ctx fl lru) (λ wait s. s) (λ s. s.gs.ucache ≡ gs.ucache)
            (attempt_keeps c gs.ucache) (λ wait s p. p) _ _ _ _ _ start refl

      outcome :
          BackoffEnds fn
            (call_ctx fl lru)
            (λ wait s. s)
            ten_seconds
            (call fl lru on_error on_reply tries gs replies)
      outcome = backoff_outcome fn (call_ctx fl lru) (λ wait s. s) _ _ _ _ _ start

      ended :
          (e : Option GoError) (s : Call fl lru C A B)
          → Ends fn (call_ctx fl lru) (λ wait s. s) ten_seconds e s
          → e ≡ none
          → s.got ≢ none
      ended (some x) s p n = absurd (ground arith)
      ended none s (succeeded t a k f n) m =
          λ g. attempt_got c ten_seconds t (ap (λ x. x.0.err) f ∙ n) (ap (λ x. x.1.got) f ∙ g)
