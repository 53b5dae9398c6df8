-- ===== src/Utils/Backoff.antt =====
-- `Backoff` of internal/utils/utils.go: the loop behind every call of a node. What it calls is a
-- parameter, over a state `S` of the world: the attempt itself, which is given its timeout, the
-- error of the context, and a wait, which the end of the context cuts short.
pub mod Waits
pub mod Keeps
use algo_vnode.Prelude.{
  ℕ, zero, suc, ◌+◌, ◌*◌, ◌%◌, ◌^◌, ◌≤◌, ◌<◌, ◌≡◌, ◌≢◌, ◌⊎◌, inl, inr, refl, sym, subst, min, ap,
  ◌∙◌, Bool, true, false, Bool-cases, Option, Option-cases, none, some, arith, ltb, leb, ◌==◌,
  if◌then◌else◌, sub64, u64_mod, ltb_int64, GoError, message,
}

-- The `fatal` and `err` that an attempt returns.
pub record Attempt : Type 0 where
  pub fatal : Bool
  pub err : Option GoError

-- The next value of `wait`. A `time.Duration` is an `int64`, as its bit pattern.
pub next_wait : ℕ → ℕ → ℕ
next_wait maxwait wait =
    let doubled = (wait * 2) % u64_mod in
    if ltb_int64 0 wait
    then (if ltb_int64 0 maxwait
        then (if ltb_int64 maxwait doubled then maxwait else doubled)
        else wait)
    else wait

module _ {S : Type 0} (fn : ℕ → S → Attempt × S) (ctx_err : S → Option GoError)
    (sleep : ℕ → S → S) where
  -- One turn of the loop, up to the next one: a result, or the state in which the loop goes on.
  -- `tries` is an `int64`, as its bit pattern.
  pub data Turn : Type 0 where
    stop : Option GoError → S → Turn
    again : S → Turn

  unfoldable pub turn : ℕ → ℕ → ℕ → S → Turn
  turn timeout wait tries s = elim (ctx_err s) [
    | some e ↦ stop (some e) s
    | none ↦
        let (a, s') = fn timeout s in
        elim a.err [
          | none ↦ stop none s'
          | some e ↦
              if a.fatal
              then stop (some e) s'
              else (if sub64 tries 1 == 0
                  then stop (some (message "Backoff limit reached")) s'
                  else again (if ltb 0 wait then sleep wait s' else s'))
        ]
  ]

  -- `Backoff`, with fuel for the turns of its loop; `none` means that the fuel ran out.
  unfoldable pub backoff : ℕ → ℕ → ℕ → ℕ → ℕ → S → Option (Option GoError × S)
  unfolding turn next_wait
  backoff zero timeout wait maxwait tries s = none
  backoff (suc fuel) timeout wait maxwait tries s = elim (turn timeout wait tries s) [
    | stop err s' ↦ some (err, s')
    | again s' ↦ backoff fuel timeout (next_wait maxwait wait) maxwait (sub64 tries 1) s'
  ]

  pub Turn-cases :
      (t : Turn) → ((e : Option GoError) × (s : S) × (t ≡ stop e s)) ⊎ ((s : S) × (t ≡ again s))
  Turn-cases (stop e s) = inl (e, s, refl)
  Turn-cases (again s) = inr (s, refl)

  -- The last try is not followed by another turn.
  turn_last : (timeout wait : ℕ) (s s' : S) → turn timeout wait 1 s ≢ again s'
  unfolding turn
  turn_last timeout wait s s' = λ e. ground arith

  backoff_returns :
      (tries timeout wait maxwait : ℕ) (s : S)
      → 0 < tries
      → tries < u64_mod
      → backoff tries timeout wait maxwait tries s ≢ none
  unfolding backoff
  backoff_returns zero timeout wait maxwait s p l = absurd (omega arith)
  backoff_returns (suc zero) timeout wait maxwait s p l =
      elim (Turn-cases (turn timeout wait 1 s)) [
        | inl (e, s', q) ↦ λ n. ground arith
        | inr (s', q) ↦ absurd (turn_last timeout wait s s' q)
      ]
  backoff_returns (suc (suc n)) timeout wait maxwait s p l =
      elim (Turn-cases (turn timeout wait (suc (suc n)) s)) [
        | inl (e, s', q) ↦ λ m. ground arith
        | inr (s', q) ↦
            let rest =
              backoff_returns (suc n) timeout (next_wait maxwait wait) maxwait s' (omega arith)
                (omega arith) in
            let one : sub64 (suc (suc n)) 1 ≡ suc n = omega arith in
            rw (q, backoff)
              (subst (λ t. backoff (suc n) timeout (next_wait maxwait wait) maxwait t s' ≢ none)
                (sym one) rest)
      ]

  -- How the loop can end: the context has ended, an attempt has succeeded, an attempt has failed
  -- for good, or an attempt has failed and the limit is reached.
  pub data Ends (timeout : ℕ) : Option GoError → S → Type 0 where
    ended : {s : S} (e : GoError) → ctx_err s ≡ some e → Ends timeout (some e) s
    succeeded :
        {s' : S} (s : S) (a : Attempt)
        → ctx_err s ≡ none
        → fn timeout s ≡ (a, s')
        → a.err ≡ none
        → Ends timeout none s'
    failed :
        {s' : S} (s : S) (a : Attempt) (e : GoError)
        → ctx_err s ≡ none
        → fn timeout s ≡ (a, s')
        → a.err ≡ some e
        → a.fatal ≡ true
        → Ends timeout (some e) s'
    limited :
        {s' : S} (s : S) (a : Attempt) (e : GoError)
        → ctx_err s ≡ none
        → fn timeout s ≡ (a, s')
        → a.err ≡ some e
        → a.fatal ≡ false
        → Ends timeout (some (message "Backoff limit reached")) s'

  abbrev TurnEnds : ℕ → Turn → Type 0
  TurnEnds timeout (stop e s) = Ends timeout e s
  TurnEnds timeout (again s) = Unit {0}

  turn-Ends : (timeout wait tries : ℕ) (s : S) → TurnEnds timeout (turn timeout wait tries s)
  unfolding turn
  turn-Ends timeout wait tries s = elim (Option-cases (ctx_err s)) [
    | inr (c, q) ↦ rw (q, turn) (ended c q)
    | inl q ↦ elim (Option-cases (fn timeout s).0.err) [
      | inl r ↦ rw (q, r, turn) (succeeded s _ q refl r)
      | inr (x, r) ↦ elim (Bool-cases (fn timeout s).0.fatal) [
        | inl f ↦ rw (q, r, f, turn) (failed s _ x q refl r f)
        | inr f ↦ elim (Bool-cases (sub64 tries 1 == 0)) [
          | inl z ↦ rw (q, r, f, z, turn) (limited s _ x q refl r f)
          | inr z ↦ rw (q, r, f, z, turn) tt
        ]
      ]
    ]
  ]

  abbrev pub BackoffEnds : ℕ → Option (Option GoError × S) → Type 0
  BackoffEnds timeout none = Unit {0}
  BackoffEnds timeout (some (e, s)) = Ends timeout e s

  -- However much fuel there is, an end is one of the four.
  pub backoff_outcome :
      (fuel timeout wait maxwait tries : ℕ) (s : S)
      → BackoffEnds timeout (backoff fuel timeout wait maxwait tries s)
  unfolding backoff
  backoff_outcome zero timeout wait maxwait tries s = tt
  backoff_outcome (suc fuel) timeout wait maxwait tries s =
      elim (Turn-cases (turn timeout wait tries s)) [
        | inl (e, s', q) ↦
            rw (q, backoff) (subst (TurnEnds timeout) q (turn-Ends timeout wait tries s))
        | inr (s', q) ↦
            rw (q, backoff)
              (backoff_outcome fuel timeout (next_wait maxwait wait) maxwait (sub64 tries 1) s')
      ]

  -- With a positive limit of `tries` attempts the loop ends within that many turns, whatever the
  -- attempts return, and in one of four ways: with the error of the ended context, with nil right
  -- after an attempt that succeeded, with the error of an attempt that failed for good, or with the
  -- limit's error after an attempt that failed.
  pub backoff-Ends :
      (tries timeout wait maxwait : ℕ) (s : S)
      → 0 < tries
      → tries < u64_mod
      → (e : Option GoError) × (s' : S) × (backoff tries timeout wait maxwait tries s
          ≡ some (e, s'))
        × Ends timeout e s'
  backoff-Ends tries timeout wait maxwait s p l =
      elim (Option-cases (backoff tries timeout wait maxwait tries s)) [
        | inl q ↦ absurd (backoff_returns tries timeout wait maxwait s p l q)
        | inr ((e, s'), q) ↦ (
          e,
          s',
          q,
          subst (BackoffEnds timeout) q (backoff_outcome tries timeout wait maxwait tries s),
        )
      ]
