-- ===== src/Utils/Backoff/Keeps.antt =====
-- What `Backoff` of internal/utils/utils.go keeps of the state, and when it ends without a limit.
use algo_vnode.Prelude.{
  ℕ, zero, suc, ◌≤◌, ◌<◌, ◌≡◌, ◌≢◌, inl, inr, subst, Option, none, some, arith, sub64, GoError,
}
use algo_vnode.Utils.Backoff.{Attempt, Turn, Turn-cases, stop, again, turn, backoff, next_wait}
use native.Mathlib.Nat.{le_trans}

-- A property of the state at the end, if there is an end.
abbrev pub ResultKeeps : {S : Type 0} → (S → Type 0) → Option (Option GoError × S) → Type 0
ResultKeeps P none = Unit {0}
ResultKeeps P (some (e, s)) = P s

module _ {S : Type 0} (fn : ℕ → S → Attempt × S) (ctx_err : S → Option GoError)
    (sleep : ℕ → S → S) where
  abbrev TurnKeeps : (S → Type 0) → Turn fn ctx_err sleep → Type 0
  TurnKeeps P (stop e s) = P s
  TurnKeeps P (again s) = P s

  turn-Keeps :
      (P : S → Type 0)
      → ((timeout : ℕ) (s : S) → P s → P (fn timeout s).1)
      → ((wait : ℕ) (s : S) → P s → P (sleep wait s))
      → (timeout wait tries : ℕ) (s : S) → P s
      → TurnKeeps P (turn fn ctx_err sleep timeout wait tries s)
  unfolding turn
  turn-Keeps P keep rest timeout wait tries s p =
      ground (arith, keep timeout s, rest wait (fn timeout s).1)

  -- What every attempt and every wait keeps holds at the end.
  pub backoff-Keeps :
      (P : S → Type 0)
      → ((timeout : ℕ) (s : S) → P s → P (fn timeout s).1)
      → ((wait : ℕ) (s : S) → P s → P (sleep wait s))
      → (fuel timeout wait maxwait tries : ℕ) (s : S) → P s
      → ResultKeeps P (backoff fn ctx_err sleep fuel timeout wait maxwait tries s)
  unfolding backoff
  backoff-Keeps P keep rest zero timeout wait maxwait tries s p = tt
  backoff-Keeps P keep rest (suc fuel) timeout wait maxwait tries s p =
      elim (Turn-cases fn ctx_err sleep (turn fn ctx_err sleep timeout wait tries s)) [
        | inl (e, s', q) ↦
            rw (q, backoff) (subst (TurnKeeps P) q (turn-Keeps P keep rest timeout wait tries s p))
        | inr (s', q) ↦
            rw (q, backoff)
              (backoff-Keeps P keep rest fuel timeout (next_wait maxwait wait) maxwait
                (sub64 tries 1) s'
                (subst (TurnKeeps P) q (turn-Keeps P keep rest timeout wait tries s p)))
      ]

  again_less :
      (m : S → ℕ)
      → ((timeout : ℕ) (s : S) → ctx_err s ≡ none → m (fn timeout s).1 < m s)
      → ((wait : ℕ) (s : S) → m (sleep wait s) ≤ m s)
      → (timeout wait tries : ℕ) (s s' : S) → turn fn ctx_err sleep timeout wait tries s ≡ again s'
      → m s' < m s
  unfolding turn
  again_less m less rest timeout wait tries s s' q =
      ground (arith, less timeout s, rest wait (fn timeout s).1)

  -- The loop ends, with a limit or without one, if each attempt before the end of the context lowers
  -- a measure that no wait raises, and the fuel is larger than the measure at the start.
  pub backoff_ends_by :
      (m : S → ℕ)
      → ((timeout : ℕ) (s : S) → ctx_err s ≡ none → m (fn timeout s).1 < m s)
      → ((wait : ℕ) (s : S) → m (sleep wait s) ≤ m s)
      → (fuel timeout wait maxwait tries : ℕ) (s : S) → m s < fuel
      → backoff fn ctx_err sleep fuel timeout wait maxwait tries s ≢ none
  unfolding backoff
  backoff_ends_by m less rest zero timeout wait maxwait tries s h = absurd (omega arith)
  backoff_ends_by m less rest (suc fuel) timeout wait maxwait tries s h =
      elim (Turn-cases fn ctx_err sleep (turn fn ctx_err sleep timeout wait tries s)) [
        | inl (e, s', q) ↦ λ n. ground arith
        | inr (s', q) ↦
            rw (q, backoff)
              (backoff_ends_by m less rest fuel timeout (next_wait maxwait wait) maxwait
                (sub64 tries 1) s'
                (le_trans (again_less m less rest timeout wait tries s s' q) (omega arith)))
      ]
