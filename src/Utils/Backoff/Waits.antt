-- ===== src/Utils/Backoff/Waits.antt =====
-- The waits of `Backoff` of internal/utils/utils.go between its attempts.
use algo_vnode.Prelude.{
  ℕ, zero, suc, ◌*◌, ◌^◌, ◌≤◌, ◌<◌, ◌≡◌, inl, inr, min, ap, ◌∙◌, Bool-cases, arith, leb,
}
use algo_vnode.Utils.Backoff.{next_wait}
use native.Mathlib.Nat.{pow-suc}

-- The wait before the turn that follows `n` failures.
pub wait_after : ℕ → ℕ → ℕ → ℕ
wait_after maxwait zero wait = wait
wait_after maxwait (suc n) wait = wait_after maxwait n (next_wait maxwait wait)

next_wait-eq :
    (maxwait wait : ℕ)
    → 0 < wait
    → wait ≤ maxwait
    → maxwait < 2 ^ 62
    → next_wait maxwait wait ≡ min (wait * 2) maxwait
unfolding next_wait
next_wait-eq maxwait wait p l h = ground arith

two_pow_pos : (n : ℕ) → 1 ≤ 2 ^ n
two_pow_pos zero = omega arith
two_pow_pos (suc n) = rw pow-suc (omega (arith, two_pow_pos n))

min_mul : (a b m : ℕ) → 1 ≤ m → min (min a b * m) b ≡ min (a * m) b
min_mul a b m h = elim (Bool-cases (leb a b)) [
  | inl p ↦ let e : min a b ≡ a = ground arith in rw e
  | inr p ↦
      let e : min a b ≡ b = ground arith in
      let f : b ≤ b * m = grind arith in let g : a ≤ a * m = grind arith in rw e (ground arith)
]

-- From a positive wait that is no longer than the largest one, where that is below 2^62 nanoseconds,
-- the wait doubles with every failure, up to the largest one, and never wraps.
pub wait_after-eq :
    (maxwait n wait : ℕ)
    → 0 < wait
    → wait ≤ maxwait
    → maxwait < 2 ^ 62
    → wait_after maxwait n wait ≡ min (wait * 2 ^ n) maxwait
unfolding wait_after
wait_after-eq maxwait zero wait p l h = omega arith
wait_after-eq maxwait (suc n) wait p l h = rw (next_wait-eq maxwait wait p l h) (
    wait_after-eq maxwait n (min (wait * 2) maxwait) (ground arith) (ground arith) h
    ∙ min_mul (wait * 2) maxwait (2 ^ n) (two_pow_pos n)
    ∙ ap (λ (t : ℕ). min t maxwait) (rw pow-suc (grind arith)))
