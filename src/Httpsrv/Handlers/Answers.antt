-- ===== src/Httpsrv/Handlers/Answers.antt =====
-- Which texts `parse_int` reads as rounds: `strconv.ParseInt` as handlers.go of internal/httpsrv uses it.
use algo_vnode.Prelude.{
  ℕ, zero, suc, ◌+◌, ◌-◌, ◌*◌, ◌/◌, ◌%◌, ◌^◌, ◌≤◌, ◌<◌, ◌≡◌, sym, subst, ap, ◌∙◌, inl, inr,
  Bool-cases, true, false, List, [], ◌∷◌, ◌++◌, some, arith, ltb, ◌==◌, if◌then◌else◌,
}
use algo_vnode.Httpsrv.Handlers.{parse_digits, parse_magnitude, parse_int}
use native.Mathlib.Nat.{pow-suc}

-- A round that a handler takes fits an `int64`.
pub parse_int-lt : (s : List ℕ) (n : ℕ) → parse_int s ≡ some n → n < 2 ^ 63
unfolding parse_int
parse_int-lt [] n e = absurd (ground arith)
parse_int-lt (c ∷ s) n e = ground arith

-- The decimal digits of a number, of which `fuel` are enough.
pub decimal : ℕ → ℕ → List ℕ
decimal zero n = []
decimal (suc fuel) n =
    let front = decimal fuel (n / 10) in
    if ltb n 10 then (n + b'0') ∷ [] else front ++ ((n % 10 + b'0') ∷ [])

parse_digits-append :
    (a c n : ℕ) (s : List ℕ)
    → parse_digits a s ≡ some n
    → b'0' ≤ c
    → c ≤ b'9'
    → parse_digits a (s ++ c ∷ []) ≡ some (n * 10 + (c - b'0'))
unfolding parse_digits
parse_digits-append a c n [] e l h = ground arith
parse_digits-append a c n (d ∷ s) e l h =
    ground (arith, parse_digits-append (a * 10 + (d - b'0')) c n s)

tenth-lt : (n fuel : ℕ) → n < 10 ^ suc fuel → n / 10 < 10 ^ fuel
tenth-lt n fuel h = let e = pow-suc 10 fuel in omega arith

parse_digits-decimal :
    (fuel n : ℕ) → n < 10 ^ fuel → 0 < fuel → parse_digits 0 (decimal fuel n) ≡ some n
unfolding decimal parse_digits
parse_digits-decimal zero n h p = absurd (omega arith)
parse_digits-decimal (suc fuel) n h p = elim (Bool-cases (ltb n 10)) [
  | inl small ↦ rw small (ground arith)
  | inr large ↦ rw large (
      parse_digits-append 0 (n % 10 + b'0') (n / 10) (decimal fuel (n / 10))
        (parse_digits-decimal fuel (n / 10) (tenth-lt n fuel h) (more fuel n h large)) (omega arith)
        (omega arith)
      ∙ ap some (omega arith))
]
  where
    more : (fuel n : ℕ) → n < 10 ^ suc fuel → ltb n 10 ≡ false → 0 < fuel
    more zero n h l = absurd (ground arith)
    more (suc fuel) n h l = omega arith

-- A decimal number starts with a digit.
decimal_head :
    (fuel n : ℕ)
    → n < 10 ^ suc fuel
    → (c : ℕ) × (s : List ℕ) × (decimal (suc fuel) n ≡ c ∷ s) × (b'0' ≤ c) × (c ≤ b'9')
unfolding decimal
decimal_head zero n h = (n + b'0', [], ground arith, omega arith, omega arith)
decimal_head (suc fuel) n h = elim (Bool-cases (ltb n 10)) [
  | inl small ↦ (n + b'0', [], rw small, omega arith, ground arith)
  | inr large ↦
      let (c, s, e, lo, hi) = decimal_head fuel (n / 10) (tenth-lt n (suc fuel) h) in
      (
        c,
        s ++ (n % 10 + b'0') ∷ [],
        rw large (ap (λ (l : List ℕ). l ++ (n % 10 + b'0') ∷ []) e),
        lo,
        hi,
      )
]

parse_int_digits :
    (c n : ℕ) (s : List ℕ)
    → b'0' ≤ c
    → c ≤ b'9'
    → n < 2 ^ 63
    → parse_digits 0 (c ∷ s) ≡ some n
    → parse_int (c ∷ s) ≡ some n
unfolding parse_int parse_magnitude
parse_int_digits c n s lo hi h e =
    let minus : (c == b'-') ≡ false = ground arith in
    let plus : (c == b'+') ≡ false = ground arith in
    let fits : ltb n (2 ^ 63) ≡ true = ground arith in ground (arith, e, minus, plus)

-- A number below 2^63, in decimal, is read back.
pub parse_int-decimal : (n : ℕ) → n < 2 ^ 63 → parse_int (decimal 19 n) ≡ some n
parse_int-decimal n h =
    let (c, s, e, lo, hi) = decimal_head 18 n (omega arith) in
    let p = parse_digits-decimal 19 n (omega arith) (omega arith) in
    subst (λ l. parse_int l ≡ some n) (sym e)
      (parse_int_digits c n s lo hi h (subst (λ l. parse_digits 0 l ≡ some n) e p))
